-- ===== src/Midi.antt =====
-- source/DecoderMidiImplementation.cpp: TinySoundFont and its loader of MIDI files, which are
-- parameters. A pointer into the list of messages is the list from there on; null is []. Frame
-- indexes and numbers of frames are not negative.
mod Names
mod Seek
mod Concert
mod Play
mod Tests
use nfdecoder.Base.{
  ℕ, zero, suc, ◌+◌, ◌-◌, ◌*◌, ◌%◌, ◌^◌, ◌/◌, ◌==◌, ltb, leb, min, if◌then◌else◌, Bool, true, false,
  ◌||◌, Option, none, some, List, [], ◌∷◌, ◌++◌, take, drop, length, replicate,
}
use nfdecoder.Base.Event.{Event, error, done}
use nfdecoder.Base.Frames.{Decoded}
use nfdecoder.Base.Run.{Run, ret, fault, unfinished, ◌>>=◌}
use nfdecoder.Base.Text.{Text, codes, find?}

abbrev pub domain : Text
domain = codes "com.nativeformat.decoder.midi"

-- `ErrorCodeLoadMIDIFailure`
abbrev pub load_midi_failure : ℕ
load_midi_failure = 0

-- `ErrorCodeLoadSoundFontFailure`
abbrev pub load_sound_font_failure : ℕ
load_sound_font_failure = 1

abbrev pub midi_prefix : Text
midi_prefix = codes "midi:"

abbrev pub soundfont_prefix : Text
soundfont_prefix = codes ":soundfont:"

-- The range constructors of the two paths, the MIDI file's and the sound font's. A prefix that is
-- not there, or a range that ends before it begins, is undefined.
unfoldable pub between : Text → ℕ → Option ℕ → Run (Text × Text)
between path i none = fault
between path i (some j) =
    let start = i + length midi_prefix in
    if ltb j start
    then fault
    else ret (take (j - start) (drop start path), drop (j + length soundfont_prefix) path)

unfoldable pub paths : Text → Run (Text × Text)
unfolding between
paths path = elim (find? midi_prefix path) [
  | none ↦ fault
  | some i ↦ between path i (find? soundfont_prefix path)
]

-- The values of `TMLMessageType` that the code names, and the others.
pub data MessageType : Type 0 where
  note_off note_on key_pressure control_change program_change channel_pressure pitch_bend other :
      MessageType

-- The fields share storage in the library: each can be read whatever the type.
pub record Message : Type 0 where
  pub time : ℕ
  pub type : MessageType
  pub channel : ℕ
  pub key : ℕ
  pub velocity : ℕ
  pub control : ℕ
  pub control_value : ℕ
  pub program : ℕ
  pub pitch : ℕ

-- The library, and the arithmetic on doubles: `loudness` divides a velocity by 127, `at_frame` is
-- the time of a frame in milliseconds, `later` adds that of some frames, `is_due` is `time_ms >=
-- time`, and `frames_at` is the number of frames before a time.
pub record TinySoundFont (Float : Type 0) : Type 1 where
  pub Font : Type 0
  pub load_midi_filename : Text → List Message
  pub load_font_filename : Text → Option Font
  pub set_output : Font → ℕ → Font
  pub channel_note_off : Font → ℕ → ℕ → Font
  pub channel_note_on : Font → ℕ → ℕ → Float → Font
  pub channel_midi_control : Font → ℕ → ℕ → ℕ → Font
  pub channel_set_presetnumber : Font → ℕ → ℕ → Bool → Font
  pub channel_set_pitchwheel : Font → ℕ → ℕ → Font
  pub render_float : Font → ℕ → List Float × Font
  pub silence : Float
  pub loudness : ℕ → Float
  pub Time : Type 0
  pub at_frame : ℕ → Time
  pub later : Time → ℕ → Time
  pub is_due : Time → ℕ → Bool
  pub frames_at : ℕ → ℕ

-- `_samplerate`
abbrev pub samplerate : ℕ
samplerate = 44100

module _ {Float : Type 0} (lib : TinySoundFont Float) where
  open lib use {Font, Time}

  pub record Midi : Type 0 where
    pub midi_path : Text
    pub soundfont_path : Text
    pub midi_head : List Message
    pub midi_stream : List Message
    pub soundfont : Option Font
    pub channels : ℕ
    pub frame_index : ℕ
    pub frames : ℕ

  -- The pointers are null; the code leaves them unset until `load`.
  unfoldable pub create : Text → Run Midi
  unfolding paths
  create path = paths path >>= λ names. ret (record {
    midi_path = names.0;
    soundfont_path = names.1;
    midi_head = [];
    midi_stream = [];
    soundfont = none;
    channels = 2;
    frame_index = 0;
    frames = 0;
  })

  -- The last message's time, for a message and those behind it.
  unfoldable pub last_time : Message → List Message → ℕ
  last_time m [] = m.time
  last_time m (n ∷ ns) = last_time n ns

  -- The loop of `seek`, from the message `m` on: `m` is played next unless none follows it.
  unfoldable pub skip : ℕ → Message → List Message → List Message
  skip desired_time m [] = []
  skip desired_time m (n ∷ ns) =
      let rest = skip desired_time n ns in if ltb n.time desired_time then rest else m ∷ n ∷ ns

  -- `seek` from a message of the stream. A null stream has no `next`.
  unfoldable pub seek_from : Midi → ℕ → List Message → Run Midi
  unfolding skip
  seek_from d index [] = fault
  seek_from d index (m ∷ ms) =
      ret (record d { midi_stream = skip (index / samplerate) m ms; frame_index = index })

  -- `desired_time` is a number of seconds.
  unfoldable pub seek : Midi → ℕ → Run Midi
  unfolding seek_from
  seek d index =
      if index == d.frame_index
      then ret d
      else seek_from d index (
          if ltb index d.frame_index || ltb index (index / samplerate)
          then d.midi_head
          else d.midi_stream)

  -- `load` from the messages of the file on. Without any the code calls the callbacks with a
  -- failure and goes on with a null pointer; a font that is null is used before it is looked at.
  unfoldable pub load_from : Midi → List Message → Option Font → Run (List (Event Bool) × Midi)
  unfolding seek last_time
  load_from d [] font = fault
  load_from d (m ∷ ms) none = fault
  load_from d (m ∷ ms) (some f) =
      seek
        (record d {
          midi_head = m ∷ ms;
          midi_stream = m ∷ ms;
          frames = lib.frames_at (last_time m ms);
          soundfont = some (lib.set_output f samplerate);
        })
        0
      >>= λ d'. ret (done true ∷ [], d')

  -- The calls of the callbacks, in order, and the decoder after them.
  unfoldable pub load : Midi → Run (List (Event Bool) × Midi)
  unfolding load_from
  load d =
      load_from d (lib.load_midi_filename d.midi_path) (lib.load_font_filename d.soundfont_path)

  -- The `switch`. A pressure on a channel falls through to the pitch wheel.
  unfoldable pub apply : Font → Message → MessageType → Font
  apply f m note_off = lib.channel_note_off f m.channel m.key
  apply f m note_on = lib.channel_note_on f m.channel m.key (lib.loudness m.velocity)
  apply f m key_pressure = f
  apply f m control_change = lib.channel_midi_control f m.channel m.control m.control_value
  apply f m program_change = lib.channel_set_presetnumber f m.channel m.program (m.channel == 9)
  apply f m channel_pressure = lib.channel_set_pitchwheel f m.channel m.pitch
  apply f m pitch_bend = lib.channel_set_pitchwheel f m.channel m.pitch
  apply f m other = f

  -- The inner loop: the messages that are due.
  unfoldable pub play : Time → List Message → Font → List Message × Font
  unfolding apply
  play time [] f = ([], f)
  play time (m ∷ ms) f =
      let rest = play time ms (apply f m m.type) in
      if lib.is_due time m.time then rest else (m ∷ ms, f)

  -- A write of some values into the output, at an index; past its end it is undefined.
  unfoldable pub write : List Float → ℕ → List Float → Run (List Float)
  write output index xs =
      if ltb (length output) (index + length xs)
      then fault
      else ret (take index output ++ xs ++ drop (index + length xs) output)

  -- The outer loop, one block for each unit of fuel.
  unfoldable pub blocks :
      ℕ → ℕ → ℕ → ℕ → Time → List Message → Font → ℕ → List Float → Run (List Float × Font)
  unfolding play write
  blocks zero channels block left time ms f index output =
      if left == 0 then ret (output, f) else unfinished
  blocks (suc fuel) channels block left time ms f index output =
      let block' = min block left in
      let time' = lib.later time block' in
      let (ms', f') = play time' ms f in
      let (rendered, f'') = lib.render_float f' block' in
      let rest = write output index rendered >>= λ written.
      blocks fuel channels block' (left - block') time' ms' f'' (index + block' * channels)
        written in
      if left == 0 then ret (output, f) else rest

  -- What `run_thread` does: its call of the callback, and the decoder after it. `frames_left` is an
  -- `int`: it is of the frames modulo 2^32, and to render a negative number of frames is taken as
  -- undefined.
  unfoldable pub run_thread : ℕ → Midi → Option Font → Run (Decoded Float × Midi)
  unfolding blocks
  run_thread frames d font =
      let nothing =
        ret (record { frame_index = d.frame_index; frame_count = 0; samples = [] }, d) in
      let frames_left = frames % 2 ^ 32 in
      let render : Font → Run (Decoded Float × Midi) = λ f.
        blocks frames_left d.channels 64 frames_left (lib.at_frame d.frame_index) d.midi_stream f 0
          (replicate (frames * d.channels) lib.silence)
        >>= λ r. ret (
          record { frame_index = d.frame_index; frame_count = frames; samples = r.0 },
          record d { soundfont = some r.1 },
        ) in
      if frames == 0 || d.channels == 0 then nothing else elim font [
        | none ↦ fault
        | some f ↦ if ltb frames_left (2 ^ 31) then render f else fault
      ]

  -- The call before it where there is no stream: the code does not return behind it.
  unfoldable pub at_end : Midi → List Message → List (Decoded Float)
  at_end d [] = record { frame_index = d.frame_index; frame_count = 0; samples = [] } ∷ []
  at_end d (m ∷ ms) = []

  unfoldable pub decode : ℕ → Midi → Run (List (Decoded Float) × Midi)
  unfolding run_thread at_end
  decode frames d =
      run_thread frames d d.soundfont >>= λ r. ret (at_end d d.midi_stream ++ r.0 ∷ [], r.1)

  unfoldable pub eof : List Message → Bool
  eof [] = true
  eof (m ∷ ms) = false
