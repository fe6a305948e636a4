-- ===== src/Ogg/Opus.antt =====
-- source/DecoderOpusImplementation.cpp: libopusfile, which is a parameter together with the data
-- provider that it reads. A mutex makes each operation one step. Frame indexes and numbers of
-- frames are not negative.
pub mod Served
pub mod Whole
use nfdecoder.Base.{
  ℕ, zero, suc, ◌+◌, ◌-◌, ◌*◌, ◌%◌, ◌^◌, ◌==◌, ltb, leb, if◌then◌else◌, Bool, true, false, ◌||◌,
  Option, none, some, List, [], ◌∷◌, ◌++◌, length,
}
use nfdecoder.Base.Frames.{Decoded, interleave}
use nfdecoder.Base.Int.{ℤ, pos, negsuc, failed, is_negative, min_ℤ, code_of}
use nfdecoder.Base.Text.{Text, codes}
use nfdecoder.Base.Event.{Event, error, done}
use nfdecoder.Base.Run.{Run, ret, fault, unfinished, ◌>>=◌}

abbrev pub domain : Text
domain = codes "com.nativeformat.decoder.opus"

-- `ErrorCodeCouldNotDecode`
abbrev pub could_not_decode : ℕ
could_not_decode = 1

-- What `op_read_float` reports: a number of samples for each channel and the section that they are
-- from, `OP_HOLE`, or 0 and the other negative codes.
pub data Packet (F : Type 0) : Type 0 where
  frames : ℕ → ℕ → (ℕ → ℕ → F) → Packet F
  hole : Packet F
  stop : Packet F

-- libopusfile; a code of `pos 0` is success. Without a section, `op_channel_count` is called with
-- -1. `read_float` is given the number of values that its buffer has room for.
pub record Libopusfile (Float : Type 0) : Type 1 where
  pub Source : Type 0
  pub File : Type 0
  pub test_callbacks : Source → ℤ × Option File × Source
  pub test_open : File → ℤ × File
  pub open_callbacks : Source → ℤ × Option File × Source
  pub set_read_size : File → ℕ → File
  pub current_channel_count : File → ℤ
  pub channel_count : File → ℕ → ℕ
  pub pcm_total : File → ℤ
  pub pcm_seek : File → ℕ → ℤ × File
  -- The number is an `int`, to which the code narrows a `long`: it is one that fits.
  pub read_float : File → ℕ → Packet Float × File

-- `OPUS_READ_SIZE`
abbrev pub opus_read_size : ℕ
opus_read_size = 32768

module _ {Float : Type 0} (lib : Libopusfile Float) where
  open lib use {
    Source, File, test_callbacks, test_open, open_callbacks, set_read_size, current_channel_count,
    channel_count, pcm_total, pcm_seek, read_float,
  }

  -- `source` is the data provider while no file is open.
  pub record Opus : Type 0 where
    pub source : Source
    pub file : Option File
    pub channels : ℤ
    pub samplerate : ℕ
    pub total_frames : ℤ
    pub frame_index : ℕ

  pub create : Source → Opus
  create source = record {
    source = source;
    file = none;
    channels = pos 0;
    samplerate = 0;
    total_frames = pos 0;
    frame_index = 0;
  }

  -- `checkCodec` once the file has been tested without an error; a null file is not opened.
  unfoldable pub open_tested : Opus → Option File → Run (Bool × Opus)
  open_tested d none = fault
  open_tested d (some f) =
      let (code, g) = test_open f in
      ret (
        if failed code
        then (false, record d { file = some g })
        else (true, record d { file = some (set_read_size g opus_read_size) }))

  unfoldable pub check_codec : Opus → Run (Bool × Opus)
  unfolding open_tested
  check_codec d =
      let (code, file', source') = test_callbacks d.source in
      if failed code
      then ret (false, record d { file = file'; source = source' })
      else open_tested (record d { source = source' }) file'

  -- `load` of an open file. It goes on after the report on a negative count.
  unfoldable pub read_info : Opus → File → List (Event Bool) × Opus
  read_info d f =
      let d' = record d {
        file = some f;
        channels = current_channel_count f;
        samplerate = 48000;
        total_frames = pcm_total f;
      } in
      if is_negative (current_channel_count f) || is_negative (pcm_total f)
      then (
        error domain (code_of (min_ℤ (current_channel_count f) (pcm_total f)))
            ∷ done false
            ∷ done true
            ∷ [],
        d',
      )
      else (done true ∷ [], d')

  unfoldable pub read_opened : Opus → Option File → Run (List (Event Bool) × Opus)
  unfolding read_info
  read_opened d none = fault
  read_opened d (some f) = ret (read_info d (set_read_size f opus_read_size))

  unfoldable pub open_file : Opus → Run (List (Event Bool) × Opus)
  unfolding read_opened read_info
  open_file d =
      let (code, file', source') = open_callbacks d.source in
      if failed code
      then ret (
        error domain could_not_decode ∷ done false ∷ [],
        record d { file = file'; source = source' },
      )
      else read_opened (record d { source = source' }) file'

  -- The calls of the callbacks, in order, and the decoder after them.
  unfoldable pub load : Opus → Run (List (Event Bool) × Opus)
  unfolding open_file read_info
  load d = elim d.file [ none ↦ open_file d | some f ↦ ret (read_info d f) ]

  -- On a null file the library's functions are undefined.
  unfoldable pub seek : Opus → ℕ → Run (File × Opus)
  seek d index = elim d.file [
    | none ↦ fault
    | some f ↦
        let (code, g) = pcm_seek f index in
        ret (
          g,
          if failed code
              then record d { file = some g }
              else record d { file = some g; frame_index = index },
        )
  ]

  -- The file and the channels that the loop of `decode` works on.
  pub record Loop : Type 0 where
    pub file : File
    pub channels : ℕ

  abbrev pub Result : Type 0
  Result = Run (ℕ × List Float × Loop)

  -- One round of the loop, before the next one. `room` is the number of floats that the buffer has
  -- room for; it is made larger, after the read, when a section has more channels than the last.
  unfoldable pub on_packet :
      ℕ → ℕ → Loop → ℕ → List Float → Packet Float → (ℕ → Loop → ℕ → List Float → Result) → Result
  on_packet wanted room l n out stop next = ret (n, out, l)
  on_packet wanted room l n out hole next = next room l n out
  on_packet wanted room l n out (frames k section samples) next =
      let c = channel_count l.file section in
      if k == 0
      then ret (n, out, l)
      else if ltb room (length out + k * c)
      then fault
      else next (if ltb l.channels c then wanted * c else room) (record l { channels = c }) (n + k)
          (out ++ interleave samples c 0 k)

  -- The loop, one call of the library for each unit of fuel, after `n` frames.
  unfoldable pub read_frames : ℕ → ℕ → ℕ → Loop → ℕ → List Float → Result
  unfolding on_packet
  read_frames zero wanted room l n out = if ltb n wanted then unfinished else ret (n, out, l)
  read_frames (suc fuel) wanted room l n out =
      let (packet, f) = read_float l.file (wanted - n) in
      let l' = record l { file = f } in
      let rest =
        on_packet wanted room l' n out packet (λ r m k o. read_frames fuel wanted r m k o) in
      if ltb n wanted then rest else ret (n, out, l)

  -- A negative number of channels would be a negative size of the buffer.
  unfoldable pub decode_channels : ℕ → ℕ → Opus → ℤ → Run (Decoded Float × Opus)
  unfolding read_frames seek
  decode_channels fuel wanted d (negsuc c) = fault
  decode_channels fuel wanted d (pos c) = seek d d.frame_index >>= λ sought.
      read_frames fuel wanted (wanted * c) (record { file = sought.0; channels = c }) 0 [] >>= λ r.
      let (n, out, l) = r in
      ret (
        record { frame_index = d.frame_index; frame_count = n; samples = out },
        record d { file = some l.file; channels = pos l.channels; frame_index = d.frame_index + n },
      )

  unfoldable pub decode : ℕ → ℕ → Opus → Run (Decoded Float × Opus)
  unfolding decode_channels
  decode fuel wanted d = decode_channels fuel wanted d d.channels
