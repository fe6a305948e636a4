-- ===== src/Midi/Tests.antt =====
-- Examples for the MIDI decoder: a library that renders the operations that it was given.
use nfdecoder.Base.{
  ℕ, zero, suc, ◌+◌, ◌-◌, ◌*◌, ◌<◌, ◌≤◌, ◌≡◌, refl, arith, leb, Bool, true, false, Option, none,
  some, List, [], ◌∷◌, ◌++◌, length, replicate, length-replicate,
}
use nfdecoder.Base.Run.{ret}
use nfdecoder.Base.Text.{Text, codes}
use nfdecoder.Midi.{TinySoundFont, Message, note_on, Midi, paths, seek, decode, at_end}
use nfdecoder.Midi.Names.{paths-join}
use nfdecoder.Midi.Concert.{concert}
use nfdecoder.Midi.Play.{midi-decode}
use nfdecoder.Midi.Seek.{Sought, seek-seek}

-- A font is the number of operations so far; a frame of it is twice that number.
abbrev lib : TinySoundFont ℕ
lib = record {
  Font = ℕ;
  load_midi_filename = λ path. [];
  load_font_filename = λ path. some 0;
  set_output = λ f rate. f;
  channel_note_off = λ f c k. f + 1;
  channel_note_on = λ f c k v. f + 1;
  channel_midi_control = λ f c k v. f + 1;
  channel_set_presetnumber = λ f c p b. f + 1;
  channel_set_pitchwheel = λ f c p. f + 1;
  render_float = λ f n. (replicate (n * 2) f, f);
  silence = 0;
  loudness = λ v. v;
  Time = ℕ;
  at_frame = λ n. n;
  later = λ t n. t + n;
  is_due = λ t time. leb time t;
  frames_at = λ t. t * 44;
}

abbrev at : ℕ → Message
at time = record {
  time = time;
  type = note_on;
  channel = 0;
  key = 60;
  velocity = 100;
  control = 0;
  control_value = 0;
  program = 0;
  pitch = 0;
}

abbrev song : List Message
song = at 0 ∷ at 2 ∷ at 9 ∷ []

abbrev player : Midi lib
player = record {
  midi_path = [];
  soundfont_path = [];
  midi_head = song;
  midi_stream = song;
  soundfont = some 0;
  channels = 2;
  frame_index = 0;
  frames = 396;
}

paths-join_example : paths (codes "midi:a.mid:soundfont:b.sf2") ≡ ret (codes "a.mid", codes "b.sf2")
unfolding nfdecoder.Base.Text.find?
paths-join_example = paths-join (codes "a.mid") (codes "b.sf2") refl

midi-decode_example :
    (samples : List ℕ) × (d' : Midi lib) × (decode lib (1 * 64 + 3) player
      ≡ ret (
        at_end lib player song
            ++ record { frame_index = 0; frame_count = 1 * 64 + 3; samples = samples } ∷ [],
        d',
      ))
    × (samples ≡ (concert lib 1 3 0 song 0).0)
    × (length samples ≡ (1 * 64 + 3) * 2)
    × (d'.frame_index ≡ 0)
    × (d'.midi_stream ≡ song)
midi-decode_example =
    midi-decode lib (λ f n. length-replicate (n * 2) f) player 0 1 3 refl refl (omega arith)
      (omega arith) (omega arith)

-- 88200 frames are two seconds, and 220500 are five.
seek-seek_example : (d' : Midi lib) × (seek lib player 88200 ≡ ret d') × Sought lib player d' 220500
seek-seek_example =
    seek-seek lib player (at 0) (at 2 ∷ at 9 ∷ []) 88200 220500 refl (omega arith) (omega arith)
