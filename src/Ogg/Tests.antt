-- ===== src/Ogg/Tests.antt =====
-- Examples for the Ogg decoders: a file of three stereo frames, delivered one by one.
use nfdecoder.Base.{
  ℕ, ◌+◌, ◌-◌, ◌*◌, ◌<◌, ◌≤◌, ◌≡◌, refl, sym, arith, ltb, ltb→lt, Bool-cases, min, if◌then◌else◌,
  Bool, true, false, ◌⊎◌, inl, inr, Option, some, List, [], ◌∷◌, length, ◌^◌, lt→ltb, le→ltb,
}
use nfdecoder.Base.Event.{Event}
use nfdecoder.Base.Frames.{interleave}
use nfdecoder.Base.Int.{pos, negsuc}
use nfdecoder.Base.Run.{ret}
use nfdecoder.Base.Text.{codes}
use nfdecoder.Provider.{DataProvider, IsStream}
use nfdecoder.Provider.File.{File, provider}
use nfdecoder.Provider.File.Whole.{file-At, file_stream, IsRegular}
use nfdecoder.Provider.File.Disk.{disk, disk-IsRegular, disk-Stands}
use nfdecoder.Ogg.{Codecs, Inner, load}
use nfdecoder.Ogg.Load.{Answers, load-Answers}
use nfdecoder.Ogg.Vorbis
use nfdecoder.Ogg.Vorbis.Whole.{IsVorbisFile, vorbis-decode}
use nfdecoder.Ogg.Opus
use nfdecoder.Ogg.Opus.Served.{IsServed}
use nfdecoder.Ogg.Opus.Whole.{IsOpusFile, opus-decode}

abbrev content : ℕ → ℕ → ℕ
content channel i = i * 10 + channel

-- A file is the number of its next frame.
abbrev next_vorbis : ℕ → ℕ → Vorbis.Packet ℕ × ℕ
next_vorbis f k =
    if ltb f 3 then (Vorbis.frames 1 2 (λ j i. content j (f + i)), f + 1) else (Vorbis.stop, f)

abbrev libvorbis : Vorbis.Libvorbis ℕ
libvorbis = record {
  File = ℕ;
  test_callbacks = λ f. (negsuc 0, f);
  test_open = λ f. (pos 0, f);
  open_callbacks = λ f. (pos 0, f);
  set_read_size = λ f n. f;
  info = λ f. some (record { channels = 2; rate = 48000 });
  frames_of = λ f rate. pos 3;
  pcm_seek = λ f q. (pos 0, q);
  read_float = next_vorbis;
}

abbrev Stands : ℕ → ℕ → Type 0
Stands f p = (f ≡ p) × (p ≤ 3)

abbrev vorbis_file : IsVorbisFile libvorbis 2 3 content
vorbis_file = record {
  At = Stands;
  effort = λ f. 3 - f;
  most = 3;
  bounded = λ f p a. omega arith;
  reads = λ f p k a more left. (
    f + 1,
    inr (
      1,
      rw (sym a.0, lt→ltb f 3 (omega (arith, a.0, left))) refl,
      omega arith,
      omega (arith, more),
      omega (arith, left),
      (omega (arith, a.0), omega (arith, left)),
    ),
    omega (arith, a.0, left),
  );
  ends = λ f k a. (f, rw (le→ltb f 3 (omega (arith, a.0))) refl, a);
  seeks = λ f p q a inside. (q, refl, (refl, inside));
}

abbrev vorbis : Vorbis.Vorbis libvorbis
vorbis = record {
  file = 0;
  is_open = true;
  channels = 2;
  samplerate = 48000;
  total_frames = pos 3;
  frame_index = 1;
}

vorbis-decode_example :
    (d' : Vorbis.Vorbis libvorbis) × (Vorbis.decode libvorbis 4 5 vorbis
      ≡ ret (
        record {
          frame_index = 1;
          frame_count = min 5 (3 - 1);
          samples = interleave content 2 1 (min 5 (3 - 1));
        },
        d',
      ))
    × (d'.frame_index ≡ 1 + min 5 (3 - 1))
    × IsVorbisFile.At vorbis_file d'.file d'.frame_index
vorbis-decode_example =
    vorbis-decode libvorbis 2 3 content vorbis_file vorbis 0 5 refl (refl, omega arith)
      (omega arith)

-- A call with room for less than a frame reports 0.
abbrev next_opus : ℕ → ℕ → Opus.Packet ℕ × ℕ
next_opus f k =
    if ltb f 3
    then (if ltb k 2 then (Opus.stop, f) else (Opus.frames 1 0 (λ j i. content j (f + i)), f + 1))
    else (Opus.stop, f)

abbrev libopusfile : Opus.Libopusfile ℕ
libopusfile = record {
  Source = Unit;
  File = ℕ;
  test_callbacks = λ s. (pos 0, some 0, s);
  test_open = λ f. (pos 0, f);
  open_callbacks = λ s. (pos 0, some 0, s);
  set_read_size = λ f n. f;
  current_channel_count = λ f. pos 2;
  channel_count = λ f section. 2;
  pcm_total = λ f. pos 3;
  pcm_seek = λ f q. (pos 0, q);
  read_float = next_opus;
}

opus_stops :
    (f p k : ℕ)
    → Stands f p
    → (k < 2) ⊎ (p ≡ 3)
    → (g : ℕ) × (next_opus f k ≡ (Opus.stop, g)) × Stands g p
opus_stops f p k a ends = elim (Bool-cases (ltb f 3)) [
  | inl e ↦ elim ends [
    | inl small ↦ (f, rw (e, lt→ltb k 2 small) refl, a)
    | inr ended ↦ absurd (omega (arith, ltb→lt f 3 e, a.0, ended))
  ]
  | inr e ↦ (f, rw e refl, a)
]

abbrev opus_file : IsOpusFile libopusfile 2 3 content
opus_file = record {
  At = Stands;
  effort = λ f. 3 - f;
  most = 3;
  some_channels = omega arith;
  bounded = λ f p a. omega arith;
  same_channels = λ f section. refl;
  reads = λ f p k a more left. (
    f + 1,
    inr (
      1,
      0,
      rw (sym a.0, lt→ltb f 3 (omega (arith, a.0, left)), le→ltb k 2 more) refl,
      omega arith,
      omega (arith, more),
      omega (arith, left),
      (omega (arith, a.0), omega (arith, left)),
    ),
    omega (arith, a.0, left),
  );
  stops = opus_stops;
  seeks = λ f p q a inside. (q, refl, (refl, inside));
}

abbrev opus : Opus.Opus libopusfile
opus = record {
  source = tt;
  file = some 0;
  channels = pos 2;
  samplerate = 48000;
  total_frames = pos 3;
  frame_index = 1;
}

opus-decode_example :
    (m : ℕ) × (d' : Opus.Opus libopusfile) × (Opus.decode libopusfile 4 5 opus
      ≡ ret (record { frame_index = 1; frame_count = m; samples = interleave content 2 1 m }, d'))
    × (d'.frame_index ≡ 1 + m)
    × IsServed 2 3 5 1 m
opus-decode_example =
    opus-decode libopusfile 2 3 content opus_file opus 0 0 5 refl refl (refl, omega arith)
      (omega arith)

-- A provider of nothing.
abbrev nothing : DataProvider
nothing = record {
  State = Unit;
  read = λ s n k. some (record { value = 0; bytes = []; next = s });
  seek = λ s o w. (pos 0, s);
  tell = λ s. pos 0;
  eof = λ s. true;
  size = λ s. pos 0;
}

abbrev codecs : Codecs ℕ
codecs = record {
  Provider = nothing;
  libvorbis = libvorbis;
  libopusfile = libopusfile;
  vorbis_file = λ s. 0;
  vorbis_provider = λ f. tt;
  opus_source = λ s. s;
}

load-Answers_example :
    (events : List (Event Bool)) × (inner : Option (Inner codecs)) × (load codecs tt
      ≡ ret (events, inner))
    × Answers codecs events inner
load-Answers_example = load-Answers codecs tt (λ s. inr (0, refl))

-- A file of three bytes.
abbrev bytes : List ℕ
bytes = 7 ∷ 8 ∷ 9 ∷ []

bytes_few : length bytes < 2 ^ 63
bytes_few = omega arith

abbrev regular : IsRegular (disk bytes) (codes "a.ogg") bytes
regular = disk-IsRegular bytes (codes "a.ogg") bytes_few

abbrev byte_stream : IsStream (provider (disk bytes)) bytes
byte_stream = file_stream (disk bytes) (codes "a.ogg") bytes regular

abbrev at_start : File (disk bytes)
at_start = record { path = codes "a.ogg"; handle = (0, false); length_in_bytes = pos 3 }

stands_at_start : byte_stream.At at_start 0
stands_at_start =
    file-At (disk bytes) (codes "a.ogg") bytes regular at_start 0
      (record { stands = disk-Stands bytes (codes "a.ogg") bytes_few 0; within = omega arith })
