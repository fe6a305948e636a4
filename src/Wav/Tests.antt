-- ===== src/Wav/Tests.antt =====
-- Examples for the WAVE decoder: a file with a chunk between the format and the samples.
use nfdecoder.Base.{
  ℕ, ◌≤◌, ◌<◌, ◌^◌, ◌+◌, ◌*◌, ◌≡◌, refl, arith, true, false, none, some, List, [], ◌∷◌, ◌++◌, map,
  length, replicate,
}
use nfdecoder.Base.Int.{ℤ}
use nfdecoder.Base.Text.{codes}
use nfdecoder.Base.Event.{done}
use nfdecoder.Base.Run.{ret}
use nfdecoder.Provider.{DataProvider, IsStream}
use nfdecoder.Provider.File.{File, provider}
use nfdecoder.Provider.File.Whole.{file-At, file_stream, IsRegular}
use nfdecoder.Provider.File.Disk.{disk, disk-IsRegular, disk-Stands}
use nfdecoder.Wav.{Wav, chunk_type_is, header_errors, load}
use nfdecoder.Wav.Layout.{Chunk, IsOther}
use nfdecoder.Wav.Load.{WaveFile, IsWaveFile, IsLoaded, file_bytes, rounds, load_lem}
use nfdecoder.Wav.Decode.{Floats, int16, bytes_of, words, scaled, Decoded, decode}
use nfdecoder.Wav.Decode.Pcm.{IsReady, IsPcm, decode_lem}

abbrev fmt : List ℕ
fmt = 16 ∷ 0 ∷ 0 ∷ 0 ∷ 1 ∷ 0 ∷ 1 ∷ 0 ∷ 68 ∷ 172 ∷ 0 ∷ 0 ∷ 136 ∷ 88 ∷ 1 ∷ 0 ∷ 2 ∷ 0 ∷ 16 ∷ 0 ∷ []

abbrev list_chunk : Chunk
list_chunk = record { type = codes "LIST"; body = 7 ∷ 8 ∷ [] }

abbrev wave_file : WaveFile
wave_file = record {
  header = codes "RIFF" ++ (50 ∷ 0 ∷ 0 ∷ 0 ∷ codes "WAVE");
  before = [];
  fmt = fmt;
  between = list_chunk ∷ [];
  samples = 1 ∷ 0 ∷ 255 ∷ 255 ∷ [];
  rest = [];
}

is_other : IsOther list_chunk
unfolding chunk_type_is
is_other = record { four = refl; not_fmt = refl; not_data = refl; small = omega arith }

is_wave_file : IsWaveFile wave_file
is_wave_file = record {
  header_size = refl;
  before_others = tt;
  fmt_size = refl;
  some_frame = omega arith;
  between_others = (is_other, tt);
  small = omega arith;
}

abbrev content : List ℕ
content = file_bytes wave_file

abbrev P : DataProvider
P = provider (disk content)

small : length content < 2 ^ 63
small = omega arith

abbrev regular : IsRegular (disk content) (codes "a.wav") content
regular = disk-IsRegular content (codes "a.wav") small

abbrev stream : IsStream P content
stream = file_stream (disk content) (codes "a.wav") content regular

abbrev handle_at : ℕ → File (disk content)
handle_at p = record {
  path = codes "a.wav";
  handle = (p, false);
  length_in_bytes = ℤ.pos (length content);
}

abbrev fresh : Wav P
fresh = record {
  provider = handle_at 0;
  channels = 0;
  sample_rate = 0;
  frames = 0;
  frame_size = none;
  frame_index = 0;
  chunk_type = replicate 4 0;
  header = replicate 12 0;
  fmt = replicate 20 0;
  data_offset = 0;
  data_bytes = 0;
}

stands : (p : ℕ) → p ≤ length content → stream.At (handle_at p) p
stands p h =
    file-At (disk content) (codes "a.wav") content regular (handle_at p) p
      (record { stands = disk-Stands content (codes "a.wav") small p; within = h })

load_lem_example :
    (w' : Wav P) × (load P (rounds wave_file + 0) fresh (λ i. replicate 4 0)
      ≡ ret (header_errors wave_file.header ++ (done true ∷ []), w'))
    × IsLoaded P wave_file w'
    × stream.At w'.provider w'.data_offset
load_lem_example =
    load_lem P wave_file is_wave_file stream fresh (λ i. replicate 4 0) 0
      (record { there = stands 0 (omega arith); type_buffer = refl; fmt_buffer = refl }) refl

-- The decoder of the file after `load`.
abbrev loaded : Wav P
loaded = record fresh {
  provider = handle_at 54;
  channels = 1;
  frames = 2;
  frame_size = some 2;
  fmt = fmt;
  data_offset = 54;
}

abbrev floats : Floats
floats = record { Float = ℤ × ℕ; ratio = λ a b. (a, b); of_bits = λ n. (ℤ.pos n, 1) }

-- What `decode` of both frames calls back with.
abbrev both_frames : Decoded (ℤ × ℕ)
both_frames = record {
  frame_index = loaded.frame_index;
  frame_count = 2;
  samples =
      some (
        map (scaled floats int16) (words (2 * loaded.channels) (bytes_of int16) wave_file.samples));
}

ready : IsReady floats P content stream loaded 54 2 wave_file.samples []
ready = record {
  there = stands 54 (omega arith);
  left = refl;
  inside = omega arith;
  some_frames = omega arith;
  some_channels = omega arith;
}

is_pcm : IsPcm floats P content stream loaded int16
is_pcm = record { sized = refl; has_format = omega arith; not_float = omega arith }

decode_both :
    (s : File (disk content)) × (decode floats P loaded 2
      ≡ ret (both_frames, record loaded { provider = s }))
decode_both =
    let (s, e, a) =
      decode_lem floats P content stream int16 loaded 54 2 wave_file.samples [] ready is_pcm refl in
    (s, e)

decode_lem_example :
    (s : File (disk content)) × (decode floats P loaded 2
      ≡ ret (both_frames, record loaded { provider = s }))
    × stream.At s (54 + length wave_file.samples)
decode_lem_example =
    decode_lem floats P content stream int16 loaded 54 2 wave_file.samples [] ready is_pcm refl
