-- ===== src/Cli/Tests.antt =====
-- An example for the file that the tool writes: two stereo frames, read back from a disk.
use nfdecoder.Base.{
  ℕ, ◌<◌, ◌^◌, ◌≡◌, refl, arith, true, false, none, some, List, [], ◌∷◌, length, map, replicate,
}
use nfdecoder.Base.Int.{ℤ}
use nfdecoder.Base.Text.{codes}
use nfdecoder.Base.Event.{done}
use nfdecoder.Base.Run.{ret}
use nfdecoder.Provider.{IsStream}
use nfdecoder.Provider.File.{provider}
use nfdecoder.Provider.File.Whole.{file-At, file_stream, IsRegular}
use nfdecoder.Provider.File.Disk.{disk, disk-IsRegular, disk-Stands}
use nfdecoder.Wav.{Wav, load}
use nfdecoder.Wav.Load.{file_bytes}
use nfdecoder.Wav.Decode.{Floats, decode}
use nfdecoder.Cli.{float_bytes, on_decoded}
use nfdecoder.Cli.Written.{written, written-decodes}

abbrev samples : List ℕ
samples = 1065353216 ∷ 0 ∷ 3212836864 ∷ 1 ∷ []

abbrev content : List ℕ
content = file_bytes (written 2 48000 samples)

small : length content < 2 ^ 63
unfolding float_bytes
small = omega arith

abbrev regular : IsRegular (disk content) (codes "out.wav") content
regular = disk-IsRegular content (codes "out.wav") small

abbrev stream : IsStream (provider (disk content)) content
stream = file_stream (disk content) (codes "out.wav") content regular

abbrev fresh : Wav (provider (disk content))
fresh = record {
  provider = record {
    path = codes "out.wav";
    handle = (0, false);
    length_in_bytes = ℤ.pos (length content);
  };
  channels = 0;
  sample_rate = 0;
  frames = 0;
  frame_size = none;
  frame_index = 0;
  chunk_type = replicate 4 0;
  header = replicate 12 0;
  fmt = replicate 20 0;
  data_offset = 0;
  data_bytes = 0;
}

abbrev floats : Floats
floats = record { Float = ℕ; ratio = λ a b. b; of_bits = λ n. n }

stands : stream.At fresh.provider 0
stands =
    file-At (disk content) (codes "out.wav") content regular fresh.provider 0
      (record { stands = disk-Stands content (codes "out.wav") small 0; within = omega arith })

written-decodes_example :
    (w v : Wav (provider (disk content))) × (on_decoded 2 48000 2 (some samples) ≡ some content)
    × (load (provider (disk content)) 2 fresh (λ i. replicate 4 0) ≡ ret (done true ∷ [], w))
    × (w.channels ≡ 2)
    × (w.sample_rate ≡ 48000)
    × (w.frames ≡ 2)
    × (decode floats (provider (disk content)) w 2
        ≡ ret
            (record { frame_index = 0; frame_count = 2; samples = some (map (λ n. n) samples) }, v))
written-decodes_example =
    written-decodes 2 48000 samples (omega arith) (omega arith) (omega arith) (omega arith)
      (provider (disk content)) stream floats fresh (λ i. replicate 4 0) 2
      (record { there = stands; type_buffer = refl; fmt_buffer = refl }) refl (omega arith) refl
      (omega arith, (omega arith, (omega arith, (omega arith, tt))))
