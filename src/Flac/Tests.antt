-- ===== src/Flac/Tests.antt =====
-- Examples for the FLAC decoder: a stream of two blocks of one stereo frame each.
use nfdecoder.Base.{
  ℕ, zero, suc, ◌+◌, ◌^◌, ◌<◌, ◌≡◌, ◌⊎◌, refl, arith, Bool, true, false, List, [], ◌∷◌, length,
}
use nfdecoder.Base.Int.{ℤ, pos}
use nfdecoder.Base.Run.{ret, unfinished}
use nfdecoder.Base.Text.{codes}
use nfdecoder.Provider.File.{File, provider}
use nfdecoder.Provider.File.Whole.{IsRegular, At}
use nfdecoder.Provider.File.Disk.{disk, disk-IsRegular, disk-Stands}
use nfdecoder.Flac.Callbacks.{Read, flac_read}
use nfdecoder.Flac.Callbacks.Tail.{Whole, Lost, flac_read-Lost}
use nfdecoder.Flac.{Block, Libflac, Floats, Flac, Decoded, decode}
use nfdecoder.Flac.Queue.{Feeds, ends, goes_on, IsDelivered, decode-in_order, decode_stuck}

abbrev floats : Floats
floats = record { Float = ℤ; ratio = λ a b. a }

abbrev block : Block
block = record { blocksize = 1; buffer = λ channel i. pos (channel + 5) }

-- The handle is the number of blocks that are left.
abbrev next_block : ℕ → Bool × List Block × ℕ
next_block zero = (true, [], 0)
next_block (suc n) = (true, block ∷ [], n)

abbrev libflac : Libflac
libflac = record {
  Handle = ℕ;
  init_stream = λ h. (0, h);
  process_until_end_of_metadata =
      λ h. (true, record { sample_rate = 44100; channels = 2; total_samples = 2 } ∷ [], h);
  process_single = next_block;
  get_state = λ h. 0;
  seek_absolute = λ h n. ([], h);
  flush = λ h. h;
}

abbrev loaded : ℕ → Flac floats libflac
loaded blocks = record {
  handle = blocks;
  channels = 2;
  samplerate = 44100;
  frame_index = 0;
  frames = 2;
  samples = [];
}

feeds : Feeds floats libflac 2 (block ∷ block ∷ [])
feeds =
    goes_on 2 1 (block ∷ []) (block ∷ []) refl (omega arith)
      (goes_on 1 0 (block ∷ []) [] refl (omega arith) (ends 0))

decode-in_order_example :
    (out : Decoded floats libflac) × (d' : Flac floats libflac) × (decode floats libflac 2 2
        (loaded 2)
      ≡ ret (out, d'))
    × IsDelivered floats libflac (loaded 2) d' 2 (block ∷ block ∷ []) out
decode-in_order_example =
    decode-in_order floats libflac (loaded 2) 2 (block ∷ block ∷ []) feeds (omega arith)
      (omega arith)

decode_stuck_example : decode floats libflac 1000 1 (loaded 0) ≡ unfinished
decode_stuck_example =
    decode_stuck floats libflac (loaded 0) 1000 1 (omega arith) refl (omega arith)

abbrev content : List ℕ
content = 7 ∷ 8 ∷ 9 ∷ []

content_few : length content < 2 ^ 63
content_few = omega arith

abbrev regular : IsRegular (disk content) (codes "a.flac") content
regular = disk-IsRegular content (codes "a.flac") content_few

abbrev at_one : File (disk content)
at_one = record { path = codes "a.flac"; handle = (1, false); length_in_bytes = pos 3 }

stands_at_one : At (disk content) (codes "a.flac") content regular at_one 1
stands_at_one = record {
  stands = disk-Stands content (codes "a.flac") content_few 1;
  within = omega arith;
}

flac_read-Lost_example :
    (r : Read (provider (disk content))) × (flac_read (provider (disk content)) at_one 4 ≡ ret r)
    × (Whole (disk content) (codes "a.flac") content regular 1 4 r
        ⊎ Lost (disk content) (codes "a.flac") content regular 1 4 r)
flac_read-Lost_example =
    flac_read-Lost (disk content) (codes "a.flac") content regular at_one 1 4 stands_at_one
      (omega arith)
