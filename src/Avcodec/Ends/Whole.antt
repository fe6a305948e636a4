-- ===== src/Avcodec/Ends/Whole.antt =====
-- decode comes to an end.
use nfdecoder.Base.{◌≡◌, true, Option, none, some}
use nfdecoder.Base.Int.{◌==ℤ◌}
use nfdecoder.Provider.{DataProvider}
use nfdecoder.Avcodec.{Libav, Times, Avcodec}
use nfdecoder.Avcodec.Decode.{Decoding}
use nfdecoder.Avcodec.Ends.{ComesToEnd, IsTotal}

module _ {F : Type 0} (lib : Libav F) (P : DataProvider) (times : Times) (file : ComesToEnd lib)
    (total : IsTotal P) where
  abbrev L : Type 0
  L = Decoding lib P times none

  -- The codec of the decoder is one that has reported the end, in the last call of it, and was
  -- flushed since.
  abbrev pub ReportedEnd : Avcodec lib P → Type 0
  ReportedEnd d =
      (c : lib.Codec) × (p : Option lib.Packet) × ((lib.send_packet c p).0 ==ℤ lib.averror_eof
        ≡ true)
      × (d.codec ≡ some (lib.flush_codec (lib.send_packet c p).1))
