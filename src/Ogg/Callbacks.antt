-- ===== src/Ogg/Callbacks.antt =====
-- The callbacks through which libvorbisfile and libopusfile read the data provider, of
-- source/DecoderVorbisImplementation.cpp and source/DecoderOpusImplementation.cpp. A number of
-- bytes is no more than an `int` holds.
pub mod Cursor
use nfdecoder.Base.{ℕ, Bool, Option}
use nfdecoder.Base.Int.{ℤ, pos}
use nfdecoder.Provider.{DataProvider, Reading, Whence}

module _ (P : DataProvider) where
  unfoldable pub vorbis_read : P.State → ℕ → ℕ → Option (Reading P.State)
  vorbis_read s size nmemb = P.read s size nmemb

  unfoldable pub vorbis_seek : P.State → ℤ → Whence → ℤ × P.State
  vorbis_seek s offset whence = P.seek s offset whence

  unfoldable pub vorbis_close : P.State → ℤ
  vorbis_close s = pos 0

  unfoldable pub vorbis_tell : P.State → ℤ
  vorbis_tell s = P.tell s

  unfoldable pub opus_read : P.State → ℕ → Option (Reading P.State)
  opus_read s nbytes = P.read s 1 nbytes

  unfoldable pub opus_seek : P.State → ℤ → Whence → ℤ × P.State
  opus_seek s offset whence = P.seek s offset whence

  unfoldable pub opus_close : P.State → ℤ
  opus_close s = pos 0

  unfoldable pub opus_tell : P.State → ℤ
  opus_tell s = P.tell s

  -- `eof` of either decoder.
  unfoldable pub eof : P.State → Bool
  eof s = P.eof s
