-- ===== src/Flac/Callbacks.antt =====
-- The callbacks of source/DecoderFLACImplementation.cpp that pass libFLAC's reads on to the data
-- provider. A conversion between `long` and `FLAC__uint64` is one of 64 bits.
pub mod Tail
use nfdecoder.Base.{ℕ, if◌then◌else◌, Bool, List}
use nfdecoder.Base.Int.{ℤ, to_u64, to_i64}
use nfdecoder.Base.Run.{Run, ret, or_fault, ◌>>=◌}
use nfdecoder.Provider.{DataProvider, Reading, Whence, seek_set}

pub data ReadStatus : Type 0 where
  end_of_stream continue : ReadStatus

module _ (P : DataProvider) where
  -- The status, the number that stands in `*bytes` after the call, what was read into the buffer,
  -- and the provider.
  pub record Read : Type 0 where
    pub status : ReadStatus
    pub count : ℕ
    pub buffer : List ℕ
    pub provider : P.State

  unfoldable pub flac_read : P.State → ℕ → Run Read
  flac_read s bytes = or_fault (P.read s bytes 1) >>= λ r. ret (record {
    status = if P.eof r.next then end_of_stream else continue;
    count = r.value;
    buffer = r.bytes;
    provider = r.next;
  })

  -- The status is always that it was sought.
  unfoldable pub flac_seek : P.State → ℕ → P.State
  flac_seek s absolute_byte_offset = (P.seek s (to_i64 absolute_byte_offset) seek_set).1

  unfoldable pub flac_tell : P.State → ℕ
  flac_tell s = to_u64 (P.tell s)

  unfoldable pub flac_length : P.State → ℕ
  flac_length s = to_u64 (P.size s)

  unfoldable pub flac_eof : P.State → Bool
  flac_eof s = P.eof s
