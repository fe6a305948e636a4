-- ===== src/Wav.antt =====
-- source/DecoderWavImplementation.cpp and .h: the RIFF/WAVE decoder over any data provider.
-- Buffers are lists of bytes; a multi-byte field is little-endian, as on the hosts of the library.
-- Frame indexes are not negative. The warnings that `readChunk` prints are left out.
pub mod Fmt
pub mod Layout
pub mod Chunks
pub mod Loop
pub mod Load
pub mod Decode
mod Tests
use nfdecoder.Base.{
  ℕ, zero, suc, ◌+◌, ◌-◌, ◌*◌, ◌/◌, ◌%◌, ◌^◌, ◌==◌, ltb, leb, if◌then◌else◌, Bool, true, false,
  ◌&&◌, ◌||◌, not, Option, none, some, List, [], ◌∷◌, ◌++◌, take, drop, length, get_or,
}
use nfdecoder.Base.Bytes.{fill, u16_at, u32_at}
use nfdecoder.Base.Int.{ℤ, pos, negsuc, to_u64, to_i64}
use nfdecoder.Base.Text.{Text, codes, text_eq}
use nfdecoder.Base.Event.{Event, error, done}
use nfdecoder.Base.Run.{Run, ret, fault, unfinished, or_fault, ◌>>=◌}
use nfdecoder.Provider.{DataProvider, Reading, Whence, seek_set, seek_cur}

abbrev pub domain : Text
domain = codes "com.nativeformat.decoder.wav"

abbrev pub riff : Text
riff = codes "RIFF"

abbrev pub wave : Text
wave = codes "WAVE"

abbrev pub fmt_type : Text
fmt_type = codes "fmt "

abbrev pub data_type : Text
data_type = codes "data"

-- `CHUNK_TYPE`: the first four bytes are `fcc`, which holds no NUL. The string that the code makes
-- of them goes on behind the array up to a NUL, and is compared no further: what it reads there is
-- left out.
unfoldable pub chunk_type_is : Text → Text → Bool
unfolding text_eq
chunk_type_is s fcc = text_eq (take 4 s) fcc

-- `ErrorCode`
pub data ErrorCode : Type 0 where
  not_enough_data_for_header could_not_decode_header not_riff not_wav chunk_error : ErrorCode

abbrev pub code_of : ErrorCode → ℕ
code_of not_enough_data_for_header = 0
code_of could_not_decode_header = 1
code_of not_riff = 2
code_of not_wav = 3
code_of chunk_error = 4

abbrev pub failed : ErrorCode → List (Event Bool)
failed c = error domain (code_of c) ∷ done false ∷ []

-- The reports on a header that is no RIFF or no WAVE header: `load` goes on after them.
unfoldable pub header_errors : List ℕ → List (Event Bool)
unfolding chunk_type_is
header_errors h =
    if not (chunk_type_is h riff)
    then failed not_riff
    else if not (chunk_type_is (drop 8 h) wave)
    then failed not_wav
    else []

module _ (P : DataProvider) where
  -- `frame_size` is `none` until a format chunk sets it: the constructor does not.
  pub record Wav : Type 0 where
    pub provider : P.State
    pub channels : ℕ
    pub sample_rate : ℕ
    pub frames : ℕ
    pub frame_size : Option ℕ
    pub frame_index : ℕ
    pub chunk_type : List ℕ
    pub header : List ℕ
    pub fmt : List ℕ
    pub data_offset : ℕ
    pub data_bytes : ℕ

  -- What the constructor leaves uninitialised comes from `garbage`.
  pub create : P.State → Wav → Wav
  create provider garbage = record garbage {
    provider = provider;
    channels = 0;
    sample_rate = 0;
    frames = 0;
    frame_size = none;
    frame_index = 0;
    data_offset = 0;
  }

  -- `_data_offset + frame_index * wavSampleSize(_fmt) * _channels` in `size_t`
  abbrev pub byte_offset : Wav → ℕ → ℕ
  byte_offset w frame_index =
      (w.data_offset + frame_index * Fmt.sample_size w.fmt * w.channels) % 2 ^ 64

  pub seek : Wav → ℕ → Wav
  seek w frame_index = record w {
    provider = (P.seek w.provider (to_i64 (byte_offset w frame_index)) seek_set).1;
    frame_index = frame_index;
  }

  -- A read was short and yet the provider does not report its end.
  abbrev pub is_short : Reading P.State → ℕ → Bool
  is_short r wanted = ltb r.value wanted && not (P.eof r.next)

  -- The branch of `readChunk` at a format chunk.
  pub take_fmt : Wav → Reading P.State → Bool × Wav
  take_fmt w r =
      let fmt' = fill w.fmt r.bytes in
      if is_short r 20 then (false, record w { provider = r.next; fmt = fmt' }) else (
        true,
        record w {
          provider = r.next;
          fmt = fmt';
          frame_size = some (Fmt.bit_depth fmt' / 8 * Fmt.channels fmt');
          channels = Fmt.channels fmt';
          sample_rate = Fmt.sample_rate fmt';
        },
      )

  -- `chunk_data_bytes / _frame_size`: a division by zero, or by what was never set, is undefined.
  pub count_frames : ℕ → Option ℕ → Run ℕ
  count_frames chunk_data_bytes none = fault
  count_frames chunk_data_bytes (some size) =
      if size == 0 then fault else ret (chunk_data_bytes / size)

  pub take_data : Wav → ℕ → Run Wav
  unfolding count_frames
  take_data w chunk_data_bytes =
      if chunk_type_is w.chunk_type data_type
      then (count_frames chunk_data_bytes w.frame_size >>= λ n. ret (record w {
        data_bytes = chunk_data_bytes;
        frames = n;
        data_offset = to_u64 (P.tell w.provider);
      }))
      else ret w

  pub skip_body : Wav → ℕ → Wav
  skip_body w chunk_data_bytes =
      if chunk_data_bytes == 0
      then w
      else record w { provider = (P.seek w.provider (pos chunk_data_bytes) seek_cur).1 }

  -- The branch of `readChunk` at any other chunk.
  pub take_other : Wav → List ℕ → Reading P.State → Run (Bool × Wav)
  unfolding take_data skip_body
  take_other w uninitialised r =
      let chunk_data_bytes = u32_at 0 (fill uninitialised r.bytes) in
      let w' = record w { provider = r.next } in
      if is_short r 4
      then ret (false, w')
      else take_data w' chunk_data_bytes >>= λ w''. ret (true, skip_body w'' chunk_data_bytes)

  -- The rest of `readChunk` once the type of the chunk has been read.
  pub read_body : Wav → List ℕ → Run (Bool × Wav)
  unfolding take_fmt take_other chunk_type_is
  read_body w uninitialised =
      if chunk_type_is w.chunk_type fmt_type
      then (or_fault (P.read w.provider 20 1) >>= λ r. ret (take_fmt w r))
      else or_fault (P.read w.provider 4 1) >>= λ r. take_other w uninitialised r

  -- `uninitialised` is what stands in the local `chunk_data_bytes` at first.
  pub read_chunk : Wav → List ℕ → Run (Bool × Wav)
  unfolding read_body
  read_chunk w uninitialised =
      if P.eof w.provider
      then ret (false, w)
      else or_fault (P.read w.provider 1 4) >>= λ r.
          let w' = record w { provider = r.next; chunk_type = fill w.chunk_type r.bytes } in
          if is_short r 4 then ret (false, w') else read_body w' uninitialised

  -- The loop of `load`, one round for each unit of fuel; true if it found both chunks. What stands
  -- in the local of each round is `uninitialised`.
  pub find_chunks : ℕ → Bool → Bool → Wav → (ℕ → List ℕ) → Run (Bool × Wav)
  find_chunks zero fmt_found data_found w uninitialised =
      if fmt_found && data_found then ret (true, w) else unfinished
  find_chunks (suc fuel) fmt_found data_found w uninitialised = elim (fmt_found && data_found) [
    | true ↦ ret (true, w)
    | false ↦ elim (read_chunk w (uninitialised fuel)) [
      | fault ↦ fault
      | unfinished ↦ unfinished
      | ret (ok, w') ↦ elim ok [
        | false ↦ ret (false, w')
        | true ↦
            find_chunks fuel (fmt_found || chunk_type_is w'.chunk_type fmt_type)
              (data_found
                || (not (chunk_type_is w'.chunk_type fmt_type)
                    && chunk_type_is w'.chunk_type data_type))
              w' uninitialised
      ]
    ]
  ]

  finish : List (Event Bool) → Bool × Wav → List (Event Bool) × Wav
  finish early (true, w) = (early ++ (done true ∷ []), seek w 0)
  finish early (false, w) = (early ++ failed chunk_error, w)

  -- The calls of the callbacks, in order, and the decoder after them.
  pub load : ℕ → Wav → (ℕ → List ℕ) → Run (List (Event Bool) × Wav)
  unfolding find_chunks header_errors finish seek
  load fuel w uninitialised = or_fault (P.read w.provider 12 1) >>= λ r.
      let w' = record w { provider = r.next; header = fill w.header r.bytes } in
      if ltb r.value 12
      then ret (failed not_enough_data_for_header, w')
      else find_chunks fuel false false w' uninitialised >>= λ found.
          ret (finish (header_errors w'.header) found)

  pub eof : Wav → Bool
  eof w = P.eof w.provider
