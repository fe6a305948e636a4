-- ===== src/Wav/Decode.antt =====
-- `decode` of source/DecoderWavImplementation.cpp and `WavReader` of its header. Floats are a
-- parameter; the number of frames asked for is not negative.
pub mod Pcm
pub mod Float
use nfdecoder.Base.{
  ℕ, zero, suc, ◌+◌, ◌-◌, ◌*◌, ◌/◌, ◌^◌, ◌==◌, ltb, leb, if◌then◌else◌, Bool, ◌||◌, Option, none,
  some, List, [], ◌∷◌, map, take, drop, length, replicate,
}
use nfdecoder.Base.Bytes.{fill}
use nfdecoder.Base.Int.{ℤ, pos, negsuc}
use nfdecoder.Base.Run.{Run, ret, fault, or_fault, ◌>>=◌}
use nfdecoder.Provider.{DataProvider, Reading}
use nfdecoder.Wav.{Wav}
use nfdecoder.Wav.Fmt

-- `static_cast<float>(a) / static_cast<float>(b)`, and the float of a bit pattern.
pub record Floats : Type 1 where
  pub Float : Type 0
  pub ratio : ℤ → ℕ → Float
  pub of_bits : ℕ → Float

-- The sample types that `WavReader` is instantiated with.
pub data Width : Type 0 where
  uint8 int16 int32 : Width

abbrev pub bytes_of : Width → ℕ
bytes_of uint8 = 1
bytes_of int16 = 2
bytes_of int32 = 4

-- `std::numeric_limits<sample_t>::max()`
abbrev pub max_of : Width → ℕ
max_of uint8 = 255
max_of int16 = 32767
max_of int32 = 2147483647

-- A little-endian number, and the `n` numbers of `k` bytes that stand in a buffer.
abbrev pub little_endian : List ℕ → ℕ
little_endian [] = 0
little_endian (b ∷ bs) = b + 256 * little_endian bs

unfoldable pub words : ℕ → ℕ → List ℕ → List ℕ
words zero k bytes = []
words (suc n) k bytes = little_endian (take k bytes) ∷ words n k (drop k bytes)

abbrev signed : ℕ → ℕ → ℤ
signed half n = if ltb n half then pos n else negsuc (half + half - 1 - n)

-- `in_samples[i] - dc_offset`, where `dc_offset` is 127 for the unsigned type and 0 for the others.
pub centred : Width → ℕ → ℤ
centred uint8 n = if leb 127 n then pos (n - 127) else negsuc (126 - n)
centred int16 n = signed (2 ^ 15) n
centred int32 n = signed (2 ^ 31) n

-- A call of the decode callback; `none` is a null pointer.
pub record Decoded (F : Type 0) : Type 0 where
  pub frame_index : ℕ
  pub frame_count : ℕ
  pub samples : Option (List F)

module _ (floats : Floats) where
  open floats use {Float, ratio, of_bits}

  pub scaled : Width → ℕ → Float
  unfolding centred
  scaled width n = ratio (centred width n) (max_of width)

  module _ (P : DataProvider) where
    abbrev pub Result : Type 0
    Result = Run (Decoded Float × Wav P)

    abbrev pub nothing : Wav P → Result
    nothing w = ret (record { frame_index = w.frame_index; frame_count = 0; samples = none }, w)

    -- The bytes of a buffer after a read into it; a read longer than the buffer overruns it.
    pub receive : ℕ → Reading P.State → Run (List ℕ)
    receive room r =
        if ltb room (length r.bytes) then fault else ret (fill (replicate room 0) r.bytes)

    pub decode_float : Wav P → ℕ → Result
    unfolding receive words
    decode_float w frames =
        let frame_bytes = Fmt.sample_size w.fmt * w.channels in
        or_fault (P.read w.provider frame_bytes frames) >>= λ r.
        receive (frames * w.channels * 4) r >>= λ buffer. ret (
          record {
            frame_index = w.frame_index;
            frame_count = r.value / frame_bytes;
            samples = some (map of_bits (words (frames * w.channels) 4 buffer));
          },
          record w { provider = r.next },
        )

    -- `WavReader::transferSamples`; more frames than were asked for would be read out of bounds.
    pub decode_pcm : Width → Wav P → ℕ → Result
    unfolding receive words scaled
    decode_pcm width w frames =
        let frame_bytes = bytes_of width * w.channels in
        or_fault (P.read w.provider frame_bytes frames) >>= λ r.
        receive (frames * w.channels * bytes_of width) r >>= λ buffer.
        let frames_read = r.value / frame_bytes in
        if ltb frames frames_read
        then fault
        else ret (
          record {
            frame_index = w.frame_index;
            frame_count = frames_read;
            samples =
                some
                  (map (scaled width) (words (frames_read * w.channels) (bytes_of width) buffer));
          },
          record w { provider = r.next },
        )

    -- The switch on the sample size.
    pub decode_width : ℕ → Wav P → ℕ → Result
    unfolding decode_pcm
    decode_width size w frames =
        if size == 1
        then decode_pcm uint8 w frames
        else if size == 2
        then decode_pcm int16 w frames
        else if size == 4
        then decode_pcm int32 w frames
        else nothing w

    pub decode : Wav P → ℕ → Result
    unfolding decode_float decode_width
    decode w frames =
        if leb w.frames w.frame_index
        then nothing w
        else if frames == 0
        then nothing w
        else if w.channels == 0
        then nothing w
        else if Fmt.sample_size w.fmt == 0 || Fmt.audio_format w.fmt == 0
        then nothing w
        else if Fmt.audio_format w.fmt == 3
        then decode_float w frames
        else decode_width (Fmt.sample_size w.fmt) w frames
