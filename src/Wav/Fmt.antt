-- ===== src/Wav/Fmt.antt =====
-- The fields of `FMTHeader`, which holds 20 bytes.
use nfdecoder.Base.{ℕ, ◌/◌, List}
use nfdecoder.Base.Bytes.{u16_at, u32_at}

abbrev pub audio_format : List ℕ → ℕ
audio_format = u16_at 4

abbrev pub channels : List ℕ → ℕ
channels = u16_at 6

abbrev pub sample_rate : List ℕ → ℕ
sample_rate = u32_at 8

abbrev pub bit_depth : List ℕ → ℕ
bit_depth = u16_at 18

-- `wavSampleSize`
abbrev pub sample_size : List ℕ → ℕ
sample_size b = bit_depth b / 8
