-- ===== src/Cli.antt =====
-- source/cli/NFDecoderCLI.cpp: what the command line tool decodes and the file that it writes.
-- Floats are their bit patterns, and a number of several bytes is little-endian; arguments and
-- messages are left out.
mod Written
mod Tests
use nfdecoder.Base.{
  ℕ, zero, suc, ◌+◌, ◌-◌, ◌*◌, ◌%◌, ◌^◌, if◌then◌else◌, Bool, Option, none, some, List, [], ◌∷◌,
  ◌++◌, take,
}
use nfdecoder.Base.Bytes.{u16_bytes, u32_bytes}
use nfdecoder.Base.Int.{ℤ, pos, negsuc, to_u64, to_i64}
use nfdecoder.Base.Text.{codes}

-- `decoder->frames() - frame_index`, in `size_t`
abbrev pub frames_left : ℤ → ℕ → ℤ
frames_left frames frame_index = to_i64 ((to_u64 frames + (2 ^ 64 - frame_index % 2 ^ 64)) % 2 ^ 64)

-- `decode_frames` where no duration is given; `half_minute` is `sampleRate() * 30`.
unfoldable pub all_frames : ℤ → ℕ → ℤ → ℤ
all_frames half_minute frame_index (pos n) = frames_left (pos n) frame_index
all_frames half_minute frame_index (negsuc zero) = half_minute
all_frames half_minute frame_index (negsuc (suc n)) = frames_left (negsuc (suc n)) frame_index

-- `rendered` is `render_duration * sampleRate()`.
unfoldable pub decode_frames : Bool → ℤ → ℤ → ℕ → ℤ → ℤ
unfolding all_frames
decode_frames no_duration rendered half_minute frame_index frames =
    if no_duration then all_frames half_minute frame_index frames else rendered

-- `WAVHeader`, of some channels, a rate and a number of samples.
unfoldable pub wav_header : ℕ → ℕ → ℕ → List ℕ
wav_header channels sample_rate samples =
    codes "RIFF"
    ++ u32_bytes (samples * 4 + 44 - 4 - 4)
    ++ codes "WAVE"
    ++ codes "fmt "
    ++ u32_bytes 16
    ++ u16_bytes 3
    ++ u16_bytes channels
    ++ u32_bytes sample_rate
    ++ u32_bytes (sample_rate * channels * 4)
    ++ u16_bytes (channels * 4)
    ++ u16_bytes 32
    ++ codes "data"
    ++ u32_bytes (samples * 4)

-- The floats in memory.
unfoldable pub float_bytes : List ℕ → List ℕ
float_bytes [] = []
float_bytes (x ∷ xs) = u32_bytes x ++ float_bytes xs

-- The decode callback: the file, unless the pointer is null; the tool ends after it. A number of
-- samples that is no `int` is not taken into account.
unfoldable pub on_decoded : ℕ → ℕ → ℕ → Option (List ℕ) → Option (List ℕ)
unfolding wav_header float_bytes
on_decoded channels sample_rate frame_count none = none
on_decoded channels sample_rate frame_count (some samples) = some (
    wav_header channels sample_rate (frame_count * channels)
    ++ float_bytes (take (frame_count * channels) samples))
