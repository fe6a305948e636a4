-- ===== src/Cli/Written.antt =====
-- The file that the tool writes, read by the WAVE decoder.
use native.Mathlib.Nat.{mul-div_cancel_left}
use nfdecoder.Base.{
  ℕ, ◌+◌, ◌-◌, ◌*◌, ◌/◌, ◌%◌, ◌^◌, ◌<◌, ◌≡◌, refl, ap, sym, ◌∙◌, arith, true, some, List, [], ◌∷◌,
  ◌++◌, length, map, All, take_all, append-nil,
}
use nfdecoder.Base.Bytes.{u16_bytes, u32_bytes}
use nfdecoder.Base.Event.{done}
use nfdecoder.Base.Text.{codes}
use nfdecoder.Base.Run.{ret}
use nfdecoder.Provider.{DataProvider, IsStream}
use nfdecoder.Wav.{Wav, load, header_errors, chunk_type_is}
use nfdecoder.Wav.Fmt
use nfdecoder.Wav.Load.{WaveFile, IsWaveFile, IsLoaded, file_bytes, frame_bytes, load_lem}
use nfdecoder.Wav.Chunks.{Stands}
use nfdecoder.Wav.Decode.{Floats, words, little_endian, decode}
use nfdecoder.Wav.Decode.Float.{decode_float_lem}
use nfdecoder.Cli.{wav_header, float_bytes, on_decoded}

-- A bit pattern of 32 bits.
abbrev pub IsBits : ℕ → Type 0
IsBits x = x < 2 ^ 32

length-float_bytes : (xs : List ℕ) → length (float_bytes xs) ≡ length xs * 4
unfolding float_bytes
length-float_bytes [] = refl
length-float_bytes (x ∷ xs) = omega (arith, length-float_bytes xs)

bits : (x : ℕ) → x < 2 ^ 32 → little_endian (u32_bytes x) ≡ x
bits x small = omega (arith, small)

words-float_bytes : (xs : List ℕ) → All IsBits xs → words (length xs) 4 (float_bytes xs) ≡ xs
unfolding words float_bytes
words-float_bytes [] small = refl
words-float_bytes (x ∷ xs) (small, smalls) = rw (bits x small, words-float_bytes xs smalls) refl

-- The parts of the file.
abbrev pub written : ℕ → ℕ → List ℕ → WaveFile
written channels sample_rate samples = record {
  header = codes "RIFF" ++ u32_bytes (length samples * 4 + 44 - 4 - 4) ++ codes "WAVE";
  before = [];
  fmt =
      u32_bytes 16
      ++ u16_bytes 3
      ++ u16_bytes channels
      ++ u32_bytes sample_rate
      ++ u32_bytes (sample_rate * channels * 4)
      ++ u16_bytes (channels * 4)
      ++ u16_bytes 32;
  between = [];
  samples = float_bytes samples;
  rest = [];
}

file_bytes-written :
    (channels sample_rate : ℕ) (samples : List ℕ)
    → wav_header channels sample_rate (length samples) ++ float_bytes samples
      ≡ file_bytes (written channels sample_rate samples)
unfolding wav_header
file_bytes-written channels sample_rate samples =
    rw (length-float_bytes samples, append-nil (float_bytes samples)) refl

channels_of : (n : ℕ) → n < 2 ^ 16 → n % 256 + n / 256 % 256 * 256 ≡ n
channels_of n small = omega (arith, small)

rate_of :
    (n : ℕ)
    → n < 2 ^ 32
    → n % 256 + n / 256 % 256 * 256 + (n / 65536 % 256 + n / 16777216 % 256 * 256) * 65536 ≡ n
rate_of n small = omega (arith, small)

module _ (channels sample_rate : ℕ) (samples : List ℕ) (some_channels : 0 < channels)
    (few : channels < 2 ^ 16) (rate : sample_rate < 2 ^ 32)
    (small : length samples * 4 < 2 ^ 32) where
  abbrev fmt : List ℕ
  fmt = (written channels sample_rate samples).fmt

  fmt-channels : Fmt.channels fmt ≡ channels
  fmt-channels = channels_of channels few

  fmt-sample_rate : Fmt.sample_rate fmt ≡ sample_rate
  fmt-sample_rate = rate_of sample_rate rate

  frame_bytes_lem : frame_bytes fmt ≡ 4 * channels
  frame_bytes_lem = ap (λ n. 4 * n) fmt-channels

  written-IsWaveFile : IsWaveFile (written channels sample_rate samples)
  written-IsWaveFile = record {
    header_size = refl;
    before_others = tt;
    fmt_size = refl;
    some_frame = omega (arith, frame_bytes_lem, some_channels);
    between_others = tt;
    small = omega (arith, small, length-float_bytes samples);
  }

  on_decoded_lem :
      (n : ℕ)
      → length samples ≡ n * channels
      → on_decoded channels sample_rate n (some samples)
        ≡ some (file_bytes (written channels sample_rate samples))
  unfolding on_decoded
  on_decoded_lem n whole =
      rw (sym whole, take_all (length samples) samples (omega arith))
        (ap some (file_bytes-written channels sample_rate samples))

  no_errors : header_errors (written channels sample_rate samples).header ≡ []
  unfolding header_errors chunk_type_is
  no_errors = refl

  frames_lem :
      (n : ℕ) → length samples ≡ n * channels → length (float_bytes samples) / frame_bytes fmt ≡ n
  frames_lem n whole =
      rw (frame_bytes_lem, size) (mul-div_cancel_left n (omega (arith, some_channels)))
    where
      size : length (float_bytes samples) ≡ 4 * channels * n
      size = grind (arith, length-float_bytes samples, whole)

  module _ (P : DataProvider)
      (stream : IsStream P (file_bytes (written channels sample_rate samples)))
      (floats : Floats) where
    abbrev content : List ℕ
    content = file_bytes (written channels sample_rate samples)

    loads :
        (w : Wav P) (u : ℕ → List ℕ)
        → Stands P content stream w 0
        → length w.header ≡ 12
        → (w' : Wav P) × (load P 2 w u ≡ ret (done true ∷ [], w'))
          × IsLoaded P (written channels sample_rate samples) w'
          × stream.At w'.provider w'.data_offset
    loads w u a h =
        let (w', e, l, b) =
          load_lem P (written channels sample_rate samples) written-IsWaveFile stream w u 0 a h in
        (w', e ∙ ap (λ early. ret (early ++ (done true ∷ []), w')) no_errors, l, b)

    decodes :
        (w : Wav P) (n : ℕ)
        → 0 < n
        → length samples ≡ n * channels
        → All IsBits samples
        → IsLoaded P (written channels sample_rate samples) w
        → stream.At w.provider w.data_offset
        → (v : Wav P) × (decode floats P w n
            ≡ ret (
              record {
                frame_index = 0;
                frame_count = n;
                samples = some (map floats.of_bits samples);
              },
              v,
            ))
    decodes w n more whole patterns l b =
        let count : w.channels ≡ channels = l.channels ∙ fmt-channels in
        let words_lem : words (n * w.channels) 4 (float_bytes samples) ≡ samples =
          rw (count, sym whole) (words-float_bytes samples patterns) in
        let (s, e, b') =
          decode_float_lem floats P content stream w w.data_offset n (float_bytes samples) []
            (record {
              there = b;
              left = l.samples_begin;
              inside = omega (arith, l.at_start, l.frame_count, frames_lem n whole, more);
              some_frames = more;
              some_channels = omega (arith, count, some_channels);
            })
            (record { sized = rw l.format refl; format = rw l.format refl })
            (omega (arith, length-float_bytes samples, whole, ap (λ c. n * c) count)) in
        (
          record w { provider = s },
          e
              ∙ ap (λ o. ret (o, record w { provider = s }))
                  (ap
                      (λ xs. record {
                        frame_index = w.frame_index;
                        frame_count = n;
                        samples = some (map floats.of_bits xs);
                      })
                      words_lem
                    ∙ ap
                        (λ i. record {
                          frame_index = i;
                          frame_count = n;
                          samples = some (map floats.of_bits samples);
                        })
                        l.at_start),
        )

    -- For some channels and some frames, whose numbers and rate fit into the fields of the header,
    -- the file that the tool writes for the samples of a decoder is loaded by the WAVE decoder on
    -- any stream of it, without an error and in two rounds, with the channels, the rate and the
    -- number of frames that were decoded; and a decode of all its frames delivers the floats that
    -- were written, in order.
    pub written-decodes :
        (w : Wav P) (u : ℕ → List ℕ) (n : ℕ)
        → Stands P (file_bytes (written channels sample_rate samples)) stream w 0
        → length w.header ≡ 12
        → 0 < n
        → length samples ≡ n * channels
        → All IsBits samples
        → (w' v : Wav P) × (on_decoded channels sample_rate n (some samples)
            ≡ some (file_bytes (written channels sample_rate samples)))
          × (load P 2 w u ≡ ret (done true ∷ [], w'))
          × (w'.channels ≡ channels)
          × (w'.sample_rate ≡ sample_rate)
          × (w'.frames ≡ n)
          × (decode floats P w' n
              ≡ ret (
                record {
                  frame_index = 0;
                  frame_count = n;
                  samples = some (map floats.of_bits samples);
                },
                v,
              ))
    written-decodes w u n a h more whole patterns =
        let (w', e, l, b) = loads w u a h in
        let (v, d) = decodes w' n more whole patterns l b in
        (
          w',
          v,
          on_decoded_lem n whole,
          e,
          l.channels ∙ fmt-channels,
          l.sample_rate ∙ fmt-sample_rate,
          l.frame_count ∙ frames_lem n whole,
          d,
        )
