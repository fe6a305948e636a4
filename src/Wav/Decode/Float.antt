-- ===== src/Wav/Decode/Float.antt =====
-- What `decode` delivers from a file of floats.
use native.Mathlib.Nat.{mul-div_cancel_left}
use nfdecoder.Base.{
  ℕ, ◌+◌, ◌*◌, ◌<◌, ◌≡◌, refl, arith, sym, ◌∙◌, some, List, map, length, lt→leb, ne→==,
}
use nfdecoder.Base.Run.{ret}
use nfdecoder.Provider.{DataProvider, IsStream}
use nfdecoder.Provider.Stream.{read_prefix}
use nfdecoder.Wav.{Wav}
use nfdecoder.Wav.Fmt
use nfdecoder.Wav.Decode.{Floats, words, decode_float, decode}
use nfdecoder.Wav.Decode.Pcm.{IsReady, receive_whole}

module _ (floats : Floats) (P : DataProvider) (content : List ℕ) (stream : IsStream P content) where
  -- The decoder of a file of 32-bit floats.
  pub record IsFloat (w : Wav P) : Type 0 where
    pub sized : Fmt.sample_size w.fmt ≡ 4
    pub format : Fmt.audio_format w.fmt ≡ 3

  to_float :
      (w : Wav P) (n p : ℕ) (samples rest : List ℕ)
      → IsReady floats P content stream w p n samples rest
      → IsFloat w
      → decode floats P w n ≡ decode_float floats P w n
  unfolding decode
  to_float w n p samples rest r f =
      rw
        (
          lt→leb w.frame_index w.frames r.inside,
          ne→== n 0 (omega (arith, r.some_frames)),
          ne→== w.channels 0 (omega (arith, r.some_channels)),
          ne→== (Fmt.sample_size w.fmt) 0 (omega (arith, f.sized)),
          f.format,
        )
        refl

  -- Before enough samples of a file of floats, `decode` of some frames delivers exactly those
  -- frames, and each sample is the float of its four bytes.
  pub decode_float_lem :
      (w : Wav P) (p n : ℕ) (samples rest : List ℕ)
      → IsReady floats P content stream w p n samples rest
      → IsFloat w
      → length samples ≡ n * w.channels * 4
      → (s : P.State) × (decode floats P w n
          ≡ ret (
            record {
              frame_index = w.frame_index;
              frame_count = n;
              samples = some (map floats.of_bits (words (n * w.channels) 4 samples));
            },
            record w { provider = s },
          ))
        × stream.At s (p + length samples)
  unfolding decode_float
  decode_float_lem w p n samples rest r f e =
      let item = Fmt.sample_size w.fmt * w.channels in
      let whole : length samples ≡ item * n = grind (arith, e, f.sized) in
      let some_item : 0 < item = grind (arith, f.sized, r.some_channels) in
      let (s, answer, b) =
        read_prefix P content stream w.provider p item n samples rest r.there r.left some_item
          r.some_frames (sym whole) in
      (
        s,
        to_float w n p samples rest r f
            ∙ rw
                (
                  answer,
                  receive_whole floats P content stream (n * w.channels * 4)
                      (record { value = item * n; bytes = samples; next = s }) e,
                  mul-div_cancel_left n some_item,
                )
                refl,
        rw whole b,
      )
