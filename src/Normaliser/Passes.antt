-- ===== src/Normaliser/Passes.antt =====
-- A decoder that has the rate and the channels already.
use nfdecoder.Base.{
  ℕ, ◌*◌, ◌<◌, ◌≡◌, refl, ap, arith, true, List, [], ◌∷◌, length, All, le→ltb, lt→leb, ==_refl,
  take_all,
}
use nfdecoder.Base.Frames.{Decoded}
use nfdecoder.Base.Run.{ret}
use nfdecoder.Normaliser.Mixing.{Floats, mix}
use nfdecoder.Normaliser.{
  Doubles, Libresample, Wrapped, Normaliser, on_mixed, on_samples, on_calls, decode,
}

module _ {F : Type 0} (floats : Floats F) (doubles : Doubles) (lib : Libresample F doubles.Double)
    (W : Wrapped F doubles.Double) where
  open doubles use {is_one}

  -- A call of a decoder of `n` channels has as many samples as its frames.
  abbrev pub IsWhole : ℕ → Decoded F × W.State → Type 0
  IsWhole n (call, w) = (length call.samples ≡ call.frame_count * n) × (W.channels w ≡ n)

  -- The calls, all with one frame index.
  unfoldable pub at_index : ℕ → List (Decoded F × W.State) → List (Decoded F)
  at_index index [] = []
  at_index index ((call, w) ∷ calls) =
      record { frame_index = index; frame_count = call.frame_count; samples = call.samples }
      ∷ at_index index calls

  mix_same :
      (n k : ℕ) (samples : List F) → length samples ≡ k * n → mix floats n n k samples ≡ ret samples
  unfolding mix
  mix_same n k samples whole =
      rw
        (
          le→ltb (length samples) (k * n) (omega (arith, whole)),
          le→ltb n n (omega arith),
          ==_refl n,
        )
        (ap ret (take_all (k * n) samples (omega (arith, whole))))

  on_samples_lem :
      (wanted : ℕ) (d : Normaliser floats doubles lib W) (call : Decoded F)
      → is_one d.factor ≡ true
      → length call.samples ≡ call.frame_count * d.channels
      → W.channels d.wrapped ≡ d.channels
      → on_samples floats doubles lib W wanted d call
        ≡ ret (
          record {
            frame_index = d.frame_index;
            frame_count = call.frame_count;
            samples = call.samples;
          },
          d,
        )
  unfolding on_samples on_mixed
  on_samples_lem wanted d call one whole same =
      rw (same, mix_same d.channels call.frame_count call.samples whole, one) refl

  on_calls_lem :
      (wanted : ℕ) (d : Normaliser floats doubles lib W) (calls : List (Decoded F × W.State))
      → is_one d.factor ≡ true
      → All (IsWhole d.channels) calls
      → (w : W.State) × (on_calls floats doubles lib W wanted d calls
          ≡ ret (at_index d.frame_index calls, record d { wrapped = w }))
  unfolding on_calls at_index
  on_calls_lem wanted d [] one whole = (d.wrapped, refl)
  on_calls_lem wanted d ((call, w) ∷ calls) one ((whole, same), wholes) =
      let (w', h) = on_calls_lem wanted (record d { wrapped = w }) calls one wholes in
      (w', rw (on_samples_lem wanted (record d { wrapped = w }) call one whole same, h) refl)

  -- Where the rates are the same, the buffer has fewer samples than are wanted and each call of the
  -- wrapped decoder has whole frames of the same number of channels, `decode` passes the calls on
  -- with their samples, but with the normaliser's own frame index; that index stays where it was.
  pub decode-passes :
      (wanted : ℕ) (d : Normaliser floats doubles lib W)
      → is_one d.factor ≡ true
      → length d.pcm_buffer < wanted * d.channels
      → All (IsWhole d.channels) (W.decode d.wrapped wanted).0
      → (d' : Normaliser floats doubles lib W) × (decode floats doubles lib W wanted d
          ≡ ret (at_index d.frame_index (W.decode d.wrapped wanted).0, d'))
        × (d'.frame_index ≡ d.frame_index)
        × (d'.wrapped ≡ (W.decode d.wrapped wanted).1)
        × (d'.pcm_buffer ≡ d.pcm_buffer)
  unfolding decode
  decode-passes wanted d one few whole =
      let (w, h) = on_calls_lem wanted d (W.decode d.wrapped wanted).0 one whole in
      (
        record d { wrapped = (W.decode d.wrapped wanted).1 },
        rw (lt→leb (length d.pcm_buffer) (wanted * d.channels) few, one, h) refl,
        refl,
        refl,
        refl,
      )
