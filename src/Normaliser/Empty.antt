-- ===== src/Normaliser/Empty.antt =====
-- A call of the wrapped decoder with no frames.
use nfdecoder.Base.{
  ℕ, ◌*◌, ◌<◌, ◌≡◌, refl, arith, ltb, ◌==◌, false, List, [], length, Bool-cases, inl, inr, le→ltb,
  ne→==,
}
use nfdecoder.Base.Frames.{Decoded}
use nfdecoder.Base.Run.{ret, fault}
use nfdecoder.Normaliser.Mixing.{Floats, mix, mix_frames}
use nfdecoder.Normaliser.{Doubles, Libresample, Wrapped, Normaliser, on_mixed, on_samples}

module _ {F : Type 0} (floats : Floats F) (doubles : Doubles) (lib : Libresample F doubles.Double)
    (W : Wrapped F doubles.Double) where
  open doubles use {is_one, resampled}

  mix_nothing :
      (channels decoder_channels : ℕ) (samples : List F)
      → 0 < channels
      → mix floats channels decoder_channels 0 samples ≡ ret []
  unfolding mix mix_frames
  mix_nothing channels decoder_channels samples more =
      elim (Bool-cases (ltb channels decoder_channels)) [
        | inl e ↦ elim (Bool-cases (channels == decoder_channels)) [
          | inl s ↦
              rw
                (
                  no_frames (length samples) decoder_channels,
                  e,
                  ne→== channels 0 (omega (arith, more)),
                  s,
                  zero_of channels,
                )
                refl
          | inr s ↦
              rw
                (
                  no_frames (length samples) decoder_channels,
                  e,
                  ne→== channels 0 (omega (arith, more)),
                  s,
                )
                refl
        ]
        | inr e ↦ elim (Bool-cases (channels == decoder_channels)) [
          | inl s ↦ rw (no_frames (length samples) decoder_channels, e, s, zero_of channels) refl
          | inr s ↦ rw (no_frames (length samples) decoder_channels, e, s) refl
        ]
      ]
    where
      no_frames : (l n : ℕ) → ltb l (0 * n) ≡ false
      no_frames l n = le→ltb l (0 * n) (omega arith)

      zero_of : (n : ℕ) → 0 * n ≡ 0
      zero_of n = omega arith

  -- Where the rates are not the same, there are channels and the resampled number of 0 frames is 0
  -- * factor + 1 = 1, the callback for no frames is undefined: its copy of a frame reads past the
  -- mixed samples.
  pub on_samples-empty :
      (wanted : ℕ) (d : Normaliser floats doubles lib W) (call : Decoded F)
      → 0 < d.channels
      → is_one d.factor ≡ false
      → resampled d.factor 0 ≡ 1
      → call.frame_count ≡ 0
      → on_samples floats doubles lib W wanted d call ≡ fault
  unfolding on_samples on_mixed
  on_samples-empty wanted d call more other_rate one_more none_delivered =
      rw
        (
          none_delivered,
          mix_nothing d.channels (W.channels d.wrapped) call.samples more,
          other_rate,
          one_more,
        )
        refl
