-- ===== src/Normaliser/Mono.antt =====
-- One channel mixed into two.
use nfdecoder.Base.{◌*◌, ◌≡◌, refl, ap, arith, List, [], ◌∷◌, length, le→ltb}
use nfdecoder.Base.Run.{ret}
use nfdecoder.Normaliser.Mixing.{Floats, mix, mix_frames, mix_frame, mix_up, total}

module _ {F : Type 0} (floats : Floats F) where
  open floats use {silence, sum, ratio, count}

  -- Each sample twice.
  unfoldable pub doubled : List F → List F
  doubled [] = []
  doubled (x ∷ xs) = x ∷ x ∷ doubled xs

  module _ (from_silence : (x : F) → sum silence x ≡ x)
      (over_one : (x : F) → ratio x (count 1) ≡ x) where
    mix_frames_lem :
        (samples : List F) → mix_frames floats 2 1 (length samples) samples ≡ doubled samples
    unfolding mix_frames mix_frame mix_up total doubled
    mix_frames_lem [] = refl
    mix_frames_lem (x ∷ xs) = rw (from_silence x, over_one x, mix_frames_lem xs) refl

    -- Where silence is neutral in sums and 1 in quotients, the samples of one channel are mixed
    -- into two by taking each of them twice.
    pub mix-doubled :
        (samples : List F) → mix floats 2 1 (length samples) samples ≡ ret (doubled samples)
    unfolding mix
    mix-doubled samples =
        rw (le→ltb (length samples) (length samples * 1) (omega arith))
          (ap ret (mix_frames_lem samples))
