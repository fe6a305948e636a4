-- ===== src/Normaliser/Stereo.antt =====
-- More channels mixed into two.
use nfdecoder.Base.{
  ℕ, zero, suc, ◌+◌, ◌-◌, ◌*◌, ◌/◌, ◌%◌, ◌≡◌, refl, ap, ◌∙◌, arith, List, [], ◌∷◌, get_or, ==_refl,
  ne→==,
}
use nfdecoder.Normaliser.Mixing.{Floats, add_at, fold_channels, mix_down}

module _ {F : Type 0} (floats : Floats F) where
  open floats use {silence, sum, ratio, count}

  -- Every other channel, `n` of them from `j` on, added to `x` in turn.
  unfoldable pub every_other : ℕ → ℕ → List F → F → F
  every_other j zero frame x = x
  every_other j (suc n) frame x = every_other (j + 2) n frame (sum x (get_or frame j silence))

  fold_pair :
      (k n : ℕ) (frame : List F) (x y : F)
      → fold_channels floats 2 (k * 2) (suc (suc n)) frame (x ∷ y ∷ [])
        ≡ fold_channels floats 2
            (k * 2 + 1 + 1)
            n
            frame
            (sum x (get_or frame (k * 2) silence) ∷ sum y (get_or frame (k * 2 + 1) silence) ∷ [])
  unfolding fold_channels add_at
  fold_pair k n frame x y = rw (even k, odd k) refl
    where
      even : (k : ℕ) → k * 2 % 2 ≡ 0
      even k = omega arith

      odd : (k : ℕ) → (k * 2 + 1) % 2 ≡ 1
      odd k = omega arith

  fold_lem :
      (q k : ℕ) (frame : List F) (x y : F)
      → fold_channels floats 2 (k * 2) (q * 2) frame (x ∷ y ∷ [])
        ≡ every_other (k * 2) q frame x ∷ every_other (k * 2 + 1) q frame y ∷ []
  unfolding fold_channels every_other
  fold_lem zero k frame x y = refl
  fold_lem (suc q) k frame x y =
      ap (λ n. fold_channels floats 2 (k * 2) n frame (x ∷ y ∷ [])) (pairs q)
      ∙ fold_pair k (q * 2) frame x y
      ∙ ap (λ j. fold_channels floats 2 j (q * 2) frame (x' ∷ y' ∷ [])) (next k)
      ∙ fold_lem q (k + 1) frame x' y'
      ∙ ap (λ j. every_other j q frame x' ∷ every_other ((k + 1) * 2 + 1) q frame y' ∷ []) (first k)
      ∙ ap (λ j. every_other (k * 2 + 2) q frame x' ∷ every_other j q frame y' ∷ []) (second k)
    where
      x' : F
      x' = sum x (get_or frame (k * 2) silence)

      y' : F
      y' = sum y (get_or frame (k * 2 + 1) silence)

      pairs : (q : ℕ) → suc q * 2 ≡ suc (suc (q * 2))
      pairs q = omega arith

      next : (k : ℕ) → k * 2 + 1 + 1 ≡ (k + 1) * 2
      next k = omega arith

      first : (k : ℕ) → (k + 1) * 2 ≡ k * 2 + 2
      first k = omega arith

      second : (k : ℕ) → (k + 1) * 2 + 1 ≡ k * 2 + 1 + 2
      second k = omega arith

  mix_down-even :
      (q : ℕ) (frame : List F)
      → mix_down floats 2 (q * 2) frame
        ≡ ratio (every_other 0 q frame silence) (count q)
          ∷ ratio (every_other 1 q frame silence) (count q)
          ∷ []
  unfolding mix_down
  mix_down-even q frame =
      rw (no_rest q, ==_refl (q * 2), half q, fold_lem q 0 frame silence silence) refl
    where
      no_rest : (q : ℕ) → q * 2 - q * 2 % 2 ≡ q * 2
      no_rest q = omega arith

      half : (q : ℕ) → q * 2 / 2 ≡ q
      half q = omega arith

  mix_down-odd :
      (q : ℕ) (frame : List F)
      → mix_down floats 2 (q * 2 + 1) frame
        ≡ ratio (sum (every_other 0 q frame silence) (get_or frame (q * 2) silence)) (count q)
          ∷ ratio (sum (every_other 1 q frame silence) (get_or frame (q * 2) silence)) (count q)
          ∷ []
  unfolding mix_down
  mix_down-odd q frame =
      rw
        (
          but_one q,
          one_less q,
          ne→== (q * 2) (q * 2 + 1) (omega arith),
          half q,
          fold_lem q 0 frame silence silence,
        )
        refl
    where
      but_one : (q : ℕ) → q * 2 + 1 - (q * 2 + 1) % 2 ≡ q * 2
      but_one q = omega arith

      one_less : (q : ℕ) → q * 2 + 1 - 1 ≡ q * 2
      one_less q = omega arith

      half : (q : ℕ) → (q * 2 + 1) / 2 ≡ q
      half q = omega arith

  -- A frame of 2 q channels is mixed into two by adding up the channels with even and those with
  -- odd numbers, each in order, and dividing by q. With one channel more, that one is added to both
  -- sums, which are divided by q all the same.
  pub mix_down-stereo :
      (q : ℕ) (frame : List F)
      → (mix_down floats 2 (q * 2) frame
          ≡ ratio (every_other 0 q frame silence) (count q)
            ∷ ratio (every_other 1 q frame silence) (count q)
            ∷ [])
        × (mix_down floats 2 (q * 2 + 1) frame
            ≡ ratio (sum (every_other 0 q frame silence) (get_or frame (q * 2) silence)) (count q)
              ∷ ratio (sum (every_other 1 q frame silence) (get_or frame (q * 2) silence)) (count q)
              ∷ [])
  mix_down-stereo q frame = (mix_down-even q frame, mix_down-odd q frame)
