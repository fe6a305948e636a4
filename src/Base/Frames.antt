-- ===== src/Base/Frames.antt =====
-- Frames of samples: one sample of each channel, one frame behind the other.
use nfdecoder.Base.{
  ℕ, zero, suc, ◌+◌, ◌*◌, ◌≡◌, refl, arith, ap, ◌∙◌, List, [], ◌∷◌, ◌++◌, length, append_assoc,
  length-append,
}

-- A call of a decode callback with some frames.
pub record Decoded (F : Type 0) : Type 0 where
  pub frame_index : ℕ
  pub frame_count : ℕ
  pub samples : List F

module _ {ℓ} {A : Type ℓ} where
  -- The samples of frame `i`, from a channel on.
  unfoldable pub frame : (ℕ → ℕ → A) → ℕ → ℕ → ℕ → List A
  frame s i channel zero = []
  frame s i channel (suc n) = s channel i ∷ frame s i (channel + 1) n

  -- The samples `s channel i` of some frames, from a frame on.
  unfoldable pub interleave : (ℕ → ℕ → A) → ℕ → ℕ → ℕ → List A
  unfolding frame
  interleave s channels i zero = []
  interleave s channels i (suc n) = frame s i 0 channels ++ interleave s channels (i + 1) n

  pub length-frame : (s : ℕ → ℕ → A) (i channel n : ℕ) → length (frame s i channel n) ≡ n
  unfolding frame
  length-frame s i channel zero = refl
  length-frame s i channel (suc n) = ap suc (length-frame s i (channel + 1) n)

  pub length-interleave : (s : ℕ → ℕ → A) (c i n : ℕ) → length (interleave s c i n) ≡ n * c
  unfolding interleave
  length-interleave s c i zero = omega arith
  length-interleave s c i (suc n) = grind (
    arith,
    length-append (frame s i 0 c) (interleave s c (i + 1) n),
    length-frame s i 0 c,
    length-interleave s c (i + 1) n,
  )

  pub interleave-add :
      (s : ℕ → ℕ → A) (c i m n : ℕ)
      → interleave s c i m ++ interleave s c (i + m) n ≡ interleave s c i (m + n)
  unfolding interleave
  interleave-add s c i zero n =
      ap (λ k. interleave s c k n) (plus_zero i) ∙ ap (interleave s c i) (zero_plus n)
    where
      plus_zero : (k : ℕ) → k + 0 ≡ k
      plus_zero k = omega arith

      zero_plus : (k : ℕ) → k ≡ 0 + k
      zero_plus k = omega arith
  interleave-add s c i (suc m) n =
      append_assoc (frame s i 0 c) (interleave s c (i + 1) m) (interleave s c (i + suc m) n)
      ∙ ap (λ t. frame s i 0 c ++ t)
          (ap (λ k. interleave s c (i + 1) m ++ interleave s c k n) (later i m)
            ∙ interleave-add s c (i + 1) m n)
      ∙ ap (interleave s c i) (count m n)
    where
      later : (i m : ℕ) → i + suc m ≡ i + 1 + m
      later i m = omega arith

      count : (m n : ℕ) → suc (m + n) ≡ suc m + n
      count m n = omega arith

  frame-shift :
      (s : ℕ → ℕ → A) (p i channel n : ℕ)
      → frame (λ j k. s j (p + k)) i channel n ≡ frame s (p + i) channel n
  unfolding frame
  frame-shift s p i channel zero = refl
  frame-shift s p i channel (suc n) =
      ap (λ t. s channel (p + i) ∷ t) (frame-shift s p i (channel + 1) n)

  pub interleave-shift :
      (s : ℕ → ℕ → A) (p c i n : ℕ)
      → interleave (λ j k. s j (p + k)) c i n ≡ interleave s c (p + i) n
  unfolding interleave
  interleave-shift s p c i zero = refl
  interleave-shift s p c i (suc n) =
      ap (λ t. t ++ interleave (λ j k. s j (p + k)) c (i + 1) n) (frame-shift s p i 0 c)
      ∙ ap (λ t. frame s (p + i) 0 c ++ t)
          (interleave-shift s p c (i + 1) n ∙ ap (λ k. interleave s c k n) (next p i))
    where
      next : (p i : ℕ) → p + (i + 1) ≡ p + i + 1
      next p i = omega arith
