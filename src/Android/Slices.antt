-- ===== src/Android/Slices.antt =====
-- Parts of buffers, and what is written into them.
use native.Mathlib.Nat.{add-mul, mul-le-mul_right}
use nfdecoder.Base.{
  ℕ, zero, suc, ◌+◌, ◌*◌, ◌≤◌, ◌≡◌, refl, sym, ap, ◌∙◌, arith, List, [], ◌∷◌, ◌++◌, take, drop,
  length, append_assoc, take-append, drop-append, length-append, length-take, length-drop, take-nil,
}
use nfdecoder.Android.{write_at}

module _ {ℓ} {A : Type ℓ} where
  pub take-add : (m n : ℕ) (xs : List A) → take (m + n) xs ≡ take m xs ++ take n (drop m xs)
  take-add zero n xs = let e : zero + n ≡ n = omega arith in rw e refl
  take-add (suc m) n [] = take-nil A (suc m + n) ∙ sym (take-nil A n)
  take-add (suc m) n (x ∷ xs) =
      let e : suc m + n ≡ suc (m + n) = omega arith in rw e (ap (λ t. x ∷ t) (take-add m n xs))

  -- What is written behind a part of a buffer.
  pub write_at-slice :
      (p n : ℕ) (xs buffer : List A)
      → p + n ≤ length buffer
      → take (n + length xs) (drop p (write_at (p + n) xs buffer)) ≡ take n (drop p buffer) ++ xs
  write_at-slice p n xs buffer inside =
      let a = take p buffer in
      let b = take n (drop p buffer) in
      let rest = drop (p + n + length xs) buffer in
      let size_a : p ≡ length a = sym (length-take p buffer ∙ omega (arith, inside)) in
      let size_b : length b ≡ n =
        length-take n (drop p buffer) ∙ omega (arith, length-drop p buffer, inside) in
      ap (λ t. take (n + length xs) (drop p (t ++ (xs ++ rest)))) (take-add p n buffer)
      ∙ ap (λ t. take (n + length xs) (drop p t)) (append_assoc a b (xs ++ rest))
      ∙ ap (take (n + length xs)) (drop-append p a (b ++ (xs ++ rest)) size_a)
      ∙ ap (take (n + length xs)) (sym (append_assoc b xs rest))
      ∙ take-append (n + length xs) (b ++ xs) rest
          (sym (length-append b xs ∙ ap (λ k. k + length xs) size_b))

  pub slice-append :
      (p n : ℕ) (xs ys : List A)
      → p + n ≤ length xs
      → take n (drop p (xs ++ ys)) ≡ take n (drop p xs)
  slice-append zero zero xs ys inside = refl
  slice-append zero (suc n) [] ys inside = absurd (omega (arith, inside))
  slice-append zero (suc n) (x ∷ xs) ys inside =
      ap (λ t. x ∷ t) (slice-append zero n xs ys (omega (arith, inside)))
  slice-append (suc p) n [] ys inside = absurd (omega (arith, inside))
  slice-append (suc p) n (x ∷ xs) ys inside = slice-append p n xs ys (omega (arith, inside))

  pub take_none : (n : ℕ) (xs : List A) → n ≡ 0 → take n xs ≡ []
  take_none n xs e = ap (λ k. take k xs) e

  pub length-write_at :
      (p : ℕ) (xs buffer : List A)
      → p + length xs ≤ length buffer
      → length (write_at p xs buffer) ≡ length buffer
  length-write_at p xs buffer inside =
      length-append (take p buffer) (xs ++ drop (p + length xs) buffer)
      ∙ omega (
        arith,
        length-append xs (drop (p + length xs) buffer),
        length-take p buffer,
        length-drop (p + length xs) buffer,
        inside,
      )

pub no_frames : (n c : ℕ) → n ≡ 0 → n * c ≡ 0
no_frames n c e = rw e (omega arith)

-- Some frames behind others fit where all of them do.
pub area : (r n c capacity size : ℕ) → r + n ≤ capacity → size ≡ capacity * c → r * c + n * c ≤ size
area r n c capacity size h e =
    omega (arith, add-mul r n c, mul-le-mul_right {m = r + n} {n = capacity} c h, e)
