-- ===== src/Avcodec/Endians.antt =====
-- source/DecoderAVCodecImplementation.cpp: xorSwap and swap_endians, which turn a buffer around in
-- place. A buffer is the list of its bytes.
use mathlib.Core.Path.{subst}
use native.Mathlib.Decide.{dec_lt, ℕ_discrete}
use nfdecoder.Base.{
  ℕ, zero, suc, ◌+◌, ◌-◌, ◌/◌, ◌<◌, ◌≤◌, ◌≡◌, ◌≢◌, ◌⊎◌, inl, inr, refl, sym, ap, ◌∙◌, arith,
  bit_xor, ◌==◌, ==_iff, ne→==, if◌then◌else◌, Bool, true, false, ◌&&◌, List, [], ◌∷◌, length,
  get_or, set, true_below, true_below_lem,
}
use nfdecoder.Base.Bytes.{AreBytes}

-- The two bytes after the three assignments.
unfoldable pub xor_swap : ℕ → ℕ → ℕ × ℕ
xor_swap x y = let x' = bit_xor x y in let y' = bit_xor y x' in (bit_xor x' y', y')

-- A round: nothing happens where both pointers are the same.
unfoldable pub swap_at : ℕ → List ℕ → List ℕ
unfolding xor_swap
swap_at i memory =
    let j = length memory - i - 1 in
    let (x, y) = xor_swap (get_or memory i 0) (get_or memory j 0) in
    if i == j then memory else set (set memory i x) j y

-- The rounds from the `i`-th on.
unfoldable pub swap_from : ℕ → ℕ → List ℕ → List ℕ
unfolding swap_at
swap_from zero i memory = memory
swap_from (suc rounds) i memory = swap_from rounds (i + 1) (swap_at i memory)

unfoldable pub swap_endians : List ℕ → List ℕ
unfolding swap_from
swap_endians memory = swap_from (length memory / 2) 0 memory

swaps : ℕ → ℕ → Bool
unfolding xor_swap
swaps x y = ((xor_swap x y).0 == y) && ((xor_swap x y).1 == x)

-- All pairs of bytes, by evaluation.
every : true_below 256 (λ x. true_below 256 (λ y. swaps x y)) ≡ true
unfolding swaps true_below xor_swap
every = refl

xor_swap_lem : (x y : ℕ) → x < 256 → y < 256 → xor_swap x y ≡ (y, x)
unfolding swaps xor_swap
xor_swap_lem x y hx hy =
    let e =
      true_below_lem 256 (swaps x) y
        (true_below_lem 256 (λ x. true_below 256 (λ y. swaps x y)) x every hx) hy in
    let (p, q) = both _ _ e in
    ap (λ v. (v, bit_xor y (bit_xor x y))) ((==_iff _ _).0 p) ∙ ap (λ v. (y, v)) ((==_iff _ _).0 q)
  where
    both : (a b : Bool) → (a && b) ≡ true → (a ≡ true) × (b ≡ true)
    both true true e = (refl, refl)
    both true false e = cc
    both false b e = cc

length-set : (m : List ℕ) (i v : ℕ) → length (set m i v) ≡ length m
length-set [] i v = refl
length-set (x ∷ m) zero v = refl
length-set (x ∷ m) (suc i) v = ap suc (length-set m i v)

get_or-set : (m : List ℕ) (i v : ℕ) → i < length m → get_or (set m i v) i 0 ≡ v
get_or-set [] i v h = absurd (omega arith)
get_or-set (x ∷ m) zero v h = refl
get_or-set (x ∷ m) (suc i) v h = get_or-set m i v (omega arith)

get_or-set_other : (m : List ℕ) (i j v : ℕ) → i ≢ j → get_or (set m i v) j 0 ≡ get_or m j 0
get_or-set_other [] i j v h = refl
get_or-set_other (x ∷ m) zero zero v h = absurd (h refl)
get_or-set_other (x ∷ m) zero (suc j) v h = refl
get_or-set_other (x ∷ m) (suc i) zero v h = refl
get_or-set_other (x ∷ m) (suc i) (suc j) v h = get_or-set_other m i j v (λ e. h (ap suc e))

pub get_or-AreBytes : (m : List ℕ) (i : ℕ) → AreBytes m → get_or m i 0 < 256
get_or-AreBytes [] i h = omega arith
get_or-AreBytes (x ∷ m) zero h = h.0
get_or-AreBytes (x ∷ m) (suc i) h = get_or-AreBytes m i h.1

-- `m'` is `m` with the first `i` bytes and the last `i` bytes changed over.
record Turned (i : ℕ) (m m' : List ℕ) : Type 0 where
  size : length m' ≡ length m
  outer :
      (j : ℕ)
      → j < length m
      → (j < i) ⊎ (length m ≤ j + i)
      → get_or m' j 0 ≡ get_or m (length m - j - 1) 0
  inner : (j : ℕ) → i ≤ j → j + i < length m → get_or m' j 0 ≡ get_or m j 0

swap_at_lem :
    (i : ℕ) (m m' : List ℕ)
    → AreBytes m
    → i + 1 ≤ length m / 2
    → Turned i m m'
    → swap_at i m'
      ≡ set (set m' i (get_or m (length m - i - 1) 0)) (length m - i - 1) (get_or m i 0)
unfolding swap_at xor_swap
swap_at_lem i m m' bytes h t =
    let k = length m - i - 1 in
    let swapped : xor_swap (get_or m' i 0) (get_or m' k 0) ≡ (get_or m k 0, get_or m i 0) =
      ap (λ x. xor_swap x (get_or m' k 0)) (t.inner i (omega arith) (omega (arith, h)))
      ∙ ap (xor_swap (get_or m i 0)) (t.inner k (omega (arith, h)) (omega (arith, h)))
      ∙ xor_swap_lem _ _ (get_or-AreBytes m i bytes) (get_or-AreBytes m k bytes) in
    rw t.size (
      ap (λ (p : ℕ × ℕ). if i == k then m' else set (set m' i p.0) k p.1) swapped
      ∙ rw (ne→== i k (omega (arith, h))) refl)

swapped-Turned :
    (i k a b : ℕ) (m m' : List ℕ)
    → i + k + 1 ≡ length m
    → i < k
    → a ≡ get_or m k 0
    → b ≡ get_or m i 0
    → Turned i m m'
    → Turned (i + 1) m (set (set m' i a) k b)
swapped-Turned i k a b m m' e less ea eb t = record {
  size = length-set _ k b ∙ length-set m' i a ∙ t.size;
  outer = λ j inside side. elim (ℕ_discrete j k) [
    | yes at ↦ rw at (
        get_or-set _ k b (rw (length-set m' i a, t.size) (omega (arith, e)))
        ∙ eb
        ∙ ap (λ p. get_or m p 0) (omega (arith, e)))
    | no off ↦ get_or-set_other _ k j b (λ p. off (sym p)) ∙ elim (ℕ_discrete j i) [
      | yes at ↦ rw at (
          get_or-set m' i a (rw t.size (omega (arith, e, less)))
          ∙ ea
          ∙ ap (λ p. get_or m p 0) (omega (arith, e)))
      | no apart ↦
          get_or-set_other m' i j a (λ p. apart (sym p))
          ∙ t.outer j inside (outside j side off apart)
    ]
  ];
  inner = λ j low high.
      get_or-set_other _ k j b (λ p. omega (arith, p, e, high))
      ∙ get_or-set_other m' i j a (λ p. omega (arith, p, low))
      ∙ t.inner j (omega (arith, low)) (omega (arith, high));
}
  where
    outside :
        (j : ℕ)
        → (j < i + 1) ⊎ (length m ≤ j + (i + 1))
        → j ≢ k
        → j ≢ i
        → (j < i) ⊎ (length m ≤ j + i)
    outside j (inl s) off apart = inl (omega (arith, s, apart))
    outside j (inr s) off apart = inr (omega (arith, s, off, e))

swap_from-Turned :
    (rounds i : ℕ) (m m' : List ℕ)
    → AreBytes m
    → i + rounds ≡ length m / 2
    → Turned i m m'
    → Turned (length m / 2) m (swap_from rounds i m')
unfolding swap_from
swap_from-Turned zero i m m' bytes e t =
    let same : i ≡ length m / 2 = omega (arith, e) in subst (λ k. Turned k m m') same t
swap_from-Turned (suc rounds) i m m' bytes e t =
    let inside : i + 1 ≤ length m / 2 = omega (arith, e) in
    swap_from-Turned rounds (i + 1) m (swap_at i m') bytes (omega (arith, e)) (
      subst (Turned (i + 1) m) (sym (swap_at_lem i m m' bytes inside t)) (
        swapped-Turned i (length m - i - 1) _ _ m m' (omega (arith, inside)) (omega (arith, inside))
          refl refl t))

-- swap_endians turns a buffer of bytes around: its length stays the same, and each byte comes from
-- the position that is as far from the end as its own is from the start.
pub swap_endians-get_or :
    (m : List ℕ)
    → AreBytes m
    → (length (swap_endians m) ≡ length m)
      × ((j : ℕ) → j < length m → get_or (swap_endians m) j 0 ≡ get_or m (length m - j - 1) 0)
unfolding swap_endians
swap_endians-get_or m bytes =
    let t = swap_from-Turned (length m / 2) 0 m m bytes (omega arith) (record {
      size = refl;
      outer = λ j inside side. absurd (nowhere j inside side);
      inner = λ j low high. refl;
    }) in
    (
      t.size,
      λ j inside. elim (dec_lt (j + length m / 2) (length m)) [
        | no s ↦ t.outer j inside (inr (omega (arith, s)))
        | yes s ↦ elim (dec_lt j (length m / 2)) [
          | yes q ↦ t.outer j inside (inl q)
          | no q ↦ t.inner j (omega (arith, q)) s ∙ ap (λ p. get_or m p 0) (omega (arith, s, q))
        ]
      ],
    )
  where
    nowhere : (j : ℕ) → j < length m → (j < 0) ⊎ (length m ≤ j + 0) → ⊥
    nowhere j inside (inl s) = omega (arith, s)
    nowhere j inside (inr s) = omega (arith, s, inside)
