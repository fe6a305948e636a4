-- ===== src/Avcodec/Index.antt =====
-- The fragment that moofIndex finds for a position in the file.
use native.Mathlib.Decide.{dec_lt}
use nfdecoder.Base.{
  ℕ, suc, ◌+◌, ◌%◌, ◌^◌, ◌≤◌, ◌<◌, ◌≡◌, ◌⊎◌, inl, inr, refl, ap, ◌∙◌, arith, Option, none, some,
  List, [], ◌∷◌, take, length, le→leb, lt→leb, lt→ltb, le→ltb,
}
use nfdecoder.Avcodec.Search.{SidxFrame, Moofs, moof_from, moof_index}

-- The bytes that some entries are the sizes of.
unfoldable pub total_size : List SidxFrame → ℕ
total_size [] = 0
total_size (sidx ∷ frames) = sidx.referenced_size + total_size frames

-- The position `b` is in the `k`-th of the ranges that stand one behind the other from `start` on.
abbrev pub IsIn : ℕ → ℕ → List SidxFrame → ℕ → Type 0
IsIn b start frames k =
    (k < length frames)
    × (start + total_size (take k frames) ≤ b)
    × (b < start + total_size (take (suc k) frames))

-- What the loop finds, if the file is smaller than 2 GiB.
Finds : ℕ → ℕ → ℕ → List SidxFrame → Option ℕ → Type 0
Finds b start i frames none = (b < start) ⊎ (start + total_size frames ≤ b)
Finds b start i frames (some n) = (k : ℕ) × (n ≡ i + k) × IsIn b start frames k

Finds-later :
    (b start i : ℕ) (sidx : SidxFrame) (frames : List SidxFrame) (o : Option ℕ)
    → (start ≤ b → start + sidx.referenced_size ≤ b)
    → Finds b (start + sidx.referenced_size) (i + 1) frames o
    → Finds b start i (sidx ∷ frames) o
unfolding Finds total_size
Finds-later b start i sidx frames none out (inl h) = elim (dec_lt b start) [
  | yes before ↦ inl before
  | no from ↦ let behind = out (omega (arith, from)) in absurd (omega (arith, h, behind))
]
Finds-later b start i sidx frames none out (inr h) = inr (omega (arith, h))
Finds-later b start i sidx frames (some n) out (k, e, (inside, low, high)) =
    (suc k, omega (arith, e), (omega (arith, inside), omega (arith, low), omega (arith, high)))

moof_from-Finds :
    (b start i : ℕ) (frames : List SidxFrame)
    → start + total_size frames < 2 ^ 31
    → Finds b start i frames (moof_from b start i frames)
unfolding moof_from Finds total_size
moof_from-Finds b start i [] small = elim (dec_lt b start) [
  | yes h ↦ inl h
  | no h ↦ inr (omega (arith, h))
]
moof_from-Finds b start i (sidx ∷ frames) small =
    let end = start + sidx.referenced_size in
    let e : (start + sidx.referenced_size) % 2 ^ 32 ≡ start + sidx.referenced_size =
      below_word _ (omega (arith, small)) in
    let rest = moof_from-Finds b end (i + 1) frames (omega (arith, small)) in
    rw (lt→ltb start (2 ^ 31) (omega (arith, small)), e)
      (elim (dec_lt b start) [
        | yes before ↦
            rw (lt→leb b start before)
              (Finds-later b start i sidx frames _ (λ h. absurd (omega (arith, h, before))) rest)
        | no from ↦ elim (dec_lt b end) [
          | yes inside ↦
              rw (le→leb start b (omega (arith, from)), lt→ltb b end inside)
                (0, omega arith, (omega arith, omega (arith, from), omega (arith, inside)))
          | no out ↦
              rw (le→leb start b (omega (arith, from)), le→ltb b end (omega (arith, out)))
                (Finds-later b start i sidx frames _ (λ h. omega (arith, out)) rest)
        ]
      ])
  where
    below_word : (n : ℕ) → n < 2 ^ 31 → n % 2 ^ 32 ≡ n
    below_word n h = omega (arith, h)

-- In a file of less than 2 GiB, moofIndex finds for a position the entry of the index whose bytes
-- the position is one of, where the entries stand one behind the other from the offset on, and none
-- only for a position before the first or behind the last of them.
pub moof_index_lem :
    (moofs : Moofs) (b : ℕ)
    → moofs.offset + total_size moofs.sidx_frames < 2 ^ 31
    → ((k : ℕ) × (moof_index moofs b ≡ some k) × IsIn b moofs.offset moofs.sidx_frames k)
      ⊎ ((moof_index moofs b ≡ none)
          × ((b < moofs.offset) ⊎ (moofs.offset + total_size moofs.sidx_frames ≤ b)))
unfolding moof_index Finds
moof_index_lem moofs b small =
    let e : moofs.offset % 2 ^ 32 ≡ moofs.offset = omega (arith, small) in
    rw e (cases _ (moof_from-Finds b moofs.offset 0 moofs.sidx_frames small))
  where
    cases :
        (o : Option ℕ)
        → Finds b moofs.offset 0 moofs.sidx_frames o
        → ((k : ℕ) × (o ≡ some k) × IsIn b moofs.offset moofs.sidx_frames k)
          ⊎ ((o ≡ none) × ((b < moofs.offset) ⊎ (moofs.offset + total_size moofs.sidx_frames ≤ b)))
    cases none h = inr (refl, h)
    cases (some n) (k, e, inside) = inl (k, ap some (e ∙ plus k), inside)
      where
        plus : (k : ℕ) → 0 + k ≡ k
        plus k = omega arith
