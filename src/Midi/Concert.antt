-- ===== src/Midi/Concert.antt =====
-- What the loop of `decode` plays: blocks of 64 frames and one of the rest, each behind the
-- messages that are due by its end; and one round of the loop.
use mathlib.Core.Path.{subst}
use nfdecoder.Base.{
  ℕ, zero, suc, ◌+◌, ◌-◌, ◌*◌, ◌<◌, ◌≤◌, ◌≡◌, refl, sym, ◌∙◌, arith, min, if◌then◌else◌, List, [],
  ◌∷◌, ◌++◌, length, take, drop, Bool-cases, inl, inr, le→ltb, ne→==, length-append, length-take,
  length-drop, take-append,
}
use nfdecoder.Base.Run.{ret}
use nfdecoder.Midi.{TinySoundFont, Message, apply, play, write, blocks}

module _ {F : Type 0} (lib : TinySoundFont F) where
  -- What a write inside the output leaves.
  abbrev Written : List F → ℕ → List F → Type 0
  Written output index xs =
      (w : List F) × (write lib output index xs ≡ ret w)
      × (length w ≡ length output)
      × (take (index + length xs) w ≡ take index output ++ xs)

  write_lem :
      (output : List F) (index : ℕ) (xs : List F)
      → index + length xs ≤ length output
      → Written output index xs
  unfolding write
  write_lem output index xs inside =
      let front : length (take index output) ≡ index =
        omega (arith, length-take index output, inside) in
      (
        take index output ++ xs ++ drop (index + length xs) output,
        rw (le→ltb (length output) (index + length xs) inside) refl,
        grind (
          arith,
          length-append (take index output ++ xs) (drop (index + length xs) output),
          length-append (take index output) xs,
          length-drop (index + length xs) output,
        ),
        take-append (index + length xs) (take index output ++ xs) (drop (index + length xs) output)
            (omega (arith, length-append (take index output) xs, front)),
      )

module _ {F : Type 0} (lib : TinySoundFont F) where
  open lib use {Font, Time}

  -- How many messages at the front of a list are due.
  unfoldable pub due : Time → List Message → ℕ
  due time [] = 0
  due time (m ∷ ms) = let rest = due time ms in if lib.is_due time m.time then suc rest else 0

  -- Some messages, in order.
  unfoldable pub sound : Font → List Message → Font
  sound f [] = f
  sound f (m ∷ ms) = sound (apply lib f m m.type) ms

  -- A block of `n` frames after a time: the messages that are due at its end, and then its samples.
  unfoldable pub block_of : ℕ → Time → List Message → Font → List F × Font
  unfolding due sound
  block_of n time ms f = lib.render_float (sound f (take (due (lib.later time n) ms) ms)) n

  -- `k` blocks of 64 frames and one of the rest.
  unfoldable pub concert : ℕ → ℕ → Time → List Message → Font → List F × Font
  unfolding block_of
  concert zero zero time ms f = ([], f)
  concert zero (suc rest) time ms f = block_of (suc rest) time ms f
  concert (suc k) rest time ms f =
      let (xs, f') = block_of 64 time ms f in
      let (ys, f'') =
        concert k rest (lib.later time 64) (drop (due (lib.later time 64) ms) ms) f' in
      (xs ++ ys, f'')

  play_lem :
      (time : Time) (ms : List Message) (f : Font)
      → play lib time ms f ≡ (drop (due time ms) ms, sound f (take (due time ms) ms))
  unfolding play due sound
  play_lem time [] f = refl
  play_lem time (m ∷ ms) f = elim (Bool-cases (lib.is_due time m.time)) [
    | inl e ↦ rw e (play_lem time ms (apply lib f m m.type))
    | inr e ↦ rw e refl
  ]

  pub blocks_end :
      (fuel channels block : ℕ) (time : Time) (ms : List Message) (f : Font) (index : ℕ)
      (output : List F)
      → blocks lib fuel channels block 0 time ms f index output ≡ ret (output, f)
  unfolding blocks
  blocks_end zero channels block time ms f index output = refl
  blocks_end (suc fuel) channels block time ms f index output = refl

  module _ (renders : (f : Font) (n : ℕ) → length (lib.render_float f n).0 ≡ n * 2) where
    -- A round of `n` frames leaves the rest to the loop.
    abbrev pub Rest : ℕ → ℕ → ℕ → ℕ → Time → List Message → Font → ℕ → List F → Type 0
    Rest fuel block left n time ms f index output =
        (w : List F) × (blocks lib (suc fuel) 2 block left time ms f index output
          ≡ blocks lib fuel 2 n (left - n) (lib.later time n) (drop (due (lib.later time n) ms) ms)
              (block_of n time ms f).1 (index + n * 2) w)
        × (length w ≡ length output)
        × (take (index + n * 2) w ≡ take index output ++ (block_of n time ms f).0)

    round_min :
        (fuel block left : ℕ) (time : Time) (ms : List Message) (f : Font) (index : ℕ)
        (output : List F)
        → 0 < left
        → index + min block left * 2 ≤ length output
        → Rest fuel block left (min block left) time ms f index output
    unfolding blocks block_of
    round_min fuel block left time ms f index output more inside =
        let n = min block left in
        let xs = (block_of n time ms f).0 in
        let l : length xs ≡ n * 2 = renders (sound f (take (due (lib.later time n) ms) ms)) n in
        let (w, e, same, front) = write_lem lib output index xs (omega (arith, l, inside)) in
        (
          w,
          rw (ne→== left 0 (omega (arith, more)), play_lem (lib.later time n) ms f, e) refl,
          same,
          rw (sym l) front,
        )

    pub round_lem :
        (fuel block left n : ℕ) (time : Time) (ms : List Message) (f : Font) (index : ℕ)
        (output : List F)
        → min block left ≡ n
        → 0 < left
        → index + n * 2 ≤ length output
        → Rest fuel block left n time ms f index output
    round_lem fuel block left n time ms f index output size more inside =
        subst (λ m. Rest fuel block left m time ms f index output) size
          (round_min fuel block left time ms f index output more (omega (arith, size, inside)))

    pub length-concert :
        (k rest : ℕ) (time : Time) (ms : List Message) (f : Font)
        → length (concert k rest time ms f).0 ≡ (k * 64 + rest) * 2
    unfolding concert block_of
    length-concert zero zero time ms f = refl
    length-concert zero (suc rest) time ms f =
        renders (sound f (take (due (lib.later time (suc rest)) ms) ms)) (suc rest)
        ∙ twice (suc rest)
      where
        twice : (n : ℕ) → n * 2 ≡ (0 * 64 + n) * 2
        twice n = omega arith
    length-concert (suc k) rest time ms f = grind (
      arith,
      length-append (block_of 64 time ms f).0
          (concert k rest (lib.later time 64) (drop (due (lib.later time 64) ms) ms)
            (block_of 64 time ms f).1).0,
      renders (sound f (take (due (lib.later time 64) ms) ms)) 64,
      length-concert k rest (lib.later time 64) (drop (due (lib.later time 64) ms) ms)
          (block_of 64 time ms f).1,
    )
