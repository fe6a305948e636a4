-- ===== src/Provider/Memory/Fifo.antt =====
-- The memory provider is a queue: what is read is what was written, in order and in whole items.
use native.Mathlib.Nat.{div-add-mod, mod-eq_of_lt, mul-le-mul_left, min-eq_left, min-eq_right}
use native.Mathlib.Decide.{dec_le}
use mathlib.Core.List.{append_assoc, append-nil}
use nfdecoder.Base.{
  ℕ, ◌-◌, ◌*◌, ◌/◌, ◌%◌, ◌^◌, ◌≤◌, ◌<◌, min, ◌≡◌, refl, ap, ◌∙◌, ◌≢◌, false, Option, none, some,
  List, [], ◌∷◌, ◌++◌, arith, All, ne→==, take, drop, length, take-append-drop, inl, inr,
  Option-cases, length-take,
}
use nfdecoder.Provider.{Reading}
use nfdecoder.Provider.Memory.{Memory, byte_count, write, read, eof}

-- One call of the thread that fills the provider or of the one that drains it.
pub data Call : Type 0 where
  writes : List ℕ → ℕ → ℕ → Call
  reads : ℕ → ℕ → Call

-- The bytes that the writes of a history hand over.
pub written : List Call → List ℕ
written [] = []
written (writes ptr size nmemb ∷ calls) = take (byte_count size nmemb) ptr ++ written calls
written (reads size nmemb ∷ calls) = written calls

abbrev prepend : List ℕ → Option (List ℕ × Memory) → Option (List ℕ × Memory)
prepend xs none = none
prepend xs (some (ys, m)) = some (xs ++ ys, m)

-- The bytes that the reads of a history deliver, and the provider after it; `none` is a fault.
pub run : Memory → List Call → Option (List ℕ × Memory)
run m [] = some ([], m)
run m (writes ptr size nmemb ∷ calls) = run (write m ptr size nmemb) calls
run m (reads size nmemb ∷ calls) = elim (read m size nmemb) [
  | none ↦ none
  | some r ↦ prepend r.bytes (run r.next calls)
]

-- A read splits the front off the queue.
read-split :
    (m : Memory) (size nmemb : ℕ) (r : Reading Memory)
    → read m size nmemb ≡ some r
    → r.bytes ++ r.next.bytes ≡ m.bytes
unfolding read
read-split m size nmemb r h = ground (
  arith,
  take-append-drop (min (byte_count size nmemb) (length m.bytes - length m.bytes % size)) m.bytes,
)

run_balance :
    (m : Memory) (calls : List Call) (out : List ℕ) (m' : Memory)
    → run m calls ≡ some (out, m')
    → out ++ m'.bytes ≡ m.bytes ++ written calls
unfolding run written write
run_balance m [] out m' h = ground (arith, append-nil m.bytes)
run_balance m (writes ptr size nmemb ∷ calls) out m' h =
    run_balance (write m ptr size nmemb) calls out m' h
    ∙ append_assoc m.bytes (take (byte_count size nmemb) ptr) (written calls)
run_balance m (reads size nmemb ∷ calls) out m' h = elim (Option-cases (read m size nmemb)) [
  | inl e ↦ ground arith
  | inr (r, e) ↦ elim (Option-cases (run r.next calls)) [
    | inl f ↦ ground arith
    | inr ((rest, left), f) ↦ ground (
      arith,
      read-split m size nmemb r,
      run_balance r.next calls rest left,
      append_assoc r.bytes rest left.bytes,
      append_assoc r.bytes r.next.bytes (written calls),
    )
  ]
]

-- A call that does not read items of size 0.
abbrev pub IsProper : Call → Type 0
IsProper (writes ptr size nmemb) = Unit
IsProper (reads size nmemb) = size ≢ 0

read_defined :
    (m : Memory) (size nmemb : ℕ) → size ≢ 0 → (r : Reading Memory) × (read m size nmemb ≡ some r)
unfolding read
read_defined m size nmemb h = elim (Option-cases (read m size nmemb)) [
  | inl e ↦ ground (arith, e, ne→== size 0 h)
  | inr x ↦ x
]

run_defined :
    (m : Memory) (calls : List Call)
    → All IsProper calls
    → (out : List ℕ) × (m' : Memory) × (run m calls ≡ some (out, m'))
unfolding run
run_defined m [] h = ([], m, refl)
run_defined m (writes ptr size nmemb ∷ calls) h = run_defined (write m ptr size nmemb) calls h.1
run_defined m (reads size nmemb ∷ calls) h =
    let (r, e) = read_defined m size nmemb h.0 in
    let (out, m', f) = run_defined r.next calls h.1 in (r.bytes ++ out, m', ground (arith, e, f))

-- For every history of writes and reads, no read being of items of size 0: what the reads deliver,
-- followed by what is left, is what the queue held at first, followed by what the writes hand over:
-- no byte is lost, doubled or reordered.
pub run-fifo :
    (m : Memory) (calls : List Call)
    → All IsProper calls
    → (out : List ℕ) × (m' : Memory) × (run m calls ≡ some (out, m'))
      × (out ++ m'.bytes ≡ m.bytes ++ written calls)
run-fifo m calls h =
    let (out, m', e) = run_defined m calls h in (out, m', e, run_balance m calls out m' e)

whole_items :
    (size nmemb n : ℕ) → 0 < size → min (size * nmemb) (n - n % size) ≡ size * min nmemb (n / size)
whole_items size nmemb n h = elim (dec_le nmemb (n / size)) [
  | yes p ↦
      omega (arith, div-add-mod n size, mul-le-mul_left size p, ap (λ t. size * t) (min-eq_left p))
  | no p ↦
      let q : n / size ≤ nmemb = omega arith in
      omega (arith, div-add-mod n size, mul-le-mul_left size q, ap (λ t. size * t) (min-eq_right q))
]

-- A read at a positive item size whose request does not overflow returns the size of as many whole
-- items as there are, `nmemb` at most, and delivers exactly so many bytes.
pub read_items :
    (m : Memory) (size nmemb : ℕ)
    → 0 < size
    → size * nmemb < 2 ^ 64
    → (r : Reading Memory) × (read m size nmemb ≡ some r)
      × (r.value ≡ size * min nmemb (length m.bytes / size))
      × (length r.bytes ≡ r.value)
unfolding read
read_items m size nmemb pos_size fits = (
  record { value = k; bytes = take k m.bytes; next = record m { bytes = drop k m.bytes } },
  ground (arith, taken),
  refl,
  omega (arith, length-take k m.bytes, within),
)
  where
    k : ℕ
    k = size * min nmemb (length m.bytes / size)

    taken : min (byte_count size nmemb) (length m.bytes - length m.bytes % size) ≡ k
    taken = rw (mod-eq_of_lt fits) (whole_items size nmemb (length m.bytes) pos_size)

    within : k ≤ length m.bytes
    within = omega (arith, taken)

-- While fewer bytes than one item are left, reads of that item size return 0 and change nothing,
-- yet the provider does not report its end.
pub read_leftover :
    (m : Memory) (size nmemb : ℕ)
    → 0 < length m.bytes
    → length m.bytes < size
    → (read m size nmemb ≡ some (record { value = 0; bytes = []; next = m })) × (eof m ≡ false)
unfolding read eof
read_leftover m size nmemb some_left few = (ground (arith, none_taken), grind arith)
  where
    none_taken : min (byte_count size nmemb) (length m.bytes - length m.bytes % size) ≡ 0
    none_taken = omega (arith, mod-eq_of_lt few)
