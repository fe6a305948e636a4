-- ===== src/Provider/Memory/Tests.antt =====
-- Examples for the memory provider.
use nfdecoder.Base.{ℕ, ◌≡◌, arith, some, List, [], ◌∷◌, ◌++◌}
use nfdecoder.Base.Text.{codes}
use nfdecoder.Provider.Memory.{Memory}
use nfdecoder.Provider.Memory.Fifo.{Call, reads, writes, run, written, run-fifo}

abbrev five : Memory
five = record { path = codes "m"; bytes = 1 ∷ 2 ∷ 3 ∷ 4 ∷ 5 ∷ [] }

abbrev history : List Call
history = reads 2 1 ∷ writes (6 ∷ 7 ∷ []) 1 2 ∷ reads 2 9 ∷ []

run-fifo_example :
    (out : List ℕ) × (m' : Memory) × (run five history ≡ some (out, m'))
    × (out ++ m'.bytes ≡ five.bytes ++ written history)
run-fifo_example = run-fifo five history (omega arith, (tt, (omega arith, tt)))
