-- ===== src/Provider/Memory.antt =====
-- source/DataProviderMemoryImplementation.cpp: a queue of bytes that a transmuxer fills and a
-- decoder drains. The mutex makes each call one step.
mod Fifo
mod Tests
use nfdecoder.Base.{
  ℕ, ◌-◌, ◌*◌, ◌%◌, ◌^◌, min, ◌==◌, if◌then◌else◌, Bool, true, false, Option, none, some, List, [],
  ◌∷◌, ◌++◌, take, drop, length,
}
use nfdecoder.Base.Int.{ℤ, pos, negsuc}
use nfdecoder.Base.Text.{Text}
use nfdecoder.Provider.{DataProvider, Reading, Whence}

-- `_data` is `bytes`.
pub record Memory : Type 0 where
  pub path : Text
  pub bytes : List ℕ

pub create : Text → Memory
create path = record { path = path; bytes = [] }

-- `size * nmemb` in `size_t`
abbrev pub byte_count : ℕ → ℕ → ℕ
byte_count size nmemb = size * nmemb % 2 ^ 64

-- The list is what stands at `ptr`.
pub write : Memory → List ℕ → ℕ → ℕ → Memory
write m ptr size nmemb = record m { bytes = m.bytes ++ take (byte_count size nmemb) ptr }

pub flush : Memory → Memory
flush m = record m { bytes = [] }

-- `_data.size() % size` divides by zero at `size = 0`.
pub read : Memory → ℕ → ℕ → Option (Reading Memory)
read m size nmemb =
    let available = length m.bytes in
    let read_size = min (byte_count size nmemb) (available - available % size) in
    if size == 0
    then none
    else some (record {
      value = read_size;
      bytes = take read_size m.bytes;
      next = record m { bytes = drop read_size m.bytes };
    })

pub seek : Memory → ℤ → Whence → ℤ × Memory
seek m offset whence = (negsuc 0, m)

pub tell : Memory → ℤ
tell m = pos 0

pub eof : Memory → Bool
eof m = elim m.bytes [ [] ↦ true | _ ∷ _ ↦ false ]

pub size : Memory → ℤ
size m = negsuc 0

abbrev pub provider : DataProvider
provider = record { State = Memory; read = read; seek = seek; tell = tell; eof = eof; size = size }
