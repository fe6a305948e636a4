-- ===== src/Provider.antt =====
-- include/NFDecoder/DataProvider.h: the interface between a decoder and the source of its bytes.
pub mod Stream
pub mod Memory
pub mod Http
pub mod File
pub mod Sources
use nfdecoder.Base.{
  ℕ, ◌+◌, ◌*◌, ◌^◌, ◌≤◌, ◌<◌, ◌≡◌, Bool, false, Option, some, List, take, drop, length,
}
use nfdecoder.Base.Int.{ℤ, pos}

pub data Whence : Type 0 where
  seek_set seek_cur seek_end : Whence

-- What one `read` does: the value that it returns, the bytes that it puts at `ptr`, and the
-- provider after it.
pub record Reading (S : Type 0) : Type 0 where
  pub value : ℕ
  pub bytes : List ℕ
  pub next : S

-- The operations of the class; `none` is undefined behaviour (a division by zero, an overrun).
pub record DataProvider : Type 1 where
  pub State : Type 0
  pub read : State → ℕ → ℕ → Option (Reading State)
  pub seek : State → ℤ → Whence → ℤ × State
  pub tell : State → ℤ
  pub eof : State → Bool
  pub size : State → ℤ

-- What a decoder relies on: the provider is a cursor in a fixed content. `At s p` says that `s`
-- stands at `p` and has not met the end. `reads` is for a request that the content can meet.
pub record IsStream (P : DataProvider) (content : List ℕ) : Type 1 where
  pub At : P.State → ℕ → Type 0
  pub small : length content < 2 ^ 63
  pub reads :
      (s : P.State) (p n k : ℕ)
      → At s p
      → 0 < n
      → 0 < k
      → p + n * k ≤ length content
      → (t : P.State) × (P.read s n k
          ≡ some (record { value = n * k; bytes = take (n * k) (drop p content); next = t }))
        × At t (p + n * k)
  pub seeks :
      (s : P.State) (p q : ℕ) → At s p → q ≤ length content → At (P.seek s (pos q) seek_set).1 q
  pub skips :
      (s : P.State) (p n : ℕ)
      → At s p
      → p + n ≤ length content
      → At (P.seek s (pos n) seek_cur).1 (p + n)
  pub tells : (s : P.State) (p : ℕ) → At s p → P.tell s ≡ pos p
  pub goes_on : (s : P.State) (p : ℕ) → At s p → p < length content → P.eof s ≡ false
