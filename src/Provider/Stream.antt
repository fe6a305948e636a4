-- ===== src/Provider/Stream.antt =====
-- Reading a known prefix of what is left of a stream.
use nfdecoder.Base.{
  ℕ, ◌+◌, ◌*◌, ◌≤◌, ◌<◌, ◌≡◌, ap, ◌∙◌, arith, some, List, ◌++◌, length, take, drop, length-append,
  length-drop, take-append, drop-append, drop-add,
}
use nfdecoder.Provider.{DataProvider, IsStream}

module _ (P : DataProvider) (content : List ℕ) (stream : IsStream P content) where
  -- A prefix that is left is there.
  pub room :
      (p : ℕ) (xs rest : List ℕ)
      → drop p content ≡ xs ++ rest
      → 0 < length xs
      → p + length xs ≤ length content
  room p xs rest e h = omega (arith, length-drop p content, ap length e, length-append xs rest)

  pub beyond :
      (p n : ℕ) (xs rest : List ℕ)
      → drop p content ≡ xs ++ rest
      → n ≡ length xs
      → drop (p + n) content ≡ rest
  beyond p n xs rest e h = drop-add p n content ∙ rw e (drop-append n xs rest h)

  -- A read of exactly the next `n * k` bytes delivers them and stops behind them.
  pub read_prefix :
      (s : P.State) (p n k : ℕ) (xs rest : List ℕ)
      → stream.At s p
      → drop p content ≡ xs ++ rest
      → 0 < n
      → 0 < k
      → n * k ≡ length xs
      → (t : P.State) × (P.read s n k ≡ some (record { value = n * k; bytes = xs; next = t }))
        × stream.At t (p + n * k)
  read_prefix s p n k xs rest a e hn hk h =
      let (t, answer, there) = stream.reads s p n k a hn hk fits in
      (
        t,
        answer ∙ ap (λ bs. some (record { value = n * k; bytes = bs; next = t })) next_bytes,
        there,
      )
    where
      some_bytes : 0 < n * k
      some_bytes = grind arith

      fits : p + n * k ≤ length content
      fits = omega (arith, room p xs rest e (omega (arith, some_bytes)))

      next_bytes : take (n * k) (drop p content) ≡ xs
      next_bytes = rw e (take-append (n * k) xs rest h)
