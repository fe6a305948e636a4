-- ===== src/Wav/Loop.antt =====
-- The chunk loop of `load` on a stream.
use nfdecoder.Base.{
  ℕ, zero, suc, ◌+◌, ◌≡◌, refl, ◌∙◌, arith, Bool, true, false, ◌&&◌, ◌||◌, not, List, [], ◌∷◌, drop,
  length, All,
}
use nfdecoder.Base.Text.{Text}
use nfdecoder.Base.Run.{ret}
use nfdecoder.Provider.{DataProvider, IsStream}
use nfdecoder.Wav.{Wav, chunk_type_is, fmt_type, data_type, read_chunk, find_chunks}
use nfdecoder.Wav.Layout.{Chunk, IsOther, chunks_bytes}
use nfdecoder.Wav.Chunks.{Stands, skip_other}

module _ (P : DataProvider) (content : List ℕ) (stream : IsStream P content) where
  abbrev pub StandsAt : Wav P → ℕ → Type 0
  StandsAt = Stands P content stream

  -- One round whose chunk was read.
  pub round :
      (fuel : ℕ) (f d : Bool) (w v : Wav P) (u : ℕ → List ℕ)
      → (f && d) ≡ false
      → read_chunk P w (u fuel) ≡ ret (true, v)
      → find_chunks P (suc fuel) f d w u
        ≡ find_chunks P fuel
            (f || chunk_type_is v.chunk_type fmt_type)
            (d
              || (not (chunk_type_is v.chunk_type fmt_type)
                  && chunk_type_is v.chunk_type data_type))
            v
            u
  unfolding find_chunks
  round fuel f d w v u more e = rw (more, e, find_chunks)

  round_other :
      (fuel : ℕ) (f d : Bool) (w v : Wav P) (u : ℕ → List ℕ)
      → (f && d) ≡ false
      → chunk_type_is v.chunk_type fmt_type ≡ false
      → chunk_type_is v.chunk_type data_type ≡ false
      → read_chunk P w (u fuel) ≡ ret (true, v)
      → find_chunks P (suc fuel) f d w u ≡ find_chunks P fuel f d v u
  round_other fuel f d w v u more not_fmt not_data e =
      round fuel f d w v u more e ∙ rw (not_fmt, not_data, or_false f, or_false d)
    where
      or_false : (b : Bool) → (b || false) ≡ b
      or_false true = refl
      or_false false = refl

  -- The loop passes over chunks that are neither.
  pub find_others :
      (cs : List Chunk) (fuel : ℕ) (f d : Bool) (w : Wav P) (p : ℕ) (u : ℕ → List ℕ) (rest : List ℕ)
      → (f && d) ≡ false
      → StandsAt w p
      → All IsOther cs
      → drop p content ≡ chunks_bytes cs rest
      → (s : P.State) × (type : Text) × (q : ℕ) × (find_chunks P (length cs + fuel) f d w u
          ≡ find_chunks P fuel f d (record w { provider = s; chunk_type = type }) u)
        × StandsAt (record w { provider = s; chunk_type = type }) q
        × (drop q content ≡ rest)
  find_others [] fuel f d w p u rest more a o e = (
    w.provider,
    w.chunk_type,
    p,
    let none_left : 0 + fuel ≡ fuel = omega arith in rw none_left,
    a,
    e,
  )
  find_others (c ∷ cs) fuel f d w p u rest more a (o, os) e =
      let (s, read, b, after) =
        skip_other P content stream w p (u (length cs + fuel)) (chunks_bytes cs rest) c a o e in
      let (t, type, q, loops, b', after') =
        find_others cs fuel f d (record w { provider = s; chunk_type = c.type })
          (p + 8 + length c.body) u rest more b os after in
      let first : suc (length cs) + fuel ≡ suc (length cs + fuel) = omega arith in
      (
        t,
        type,
        q,
        rw first (
            round_other (length cs + fuel) f d w (record w { provider = s; chunk_type = c.type }) u
              more o.not_fmt o.not_data read
            ∙ loops),
        b',
        after',
      )

  -- Both chunks are found: the loop ends.
  pub find_done :
      (fuel : ℕ) (w : Wav P) (u : ℕ → List ℕ) → find_chunks P fuel true true w u ≡ ret (true, w)
  unfolding find_chunks
  find_done zero w u = refl
  find_done (suc fuel) w u = refl
