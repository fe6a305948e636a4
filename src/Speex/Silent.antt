-- ===== src/Speex/Silent.antt =====
-- What the decoder delivers where libspeex reports no error.
use nfdecoder.Base.{
  ℕ, zero, suc, ◌*◌, ◌<◌, ◌≤◌, ◌≡◌, refl, ap, arith, min, true, false, some, List, [], ◌∷◌, ◌++◌,
  Bool-cases, inl, inr, lt→ltb, le→ltb,
}
use nfdecoder.Base.Int.{pos}
use nfdecoder.Base.Run.{ret}
use nfdecoder.Provider.{DataProvider, Reading}
use nfdecoder.Speex.{Libspeex, Speex, named, read_round, fill_cache, deliver, decode}

-- A provider that comes to its end: before it, a read of 256 bytes is defined and leaves less.
pub record IsFinite (P : DataProvider) : Type 0 where
  pub left : P.State → ℕ
  pub reads :
      (s : P.State)
      → P.eof s ≡ false
      → (r : Reading P.State) × (P.read s 1 256 ≡ some r) × (left r.next < left s)

module _ {F : Type 0} (lib : Libspeex F) (P : DataProvider)
    (decodes : (s : lib.State) → (lib.decode s).0 ≡ pos 0) (finite : IsFinite P) where
  round_lem :
      (s : lib.State) (p : P.State) (r : Reading P.State)
      → P.read p 1 256 ≡ some r
      → read_round lib P s p
        ≡ ret (record {
          samples = [];
          state = (lib.decode (lib.read_from s r.bytes)).2;
          provider = r.next;
        })
  unfolding read_round named
  round_lem s p r e =
      rw (e, decodes (lib.read_from s r.bytes), le→ltb (lib.frame_size s) 0 (omega arith)) refl

  append_nothing : (xs : List F) → xs ++ [] ≡ xs
  append_nothing [] = refl
  append_nothing (x ∷ xs) = ap (λ t. x ∷ t) (append_nothing xs)

  -- The loop reads all that the provider has.
  drained :
      (fuel wanted : ℕ) (s : lib.State) (p : P.State)
      → 0 < wanted
      → finite.left p ≤ fuel
      → (s' : lib.State) × (p' : P.State) × (fill_cache lib P fuel wanted s p [] ≡ ret (s', p', []))
        × (P.eof p' ≡ true)
  unfolding fill_cache
  drained zero wanted s p more enough = elim (Bool-cases (P.eof p)) [
    | inl e ↦ (s, p, rw e refl, e)
    | inr e ↦ let (r, reads, less) = finite.reads p e in absurd (omega (arith, less, enough))
  ]
  drained (suc fuel) wanted s p more enough = elim (Bool-cases (P.eof p)) [
    | inl e ↦ (s, p, rw e refl, e)
    | inr e ↦
        let (r, reads, less) = finite.reads p e in
        let (s', p', h, ended) =
          drained fuel wanted (lib.decode (lib.read_from s r.bytes)).2 r.next more
            (omega (arith, less, enough)) in
        (s', p', rw (e, lt→ltb 0 wanted more, round_lem s p r reads) h, ended)
  ]

  deliver_nothing :
      (wanted : ℕ) (d : Speex lib P)
      → deliver lib P wanted d []
        ≡ ret (
          record { frame_index = d.frame_index; frame_count = 0; samples = [] },
          record d { cached_samples = [] },
        )
  unfolding deliver
  deliver_nothing wanted d = rw (none_of wanted, le→ltb (wanted * d.channels) 0 (omega arith)) refl
    where
      none_of : (n : ℕ) → min 0 n ≡ 0
      none_of n = omega arith

  -- Where libspeex decodes every packet without an error and the provider comes to its end, a call
  -- of `decode` for some frames, with nothing cached, reads all the provider has to its end and
  -- delivers no frames and no samples; nothing is cached after it.
  pub decode-drains :
      (wanted : ℕ) (d : Speex lib P) (s : lib.State)
      → 0 < wanted
      → d.state ≡ some s
      → d.cached_samples ≡ []
      → (d' : Speex lib P) × (decode lib P (finite.left d.provider) wanted d
          ≡ ret (record { frame_index = d.frame_index; frame_count = 0; samples = [] }, d'))
        × (P.eof d'.provider ≡ true)
        × (d'.cached_samples ≡ [])
  unfolding decode
  decode-drains wanted d s more loaded empty =
      let (s', p', h, ended) =
        drained (finite.left d.provider) wanted s d.provider more (omega arith) in
      (
        record d { state = some s'; provider = p'; cached_samples = [] },
        rw (loaded, empty, h)
            (deliver_nothing wanted (record d { state = some s'; provider = p' })),
        ended,
        refl,
      )
