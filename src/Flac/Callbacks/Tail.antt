-- ===== src/Flac/Callbacks/Tail.antt =====
-- What libFLAC reads from a file.
use nfdecoder.Base.{
  ℕ, zero, suc, ◌+◌, ◌-◌, ◌*◌, ◌/◌, ◌<◌, ◌≤◌, ◌≡◌, refl, ap, ◌∙◌, arith, if◌then◌else◌, List,
  length, take, drop, ◌⊎◌, inl, inr,
}
use mathlib.Core.Path.{subst}
use native.Mathlib.Decide.{dec_lt}
use native.Mathlib.Nat.{div-eq_of_lt}
use nfdecoder.Base.Run.{ret}
use nfdecoder.Base.Text.{Text}
use nfdecoder.Provider.{DataProvider}
use nfdecoder.Provider.File.{Stdio, File, provider, eof}
use nfdecoder.Provider.File.Whole.{IsRegular, At, reads_whole, read_short}
use nfdecoder.Flac.Callbacks.{end_of_stream, continue, Read, flac_read}

module _ (stdio : Stdio) (path : Text) (content : List ℕ) (c : IsRegular stdio path content) where
  abbrev P : DataProvider
  P = provider stdio

  -- A read at `p`: the next bytes, while more are left than were asked for.
  abbrev pub Whole : ℕ → ℕ → Read P → Type 0
  Whole p n r =
      (p + n ≤ length content)
      × (r.count ≡ n)
      × (r.buffer ≡ take n (drop p content))
      × At stdio path content c r.provider (p + n)

  -- None at all, at the end of the stream.
  abbrev pub Lost : ℕ → ℕ → Read P → Type 0
  Lost p n r = (length content < p + n) × (r.count ≡ 0) × (r.status ≡ end_of_stream)

  whole :
      (s : File stdio) (p n : ℕ)
      → At stdio path content c s p
      → 0 < n
      → p + n ≤ length content
      → (r : Read P) × (flac_read P s n ≡ ret r) × Whole p n r
  unfolding flac_read
  whole s p n a more inside =
      let (t, e, b) =
        reads_whole stdio path content c s p n 1 a more (omega arith) (omega (arith, inside)) in
      let one : n * 1 ≡ n = omega arith in
      (
        record {
          status = if P.eof t then end_of_stream else continue;
          count = n * 1;
          buffer = take (n * 1) (drop p content);
          provider = t;
        },
        rw e refl,
        (
          inside,
          one,
          ap (λ m. take m (drop p content)) one,
          subst (λ m. At stdio path content c t (p + m)) one b,
        ),
      )

  no_item : (n l p : ℕ) → l < p + n * 1 → (l - p) / n * n ≡ 0
  no_item zero l p h = omega arith
  no_item (suc n) l p h =
      let less : l - p < suc n = omega (arith, h) in
      let e : (l - p) / suc n ≡ 0 = div-eq_of_lt less in rw e (omega arith)

  lost :
      (s : File stdio) (p n : ℕ)
      → At stdio path content c s p
      → 0 < n
      → length content < p + n * 1
      → (r : Read P) × (flac_read P s n ≡ ret r) × (r.count ≡ 0) × (r.status ≡ end_of_stream)
  unfolding flac_read
  lost s p n a more short =
      let (r, e, value, ended) = read_short stdio path content c s p n a more short in
      (
        record {
          status = if eof stdio r.next then end_of_stream else continue;
          count = r.value;
          buffer = r.bytes;
          provider = r.next;
        },
        rw e refl,
        value ∙ no_item n (length content) p short,
        rw ended refl,
      )

  -- Over C streams that behave as documented, a read of some bytes of the file provider, where it
  -- has met no end, gives libFLAC exactly those bytes and moves past them where the file has so
  -- many behind the position. Where it has fewer, libFLAC is told that none were read and that the
  -- stream has ended: the bytes that are left are lost to it.
  pub flac_read-Lost :
      (s : File stdio) (p n : ℕ)
      → At stdio path content c s p
      → 0 < n
      → (r : Read P) × (flac_read P s n ≡ ret r) × (Whole p n r ⊎ Lost p n r)
  flac_read-Lost s p n a more = elim (dec_lt (length content) (p + n)) [
    | no h ↦ let (r, e, w) = whole s p n a more (omega (arith, h)) in (r, e, inl w)
    | yes h ↦
        let (r, e, none_read, ended) = lost s p n a more (omega (arith, h)) in
        (r, e, inr (h, none_read, ended))
  ]
