-- ===== src/Dash/Junk.antt =====
-- The junk frames that stand before the first frame of the stream.
use native.Mathlib.Nat.{le-div_iff_mul-le}
use nfdecoder.Base.{
  ℕ, zero, suc, ◌+◌, ◌-◌, ◌*◌, ◌/◌, ◌<◌, ◌≤◌, ◌≡◌, refl, ap, sym, ◌∙◌, arith, ltb, min, Bool, true,
  ◌==◌, if◌then◌else◌, length, drop, lt→ltb, le→ltb, drop-add, length-drop,
}
use nfdecoder.Base.Int.{pos}
use nfdecoder.Base.Run.{ret, ◌>>=◌}
use nfdecoder.Provider.{DataProvider}
use nfdecoder.Dash.{
  Transmuxer, Times, Stream, Dash, start_junk_frames, cached_frames, remove_junk, clip, pick,
  load_segment, load_at,
}

module _ {F Rate : Type 0} (mux : Transmuxer) (times : Times Rate) (P : DataProvider)
    (S : Stream F Rate) where
  removed :
      (k : ℕ) (d : Dash mux times P S)
      → k < start_junk_frames
      → start_junk_frames ≤ cached_frames mux times P S d
      → remove_junk mux times P S k d
        ≡ record d { samples = drop ((start_junk_frames - k) * S.channels d.decoder) d.samples }
  unfolding remove_junk
  removed k d early enough =
      rw
        (
          lt→ltb k start_junk_frames early,
          within (start_junk_frames - k) (cached_frames mux times P S d) (omega (arith, enough)),
        )
        refl
    where
      within : (n m : ℕ) → n ≤ m → min n m ≡ n
      within n m h = omega (arith, h)

  all_junk : (k c : ℕ) → k < 1024 → (1024 - k) * c + k * c ≡ 1024 * c
  all_junk k c early = parts (1024 - k) k c (omega (arith, early))
    where
      parts : (m k c : ℕ) → m + k ≡ 1024 → m * c + k * c ≡ 1024 * c
      parts m k c e = grind (arith, ap (λ n. n * c) e)

  whole_junk : (c l : ℕ) → 1024 ≤ l / c → 1024 * c ≤ l
  whole_junk zero l enough = omega arith
  whole_junk (suc c) l enough = (le-div_iff_mul-le {k = suc c} (omega arith)).0 enough

  room : (k c l : ℕ) → k < 1024 → 1024 ≤ l / c → k * c ≤ l - (1024 - k) * c
  room k c l early enough = omega (arith, whole_junk c l enough, all_junk k c early)

  clip-remove_junk :
      (k : ℕ) (d : Dash mux times P S)
      → k < start_junk_frames
      → start_junk_frames ≤ cached_frames mux times P S d
      → clip mux times P S true k (pos 0) (remove_junk mux times P S k d)
        ≡ ret (record d { samples = drop (start_junk_frames * S.channels d.decoder) d.samples })
  unfolding clip
  clip-remove_junk zero d early enough = rw (removed zero d early enough) refl
  clip-remove_junk (suc k) d early enough =
      let c = S.channels d.decoder in
      let n = (start_junk_frames - suc k) * c in
      let xs = drop n d.samples in
      let inside : suc k * c ≤ length xs =
        omega (arith, length-drop n d.samples, room (suc k) c (length d.samples) early enough) in
      ap (clip mux times P S true (suc k) (pos 0)) (removed (suc k) d early enough)
      ∙ rw (behind k, ahead k, le→ltb (length xs) (suc k * c) inside)
          (ap (λ ys. ret (record d { samples = ys }))
            (sym (drop-add n (suc k * c) d.samples)
              ∙ ap (λ m. drop m d.samples) (all_junk (suc k) c early)))
    where
      behind : (k : ℕ) → suc k - 0 ≡ suc k
      behind k = omega arith

      ahead : (k : ℕ) → ltb 0 (suc k) ≡ true
      ahead k = lt→ltb 0 (suc k) (omega arith)

  -- A round of the loop of decode at frame `k`, which is one of as many as there are junk frames,
  -- with nothing cached, that picks the segment at the start of the stream and loads it with as
  -- many frames at least as there are junk frames: what is removed does not depend on `k`. It is
  -- the junk frames, no more and no less, so the samples that stay are those of the first frames of
  -- the stream and not of frame `k`.
  pub load_at-remove_junk :
      (k i : ℕ) (d d' : Dash mux times P S) (failed : Bool)
      → k < start_junk_frames
      → cached_frames mux times P S d ≡ 0
      → pick mux times P S (S.sample_rate d.decoder) k d.index 0 (pos 0) ≡ (i, pos 0)
      → load_segment mux times P S d (if i == length d.index then i - 1 else i) ≡ ret (failed, d')
      → start_junk_frames ≤ cached_frames mux times P S d'
      → load_at mux times P S d k
        ≡ ret (
          failed,
          record d' { samples = drop (start_junk_frames * S.channels d'.decoder) d'.samples },
        )
  unfolding load_at
  load_at-remove_junk k i d d' failed early empty picked loaded enough =
      let clipped = clip-remove_junk k d' early enough in
      rw (picked, loaded, empty) (ap (λ m. m >>= λ x. ret (failed, x)) clipped)
