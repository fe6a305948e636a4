-- ===== src/Dash/Seek.antt =====
-- `seek` and `decode` inside the samples that are cached.
use native.Mathlib.Nat.{le-div_iff_mul-le}
use nfdecoder.Base.{
  ℕ, zero, suc, ◌+◌, ◌-◌, ◌*◌, ◌/◌, ◌<◌, ◌≤◌, ◌≡◌, refl, arith, min, length, take, lt→ltb, le→ltb,
  ne→==,
}
use nfdecoder.Base.Run.{ret}
use nfdecoder.Provider.{DataProvider}
use nfdecoder.Dash.{
  Transmuxer, Times, Stream, Dash, frames, cached_frames, fill_samples, deliver, decode, seek,
}

module _ {F Rate : Type 0} (mux : Transmuxer) (times : Times Rate) (P : DataProvider)
    (S : Stream F Rate) where
  filled :
      (fuel possible : ℕ) (d : Dash mux times P S)
      → 0 < S.channels d.decoder
      → possible ≤ cached_frames mux times P S d
      → fill_samples mux times P S fuel possible d ≡ ret d
  unfolding fill_samples
  filled zero possible d some_channels enough =
      rw
        (
          ne→== (S.channels d.decoder) 0 (omega (arith, some_channels)),
          le→ltb (cached_frames mux times P S d) possible enough,
        )
        refl
  filled (suc fuel) possible d some_channels enough =
      rw
        (
          ne→== (S.channels d.decoder) 0 (omega (arith, some_channels)),
          le→ltb (cached_frames mux times P S d) possible enough,
        )
        refl

  enough_frames : (n c l : ℕ) → 0 < c → n * c < l → n ≤ l / c
  enough_frames n c l some_channels h = (le-div_iff_mul-le some_channels).1 (omega (arith, h))

  -- With channels, more samples cached than those of `n` frames, some, and the end of the file
  -- behind these, `decode` of `n` frames needs no segment: it delivers exactly the first `n`
  -- frames, and leaves the decoder as a `seek` to the frame behind them does.
  pub decode-seek :
      (fuel n : ℕ) (d : Dash mux times P S)
      → 0 < S.channels d.decoder
      → 0 < n
      → n * S.channels d.decoder < length d.samples
      → d.frame_index + n < frames mux times P S d
      → decode mux times P S fuel n d
        ≡ ret (
          record {
            frame_index = d.frame_index;
            frame_count = n;
            samples = take (n * S.channels d.decoder) d.samples;
          },
          seek mux times P S d (d.frame_index + n),
        )
  unfolding decode deliver seek
  decode-seek fuel n d some_channels more cached inside =
      let c = S.channels d.decoder in
      let total = frames mux times P S d in
      let there = enough_frames n c (length d.samples) some_channels cached in
      rw
        (
          wanted n d.frame_index total inside,
          filled fuel n d some_channels there,
          within n (cached_frames mux times P S d) there,
          safe (d.frame_index + n) total inside,
          ahead n d.frame_index,
          lt→ltb d.frame_index (d.frame_index + n) (omega (arith, more)),
          lt→ltb (n * c) (length d.samples) cached,
        )
        refl
    where
      wanted : (n i t : ℕ) → i + n < t → min n (t - i) ≡ n
      wanted n i t h = omega (arith, h)

      within : (n m : ℕ) → n ≤ m → min n m ≡ n
      within n m h = omega (arith, h)

      safe : (i t : ℕ) → i < t → min i (t - 1) ≡ i
      safe i t h = omega (arith, h)

      ahead : (n i : ℕ) → i + n - i ≡ n
      ahead n i = omega arith
