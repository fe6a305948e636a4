-- ===== src/Ogg/Opus/Served.antt =====
-- How many frames the loop of the Opus decoder delivers, where the number of frames that are wanted
-- is taken for one of values.
use nfdecoder.Base.{ℕ, ◌+◌, ◌-◌, ◌*◌, ◌<◌, ◌≤◌, ◌≡◌, arith, ◌⊎◌, inl, inr}

module _ (channels total : ℕ) where
  -- How many frames more a loop delivers that wants `w` of them at frame `p`.
  pub record IsServed (w p m : ℕ) : Type 0 where
    pub wanted_most : m ≤ w
    pub inside : p + m ≤ total
    pub short : 1 < channels → 0 < w → m < w
    pub all : (p + m ≡ total) ⊎ (w - m < channels)

  module _ (some_channels : 0 < channels) where
    -- A round of `k` frames leaves some wanted, if there is more than one channel.
    not_all : (k w : ℕ) → 1 < channels → 0 < k → k * channels ≤ w → k < w
    not_all k w c some_frames fits = grind arith

    pub fewer : (k w : ℕ) → k * channels ≤ w → k ≤ w
    fewer k w fits = grind (arith, some_channels)

    pub IsServed-later :
        (w w' p k m : ℕ)
        → w ≡ k + w'
        → 0 < k
        → k * channels ≤ w
        → IsServed w' (p + k) m
        → IsServed w p (k + m)
    IsServed-later w w' p k m split some_frames fits h = record {
      wanted_most = omega (arith, h.wanted_most);
      inside = omega (arith, h.inside);
      short = λ c some_wanted.
          omega (arith, split, h.short c (omega (arith, split, not_all k w c some_frames fits)));
      all = elim h.all [ inl x ↦ inl (omega (arith, x)) | inr x ↦ inr (omega (arith, x, split)) ];
    }

    pub room_left :
        (n k wanted : ℕ)
        → n ≤ wanted
        → k * channels ≤ wanted - n
        → n * channels + k * channels ≤ wanted * channels
    room_left n k wanted within fits = grind (arith, fewer k (wanted - n) fits)
