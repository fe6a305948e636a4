-- ===== src/Factory/Normalisation/Rates.antt =====
-- The rate and the channels of the decoders that the factory delivers.
use nfdecoder.Base.{
  ◌≤◌, ◌≡◌, ltb, le→ltb, refl, inl, inr, ap, Bool, true, false, ◌&&◌, Option, none, some,
  Bool-cases, ==_iff,
}
use nfdecoder.Base.Int.{ℤ, pos, negsuc}
use nfdecoder.Base.Text.{Text}
use nfdecoder.Base.Run.{◌>>=◌}
use nfdecoder.Factory.{Objects, CreateDecoder, Calls, call, continue}
use nfdecoder.Factory.Once.{Each, continue-Each, Each-all}
use nfdecoder.Factory.Answered.{Answered, call-Answered, continue-Answered}
use nfdecoder.Factory.Normalisation.{
  same_int, Output, plain, normalised, sample_rate, channels, load, make, normalise,
  standard_channels, create_decoder,
}

same_int_lem : (a b : ℤ) → same_int a b ≡ true → a ≡ b
unfolding same_int
same_int_lem (pos a) (pos b) h = ap pos ((==_iff a b).0 h)
same_int_lem (pos a) (negsuc b) h = cc
same_int_lem (negsuc a) (pos b) h = cc
same_int_lem (negsuc a) (negsuc b) h = ap negsuc ((==_iff a b).0 h)

both : (a b : Bool) → a && b ≡ true → (a ≡ true) × (b ≡ true)
both true b h = (refl, h)
both false b h = cc

module _ (O : Objects) where
  -- What the caller asked for; null is allowed.
  pub IsAsked : O.Rate → ℤ → Option (Output O) → Type 0
  IsAsked samplerate n none = Unit
  IsAsked samplerate n (some output) =
      (O.same_rate (sample_rate O output) samplerate ≡ true) × (channels O output ≡ n)

  -- The call of a normaliser that is made and loaded.
  abbrev made : O.Decoder → O.Rate → ℤ → Calls (Option (Output O))
  made d samplerate n =
      make O d samplerate n >>= λ output. continue (load O output) (λ success. call (some output))

  made-IsAsked :
      (d : O.Decoder) (samplerate : O.Rate) (n : ℤ)
      → O.same_rate samplerate samplerate ≡ true
      → Each (IsAsked samplerate n) (made d samplerate n)
  unfolding make load IsAsked continue Each sample_rate channels
  made-IsAsked d samplerate (pos n) equal = elim (Bool-cases (ltb 2 n)) [
    | inl e ↦ rw e tt
    | inr e ↦ rw e ((equal, refl), tt)
  ]
  made-IsAsked d samplerate (negsuc n) equal = ((equal, refl), tt)

  -- The normaliser has a handler for each channel.
  unfoldable pub HasHandlers : ℤ → Type 0
  HasHandlers (pos n) = n ≤ 2
  HasHandlers (negsuc n) = Unit

  made-Answered :
      (d : O.Decoder) (samplerate : O.Rate) (n : ℤ) → HasHandlers n → Answered (made d samplerate n)
  unfolding make load HasHandlers
  made-Answered d samplerate (pos n) few = rw (le→ltb 2 n few) (
      continue-Answered _ (call true) (call-Answered true)
        (λ success. call-Answered (some (normalised d samplerate (pos n)))))
  made-Answered d samplerate (negsuc n) few =
      continue-Answered _ (call true) (call-Answered true)
        (λ success. call-Answered (some (normalised d samplerate (negsuc n))))

  module _ (samplerate : O.Rate) (n : ℤ) (equal : O.same_rate samplerate samplerate ≡ true) where
    normalise-IsAsked :
        (d : Option O.Decoder) → Each (IsAsked samplerate n) (normalise O samplerate n d)
    unfolding normalise load IsAsked continue Each sample_rate channels
    normalise-IsAsked none = (tt, tt)
    normalise-IsAsked (some d) =
        elim (Bool-cases (O.same_rate (O.sample_rate d) samplerate && same_int (O.channels d) n)) [
          | inl e ↦ rw e ((let (r, c) = both _ _ e in (r, same_int_lem (O.channels d) n c)), tt)
          | inr e ↦ rw e (made-IsAsked d samplerate n equal)
        ]

    -- Every decoder that the callback is called with has the rate and the number of channels that
    -- were asked for, whatever the wrapped factory delivers. The rate is no NaN: it is equal to
    -- itself.
    pub create_decoder-IsAsked :
        (wrapped : CreateDecoder O O.Decoder) (path mime_type : Text)
        → Each (IsAsked samplerate n) (create_decoder O wrapped path mime_type samplerate n)
    unfolding create_decoder
    create_decoder-IsAsked wrapped path mime_type =
        continue-Each _ _ (λ a. Unit {0}) (λ d h. normalise-IsAsked d)
          (wrapped path mime_type O.standard_samplerate (standard_channels O)) (Each-all _)

  pub normalise-Answered :
      (samplerate : O.Rate) (n : ℤ) (d : Option O.Decoder)
      → HasHandlers n
      → Answered (normalise O samplerate n d)
  unfolding normalise
  normalise-Answered samplerate n none few = call-Answered none
  normalise-Answered samplerate n (some d) few =
      elim (Bool-cases (O.same_rate (O.sample_rate d) samplerate && same_int (O.channels d) n)) [
        | inl e ↦ rw e (call-Answered (some (plain d)))
        | inr e ↦ rw e (made-Answered d samplerate n few)
      ]
