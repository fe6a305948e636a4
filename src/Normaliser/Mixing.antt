-- ===== src/Normaliser/Mixing.antt =====
-- source/DecoderNormalisationImplementation.cpp: the channels of each frame, mixed into fewer or
-- more. The loops of the code go over the frames inside or outside; the frames do not touch each
-- other.
use nfdecoder.Base.{
  ℕ, zero, suc, ◌+◌, ◌-◌, ◌*◌, ◌/◌, ◌%◌, ◌==◌, ltb, if◌then◌else◌, ◌||◌, ◌&&◌, List, [], ◌∷◌, ◌++◌,
  map, take, drop, length, get_or, set, replicate,
}
use nfdecoder.Base.Run.{Run, ret, fault}

-- The arithmetic of floats; `count` is the conversion of an `int`, and `left_over n` what a new
-- buffer of `n` floats holds.
pub record Floats (Float : Type 0) : Type 0 where
  pub silence : Float
  pub sum : Float → Float → Float
  pub ratio : Float → Float → Float
  pub count : ℕ → Float
  pub left_over : ℕ → List Float

module _ {Float : Type 0} (floats : Floats Float) where
  open floats use {silence, sum, ratio, count}

  -- `row[i] += x`
  unfoldable pub add_at : List Float → ℕ → Float → List Float
  add_at row i x = set row i (sum (get_or row i silence) x)

  -- The first loop: `n` channels of the decoder from `j` on, added in turn.
  unfoldable pub fold_channels : ℕ → ℕ → ℕ → List Float → List Float → List Float
  unfolding add_at
  fold_channels channels j zero frame row = row
  fold_channels channels j (suc n) frame row =
      fold_channels channels (j + 1) n frame (add_at row (j % channels) (get_or frame j silence))

  -- The quotient in the volume is one of integers.
  unfoldable pub mix_down : ℕ → ℕ → List Float → List Float
  unfolding fold_channels
  mix_down channels decoder_channels frame =
      let even = decoder_channels - decoder_channels % channels in
      let row = fold_channels channels 0 even frame (replicate channels silence) in
      let uneven = map (λ x. sum x (get_or frame (decoder_channels - 1) silence)) row in
      map (λ x. ratio x (count (decoder_channels / channels)))
        (if even == decoder_channels then row else uneven)

  -- The sum of `n` channels from `k` on.
  unfoldable pub total : ℕ → ℕ → List Float → Float → Float
  total k zero frame x = x
  total k (suc n) frame x = total (k + 1) n frame (sum x (get_or frame k silence))

  -- `n` channels of a frame from `i` on: the decoder's, and then their mean.
  unfoldable pub mix_up : ℕ → ℕ → ℕ → List Float → List Float
  unfolding total
  mix_up decoder_channels i zero frame = []
  mix_up decoder_channels i (suc n) frame =
      (if ltb i decoder_channels
        then get_or frame i silence
        else ratio (total 0 decoder_channels frame silence) (count decoder_channels))
      ∷ mix_up decoder_channels (i + 1) n frame

  unfoldable pub mix_frame : ℕ → ℕ → List Float → List Float
  unfolding mix_down mix_up
  mix_frame channels decoder_channels frame =
      if ltb channels decoder_channels
      then mix_down channels decoder_channels frame
      else mix_up decoder_channels 0 channels frame

  unfoldable pub mix_frames : ℕ → ℕ → ℕ → List Float → List Float
  unfolding mix_frame
  mix_frames channels decoder_channels zero samples = []
  mix_frames channels decoder_channels (suc n) samples =
      mix_frame channels decoder_channels (take decoder_channels samples)
      ++ mix_frames channels decoder_channels n (drop decoder_channels samples)

  -- A read past the samples is undefined, and so is a remainder by 0.
  unfoldable pub mix : ℕ → ℕ → ℕ → List Float → Run (List Float)
  unfolding mix_frames
  mix channels decoder_channels n samples =
      if ltb (length samples) (n * decoder_channels)
        || (ltb channels decoder_channels && channels == 0)
      then fault
      else if channels == decoder_channels
      then ret (take (n * channels) samples)
      else ret (mix_frames channels decoder_channels n samples)
