-- ===== src/Android/Deliver.antt =====
-- What decode delivers of the frames that wait in the float buffer.
use native.Mathlib.Nat.{add-mul}
use nfdecoder.Base.{
  ℕ, ◌+◌, ◌-◌, ◌*◌, ◌<◌, ◌≤◌, ◌≡◌, refl, sym, ap, ◌∙◌, arith, min, true, List, [], ◌∷◌, ◌++◌, take,
  drop, length, length-take, length-drop, take-nil, drop-add, lt→ltb, le→ltb,
}
use nfdecoder.Base.Frames.{Decoded}
use nfdecoder.Base.Run.{ret}
use nfdecoder.Provider.{DataProvider}
use nfdecoder.Android.{Java, Machine, Android}
use nfdecoder.Android.Decode.{offer, decode_frames, decode}
use nfdecoder.Android.Room.{IsValid, waiting}
use nfdecoder.Android.Slices.{area, take-add}

module _ {F : Type 0} (java : Java) (machine : Machine F) (P : DataProvider) where
  abbrev D : Type 0
  D = Android java machine P

  -- The decoder behind `n` frames.
  abbrev behind : ℕ → D → D
  behind n d = record d {
    current_frame_index = d.current_frame_index + n;
    buffer_read_pos_frames = d.buffer_read_pos_frames + n;
    num_frames_in_buffer = d.num_frames_in_buffer - n;
  }

  offered : ℕ → D → List F
  offered n d = take (n * d.channels) (drop (d.buffer_read_pos_frames * d.channels) d.float_buffer)

  offered-waiting :
      (n : ℕ) (d : D)
      → n ≤ d.num_frames_in_buffer
      → offered n d ++ waiting java machine P (behind n d) ≡ waiting java machine P d
  unfolding offered
  offered-waiting n d some_frames =
      let c = d.channels in
      let start = drop (d.buffer_read_pos_frames * c) d.float_buffer in
      let rest = (d.num_frames_in_buffer - n) * c in
      let all : d.num_frames_in_buffer * c ≡ n * c + rest =
        ap (λ k. k * c) (parts d.num_frames_in_buffer some_frames)
        ∙ add-mul n (d.num_frames_in_buffer - n) c in
      ap (λ t. take (n * c) start ++ take rest t)
        (ap (λ k. drop k d.float_buffer) (add-mul d.buffer_read_pos_frames n c)
          ∙ drop-add (d.buffer_read_pos_frames * c) (n * c) d.float_buffer)
      ∙ sym (take-add (n * c) rest start)
      ∙ ap (λ k. take k start) (sym all)
    where
      parts : (k : ℕ) → n ≤ k → k ≡ n + (k - n)
      parts k h = omega (arith, h)

  -- A call for some frames, where at least half of them wait in a valid buffer, and the memory for
  -- them can be allocated, delivers the frames that wait, but not more than are wanted, although it
  -- could decode the rest of them: the callback is called once, with the index behind these frames
  -- and their samples in order, and the others go on waiting.
  pub decode-offers :
      (wanted : ℕ) (d : D)
      → IsValid java machine P d
      → machine.allocates (wanted * d.channels * 4) ≡ true
      → 0 < wanted
      → wanted ≤ 2 * d.num_frames_in_buffer
      → (out : Decoded F) × (d' : D) × (decode java machine P 2 wanted d ≡ ret (out ∷ [], d'))
        × (out.frame_count ≡ min d.num_frames_in_buffer wanted)
        × (out.frame_index ≡ d.current_frame_index + out.frame_count)
        × (length out.samples ≡ out.frame_count * d.channels)
        × (out.samples ++ waiting java machine P d' ≡ waiting java machine P d)
  unfolding decode decode_frames offer offered
  decode-offers wanted d v allocated some_wanted half =
      let n = min d.num_frames_in_buffer wanted in
      let more : 0 < n = omega (arith, some_wanted, half) in
      let none_left : wanted - n ≤ 0 + n = omega (arith, half) in
      let size : length (offered n d) ≡ n * d.channels =
        length-take (n * d.channels) (drop (d.buffer_read_pos_frames * d.channels) d.float_buffer)
        ∙ omega (
          arith,
          length-drop (d.buffer_read_pos_frames * d.channels) d.float_buffer,
          area d.buffer_read_pos_frames n d.channels _ _ (omega (arith, v.between, v.inside))
              v.sized,
        ) in
      let counted : 0 + n ≡ n = omega arith in
      (
        record { frame_index = d.current_frame_index + n; frame_count = n; samples = offered n d },
        behind n d,
        rw
            (
              allocated,
              lt→ltb 0 wanted some_wanted,
              lt→ltb 0 n more,
              le→ltb (0 + n) (wanted - n) none_left,
            )
            (rw (counted, take-nil F (0 * d.channels)) refl),
        refl,
        refl,
        size,
        offered-waiting n d (omega arith),
      )
