-- ===== src/Android/Queue.antt =====
-- The frames in the float buffer are a queue: packets are put behind what is there.
use mathlib.Core.Path.{subst}
use native.Mathlib.Nat.{add-mul}
use nfdecoder.Base.{
  ℕ, suc, ◌+◌, ◌-◌, ◌*◌, ◌/◌, ◌≤◌, ◌≡◌, refl, sym, ap, ◌∙◌, arith, ◌==◌, if◌then◌else◌, Bool, true,
  false, List, [], ◌∷◌, ◌++◌, map, take, drop, length, length-take, le→ltb,
}
use nfdecoder.Base.Run.{ret}
use nfdecoder.Provider.{DataProvider}
use nfdecoder.Android.{Java, Machine, Android, write_at}
use nfdecoder.Android.Buffer.{store, put_into_float_buffer}
use nfdecoder.Android.Slices.{write_at-slice, length-write_at, area}
use nfdecoder.Android.Room.{IsValid, waiting, make_room-Keeps}

module _ {Float : Type 0} (java : Java) (machine : Machine Float) (P : DataProvider) where
  abbrev D : Type 0
  D = Android java machine P

  -- The frames of a packet as floats.
  abbrev pub packet_samples : ℕ → ℕ → List ℕ → List Float
  packet_samples frames channels ints = map machine.scaled (take (frames * channels) ints)

  length-map : (xs : List ℕ) → length (map machine.scaled xs) ≡ length xs
  length-map [] = refl
  length-map (x ∷ xs) = ap suc (length-map xs)

  store_lem :
      (frames : ℕ) (ints : List ℕ) (d : D)
      → IsValid java machine P d
      → frames * d.channels ≤ length ints
      → frames ≤ d.buffer_capacity_frames - d.buffer_write_pos_frames
      → IsValid java machine P (store java machine P frames ints d)
        × (waiting java machine P (store java machine P frames ints d)
            ≡ waiting java machine P d ++ packet_samples frames d.channels ints)
  unfolding store
  store_lem frames ints d v enough room =
      let c = d.channels in
      let xs = packet_samples frames c ints in
      let size : length xs ≡ frames * c =
        length-map (take (frames * c) ints)
        ∙ length-take (frames * c) ints
        ∙ omega (arith, enough) in
      let write : d.buffer_write_pos_frames * c
          ≡ d.buffer_read_pos_frames * c + d.num_frames_in_buffer * c =
        ap (λ k. k * c) (sym v.between)
        ∙ add-mul d.buffer_read_pos_frames d.num_frames_in_buffer c in
      let more : (d.num_frames_in_buffer + frames) * c ≡ d.num_frames_in_buffer * c + length xs =
        add-mul d.num_frames_in_buffer frames c
        ∙ ap (λ k. d.num_frames_in_buffer * c + k) (sym size) in
      let fits =
        area d.buffer_write_pos_frames frames c _ _ (omega (arith, room, v.inside)) v.sized in
      (
        record {
          between = omega (arith, v.between);
          inside = omega (arith, v.inside, room);
          sized =
              length-write_at (d.buffer_write_pos_frames * c) xs d.float_buffer
                (omega (arith, fits, size))
              ∙ v.sized;
        },
        ap
              (λ k. take k (
                drop (d.buffer_read_pos_frames * c)
                  (write_at (d.buffer_write_pos_frames * c) xs d.float_buffer)))
              more
            ∙ ap
                (λ k.
                  take (d.num_frames_in_buffer * c + length xs)
                    (drop (d.buffer_read_pos_frames * c) (write_at k xs d.float_buffer)))
                write
            ∙ write_at-slice (d.buffer_read_pos_frames * c) (d.num_frames_in_buffer * c) xs
                d.float_buffer
                (area d.buffer_read_pos_frames d.num_frames_in_buffer c _ _
                  (omega (arith, v.between, v.inside)) v.sized),
      )

  -- Where memory can be allocated, putIntoFloatBuffer on a valid buffer with channels succeeds for
  -- every packet that has the samples its bytes are said to hold: the buffer is valid again, and
  -- what waits in it is what waited before and behind it the frames of the packet as floats,
  -- however the buffer was moved or grown.
  pub put_into_float_buffer-waiting :
      (bytes_read : ℕ) (ints : List ℕ) (d : D)
      → ((n : ℕ) → machine.allocates n ≡ true)
      → IsValid java machine P d
      → (d.channels == 0) ≡ false
      → bytes_read / (2 * d.channels) * d.channels ≤ length ints
      → (d' : D) × (put_into_float_buffer java machine P bytes_read ints d ≡ ret (true, d'))
        × IsValid java machine P d'
        × (waiting java machine P d'
            ≡ waiting java machine P d
              ++ packet_samples (bytes_read / (2 * d.channels)) d.channels ints)
  unfolding put_into_float_buffer
  put_into_float_buffer-waiting bytes_read ints d allocates v some_channels enough =
      let frames = bytes_read / (2 * d.channels) in
      let (d1, e, k, room) = make_room-Keeps java machine P frames d allocates v in
      let same_channels : packet_samples frames d1.channels ints
          ≡ packet_samples frames d.channels ints =
        ap (λ c. packet_samples frames c ints) k.channels in
      let (v', w) =
        store_lem frames ints d1 k.valid
          (subst (λ c. frames * c ≤ length ints) (sym k.channels) enough) room in
      (
        store java machine P frames ints d1,
        rw (some_channels, le→ltb (length ints) (frames * d.channels) enough)
            (ap
              (λ (r : Bool × D).
                if r.0 then ret (true, store java machine P frames ints r.1) else ret (false, r.1))
              e),
        v',
        w
            ∙ ap (λ t. t ++ packet_samples frames d1.channels ints) k.same
            ∙ ap (λ t. waiting java machine P d ++ t) same_channels,
      )
