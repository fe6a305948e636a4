-- ===== src/Android/Room.antt =====
-- Room in the float buffer: what waits in it stays the same.
use native.Mathlib.Nat.{add-mul}
use nfdecoder.Base.{
  ℕ, ◌+◌, ◌-◌, ◌*◌, ◌≤◌, ◌≡◌, refl, sym, ap, ◌∙◌, arith, ltb, leb, min, if◌then◌else◌, true, false,
  List, ◌++◌, take, drop, length, replicate, Bool-cases, inl, inr, take-append, length-append,
  length-take, length-drop, length-replicate, leb→le,
}
use nfdecoder.Provider.{DataProvider}
use nfdecoder.Android.{Java, Machine, Android, write_at}
use nfdecoder.Android.Buffer.{make_room}
use nfdecoder.Android.Slices.{slice-append, take_none, length-write_at, no_frames, area}

module _ {Float : Type 0} (java : Java) (machine : Machine Float) (P : DataProvider) where
  abbrev D : Type 0
  D = Android java machine P

  -- The frames in the buffer stand between the two positions, inside of it.
  pub record IsValid (d : D) : Type 0 where
    pub between : d.buffer_read_pos_frames + d.num_frames_in_buffer ≡ d.buffer_write_pos_frames
    pub inside : d.buffer_write_pos_frames ≤ d.buffer_capacity_frames
    pub sized : length d.float_buffer ≡ d.buffer_capacity_frames * d.channels

  -- The samples that wait to be delivered.
  abbrev pub waiting : D → List Float
  waiting d =
      take (d.num_frames_in_buffer * d.channels)
        (drop (d.buffer_read_pos_frames * d.channels) d.float_buffer)

  -- Valid, with the same samples waiting for as many channels.
  pub record Keeps (d d' : D) : Type 0 where
    pub valid : IsValid d'
    pub same : waiting d' ≡ waiting d
    pub channels : d'.channels ≡ d.channels

  abbrev pub moved : D → D
  moved d = record d {
    float_buffer = write_at 0 (waiting d) d.float_buffer;
    buffer_read_pos_frames = 0;
    buffer_write_pos_frames = d.num_frames_in_buffer;
  }

  pub length-waiting :
      (d : D) → IsValid d → length (waiting d) ≡ d.num_frames_in_buffer * d.channels
  length-waiting d v =
      length-take (d.num_frames_in_buffer * d.channels) (drop start d.float_buffer)
      ∙ fits d.num_frames_in_buffer d.channels start (length d.float_buffer) (length _)
          (length-drop start d.float_buffer)
          (area d.buffer_read_pos_frames d.num_frames_in_buffer d.channels _ _
            (omega (arith, v.between, v.inside)) v.sized)
    where
      start : ℕ
      start = d.buffer_read_pos_frames * d.channels

      fits : (n c p size left : ℕ) → left ≡ size - p → p + n * c ≤ size → min (n * c) left ≡ n * c
      fits n c p size left e h = omega (arith, e, h)

  moved-Keeps : (d : D) → IsValid d → Keeps d (moved d)
  moved-Keeps d v =
      let n = d.num_frames_in_buffer * d.channels in
      let fits =
        area 0 d.num_frames_in_buffer d.channels _ _ (omega (arith, v.between, v.inside)) v.sized in
      let size = length-waiting d v in
      let start : 0 * d.channels ≡ 0 = omega arith in
      record {
        valid = record {
          between = omega arith;
          inside = omega (arith, v.between, v.inside);
          sized =
              length-write_at 0 (waiting d) d.float_buffer (omega (arith, size, fits)) ∙ v.sized;
        };
        same =
            ap (λ k. take n (drop k (write_at 0 (waiting d) d.float_buffer))) start
            ∙ take-append n (waiting d) (drop (0 + length (waiting d)) d.float_buffer) (sym size);
        channels = refl;
      }

  -- Nothing is there to be moved.
  reset_positions : D → D
  reset_positions d = record d {
    buffer_read_pos_frames = 0;
    buffer_write_pos_frames = d.num_frames_in_buffer;
  }

  reset_positions-Keeps :
      (d : D) → IsValid d → d.num_frames_in_buffer ≡ 0 → Keeps d (reset_positions d)
  unfolding reset_positions
  reset_positions-Keeps d v e =
      let none_left = no_frames d.num_frames_in_buffer d.channels e in
      record {
        valid = record {
          between = omega arith;
          inside = omega (arith, v.between, v.inside);
          sized = v.sized;
        };
        same = take_none _ _ none_left ∙ sym (take_none _ _ none_left);
        channels = refl;
      }

  grown-Keeps :
      (frames : ℕ) (d : D)
      → IsValid d
      → Keeps d (record d {
        float_buffer = d.float_buffer ++ replicate (frames * 2 * d.channels) machine.unwritten;
        buffer_capacity_frames = d.buffer_capacity_frames + frames * 2;
      })
  grown-Keeps frames d v =
      let more = replicate (frames * 2 * d.channels) machine.unwritten in
      record {
        valid = record {
          between = v.between;
          inside = omega (arith, v.inside);
          sized =
              length-append d.float_buffer more
              ∙ omega (
                arith,
                length-replicate (frames * 2 * d.channels) machine.unwritten,
                v.sized,
                add-mul d.buffer_capacity_frames (frames * 2) d.channels,
              );
        };
        same =
            slice-append (d.buffer_read_pos_frames * d.channels)
              (d.num_frames_in_buffer * d.channels) d.float_buffer more
              (area d.buffer_read_pos_frames d.num_frames_in_buffer d.channels _ _
                (omega (arith, v.between, v.inside)) v.sized);
        channels = refl;
      }

  Keeps-trans : (d d' d'' : D) → Keeps d d' → Keeps d' d'' → Keeps d d''
  Keeps-trans d d' d'' h k = record {
    valid = k.valid;
    same = k.same ∙ h.same;
    channels = k.channels ∙ h.channels;
  }

  -- The buffer with its frames at the start.
  wrapped : D → D
  wrapped d = record d {
    float_buffer =
        if ltb 0 d.num_frames_in_buffer
        then write_at 0 (waiting d) d.float_buffer
        else d.float_buffer;
    buffer_read_pos_frames = 0;
    buffer_write_pos_frames = d.num_frames_in_buffer;
  }

  wrapped-Keeps : (d : D) → IsValid d → Keeps d (wrapped d)
  unfolding wrapped reset_positions
  wrapped-Keeps d v = elim (Bool-cases (ltb 0 d.num_frames_in_buffer)) [
    | inl e ↦ rw e (moved-Keeps d v)
    | inr e ↦ rw e (reset_positions-Keeps d v (nothing d.num_frames_in_buffer e))
  ]
    where
      nothing : (n : ℕ) → ltb 0 n ≡ false → n ≡ 0
      nothing n e = ground arith

  -- Where memory can be allocated, room is made and the samples that wait stay the same.
  pub make_room-Keeps :
      (frames : ℕ) (d : D)
      → ((n : ℕ) → machine.allocates n ≡ true)
      → IsValid d
      → (d' : D) × (make_room java machine P frames d ≡ (true, d'))
        × Keeps d d'
        × (frames ≤ d'.buffer_capacity_frames - d'.buffer_write_pos_frames)
  unfolding make_room wrapped
  make_room-Keeps frames d allocates v =
      let d1 = wrapped d in
      let k1 = wrapped-Keeps d v in
      elim (Bool-cases (leb frames (d.buffer_capacity_frames - d.buffer_write_pos_frames))) [
        | inl e ↦ (d, rw e refl, record { valid = v; same = refl; channels = refl }, leb→le _ _ e)
        | inr e ↦
            elim (Bool-cases (leb frames (d.buffer_capacity_frames - d.num_frames_in_buffer))) [
              | inl e' ↦ (d1, rw (e, e') refl, k1, leb→le _ _ e')
              | inr e' ↦ (
                record d1 {
                  float_buffer =
                      d1.float_buffer ++ replicate (frames * 2 * d.channels) machine.unwritten;
                  buffer_capacity_frames = d.buffer_capacity_frames + frames * 2;
                },
                rw (e, e', allocates _) refl,
                Keeps-trans d d1 _ k1 (grown-Keeps frames d1 k1.valid),
                omega (arith, v.between, v.inside),
              )
            ]
      ]
