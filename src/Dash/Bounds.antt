-- ===== src/Dash/Bounds.antt =====
-- The frame index and the number of frames.
use mathlib.Core.Path.{subst}
use nfdecoder.Base.{
  ℕ, zero, suc, ◌+◌, ◌-◌, ◌≤◌, ◌≡◌, refl, ◌∙◌, arith, ltb, ◌==◌, min, if◌then◌else◌, Bool, true,
  false, Option, none, some, List, [], ◌∷◌, get_elem?, Bool-cases, Option-cases, ◌⊎◌, inl, inr,
}
use nfdecoder.Base.Frames.{Decoded}
use nfdecoder.Base.Int.{ℤ, pos}
use nfdecoder.Base.Run.{Run, ret, fault, unfinished, or_fault, ◌>>=◌}
use nfdecoder.Provider.{DataProvider}
use nfdecoder.Dash.{
  Transmuxer, Times, Stream, Dash, frames, cached_frames, write_segment, take_calls, exhaust,
  wait_for, load_segment, pick, remove_junk, clip, load_at, fill_samples, deliver, decode,
}

module _ {F Rate : Type 0} (mux : Transmuxer) (times : Times Rate) (P : DataProvider)
    (S : Stream F Rate) where
  abbrev D : Type 0
  D = Dash mux times P S

  -- A result that there is has the frame index `i`.
  module _ {A : Type 0} (after : A → D) where
    Keeps : ℕ → Run A → Type 0
    Keeps i (ret a) = (after a).frame_index ≡ i
    Keeps i fault = Unit {0}
    Keeps i unfinished = Unit {0}

    ret-Keeps : (i : ℕ) (a : A) → (after a).frame_index ≡ i → Keeps i (ret a)
    unfolding Keeps
    ret-Keeps i a h = h

    fault-Keeps : (i : ℕ) → Keeps i fault
    unfolding Keeps
    fault-Keeps i = tt

    unfinished-Keeps : (i : ℕ) → Keeps i unfinished
    unfolding Keeps
    unfinished-Keeps i = tt

    or-Keeps :
        {B : Type 0} (i : ℕ) (m : Option B) (f : B → Run A)
        → ((b : B) → Keeps i (f b))
        → Keeps i (or_fault m >>= f)
    or-Keeps i none f h = fault-Keeps i
    or-Keeps i (some b) f h = h b

    if-Keeps :
        (i : ℕ) (b : Bool) (x y : Run A) → Keeps i x → Keeps i y → Keeps i (if b then x else y)
    if-Keeps i true x y h k = h
    if-Keeps i false x y h k = k

  bind-Keeps :
      {A B : Type 0} (f : A → D) (g : B → D) (i : ℕ) (m : Run A) (k : A → Run B)
      → Keeps f i m
      → ((a : A) → (f a).frame_index ≡ i → Keeps g i (k a))
      → Keeps g i (m >>= k)
  unfolding Keeps
  bind-Keeps f g i (ret a) k h rest = rest a h
  bind-Keeps f g i fault k h rest = tt
  bind-Keeps f g i unfinished k h rest = tt

  abbrev same : D → D
  same d = d

  -- The decoder after a step with a result.
  abbrev behind : {A : Type 0} → A × D → D
  behind r = r.1

  write_segment-Keeps :
      (d : D) (n : ℕ) → Keeps behind d.frame_index (write_segment mux times P S d n)
  unfolding write_segment Keeps
  write_segment-Keeps d n = ground arith

  take_calls-Keeps :
      (calls : List (Decoded F)) (d : D)
      → Keeps same d.frame_index (take_calls mux times P S same calls d)
  unfolding take_calls
  take_calls-Keeps [] d = ret-Keeps same d.frame_index d refl
  take_calls-Keeps (call ∷ calls) d =
      if-Keeps same d.frame_index _ fault _ (fault-Keeps same d.frame_index)
        (take_calls-Keeps calls _)

  exhaust-Keeps : (d : D) (n : ℕ) → Keeps behind d.frame_index (exhaust mux times P S d n same)
  unfolding exhaust
  exhaust-Keeps d n = elim (Option-cases (get_elem? d.index n)) [
    | inl e ↦ rw e (fault-Keeps behind d.frame_index)
    | inr (segment, e) ↦
        let (calls, decoder', memory') =
          S.decode d.decoder d.memory (times.segment_frames segment (S.sample_rate d.decoder)) in
        rw e (
          bind-Keeps same behind d.frame_index
            (take_calls mux times P S same calls
              (record d { decoder = decoder'; memory = memory' }))
            (λ d'. ret (calls, d'))
            (take_calls-Keeps calls (record d { decoder = decoder'; memory = memory' }))
            (λ d' h. ret-Keeps behind d.frame_index (calls, d') h))
  ]

  wait_for-Keeps :
      (r : List (Decoded F) × D) → Keeps behind r.1.frame_index (wait_for mux times P S r)
  unfolding wait_for
  wait_for-Keeps ([], d) = unfinished-Keeps behind d.frame_index
  wait_for-Keeps (call ∷ calls, d) = ret-Keeps behind d.frame_index (false, d) refl

  -- A step from a decoder with the same index.
  moved : {A : Type 0} (i j : ℕ) (m : Run (A × D)) → i ≡ j → Keeps behind i m → Keeps behind j m
  moved i j m e h = subst (λ k. Keeps behind k m) e h

  load_segment-Keeps : (d : D) (n : ℕ) → Keeps behind d.frame_index (load_segment mux times P S d n)
  unfolding load_segment
  load_segment-Keeps d n =
      bind-Keeps behind behind d.frame_index _ _ (write_segment-Keeps d n) (λ r h.
        if-Keeps behind d.frame_index (r.0 == 0) _ _
          (bind-Keeps behind behind d.frame_index _ _ (moved _ _ _ h (exhaust-Keeps r.1 n))
            (λ e k. moved _ _ _ k (wait_for-Keeps e)))
          (ret-Keeps behind d.frame_index (true, r.1) h))

  remove_junk-frame_index :
      (n : ℕ) (d : D) → (remove_junk mux times P S n d).frame_index ≡ d.frame_index
  unfolding remove_junk
  remove_junk-frame_index n d = elim (Bool-cases (ltb n 1024)) [
    | inl e ↦ rw e refl
    | inr e ↦ rw e refl
  ]

  clip-Keeps :
      (b : Bool) (n : ℕ) (z : ℤ) (d : D) (i : ℕ)
      → d.frame_index ≡ i
      → Keeps same i (clip mux times P S b n z d)
  unfolding clip
  clip-Keeps b n z d i h =
      if-Keeps same i _ _ _ (if-Keeps same i _ _ _ (fault-Keeps same i) (ret-Keeps same i _ h))
        (ret-Keeps same i d h)

  load_at-Keeps : (d : D) (n : ℕ) → Keeps behind d.frame_index (load_at mux times P S d n)
  unfolding load_at
  load_at-Keeps d n =
      let start = (pick mux times P S (S.sample_rate d.decoder) n d.index 0 (pos 0)).1 in
      let empty = cached_frames mux times P S d == 0 in
      bind-Keeps behind behind d.frame_index _ _ (load_segment-Keeps d _) (λ r h.
        bind-Keeps same behind d.frame_index
          (clip mux times P S empty n start (remove_junk mux times P S n r.1)) (λ d'. ret (r.0, d'))
          (clip-Keeps empty n start (remove_junk mux times P S n r.1) d.frame_index
            (remove_junk-frame_index n r.1 ∙ h))
          (λ d' k. ret-Keeps behind d.frame_index (r.0, d') k))

  fill_samples-Keeps :
      (fuel possible : ℕ) (d : D)
      → Keeps same d.frame_index (fill_samples mux times P S fuel possible d)
  unfolding fill_samples
  fill_samples-Keeps zero possible d =
      if-Keeps same d.frame_index _ _ _ (fault-Keeps same d.frame_index) (
        if-Keeps same d.frame_index _ _ _ (unfinished-Keeps same d.frame_index)
          (ret-Keeps same d.frame_index d refl))
  fill_samples-Keeps (suc fuel) possible d =
      if-Keeps same d.frame_index _ _ _ (fault-Keeps same d.frame_index) (
        if-Keeps same d.frame_index _ _ _
          (bind-Keeps behind same d.frame_index _ _ (load_at-Keeps d _) (λ r h.
            if-Keeps same d.frame_index r.0 _ _ (ret-Keeps same d.frame_index r.1 h) (
              subst (λ i. Keeps same i (fill_samples mux times P S fuel possible r.1)) h
                (fill_samples-Keeps fuel possible r.1))))
          (ret-Keeps same d.frame_index d refl))

  -- What there is of a result moves the index by what it delivers, and not past the end.
  abbrev pub Delivers : ℕ → D → Run (Decoded F × D) → Type 0
  Delivers wanted d r =
      (out : Decoded F) × (d' : D) × (r ≡ ret (out, d'))
      × (out.frame_index ≡ d.frame_index)
      × (d'.frame_index ≡ d.frame_index + out.frame_count)
      × (out.frame_count ≤ wanted)
      × (d'.frame_index ≤ frames mux times P S d)

  kept :
      (i : ℕ) (m : Run D)
      → Keeps same i m
      → ((d' : D) × (m ≡ ret d') × (d'.frame_index ≡ i)) ⊎ ((m ≡ fault) ⊎ (m ≡ unfinished))
  unfolding Keeps
  kept i (ret d') h = inl (d', refl, h)
  kept i fault h = inr (inl refl)
  kept i unfinished h = inr (inr refl)

  -- From a decoder that is not past the end of the file, what `decode` gives, where it is defined
  -- and ends, starts at the frame index, is no more than what is wanted, and moves the index behind
  -- it but not past the end.
  pub decode-Delivers :
      (fuel wanted : ℕ) (d : D)
      → d.frame_index ≤ frames mux times P S d
      → Delivers wanted d (decode mux times P S fuel wanted d)
        ⊎ ((decode mux times P S fuel wanted d ≡ fault)
            ⊎ (decode mux times P S fuel wanted d ≡ unfinished))
  unfolding decode deliver
  decode-Delivers fuel wanted d inside =
      let possible = min wanted (frames mux times P S d - d.frame_index) in
      elim (kept d.frame_index (fill_samples mux times P S fuel possible d)
        (fill_samples-Keeps fuel possible d)) [
          | inl (d', e, h) ↦
              let n = min possible (cached_frames mux times P S d') in
              inl (
                (deliver mux times P S possible d').0,
                (deliver mux times P S possible d').1,
                rw e refl,
                h,
                omega (arith, h),
                omega arith,
                omega (arith, h, inside),
              )
          | inr (inl e) ↦ inr (inl (rw e refl))
          | inr (inr e) ↦ inr (inr (rw e refl))
        ]
