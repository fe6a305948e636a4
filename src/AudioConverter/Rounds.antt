-- ===== src/AudioConverter/Rounds.antt =====
-- The rounds of decode at the first frame of an AAC file.
use native.Mathlib.Decide.{dec_le}
use native.Mathlib.Nat.{mul-div_cancel, add-mul}
use nfdecoder.Base.{
  ℕ, suc, ◌+◌, ◌-◌, ◌*◌, ◌/◌, ◌<◌, ◌≤◌, ◌≡◌, ◌≢◌, refl, ap, ◌∙◌, ◌⊎◌, inl, inr, arith, ◌==◌, ltb,
  min, if◌then◌else◌, Bool, true, false, ◌&&◌, some, [], take, drop, length, length-drop, ne→==,
}
use nfdecoder.Base.Int.{ℤ, negsuc, failed}
use nfdecoder.Base.Run.{ret, ◌>>=◌}
use nfdecoder.Provider.{DataProvider, Reading}
use nfdecoder.AudioConverter.{AudioToolbox, AudioConverter, fill_data}
use nfdecoder.AudioConverter.Decode.{Decoding, delete_frames, dump_data, fill, round}
use nfdecoder.AudioConverter.Start.{RunsOut, AtStart, run_parse-AtStart}

-- A provider whose reads of a chunk are defined, and that has nothing left after so many of them.
pub record IsFinite (P : DataProvider) : Type 0 where
  pub left : P.State → ℕ
  pub reads :
      (s : P.State)
      → (r : Reading P.State) × (P.read s 1 (1024 * 500) ≡ some r)
        × (((r.value == 0) ≡ true) ⊎ (((r.value == 0) ≡ false) × (left r.next < left s)))

parts : (k : ℕ) → k ≡ min 1024 k + (k - 1024)
parts k = omega arith

and_false : (b : Bool) → (b && false) ≡ false
and_false true = refl
and_false false = refl

nothing_left : (k : ℕ) → k ≤ 1024 → k - 1024 ≡ 0
nothing_left k h = omega (arith, h)

one_plus : (k n : ℕ) → suc k * n ≡ n + k * n
one_plus k n = grind arith

some_of : (k n : ℕ) → 0 < n → suc k * n ≢ 0
some_of k n h e = omega (arith, h, e, one_plus k n)

module _ {F Rate : Type 0} (lib : AudioToolbox F Rate) (P : DataProvider) (channels : ℕ)
    (out : RunsOut lib channels) (finite : IsFinite P) where
  abbrev D : Type 0
  D = AudioConverter lib P

  abbrev At : P.State → D → Type 0
  At = AtStart lib P channels out

  -- A chunk leaves less in the provider, or the status is not 0.
  pub fill_data-AtStart :
      (fuel : ℕ) (s : P.State) (d : D)
      → At s d
      → out.most < fuel
      → (z : ℤ) × (d' : D) × (s' : P.State) × (fill_data lib P fuel d ≡ ret (z, d'))
        × At s' d'
        × ((failed z ≡ true) ⊎ (finite.left s' < finite.left s))
  unfolding fill_data
  fill_data-AtStart fuel s d a enough =
      let (r, e, what) = finite.reads s in
      let read : P.read d.provider 1 (1024 * 500) ≡ some r =
        ap (λ p. P.read p 1 (1024 * 500)) a.stands ∙ e in
      let d1 : D = record d { provider = r.next } in
      let a1 : At r.next d1 = moved r.next d a in
      let (x, d2, e2, a2) =
        run_parse-AtStart lib P channels out fuel (lib.parse_bytes d.stream (take r.value r.bytes))
          r.next d1 a1 enough in
      let d3 : D = record d2 { stream = x.1 } in
      elim what [
        | inl over ↦ (negsuc 0, d1, r.next, rw (read, over) refl, a1, inl refl)
        | inr (more, less) ↦ (
          x.0,
          d3,
          r.next,
          rw (read, more) (ap (λ m. m >>= λ p. ret (p.0.0, record p.1 { stream = p.0.1 })) e2),
          streamed x.1 r.next d2 a2,
          inr less,
        )
      ]
    where
      moved : (s' : P.State) (d : D) → At s d → At s' (record d { provider = s' })
      moved s' d a = record {
        stands = refl;
        index = a.index;
        offset = a.offset;
        junk = a.junk;
        wide = a.wide;
        converter = a.converter;
        made = a.made;
        frames = a.frames;
        whole = a.whole;
      }

      streamed : (x : lib.Stream) (s' : P.State) (d : D) → At s' d → At s' (record d { stream = x })
      streamed x s' d a = record {
        stands = a.stands;
        index = a.index;
        offset = a.offset;
        junk = a.junk;
        wide = a.wide;
        converter = a.converter;
        made = a.made;
        frames = a.frames;
        whole = a.whole;
      }

  -- Nothing has been read in this call.
  abbrev fresh : D → Decoding lib P
  fresh d = record { decoder = d; read_frames = 0; samples = [] }

  module _ (some_channels : 0 < channels) (wanted : ℕ) (few : wanted ≤ 1024) where
    deleted :
        (s : P.State) (d : D) (a : At s d) → delete_frames lib P 0 (fresh d) ≡ min 1024 a.frames
    unfolding delete_frames
    deleted s d a =
        let size : length d.pcm_buffer / d.channels ≡ a.frames =
          ap (λ c. length d.pcm_buffer / c) a.wide
          ∙ ap (λ n. n / channels) a.whole
          ∙ mul-div_cancel a.frames some_channels in
        ap (λ j. if ltb (0 + 0) j then min (j - (0 + 0)) (length d.pcm_buffer / d.channels) else 0)
          a.junk
        ∙ ap (min 1024) size

    pub dump_data-AtStart :
        (s : P.State) (d : D) (a : At s d)
        → (d' : D) × (dump_data lib P wanted 0 (fresh d) ≡ ret (fresh d'))
          × (a' : At s d') × (a'.frames ≡ a.frames - 1024)
    unfolding dump_data
    dump_data-AtStart s d a =
        let n = delete_frames lib P 0 (fresh d) in
        let d1 : D = record d { pcm_buffer = drop (n * d.channels) d.pcm_buffer } in
        let size : length (drop (n * d.channels) d.pcm_buffer) ≡ (a.frames - 1024) * channels =
          length-drop (n * d.channels) d.pcm_buffer
          ∙ ap (λ k. length d.pcm_buffer - k * d.channels) (deleted s d a)
          ∙ ap (λ c. length d.pcm_buffer - min 1024 a.frames * c) a.wide
          ∙ ap (λ k. k - min 1024 a.frames * channels) a.whole
          ∙ rest a.frames in
        let nothing : (ltb 0 (wanted - 0 - n) && ltb 0 (length d1.pcm_buffer)) ≡ false =
          ap (λ k. ltb 0 (wanted - 0 - k) && ltb 0 (length d1.pcm_buffer)) (deleted s d a)
          ∙ ap (λ k. ltb 0 (wanted - 0 - min 1024 a.frames) && ltb 0 k) size
          ∙ none_read a.frames in
        let wide : (d.channels == 0) ≡ false =
          ap (λ c. c == 0) a.wide ∙ ne→== channels 0 (λ e. omega (arith, e, some_channels)) in
        (
          d1,
          rw (wide, nothing) refl,
          record {
            stands = a.stands;
            index = a.index;
            offset = a.offset;
            junk = a.junk;
            wide = a.wide;
            converter = a.converter;
            made = a.made;
            frames = a.frames - 1024;
            whole = size;
          },
          refl,
        )
      where
        rest : (k : ℕ) → k * channels - min 1024 k * channels ≡ (k - 1024) * channels
        rest k =
            omega
              (arith, ap (λ x. x * channels) (parts k) ∙ add-mul (min 1024 k) (k - 1024) channels)

        none_read :
            (k : ℕ) → (ltb 0 (wanted - 0 - min 1024 k) && ltb 0 ((k - 1024) * channels)) ≡ false
        none_read k = elim (dec_le k 1024) [
          | yes h ↦
              let none_left : (k - 1024) * channels ≡ 0 =
                ap (λ j. j * channels) (nothing_left k h) ∙ omega arith in
              rw none_left (and_false (ltb 0 (wanted - 0 - min 1024 k)))
          | no h ↦
              let none_wanted : wanted - 0 - min 1024 k ≡ 0 = omega (arith, h, few) in
              rw none_wanted refl
        ]

    -- The rounds of the loop.
    pub round_fill :
        (inner : ℕ) (s : P.State) (d : D) (a : At s d) (r : ℤ × D)
        → a.frames ≡ 0
        → fill_data lib P inner d ≡ ret r
        → round lib P inner wanted 0 (fresh d) ≡ ret (if failed r.0 then false else true, fresh r.1)
    unfolding round fill
    round_fill inner s d a r none_cached e =
        let empty : length d.pcm_buffer ≡ 0 =
          a.whole ∙ ap (λ k. k * channels) none_cached ∙ omega arith in
        let at_frame : ltb 0 d.frame_offset ≡ false = ap (ltb 0) a.offset in
        rw (at_frame, empty)
          (ap (λ m. m >>= λ r. ret (if failed r.0 then false else true, fresh r.1)) e)

    pub round_dump :
        (inner k : ℕ) (s : P.State) (d d' : D) (a : At s d)
        → a.frames ≡ suc k
        → dump_data lib P wanted 0 (fresh d) ≡ ret (fresh d')
        → round lib P inner wanted 0 (fresh d) ≡ ret (true, fresh d')
    unfolding round
    round_dump inner k s d d' a some_cached e =
        let at_frame : ltb 0 d.frame_offset ≡ false = ap (ltb 0) a.offset in
        let some_samples : (length d.pcm_buffer == 0) ≡ false =
          ap (λ n. n == 0) (a.whole ∙ ap (λ j. j * channels) some_cached)
          ∙ ne→== (suc k * channels) 0 (some_of k channels some_channels) in
        rw (at_frame, some_samples) (ap (λ m. m >>= λ l. ret (true, l)) e)
