-- ===== src/AudioConverter/Start.antt =====
-- A decoder that stands at the first frame of an AAC file goes on standing there while it converts.
use mathlib.Core.Path.{subst}
use native.Mathlib.Nat.{add-mul}
use nfdecoder.Base.{
  ℕ, zero, suc, ◌+◌, ◌*◌, ◌<◌, ◌≤◌, ◌≡◌, refl, sym, ap, ◌∙◌, ◌⊎◌, inl, inr, arith, ◌==◌,
  if◌then◌else◌, Bool, true, false, ◌||◌, Option, none, some, List, ◌++◌, take, length,
  length-append, length-take, Bool-cases, le→ltb,
}
use nfdecoder.Base.Int.{ℤ, failed}
use nfdecoder.Base.Run.{Run, ret, or_fault, ◌>>=◌}
use nfdecoder.Provider.{DataProvider}
use nfdecoder.AudioConverter.{
  Fill, filled, asking, Parse, parsed, packets, AudioToolbox, AudioConverter, input_data_proc,
  run_fill, take_output, convert, sample_proc, run_parse,
}

-- Whatever it is given, the call ends with a result that satisfies `Q`.
unfoldable pub Always : {A : Type 0} → (A → Type 0) → Fill A → Type 0
Always Q (filled a) = Q a
Always Q (asking n k) = (x : Option (List ℕ × ℕ)) → Always Q (k x)

-- A converter of `channels` channels that runs out of packets, and writes the samples it reports.
-- `held` is how often it can give some.
pub record RunsOut {F Rate : Type 0} (lib : AudioToolbox F Rate) (channels : ℕ) : Type 0 where
  pub held : lib.Converter → ℕ
  pub most : ℕ
  pub held_most : (c : lib.Converter) → held c ≤ most
  pub fills :
      (c : lib.Converter) (maximum : ℕ)
      → Always
          (λ r.
            (failed r.0 || (r.1 == 0) ≡ true)
            ⊎ ((failed r.0 || (r.1 == 0) ≡ false)
                × (r.1 * channels ≤ length r.2)
                × (held r.3 < held c)))
          (lib.fill_complex_buffer c maximum)

module _ {F Rate : Type 0} (lib : AudioToolbox F Rate) (P : DataProvider) where
  abbrev D : Type 0
  D = AudioConverter lib P

  input_data_proc_lem :
      (n : ℕ) (d : D)
      → (i : Option (List ℕ)) × ((input_data_proc lib P n d).1 ≡ record d { input = i })
  unfolding input_data_proc
  input_data_proc_lem zero d = (d.input, refl)
  input_data_proc_lem (suc n) d = (none, refl)

  -- A call of the converter changes no more than the input.
  run_fill_lem :
      {A : Type 0} (Q : A → Type 0) (call : Fill A) (d : D)
      → Always Q call
      → (a : A) × (i : Option (List ℕ)) × (run_fill lib P call d ≡ (a, record d { input = i }))
        × Q a
  unfolding run_fill Always
  run_fill_lem Q (filled a) d h = (a, d.input, refl, h)
  run_fill_lem Q (asking n k) d h =
      let x = (input_data_proc lib P n d).0 in
      let (i, e) = input_data_proc_lem n d in
      let (a, j, e', q) = run_fill_lem Q (k x) (record d { input = i }) (h x) in
      (a, j, ap (run_fill lib P (k x)) e ∙ e', q)

  module _ (channels : ℕ) (out : RunsOut lib channels) where
    -- At the first frame of an AAC file, with whole frames cached.
    pub record AtStart (s : P.State) (d : D) : Type 0 where
      pub stands : d.provider ≡ s
      pub index : d.frame_index ≡ 0
      pub offset : d.frame_offset ≡ 0
      pub junk : d.start_junk_frames ≡ 1024
      pub wide : d.channels ≡ channels
      pub converter : lib.Converter
      pub made : d.converter ≡ some converter
      pub frames : ℕ
      pub whole : length d.pcm_buffer ≡ frames * channels

    take_output-AtStart :
        (s : P.State) (d : D) (a : AtStart s d) (r : ℤ × ℕ × List F × lib.Converter)
        → (failed r.0 || (r.1 == 0) ≡ true)
          ⊎ ((failed r.0 || (r.1 == 0) ≡ false)
              × (r.1 * channels ≤ length r.2)
              × (out.held r.3 < out.held a.converter))
        → (go : Bool) × (d' : D) × (take_output lib P (r, d) ≡ ret (go, d'))
          × (a' : AtStart s d') × ((go ≡ false) ⊎ (out.held a'.converter < out.held a.converter))
    unfolding take_output
    take_output-AtStart s d a r (inl over) = (
      false,
      record d { converter = some r.3 },
      rw over refl,
      record {
        stands = a.stands;
        index = a.index;
        offset = a.offset;
        junk = a.junk;
        wide = a.wide;
        converter = r.3;
        made = refl;
        frames = a.frames;
        whole = a.whole;
      },
      inl refl,
    )
    take_output-AtStart s d a r (inr (more, enough, less)) =
        let size : length (take (r.1 * d.channels) r.2) ≡ r.1 * channels =
          length-take (r.1 * d.channels) r.2 ∙ rw a.wide (omega (arith, enough)) in
        (
          true,
          record d {
            converter = some r.3;
            pcm_buffer = d.pcm_buffer ++ take (r.1 * d.channels) r.2;
          },
          rw
              (
                more,
                le→ltb (length r.2) (r.1 * d.channels)
                    (subst (λ c. r.1 * c ≤ length r.2) (sym a.wide) enough),
              )
              refl,
          record {
            stands = a.stands;
            index = a.index;
            offset = a.offset;
            junk = a.junk;
            wide = a.wide;
            converter = r.3;
            made = refl;
            frames = a.frames + r.1;
            whole =
                length-append d.pcm_buffer (take (r.1 * d.channels) r.2)
                ∙ omega (arith, a.whole, size, add-mul a.frames r.1 channels);
          },
          inr less,
        )

    AtStart-input :
        (s : P.State) (d : D) (i : Option (List ℕ))
        → AtStart s d
        → AtStart s (record d { input = i })
    AtStart-input s d i a = record {
      stands = a.stands;
      index = a.index;
      offset = a.offset;
      junk = a.junk;
      wide = a.wide;
      converter = a.converter;
      made = a.made;
      frames = a.frames;
      whole = a.whole;
    }

    convert-AtStart :
        (fuel maximum : ℕ) (s : P.State) (d : D) (a : AtStart s d)
        → out.held a.converter < fuel
        → (d' : D) × (convert lib P fuel maximum d ≡ ret d') × AtStart s d'
    unfolding convert AtStart-input
    convert-AtStart zero maximum s d a enough = absurd (omega (arith, enough))
    convert-AtStart (suc fuel) maximum s d a enough =
        let (r, i, e, q) =
          run_fill_lem _ (lib.fill_complex_buffer a.converter maximum) d
            (out.fills a.converter maximum) in
        let (go, d1, e1, a1, less) =
          take_output-AtStart s (record d { input = i }) (AtStart-input s d i a) r q in
        let k : Bool × D → Run D =
          λ x. let rest = convert lib P fuel maximum x.1 in if x.0 then rest else ret x.1 in
        let start : convert lib P (suc fuel) maximum d ≡ k (go, d1) =
          ap
            (λ o. or_fault o >>= λ c.
              take_output lib P (run_fill lib P (lib.fill_complex_buffer c maximum) d) >>= k)
            a.made
          ∙ ap (λ x. take_output lib P x >>= k) e
          ∙ ap (λ m. m >>= k) e1 in
        elim (Bool-cases go) [
          | inl on ↦
              let (d2, e2, a2) = convert-AtStart fuel maximum s d1 a1 (fewer go on less) in
              (d2, start ∙ rw on e2, a2)
          | inr off ↦ (d1, start ∙ rw off refl, a1)
        ]
      where
        fewer : {x : ℕ} (b : Bool) → b ≡ true → (b ≡ false) ⊎ (x < out.held a.converter) → x < fuel
        fewer b on (inl off) = cc
        fewer b on (inr less) = omega (arith, less, enough)

    sample_proc-AtStart :
        (fuel : ℕ) (bytes : List ℕ) (n : ℕ) (s : P.State) (d : D)
        → AtStart s d
        → out.most < fuel
        → (d' : D) × (sample_proc lib P fuel bytes n d ≡ ret d') × AtStart s d'
    unfolding sample_proc
    sample_proc-AtStart fuel bytes n s d a enough =
        let (status, maximum) = lib.maximum_output_packet_size a.converter in
        let d1 : D = record d { input = some bytes; input_packets = n } in
        let a1 : AtStart s d1 = record {
          stands = a.stands;
          index = a.index;
          offset = a.offset;
          junk = a.junk;
          wide = a.wide;
          converter = a.converter;
          made = a.made;
          frames = a.frames;
          whole = a.whole;
        } in
        let start : sample_proc lib P fuel bytes n d
            ≡ (if failed status then ret d1 else convert lib P fuel maximum d1) =
          ap
            (λ o. or_fault o >>= λ c.
              if failed (lib.maximum_output_packet_size c).0
              then ret d1
              else convert lib P fuel (lib.maximum_output_packet_size c).1 d1)
            a.made in
        elim (Bool-cases (failed status)) [
          | inl e ↦ (d1, start ∙ rw e refl, a1)
          | inr e ↦
              let (d2, e2, a2) =
                convert-AtStart fuel maximum s d1 a1
                  (omega (arith, enough, out.held_most a.converter)) in
              (d2, start ∙ rw e e2, a2)
        ]

    pub run_parse-AtStart :
        {A : Type 0} (fuel : ℕ) (call : Parse A) (s : P.State) (d : D)
        → AtStart s d
        → out.most < fuel
        → (a : A) × (d' : D) × (run_parse lib P fuel call d ≡ ret (a, d')) × AtStart s d'
    unfolding run_parse
    run_parse-AtStart fuel (parsed x) s d a enough = (x, d, refl, a)
    run_parse-AtStart fuel (packets bytes n next) s d a enough =
        let (d1, e1, a1) = sample_proc-AtStart fuel bytes n s d a enough in
        let (x, d2, e2, a2) = run_parse-AtStart fuel next s d1 a1 enough in
        (x, d2, ap (λ m. m >>= run_parse lib P fuel next) e1 ∙ e2, a2)
