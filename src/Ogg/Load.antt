-- ===== src/Ogg/Load.antt =====
-- How often `load` calls back.
use nfdecoder.Base.{
  ℕ, ◌≡◌, refl, Bool, true, false, ◌||◌, Option, none, some, List, [], ◌∷◌, Bool-cases, ◌⊎◌, inl,
  inr,
}
use nfdecoder.Base.Event.{Event, error, done, completions}
use nfdecoder.Base.Int.{failed, is_negative}
use nfdecoder.Base.Run.{Run, ret}
use nfdecoder.Base.Text.{Text}
use nfdecoder.Provider.{DataProvider}
use nfdecoder.Ogg.{domain, could_not_decode, Codecs, Inner, opus, vorbis, load_opus, load}
use nfdecoder.Ogg.Vorbis
use nfdecoder.Ogg.Opus

module _ {F : Type 0} (lib : Vorbis.Libvorbis F) where
  read_info-completions :
      (d : Vorbis.Vorbis lib) (i : Option Vorbis.Info)
      → completions (Vorbis.read_info lib d i).0 ≡ 1
  unfolding completions Vorbis.read_info
  read_info-completions d none = refl
  read_info-completions d (some i) = refl

  -- `load` of the Vorbis decoder calls back exactly once.
  vorbis_load-completions : (d : Vorbis.Vorbis lib) → completions (Vorbis.load lib d).0 ≡ 1
  unfolding Vorbis.load completions
  vorbis_load-completions d = elim (Bool-cases d.is_open) [
    | inl e ↦ rw e (read_info-completions _ (lib.info d.file))
    | inr e ↦ elim (Bool-cases (failed (lib.open_callbacks d.file).0)) [
      | inl f ↦ rw (e, f) refl
      | inr f ↦ rw (e, f) (read_info-completions _ _)
    ]
  ]

module _ {F : Type 0} (codecs : Codecs F) where
  open codecs use {Provider, libvorbis, libopusfile, vorbis_file}

  -- libopusfile gives a file where it reports no error.
  abbrev pub TestsFiles : Type 0
  TestsFiles =
      (s : libopusfile.Source)
      → (failed (libopusfile.test_callbacks s).0 ≡ true)
        ⊎ ((f : libopusfile.File) × ((libopusfile.test_callbacks s).1 ≡ some f))

  -- The decoder is one for Opus, of a file that reports a negative number of channels or frames.
  pub IsNegative : Option (Inner codecs) → Type 0
  IsNegative inner =
      (d : Opus.Opus libopusfile) × (f : libopusfile.File) × (inner ≡ some (opus d))
      × (d.file ≡ some f)
      × (is_negative (libopusfile.current_channel_count f) || is_negative (libopusfile.pcm_total f)
          ≡ true)

  -- The calls of the load callback: a failure and then a success for such a decoder, and one for
  -- any other.
  pub Answers : List (Event Bool) → Option (Inner codecs) → Type 0
  Answers events inner =
      ((completions events ≡ 1) × ¬ IsNegative inner)
      ⊎ (((d : Text) × (c : ℕ) × (events ≡ error d c ∷ done false ∷ done true ∷ []))
          × IsNegative inner)

  abbrev Loaded : Run (List (Event Bool) × Option (Inner codecs)) → Type 0
  Loaded r =
      (events : List (Event Bool)) × (inner : Option (Inner codecs)) × (r ≡ ret (events, inner))
      × Answers events inner

  not_negative :
      (d : Opus.Opus libopusfile) (f : libopusfile.File)
      → d.file ≡ some f
      → is_negative (libopusfile.current_channel_count f) || is_negative (libopusfile.pcm_total f)
        ≡ false
      → IsNegative (some (opus d))
      → ⊥
  unfolding IsNegative
  not_negative d f e h (d', f', same, e', h') = cc

  info-Answers :
      (d : Opus.Opus libopusfile) (f : libopusfile.File)
      → Answers (Opus.read_info libopusfile d f).0 (some (opus (Opus.read_info libopusfile d f).1))
  unfolding Opus.read_info Answers IsNegative completions
  info-Answers d f =
      elim (Bool-cases (
        is_negative (libopusfile.current_channel_count f)
        || is_negative (libopusfile.pcm_total f))) [
          | inl e ↦ rw e (
              inr (
                (_, _, refl),
                (
                  record d {
                    file = some f;
                    channels = libopusfile.current_channel_count f;
                    samplerate = 48000;
                    total_frames = libopusfile.pcm_total f;
                  },
                  f,
                  refl,
                  refl,
                  e,
                ),
              ))
          | inr e ↦ rw e (inl (refl, λ h. not_negative _ f refl e h))
        ]

  -- What `checkCodec` gives: it declines, or it has opened a file.
  abbrev Checked : Run (Bool × Opus.Opus libopusfile) → Type 0
  Checked r =
      (d : Opus.Opus libopusfile) × ((r ≡ ret (false, d))
        ⊎ ((f : libopusfile.File) × (r ≡ ret (true, d)) × (d.file ≡ some f)))

  opened :
      (d : Opus.Opus libopusfile) (f : libopusfile.File)
      → Checked (Opus.open_tested libopusfile d (some f))
  unfolding Opus.open_tested
  opened d f = elim (Bool-cases (failed (libopusfile.test_open f).0)) [
    | inl e ↦ (record d { file = some (libopusfile.test_open f).1 }, inl (rw e refl))
    | inr e ↦
        let g = libopusfile.set_read_size (libopusfile.test_open f).1 Opus.opus_read_size in
        (record d { file = some g }, inr (g, rw e refl, refl))
  ]

  checked : (d : Opus.Opus libopusfile) → TestsFiles → Checked (Opus.check_codec libopusfile d)
  unfolding Opus.check_codec
  checked d tests = elim (Bool-cases (failed (libopusfile.test_callbacks d.source).0)) [
    | inl e ↦ (
      record d {
        file = (libopusfile.test_callbacks d.source).1;
        source = (libopusfile.test_callbacks d.source).2;
      },
      inl (rw e refl),
    )
    | inr e ↦ elim (tests d.source) [
      | inl h ↦ absurd (cc (e, h))
      | inr (f, h) ↦
          rw (e, h) (opened (record d { source = (libopusfile.test_callbacks d.source).2 }) f)
    ]
  ]

  loaded :
      (d : Opus.Opus libopusfile) (f : libopusfile.File)
      → d.file ≡ some f
      → Opus.load libopusfile d ≡ ret (Opus.read_info libopusfile d f)
  unfolding Opus.load
  loaded d f e = rw e refl

  opus_answers : (d : Opus.Opus libopusfile) → TestsFiles → Loaded (load_opus codecs d)
  unfolding load_opus Answers completions IsNegative
  opus_answers d tests =
      let (d', h) = checked d tests in
      elim h [
        | inl e ↦ (
          error domain could_not_decode ∷ done false ∷ [],
          none,
          rw e refl,
          inl (refl, λ h. cc h.2),
        )
        | inr (f, e, is_open) ↦ (
          (Opus.read_info libopusfile d' f).0,
          some (opus (Opus.read_info libopusfile d' f).1),
          rw (e, loaded d' f is_open) refl,
          info-Answers d' f,
        )
      ]

  -- Where libopusfile gives a file whenever it reports no error, `load` is defined for every
  -- provider and calls its callback exactly once, but for exactly an Opus file with a negative
  -- number of channels or of frames: for that it reports an error, a failure and then a success.
  pub load-Answers :
      (provider : DataProvider.State Provider)
      → TestsFiles
      → (events : List (Event Bool)) × (inner : Option (Inner codecs)) × (load codecs provider
          ≡ ret (events, inner))
        × Answers events inner
  unfolding load Answers IsNegative
  load-Answers provider tests =
      elim (Bool-cases
        (Vorbis.check_codec libvorbis (Vorbis.create libvorbis (vorbis_file provider))).0) [
          | inl e ↦
              let v =
                (Vorbis.check_codec libvorbis (Vorbis.create libvorbis (vorbis_file provider))).1 in
              (
                (Vorbis.load libvorbis v).0,
                some (vorbis (Vorbis.load libvorbis v).1),
                rw e refl,
                inl (vorbis_load-completions libvorbis v, λ h. cc h.2),
              )
          | inr e ↦ rw e (opus_answers _ tests)
        ]
