-- ===== src/Factory/Transmuxer/Silent.antt =====
-- When the factory that looks for DASH files leaves its caller without an answer.
use nfdecoder.Base.{◌≡◌, ℕ, refl, arith, Bool, true, Option, none, some, List, [], ◌∷◌, ◌++◌}
use nfdecoder.Base.Text.{Text, codes}
use nfdecoder.Base.Int.{ℤ, pos}
use nfdecoder.Base.Run.{ret}
use nfdecoder.Provider.{DataProvider, IsStream, seek_set}
use nfdecoder.Factory.{Objects, CreateDataProvider, CreateDecoder, continue, call, resume}
use nfdecoder.Factory.Transmuxer.{
  should_process, c_string, is_dash_file, on_provider, create_decoder,
}

-- A file whose first box has the type `ftyp` and the brand `dash`, in a version whose first byte is
-- 0.
abbrev pub dash_file : ℕ → ℕ → ℕ → ℕ → ℕ → List ℕ → List ℕ
dash_file w x y z b rest = w ∷ x ∷ y ∷ z ∷ (codes "ftypdash" ++ (0 ∷ b ∷ rest))

module _ (O : Objects) (w x y z b : ℕ) (rest : List ℕ)
    (stream : IsStream O.Provider (dash_file w x y z b rest)) where
  -- A provider that is null or stands somewhere in such a file.
  unfoldable pub IsUnanswered : Option (DataProvider.State O.Provider) → Type 0
  IsUnanswered none = Unit
  IsUnanswered (some s) = (p : ℕ) × stream.At s p

  found :
      (u : List ℕ) (s : DataProvider.State O.Provider) (p : ℕ)
      → stream.At s p
      → is_dash_file O u s ≡ ret true
  unfolding is_dash_file c_string
  found u s p at =
      let (t, e, _) =
        stream.reads (DataProvider.seek O.Provider s (pos 4) seek_set).1 4 1 10
          (stream.seeks s p 4 at (omega arith)) (omega arith) (omega arith) (omega arith) in
      rw e refl

  module _ (use_ffmpeg : Bool) (u : List ℕ) (create_data_provider : CreateDataProvider O)
      (wrapped : CreateDecoder O O.Decoder) where
    silent :
        (path mime_type : Text) (o : Option (DataProvider.State O.Provider))
        → IsUnanswered o
        → on_provider O use_ffmpeg u create_data_provider wrapped path mime_type o ≡ ret []
    unfolding IsUnanswered on_provider
    silent path mime_type none h = refl
    silent path mime_type (some s) (p, at) = rw (found u s p at) refl

    -- On a path or type of a DASH file, when the one provider that is created is null or a stream
    -- of a file with the bytes `ftypdash` from the fifth on and a zero behind them, the create
    -- callback is never called.
    pub create_decoder-completions :
        (path mime_type : Text) (samplerate : O.Rate) (channels : ℤ)
        (o : Option (DataProvider.State O.Provider))
        → should_process use_ffmpeg path mime_type ≡ true
        → create_data_provider path ≡ call o
        → IsUnanswered o
        → create_decoder O use_ffmpeg u create_data_provider wrapped path mime_type samplerate
            channels
          ≡ ret []
    unfolding create_decoder continue resume
    create_decoder-completions path mime_type samplerate channels o h e d =
        rw (h, e, silent path mime_type o d) refl
