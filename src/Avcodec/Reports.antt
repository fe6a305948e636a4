-- ===== src/Avcodec/Reports.antt =====
-- What load reports, and what a decoder has for decode after it.
use nfdecoder.Base.{
  ℕ, ◌==◌, ◌≡◌, refl, ◌⊎◌, inl, inr, Bool, true, false, if◌then◌else◌, Option, some, List, [], ◌∷◌,
  Bool-cases,
}
use nfdecoder.Base.Event.{Event, error, done}
use nfdecoder.Base.Int.{ℤ, failed, code_of}
use nfdecoder.Base.Run.{
  Keeps, Keeps-ret, Keeps-fault, Keeps-if, Keeps-option, Keeps-or_fault, Keeps-bind, Keeps-anything,
}
use nfdecoder.Provider.{DataProvider}
use nfdecoder.Avcodec.{
  domain, could_not_decode_header, Libav, Times, Decrypter, Avcodec, AvStream, run_io,
}
use nfdecoder.Avcodec.Load.{audio_stream, refused, open_resampler, open_stream, find_stream, load}

module _ {F : Type 0} (lib : Libav F) (P : DataProvider) (times : Times)
    (decrypter : Option Decrypter) where
  abbrev D : Type 0
  D = Avcodec lib P

  -- What decode and seek follow is there, and the time base of the stream can be divided by.
  pub record IsReady (d : D) : Type 0 where
    pub format : lib.Format
    pub codec : lib.Codec
    pub resampler : lib.Resampler
    pub stream : AvStream
    pub has_format : d.format ≡ some format
    pub has_codec : d.codec ≡ some codec
    pub has_resampler : d.resampler ≡ some resampler
    pub has_stream : d.stream ≡ some stream
    pub is_audio : stream.is_audio ≡ true
    pub timed : (stream.time_base_num == 0) ≡ false

  -- One success, with a decoder that is ready, or one error and one failure.
  abbrev pub Reports : List (Event Bool) × D → Type 0
  Reports r =
      ((r.0 ≡ done true ∷ []) × IsReady r.1)
      ⊎ ((code : ℕ) × (r.0 ≡ error domain code ∷ done false ∷ []))

  refused-Reports : (z : ℤ) (d : D) → Keeps Reports (refused lib P times decrypter z d)
  refused-Reports z d = Keeps-ret Reports _ (inr (code_of z, refl))

  open_resampler-Reports :
      (s : AvStream) (d : D) (format : lib.Format) (codec : lib.Codec)
      → d.format ≡ some format
      → d.codec ≡ some codec
      → d.stream ≡ some s
      → s.is_audio ≡ true
      → (s.time_base_num == 0) ≡ false
      → Keeps Reports (open_resampler lib P times decrypter s d)
  unfolding open_resampler
  open_resampler-Reports s d format codec has_format has_codec has_stream is_audio timed =
      let (error_code, resampler) = lib.open_resampler s in
      Keeps-if Reports (failed error_code) _ _ (refused-Reports error_code d) (
        Keeps-ret Reports (done true ∷ [], record d { resampler = some resampler })
          (inl (
            refl,
            record {
              format = format;
              codec = codec;
              resampler = resampler;
              stream = s;
              has_format = has_format;
              has_codec = has_codec;
              has_resampler = refl;
              has_stream = has_stream;
              is_audio = is_audio;
              timed = timed;
            },
          )))

  open_stream-Reports :
      (s : AvStream) (d : D) (format : lib.Format)
      → d.format ≡ some format
      → s.is_audio ≡ true
      → Keeps Reports (open_stream lib P times decrypter s d)
  unfolding open_stream
  open_stream-Reports s d format has_format is_audio = elim (Bool-cases (s.time_base_num == 0)) [
    | inl e ↦ rw e (Keeps-fault Reports)
    | inr e ↦ rw e (
        Keeps-or_fault Reports (lib.find_decoder s.codec_id) _ λ codec_id.
          let (error_code, codec) = lib.open_codec s codec_id in
          Keeps-if Reports (failed error_code) _ _ (refused-Reports error_code _)
            (open_resampler-Reports s _ format codec has_format refl refl is_audio e))
  ]

  audio_stream-is_audio :
      (ss : List AvStream) (s : AvStream) → audio_stream ss ≡ some s → s.is_audio ≡ true
  unfolding audio_stream
  audio_stream-is_audio [] s e = cc
  audio_stream-is_audio (s' ∷ ss) s e = go s'.is_audio refl e (audio_stream-is_audio ss s)
    where
      go :
          (b : Bool)
          → s'.is_audio ≡ b
          → (if b then some s' else audio_stream ss) ≡ some s
          → (audio_stream ss ≡ some s → s.is_audio ≡ true)
          → s.is_audio ≡ true
      go true h e rest = cc
      go false h e rest = rest e

  find_stream-Reports :
      (format : lib.Format) (d : D)
      → d.format ≡ some format
      → Keeps Reports (find_stream lib P times decrypter format d)
  unfolding find_stream
  find_stream-Reports format d has_format =
      Keeps-option Reports (audio_stream (lib.streams format)) _ _
        (Keeps-ret Reports _ (inr (could_not_decode_header, refl)))
        (λ s e.
          open_stream-Reports s d format has_format
            (audio_stream-is_audio (lib.streams format) s e))

  -- Where load is defined and ends, it calls back exactly once: with success, and then the format,
  -- the codec, the resampler and a stream of audio are there and the time base of the stream can be
  -- divided by, or with failure behind exactly one error.
  pub avcodec_load-Reports : (fuel : ℕ) (d : D) → Keeps Reports (load lib P times decrypter fuel d)
  unfolding load
  avcodec_load-Reports fuel d =
      Keeps-bind Reports (λ r. Unit {0}) (run_io lib P decrypter fuel lib.open_input d) _
        (Keeps-anything _)
        λ r _.
          let ((error_code, format), d1) = r in
          Keeps-if Reports (failed error_code) _ _ (refused-Reports error_code _) (
            Keeps-bind Reports (λ r. Unit {0})
              (run_io lib P decrypter fuel (lib.find_stream_info format) d1) _ (Keeps-anything _)
              λ r' _.
                let ((error_code', format'), d2) = r' in
                Keeps-if Reports (failed error_code') _ _ (refused-Reports error_code' _)
                  (find_stream-Reports format' (record d2 { format = some format' }) refl))
