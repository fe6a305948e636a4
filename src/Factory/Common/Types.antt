-- ===== src/Factory/Common/Types.antt =====
-- Which decoder a MIME type gives, and how often the callback is called.
use nfdecoder.Base.{
  ◌≡◌, refl, arith, ◌↔◌, inl, inr, Bool, true, if◌then◌else◌, Option, none, some, List, [], ◌∷◌,
  All, Bool-cases,
}
use nfdecoder.Base.Int.{ℤ}
use nfdecoder.Base.Text.{Text, text_eq, text_eq_sound}
use nfdecoder.Provider.{DataProvider}
use nfdecoder.Factory.{Objects, CreateDataProvider, Loading}
use nfdecoder.Factory.Answered.{Answered, call-Answered, continue-Answered, load_decoder-Answered}
use nfdecoder.Factory.MimeTypes.{
  ogg_mime_types, wav_mime_types, flac_mime_types, midi_mime_types, speex_mime_types, holds_type,
  Extension,
}
use nfdecoder.Factory.Common.{
  Kind, ogg, wav, flac, midi, speex, kind_of, Decoders, create_on, create_kind, create_decoder,
}

-- The MIME types of a kind.
abbrev pub types_of : Kind → List Text
types_of ogg = ogg_mime_types
types_of wav = wav_mime_types
types_of flac = flac_mime_types
types_of midi = midi_mime_types
types_of speex = speex_mime_types

-- What holds for every type of a list holds for a type that is in it.
each_type :
    (P : Text → Type 0) (ts : List Text) (type : Text)
    → All P ts
    → holds_type ts type ≡ true
    → P type
unfolding holds_type
each_type P [] type all h = cc
each_type P (t ∷ ts) type all h = elim (Bool-cases (text_eq type t)) [
  | inl e ↦ rw (text_eq_sound type t e) all.0
  | inr e ↦ each_type P ts type all.1 (rw e at h)
]

found : (k : Kind) → All (λ t. kind_of t ≡ some k) (types_of k)
unfolding kind_of
found ogg = (refl, (refl, (refl, tt)))
found wav = (refl, (refl, (refl, (refl, tt))))
found flac = (refl, (refl, tt))
found midi = (refl, tt)
found speex = (refl, (refl, tt))

-- The test of a kind in a chain of tests.
test_of : Kind → Bool → Bool → Bool → Bool → Bool → Bool
test_of ogg a b c d e = a
test_of wav a b c d e = b
test_of flac a b c d e = c
test_of midi a b c d e = d
test_of speex a b c d e = e

chain :
    (a b c d e : Bool) (k : Kind)
    → (if a
        then some ogg
        else if b
        then some wav
        else if c
        then some flac
        else if d
        then some midi
        else if e
        then some speex
        else none)
      ≡ some k
    → test_of k a b c d e ≡ true
unfolding test_of
chain a b c d e ogg h = ground arith
chain a b c d e wav h = ground arith
chain a b c d e flac h = ground arith
chain a b c d e midi h = ground arith
chain a b c d e speex h = ground arith

only : (type : Text) (k : Kind) → kind_of type ≡ some k → holds_type (types_of k) type ≡ true
unfolding kind_of test_of
only type ogg h = chain _ _ _ _ _ ogg h
only type wav h = chain _ _ _ _ _ wav h
only type flac h = chain _ _ _ _ _ flac h
only type midi h = chain _ _ _ _ _ midi h
only type speex h = chain _ _ _ _ _ speex h

-- The chain of tests gives a type its kind exactly if the kind's set holds it: the sets are
-- disjoint, so the order of the tests does not matter.
pub kind_of_lem :
    (type : Text) (k : Kind) → (kind_of type ≡ some k) ↔ (holds_type (types_of k) type ≡ true)
kind_of_lem type k = (only type k, each_type (λ t. kind_of t ≡ some k) (types_of k) type (found k))

module _ (O : Objects) where
  -- Loading a decoder of any type calls the load callback once or more often.
  pub record LoadsAnswer (d : Decoders O) : Type 0 where
    pub ogg_answers : (p : DataProvider.State O.Provider) → Answered (d.load_ogg p).0
    pub wav_answers : (p : DataProvider.State O.Provider) → Answered (d.load_wav p).0
    pub flac_answers : (p : DataProvider.State O.Provider) → Answered (d.load_flac p).0
    pub midi_answers : (path : Text) → Answered (d.load_midi path).0
    pub speex_answers : (p : DataProvider.State O.Provider) → Answered (d.load_speex p).0

  module _ (d : Decoders O) (create_data_provider : CreateDataProvider O) (loads : LoadsAnswer d)
      (provides : (path : Text) → Answered (create_data_provider path)) where
    create_on-Answered :
        (load : DataProvider.State O.Provider → Loading O.Decoder)
        → ((p : DataProvider.State O.Provider) → Answered (load p).0)
        → (o : Option (DataProvider.State O.Provider)) → Answered (create_on O load o)
    unfolding create_on
    create_on-Answered load answers none = call-Answered none
    create_on-Answered load answers (some p) = load_decoder-Answered (load p) (answers p)

    create_kind-Answered :
        (k : Option Kind) (path : Text) → Answered (create_kind O d create_data_provider k path)
    unfolding create_kind
    create_kind-Answered none path = call-Answered none
    create_kind-Answered (some ogg) path =
        continue-Answered _ _ (provides path) (create_on-Answered d.load_ogg loads.ogg_answers)
    create_kind-Answered (some wav) path =
        continue-Answered _ _ (provides path) (create_on-Answered d.load_wav loads.wav_answers)
    create_kind-Answered (some flac) path =
        continue-Answered _ _ (provides path) (create_on-Answered d.load_flac loads.flac_answers)
    create_kind-Answered (some midi) path =
        load_decoder-Answered (d.load_midi path) (loads.midi_answers path)
    create_kind-Answered (some speex) path =
        continue-Answered _ _ (provides path) (create_on-Answered d.load_speex loads.speex_answers)

    -- For every path, MIME type, rate and number of channels, `createDecoder` calls its callback
    -- once or more often, given that creating a provider and loading a decoder do.
    pub create_decoder-Answered :
        (order : List Extension) (path mime_type : Text) (samplerate : O.Rate) (channels : ℤ)
        → Answered
            (create_decoder O d create_data_provider order path mime_type samplerate channels)
    unfolding create_decoder
    create_decoder-Answered order path mime_type samplerate channels = create_kind-Answered _ path
