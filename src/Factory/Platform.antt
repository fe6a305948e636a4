-- ===== src/Factory/Platform.antt =====
-- source/FactoryAndroidImplementation.cpp, whose text source/FactoryAppleImplementation.cpp repeats
-- with the other decoder: a platform's own decoder as the fallback of another factory.
use nfdecoder.Base.{◌≡◌, refl, Bool, true, false, Option, none, some, []}
use nfdecoder.Base.Int.{ℤ}
use nfdecoder.Base.Run.{ret}
use nfdecoder.Base.Text.{Text}
use nfdecoder.Provider.{DataProvider}
use nfdecoder.Factory.{
  Objects, CreateDataProvider, CreateDecoder, Loading, Calls, continue, call, load_decoder,
}
use nfdecoder.Factory.Once.{Each}
use nfdecoder.Factory.Answered.{
  Answered, call-Answered, continue-Answered, continue-Answered_where, load_decoder-Answered,
}

-- `__APPLE__`, `ANDROID`, or neither
pub data Target : Type 0 where
  apple android other : Target

module _ (O : Objects) where
  open O use {Decoder, Provider}

  -- What making and loading the decoder of a platform does, on a provider that is not null.
  abbrev pub LoadOwn : Type 0
  LoadOwn = DataProvider.State Provider → Loading Decoder

  -- The decoder that `createPlatformFactory` adds; the flag is `USE_FFMPEG`.
  unfoldable pub own_decoder : Bool → LoadOwn → LoadOwn → Target → Option LoadOwn
  own_decoder true audio_converter on_android apple = none
  own_decoder false audio_converter on_android apple = some audio_converter
  own_decoder use_ffmpeg audio_converter on_android android = some on_android
  own_decoder use_ffmpeg audio_converter on_android other = none

  -- The provider is one that the decoder of the platform, where there is one, is made on.
  unfoldable pub IsUsable : Option LoadOwn → Option (DataProvider.State Provider) → Type 0
  IsUsable none o = Unit
  IsUsable (some load) none = ⊥
  IsUsable (some load) (some p) = Unit

  module _ (create_data_provider : CreateDataProvider O) where
    -- The callback of the data provider factory: a null provider ends it.
    unfoldable pub on_provider :
        LoadOwn → Option (DataProvider.State Provider) → Calls (Option Decoder)
    unfolding load_decoder
    on_provider load none = ret []
    on_provider load (some provider) = load_decoder (load provider)

    unfoldable pub fall_back : LoadOwn → Text → Option Decoder → Calls (Option Decoder)
    unfolding on_provider continue
    fall_back load path none = continue (create_data_provider path) (on_provider load)
    fall_back load path (some decoder) = call (some decoder)

    -- `wrapped` where the platform has no decoder
    unfoldable pub create_decoder :
        Option LoadOwn → CreateDecoder O Decoder → CreateDecoder O Decoder
    unfolding fall_back continue
    create_decoder none wrapped path mime_type samplerate channels =
        wrapped path mime_type samplerate channels
    create_decoder (some load) wrapped path mime_type samplerate channels =
        continue (wrapped path mime_type samplerate channels) (fall_back load path)

    on_provider-Answered :
        (load : LoadOwn) (o : Option (DataProvider.State Provider))
        → ((p : DataProvider.State Provider) → Answered (load p).0)
        → IsUsable (some load) o
        → Answered (on_provider load o)
    unfolding on_provider IsUsable
    on_provider-Answered load none answers h = absurd h
    on_provider-Answered load (some p) answers h = load_decoder-Answered (load p) (answers p)

    fall_back-Answered :
        (load : LoadOwn) (path : Text) (o : Option Decoder)
        → ((p : DataProvider.State Provider) → Answered (load p).0)
        → Answered (create_data_provider path)
        → Each (IsUsable (some load)) (create_data_provider path)
        → Answered (fall_back load path o)
    unfolding fall_back
    fall_back-Answered load path none answers provides usable =
        continue-Answered_where (on_provider load) (IsUsable (some load)) _ provides usable
          (λ o h. on_provider-Answered load o answers h)
    fall_back-Answered load path (some d) answers provides usable = call-Answered (some d)

    -- Where the wrapped factory, the provider and loading call back, and the provider is not
    -- null where the decoder of the platform needs one, the callback is called.
    pub create_decoder-Answered :
        (own : Option LoadOwn) (wrapped : CreateDecoder O Decoder) (path mime_type : Text)
        (samplerate : O.Rate) (channels : ℤ)
        → ((load : LoadOwn)
            → own ≡ some load
            → (p : DataProvider.State Provider) → Answered (load p).0)
        → Answered (create_data_provider path)
        → Each (IsUsable own) (create_data_provider path)
        → Answered (wrapped path mime_type samplerate channels)
        → Answered (create_decoder own wrapped path mime_type samplerate channels)
    unfolding create_decoder
    create_decoder-Answered none wrapped path mime_type samplerate channels loads provides usable
          answers =
        answers
    create_decoder-Answered (some load) wrapped path mime_type samplerate channels loads provides
          usable answers =
        continue-Answered _ _ answers
          (λ o. fall_back-Answered load path o (loads load refl) provides usable)
