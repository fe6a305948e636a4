-- ===== src/Factory/Create/Whole.antt =====
-- What the factory of `createFactory` promises its caller.
use nfdecoder.Base.{◌≡◌, true, Option, some}
use nfdecoder.Base.Int.{ℤ}
use nfdecoder.Base.Text.{Text}
use nfdecoder.Provider.{DataProvider}
use nfdecoder.Factory.{Objects}
use nfdecoder.Factory.Once.{Each, continue-Each, call-Each}
use nfdecoder.Factory.Answered.{Answered}
use nfdecoder.Factory.Common.Types.{LoadsAnswer}
use nfdecoder.Factory.Platform
use nfdecoder.Factory.Lgpl
use nfdecoder.Factory.Transmuxer
use nfdecoder.Factory.Normalisation
use nfdecoder.Factory.Normalisation.Rates.{IsAsked, create_decoder-IsAsked}
use nfdecoder.Factory.Service.{altered_mime_type}
use nfdecoder.Factory.Create.{
  Setup, own, create_transmuxer_factory, create_normalisation_factory, create_factory,
}

module _ (O : Objects) (setup : Setup O) where
  -- Whatever the factory is made from calls its callbacks once or more often, and a provider is not
  -- null where the platform has a decoder that needs one.
  pub record AllAnswer : Type 0 where
    pub loads : LoadsAnswer O setup.decoders
    pub avcodec_answers :
        (p : Option (DataProvider.State O.Provider)) (d : Option O.Decrypter)
        → Answered (setup.load_avcodec p d).0
    pub provides : (path : Text) → Answered (setup.create_data_provider path)
    pub usable :
        (path : Text) → Each (Platform.IsUsable O (own O setup)) (setup.create_data_provider path)
    pub own_answers :
        (load : Platform.LoadOwn O)
        → own O setup ≡ some load
        → (p : DataProvider.State O.Provider) → Answered (load p).0
    pub decrypts : (path : Text) → Answered (setup.create_decrypter path)

  -- Every decoder that the whole factory delivers has the rate and the channels that were asked
  -- for, on every path and whatever the decoders below are.
  pub create_factory-IsAsked :
      (path mime_type : Text) (samplerate : O.Rate) (channels : ℤ)
      → O.same_rate samplerate samplerate ≡ true
      → Each
          (IsAsked O samplerate channels)
          (create_factory O setup path mime_type samplerate channels)
  unfolding create_factory create_normalisation_factory
  create_factory-IsAsked path mime_type samplerate channels equal =
      continue-Each _ _ (IsAsked O samplerate channels) (call-Each (IsAsked O samplerate channels))
        _
        (create_decoder-IsAsked O samplerate channels equal (create_transmuxer_factory O setup) path
          (altered_mime_type path mime_type))
