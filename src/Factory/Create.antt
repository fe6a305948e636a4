-- ===== src/Factory/Create.antt =====
-- source/Factory.cpp: the factory that `createFactory` builds, each layer around the one before it.
-- The factories of data providers and of decrypters are parameters.
pub mod Whole
use nfdecoder.Base.{ℕ, if◌then◌else◌, Bool, Option, List}
use nfdecoder.Base.Text.{Text}
use nfdecoder.Factory.{Objects, CreateDataProvider, CreateDecoder, Calls}
use nfdecoder.Factory.MimeTypes.{Extension}
use nfdecoder.Factory.Common
use nfdecoder.Factory.Platform
use nfdecoder.Factory.Lgpl
use nfdecoder.Factory.Transmuxer
use nfdecoder.Factory.Normalisation
use nfdecoder.Factory.Service

-- The build flags, and what the factories are made from.
pub record Setup (O : Objects) : Type 0 where
  pub include_lgpl : Bool
  pub use_ffmpeg : Bool
  pub target : Platform.Target
  pub order : List Extension
  pub uninitialised : List ℕ
  pub decoders : Common.Decoders O
  pub load_audio_converter : Platform.LoadOwn O
  pub load_android : Platform.LoadOwn O
  pub load_avcodec : Lgpl.LoadAvcodec O
  pub create_data_provider : CreateDataProvider O
  pub create_decrypter : Text → Calls (Option O.Decrypter)

module _ (O : Objects) (setup : Setup O) where
  open setup use {
    include_lgpl, use_ffmpeg, target, load_audio_converter, load_android, order, uninitialised,
    decoders, load_avcodec, create_data_provider, create_decrypter,
  }

  unfoldable pub create_common_factory : CreateDecoder O O.Decoder
  unfolding Common.create_decoder
  create_common_factory = Common.create_decoder O decoders create_data_provider order

  -- The decoder of the platform's own, where there is one.
  abbrev pub own : Option (Platform.LoadOwn O)
  own = Platform.own_decoder O use_ffmpeg load_audio_converter load_android target

  unfoldable pub create_platform_factory : CreateDecoder O O.Decoder
  unfolding Platform.create_decoder Platform.own_decoder create_common_factory
  create_platform_factory = Platform.create_decoder O create_data_provider own create_common_factory

  unfoldable pub create_lgpl_factory : CreateDecoder O O.Decoder
  unfolding Lgpl.create_decoder create_platform_factory
  create_lgpl_factory =
      if include_lgpl
      then Lgpl.create_decoder O create_data_provider create_decrypter load_avcodec
          create_platform_factory
      else create_platform_factory

  unfoldable pub create_transmuxer_factory : CreateDecoder O O.Decoder
  unfolding Transmuxer.create_decoder create_lgpl_factory
  create_transmuxer_factory =
      Transmuxer.create_decoder O use_ffmpeg uninitialised create_data_provider create_lgpl_factory

  unfoldable pub create_normalisation_factory : CreateDecoder O (Normalisation.Output O)
  unfolding Normalisation.create_decoder create_transmuxer_factory
  create_normalisation_factory = Normalisation.create_decoder O create_transmuxer_factory

  unfoldable pub create_factory : CreateDecoder O (Normalisation.Output O)
  unfolding Service.create_decoder create_normalisation_factory
  create_factory = Service.create_decoder O (Normalisation.Output O) create_normalisation_factory
