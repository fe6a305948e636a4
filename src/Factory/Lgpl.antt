-- ===== src/Factory/Lgpl.antt =====
-- source/FactoryLGPLImplementation.cpp: libav as the fallback of another factory.
use nfdecoder.Base.{Option, none, some}
use nfdecoder.Base.Text.{Text}
use nfdecoder.Provider.{DataProvider}
use nfdecoder.Factory.{
  Objects, CreateDataProvider, CreateDecoder, Loading, Calls, continue, call, load_decoder,
}

module _ (O : Objects) where
  open O use {Decoder, Provider, Decrypter}

  -- What making and loading a `DecoderAVCodecImplementation` does, on a provider and a decrypter
  -- that may both be null.
  abbrev pub LoadAvcodec : Type 0
  LoadAvcodec = Option (DataProvider.State Provider) → Option Decrypter → Loading Decoder

  module _ (create_data_provider : CreateDataProvider O)
      (create_decrypter : Text → Calls (Option Decrypter)) (load_avcodec : LoadAvcodec) where
    unfoldable pub fall_back : Text → Option Decoder → Calls (Option Decoder)
    unfolding load_decoder continue
    fall_back path none = continue (create_decrypter path) (λ decrypter.
        continue (create_data_provider path)
          (λ provider. load_decoder (load_avcodec provider decrypter)))
    fall_back path (some decoder) = call (some decoder)

    unfoldable pub create_decoder : CreateDecoder O Decoder → CreateDecoder O Decoder
    unfolding fall_back
    create_decoder wrapped path mime_type samplerate channels =
        continue (wrapped path mime_type samplerate channels) (fall_back path)
