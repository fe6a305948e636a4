-- ===== src/Factory/Common.antt =====
-- source/FactoryCommonImplementation.cpp: the decoder of a MIME type or of a file extension.
pub mod Types
use nfdecoder.Base.{◌||◌, if◌then◌else◌, Bool, Option, none, some, List, [], ◌∷◌}
use nfdecoder.Base.Text.{Text}
use nfdecoder.Base.Event.{Event, done}
use nfdecoder.Base.Run.{Run, ret, ◌>>=◌}
use nfdecoder.Provider.{DataProvider}
use nfdecoder.Factory.{
  Objects, CreateDataProvider, CreateDecoder, Loading, Calls, continue, call, load_decoder,
}
use nfdecoder.Factory.MimeTypes.{
  ogg_mime_types, wav_mime_types, flac_mime_types, midi_mime_types, speex_mime_types, holds_type,
  Extension, guess,
}

-- The types of decoders that the factory makes.
pub data Kind : Type 0 where
  ogg wav flac midi speex : Kind

-- The chain of tests of `createDecoder`.
unfoldable pub kind_of : Text → Option Kind
unfolding holds_type
kind_of type =
    if holds_type ogg_mime_types type
    then some ogg
    else if holds_type wav_mime_types type
    then some wav
    else if holds_type flac_mime_types type
    then some flac
    else if holds_type midi_mime_types type
    then some midi
    else if holds_type speex_mime_types type
    then some speex
    else none

-- `mime_type_check`
unfoldable pub type_check : List Extension → Text → Text → Text
unfolding guess
type_check order path [] = guess order path
type_check order path (c ∷ cs) = c ∷ cs

module _ (O : Objects) where
  open O use {Decoder, Provider}

  -- What making and loading a decoder of each type does.
  pub record Decoders : Type 0 where
    pub load_ogg : DataProvider.State Provider → Loading Decoder
    pub load_wav : DataProvider.State Provider → Loading Decoder
    pub load_flac : DataProvider.State Provider → Loading Decoder
    pub load_midi : Text → Loading Decoder
    pub load_speex : DataProvider.State Provider → Loading Decoder

  -- The template `createDecoder`; a null provider is `none`.
  unfoldable pub create_on :
      (DataProvider.State Provider → Loading Decoder)
      → Option (DataProvider.State Provider)
      → Calls (Option Decoder)
  unfolding load_decoder
  create_on load none = call none
  create_on load (some provider) = load_decoder (load provider)

  module _ (decoders : Decoders) (create_data_provider : CreateDataProvider O) where
    unfoldable pub create_kind : Option Kind → Text → Calls (Option Decoder)
    unfolding create_on load_decoder
    create_kind none path = call none
    create_kind (some ogg) path = continue (create_data_provider path) (create_on decoders.load_ogg)
    create_kind (some wav) path = continue (create_data_provider path) (create_on decoders.load_wav)
    create_kind (some flac) path =
        continue (create_data_provider path) (create_on decoders.load_flac)
    create_kind (some midi) path = load_decoder (decoders.load_midi path)
    create_kind (some speex) path =
        continue (create_data_provider path) (create_on decoders.load_speex)

    unfoldable pub create_decoder : List Extension → CreateDecoder O Decoder
    unfolding create_kind kind_of type_check
    create_decoder order path mime_type samplerate channels =
        create_kind (kind_of (type_check order path mime_type)) path
