-- ===== src/Factory/Transmuxer.antt =====
-- source/FactoryTransmuxerImplementation.cpp: MP4 files that are DASH segments are told apart from
-- the others, which the wrapped factory takes. What the transmuxer around a DASH file would do is
-- not in the code: nothing is created for one.
pub mod Silent
use nfdecoder.Base.{
  ℕ, ◌==◌, ◌&&◌, not, if◌then◌else◌, Bool, true, false, Option, none, some, List, [], ◌∷◌,
}
use nfdecoder.Base.Bytes.{fill}
use nfdecoder.Base.Int.{pos}
use nfdecoder.Base.Text.{Text, codes, text_eq}
use nfdecoder.Base.Run.{Run, ret, fault, or_fault, ◌>>=◌}
use nfdecoder.Provider.{DataProvider, Reading, seek_set}
use nfdecoder.Factory.{Objects, CreateDataProvider, CreateDecoder, Calls, continue, call}
use nfdecoder.Factory.MimeTypes.{dash_mp4_mime_types, holds_type, ends_in}
use nfdecoder.Factory.Normalisation.{standard_channels}

-- The string that begins at a `char *`; without a NUL its end lies outside of the buffer.
unfoldable pub c_string : List ℕ → Run Text
c_string [] = fault
c_string (b ∷ bs) = let rest = c_string bs in if b == 0 then ret [] else rest >>= λ s. ret (b ∷ s)

-- `mime_type_check`
unfoldable pub type_check : Text → Text → Text
unfolding ends_in
type_check path [] = if ends_in (codes ".mp4") path then codes "dash/mp4" else []
type_check path (c ∷ cs) = c ∷ cs

-- `should_process`; the flag is the build's `USE_FFMPEG`.
unfoldable pub should_process : Bool → Text → Text → Bool
unfolding type_check holds_type
should_process use_ffmpeg path mime_type =
    not use_ffmpeg && holds_type dash_mp4_mime_types (type_check path mime_type)

-- `DASH_FILE_INDICATOR`, which the array holds with two NULs after it.
abbrev pub dash_file_indicator : Text
dash_file_indicator = codes "ftypdash"

module _ (O : Objects) where
  open O use {Decoder, Provider}

  -- `is_dash_file`; `uninitialised` is what stands in the local `FILE_INDICATOR` at first.
  unfoldable pub is_dash_file : List ℕ → DataProvider.State Provider → Run Bool
  unfolding c_string text_eq
  is_dash_file uninitialised provider =
      or_fault
        (DataProvider.read Provider (DataProvider.seek Provider provider (pos 4) seek_set).1 1 10)
      >>= λ r. c_string (fill uninitialised r.bytes) >>= λ s. ret (text_eq dash_file_indicator s)

  module _ (use_ffmpeg : Bool) (uninitialised : List ℕ)
      (create_data_provider : CreateDataProvider O) (wrapped : CreateDecoder O Decoder) where
    -- The wrapped factory is called with the default rate and channels.
    unfoldable pub pass_on : Text → Text → Calls (Option Decoder)
    unfolding continue
    pass_on path mime_type =
        continue (wrapped path mime_type O.standard_samplerate (standard_channels O))
          (λ decoder. call decoder)

    -- The callback of the data provider factory. The provider that it looks into is let go.
    unfoldable pub on_provider :
        Text → Text → Option (DataProvider.State Provider) → Calls (Option Decoder)
    unfolding is_dash_file pass_on
    on_provider path mime_type none = ret []
    on_provider path mime_type (some provider) = is_dash_file uninitialised provider >>= λ is_dash.
        if is_dash then ret [] else pass_on path mime_type

    unfoldable pub create_decoder : CreateDecoder O Decoder
    unfolding should_process continue on_provider pass_on
    create_decoder path mime_type samplerate channels =
        if should_process use_ffmpeg path mime_type
        then continue (create_data_provider path) (on_provider path mime_type)
        else pass_on path mime_type
