-- ===== src/Factory/MimeTypes.antt =====
-- source/NFDecoderMimeTypes.cpp: the MIME types, and the file extensions of the factories.
use nfdecoder.Base.{ℕ, ◌==◌, ◌||◌, ◌&&◌, not, if◌then◌else◌, Bool, true, false, List, [], ◌∷◌}
use nfdecoder.Base.Text.{Text, codes, text_eq}

abbrev pub ogg_mime_types : List Text
ogg_mime_types = codes "ogg" ∷ codes "audio/ogg" ∷ codes "application/ogg" ∷ []

abbrev pub wav_mime_types : List Text
wav_mime_types =
    codes "audio/wav" ∷ codes "audio/x-wav" ∷ codes "audio/wave" ∷ codes "audio/x-pn-wave" ∷ []

abbrev pub flac_mime_types : List Text
flac_mime_types = codes "flac" ∷ codes "audio/flac" ∷ []

abbrev pub dash_mp4_mime_types : List Text
dash_mp4_mime_types = codes "dash/mp4" ∷ []

abbrev pub mp3_mime_type : Text
mp3_mime_type = codes "audio/mpeg"

abbrev pub midi_mime_types : List Text
midi_mime_types = codes "midi" ∷ []

abbrev pub speex_mime_types : List Text
speex_mime_types = codes "audio/x-speex" ∷ codes "audio/speex" ∷ []

-- `types.find(type) != types.end()`
unfoldable pub holds_type : List Text → Text → Bool
unfolding text_eq
holds_type [] type = false
holds_type (t ∷ ts) type = text_eq type t || holds_type ts type

-- `.` of a regular expression is no line terminator.
abbrev is_terminator : ℕ → Bool
is_terminator c = c == 10 || c == 13

-- `.*` and then `suffix`
unfoldable pub ends_in : Text → Text → Bool
unfolding text_eq
ends_in suffix [] = text_eq [] suffix
ends_in suffix (c ∷ cs) =
    let rest = ends_in suffix cs in text_eq (c ∷ cs) suffix || (not (is_terminator c) && rest)

-- `prefix` and then `.*`
unfoldable pub begins_with : Text → Text → Bool
begins_with [] [] = true
begins_with [] (c ∷ cs) = not (is_terminator c) && begins_with [] cs
begins_with (p ∷ ps) [] = false
begins_with (p ∷ ps) (c ∷ cs) = p == c && begins_with ps cs

-- The rules of `_extensions_to_types` of the common factory.
pub data Extension : Type 0 where
  ogg_extension wav_extension flac_extension midi_protocol spx_extension : Extension

unfoldable pub type_of_extension : Extension → Text
type_of_extension ogg_extension = codes "audio/ogg"
type_of_extension wav_extension = codes "audio/wav"
type_of_extension flac_extension = codes "flac"
type_of_extension midi_protocol = codes "midi"
type_of_extension spx_extension = codes "audio/speex"

unfoldable pub matches : Extension → Text → Bool
unfolding ends_in begins_with
matches ogg_extension path = ends_in (codes ".ogg") path || ends_in (codes ".opus") path
matches wav_extension path = ends_in (codes ".wav") path
matches flac_extension path = ends_in (codes ".flac") path
matches midi_protocol path = begins_with (codes "midi:") path
matches spx_extension path = ends_in (codes ".spx") path

-- The type of the first rule that matches, in the order in which the hash map is walked.
unfoldable pub guess : List Extension → Text → Text
unfolding matches type_of_extension
guess [] path = []
guess (e ∷ es) path =
    let rest = guess es path in if matches e path then type_of_extension e else rest
