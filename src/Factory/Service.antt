-- ===== src/Factory/Service.antt =====
-- source/FactoryServiceImplementation.cpp: the MIME type of what a service streams.
use nfdecoder.Base.{if◌then◌else◌}
use nfdecoder.Base.Text.{Text}
use nfdecoder.Path.{is_path_soundcloud}
use nfdecoder.Factory.{Objects, CreateDecoder, continue, call}
use nfdecoder.Factory.MimeTypes.{mp3_mime_type}

unfoldable pub altered_mime_type : Text → Text → Text
unfolding is_path_soundcloud
altered_mime_type path mime_type = if is_path_soundcloud path then mp3_mime_type else mime_type

unfoldable pub create_decoder : (O : Objects) (D : Type 0) → CreateDecoder O D → CreateDecoder O D
unfolding altered_mime_type continue
create_decoder O D wrapped path mime_type samplerate channels =
    continue (wrapped path (altered_mime_type path mime_type) samplerate channels)
      (λ decoder. call decoder)
