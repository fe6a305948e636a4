-- ===== src/Factory/Tests.antt =====
-- Examples for the factories.
use nfdecoder.Base.{
  ℕ, ◌<◌, ◌^◌, Bool, List, ◌++◌, length, arith, ◌≡◌, refl, ◌==◌, true, false, none, some, [], ◌∷◌,
}
use nfdecoder.Base.Int.{ℤ, pos}
use nfdecoder.Base.Text.{codes}
use nfdecoder.Base.Run.{ret}
use nfdecoder.Base.Event.{done}
use nfdecoder.Provider.{DataProvider, IsStream}
use nfdecoder.Provider.File.Whole.{IsRegular, file_stream, file-At}
use nfdecoder.Provider.File.{provider}
use nfdecoder.Provider.File.Disk.{disk, disk-IsRegular, disk-Stands}
use nfdecoder.Factory.{Objects, CreateDecoder, Calls, call}
use nfdecoder.Factory.Once.{Each}
use nfdecoder.Factory.Answered.{Answered}
use nfdecoder.Factory.MimeTypes.{ogg_extension}
use nfdecoder.Factory.Platform.{android, own_decoder}
use nfdecoder.Factory.Transmuxer.{should_process, create_decoder}
use nfdecoder.Factory.Transmuxer.Silent.{dash_file, IsUnanswered, create_decoder-completions}
use nfdecoder.Factory.Normalisation.Rates.{IsAsked}
use nfdecoder.Factory.Create.{Setup, own, create_factory}
use nfdecoder.Factory.Create.Whole.{create_factory-IsAsked}

-- Decoders are their rate and number of channels; there is one file.
abbrev objects : Objects
objects = record {
  Rate = ℕ;
  same_rate = λ a b. a == b;
  standard_samplerate = 44100;
  Decoder = ℕ × ℤ;
  sample_rate = λ d. d.0;
  channels = λ d. d.1;
  Provider = provider (disk (0 ∷ 0 ∷ 0 ∷ 32 ∷ (codes "ftypdash" ++ (0 ∷ 0 ∷ []))));
  Decrypter = Unit;
}

abbrev opened : DataProvider.State objects.Provider
opened = record { path = codes "a"; handle = (0, false); length_in_bytes = pos 14 }

-- An Opus file with a negative number of frames: a failure, and then a success.
abbrev twice : Calls Bool
twice = ret (done false ∷ done true ∷ [])

abbrev setup : Setup objects
setup = record {
  include_lgpl = true;
  use_ffmpeg = false;
  target = android;
  order = ogg_extension ∷ [];
  uninitialised = 0 ∷ 0 ∷ 0 ∷ 0 ∷ 0 ∷ 0 ∷ 0 ∷ 0 ∷ 0 ∷ 0 ∷ [];
  decoders = record {
    load_ogg = λ p. (twice, (48000, pos 2));
    load_wav = λ p. (call true, (48000, pos 2));
    load_flac = λ p. (call true, (48000, pos 2));
    load_midi = λ path. (call true, (48000, pos 2));
    load_speex = λ p. (call true, (48000, pos 2));
  };
  load_audio_converter = λ p. (call false, (0, pos 0));
  load_android = λ p. (call true, (44100, pos 2));
  load_avcodec = λ p d. (call false, (0, pos 0));
  create_data_provider = λ path. call (some opened);
  create_decrypter = λ path. call none;
}

own_android : own objects setup ≡ some setup.load_android
unfolding own_decoder
own_android = refl

create_factory-IsAsked_example :
    Each
      (IsAsked objects 44100 (pos 2))
      (create_factory objects setup (codes "a.ogg") [] 44100 (pos 2))
create_factory-IsAsked_example =
    create_factory-IsAsked objects setup (codes "a.ogg") [] 44100 (pos 2) refl

abbrev no_factory : CreateDecoder objects objects.Decoder
no_factory path mime_type samplerate channels = call none

transmuxing : should_process false (codes "a.mp4") [] ≡ true
unfolding should_process
transmuxing = refl

abbrev opened_file : List ℕ
opened_file = dash_file 0 0 0 32 0 []

opened_few : length opened_file < 2 ^ 63
opened_few = omega arith

abbrev regular : IsRegular (disk opened_file) (codes "a") opened_file
regular = disk-IsRegular opened_file (codes "a") opened_few

abbrev stream : IsStream objects.Provider opened_file
stream = file_stream (disk opened_file) (codes "a") opened_file regular

opened_stands : stream.At opened 0
opened_stands =
    file-At (disk opened_file) (codes "a") opened_file regular opened 0
      (record { stands = disk-Stands opened_file (codes "a") opened_few 0; within = omega arith })

unanswered : IsUnanswered objects 0 0 0 32 0 [] stream (some opened)
unfolding IsUnanswered
unanswered = (0, opened_stands)

create_decoder-completions_example :
    create_decoder objects false setup.uninitialised setup.create_data_provider no_factory
      (codes "a.mp4")
      []
      44100
      (pos 2)
    ≡ ret []
create_decoder-completions_example =
    create_decoder-completions objects 0 0 0 32 0 [] stream false setup.uninitialised
      setup.create_data_provider no_factory (codes "a.mp4") [] 44100 (pos 2) (some opened)
      transmuxing refl unanswered
