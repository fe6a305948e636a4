-- ===== src/Lib.antt =====
-- Verification of the core of NFDecoder: the sources of bytes, the factories that choose a decoder
-- for a path, and the decoders whose logic stands in this repository.
--
-- A decoder reads a file through a data provider (include/NFDecoder/DataProvider.h). The factory of
-- data providers makes one for a path; the decoder factories, each around another, choose the
-- decoder, load it, and hand it to the caller's callback.
--
-- - Base and its children: native numbers, lists, byte strings, callbacks as lists of events
--   (Base/Event), and computations with undefined behaviour or too little fuel (Base/Run).
-- - Base64: source/base64.cpp; Base64/Spec is the encoding of RFC 4648.
-- - Provider: the interface `DataProvider` with the laws `IsStream` that decoders rely on.
--   Provider/Memory, Provider/Http and Provider/File are source/DataProviderMemoryImplementation.cpp,
--   source/DataProviderHTTPImplementation.cpp and source/DataProviderFileImplementation.cpp; the
--   HTTP client and the C streams are parameters, whose documented behaviour is `Serves` and
--   `IsRegular`. Provider/Sources is source/DataProviderFactoryImplementation.cpp.
-- - Path: source/Path.cpp.
-- - Factory: source/NFDecoderMimeTypes.cpp (MimeTypes), the layers
--   source/Factory{Common,Android,Apple,LGPL,Transmuxer,Normalisation,Service}Implementation.cpp
--   (Platform is both Android's and Apple's), and their composition in source/Factory.cpp (Create).
--   Decoders are parameters there, by the getters and the `load` that the factories use. The order
--   in which the hash map of extensions is walked is a parameter too.
-- - Wav: source/DecoderWavImplementation.cpp and .h over any data provider: the chunk loop of `load`
--   (Chunks, Loop, Load), `seek`, and `decode` (Decode) with floats as a parameter.
-- - Flac: source/DecoderFLACImplementation.cpp with libFLAC as a parameter: the queue of samples;
--   Flac/Callbacks are the callbacks through which libFLAC reads the data provider.
-- - Ogg: source/DecoderOggImplementation.cpp, which leaves a file to Vorbis or Opus. Ogg/Vorbis and
--   Ogg/Opus are source/DecoderVorbisImplementation.cpp and source/DecoderOpusImplementation.cpp with
--   libvorbisfile and libopusfile as parameters, whose documented behaviour is `IsVorbisFile` and
--   `IsOpusFile`; Ogg/Ends says how their loops end, and Ogg/Callbacks are the
--   callbacks through which the libraries read the data provider.
-- - Speex: source/DecoderSpeexImplementation.cpp with libspeex as a parameter.
-- - Midi: source/DecoderMidiImplementation.cpp with TinySoundFont as a parameter.
-- - Normaliser: source/DecoderNormalisationImplementation.cpp around any decoder, with libresample and
--   the arithmetic of floats as parameters; Normaliser/Mixing is its mixing of channels.
-- - Dash: source/DecoderDashToHLSTransmuxerImplementation.cpp, over the memory provider, with the
--   transmuxer and the decoder of its stream as parameters.
-- - Avcodec: source/DecoderAVCodecImplementation.cpp with libav and the decrypter as parameters. A
--   call of libav is a value of `Io`, which asks for reads and seeks of the callbacks avio_read and
--   avio_seek. Avcodec/Search looks for the boxes of encrypted files (Avcodec/Endians turns bytes
--   around), Avcodec/Load is `load` and `seek`, Avcodec/Decode is runDecodeThread.
-- - Android: source/DecoderAndroidImplementation.cpp with the Java object as a parameter, whose calls
--   of the native methods are values of `Jni`. Android/Buffer is the float buffer, Android/Decode is
--   `decode`, Android/Launch the start of the app.
-- - AudioConverter: source/DecoderAudioConverterImplementation.cpp with AudioToolbox as a parameter,
--   whose calls of the decoder's callbacks are values of `Parse` and `Fill`; AudioConverter/Load and
--   AudioConverter/Decode are `load` and `decode`.
-- - Cli: source/cli/NFDecoderCLI.cpp, the file that it writes; Cli/Written reads it with Wav.
--
-- An operation of a class is the function of the same name in snake_case, on a record for the
-- object's members. A mutex makes an operation one step; what runs on another thread is taken as
-- run in place. `size_t` and `long` keep their wrap-around where the code's arithmetic can meet it.
-- The numbers of frames that the Vorbis and Opus decoders pass on as an `int`, and the `int` members
-- of the Android decoder, are those that fit one: what the code does from 2^31 on is not modelled.
--
-- Fuel: the chunk loop of `load` takes one unit for each chunk; the loops of the FLAC, Vorbis,
-- Opus and Speex decoders one for each call of their library, that of the MIDI decoder one for
-- each block of frames, and the factory of data providers one for each URL that is resolved. The
-- theorems on these say how much is enough. The loop of the DASH decoder takes one for each
-- segment, and the `seek` of the Speex decoder one for each packet. The loops of the decoder on libav
-- take one for each packet, for each frame of a packet, and for each position that is searched; how
-- many that are depends on the streams.
--
-- Not modelled: the decoder of Windows, which is calls of the platform's API for the most part; the
-- factories of manifests and decrypters, which make none; the arguments and the HTTP client of the
-- command line tool; and the vendored libraries.
pub mod Base
pub mod Android
pub mod AudioConverter
pub mod Avcodec
pub mod Base64
pub mod Provider
pub mod Path
pub mod Factory
pub mod Wav
pub mod Flac
pub mod Ogg
pub mod Speex
pub mod Midi
pub mod Normaliser
pub mod Cli
pub mod Dash
