-- ===== src/AudioConverter.antt =====
-- source/DecoderAudioConverterImplementation.cpp: the decoder of Apple's systems, over any data
-- provider. The calls of AudioToolbox are parameters. What runs on other threads is taken as run in
-- place, and the mutex makes each operation one step. Frame indexes and numbers of frames are not
-- negative.
mod Decode
mod Load
mod Start
mod Rounds
mod Silent
mod Tests
use mathlib.Core.Option
use nfdecoder.Base.{
  ℕ, zero, suc, ◌+◌, ◌-◌, ◌*◌, ◌/◌, ◌%◌, ◌^◌, ◌==◌, ltb, leb, min, if◌then◌else◌, Bool, true, false,
  ◌||◌, not, Option, none, some, List, [], ◌∷◌, ◌++◌, take, drop, length,
}
use nfdecoder.Base.Event.{Event, error, done}
use nfdecoder.Base.Int.{ℤ, pos, negsuc, ◌-ℤ◌, ◌/ℤ◌, ◌==ℤ◌, is_negative, failed, code_of, to_u64}
use nfdecoder.Base.Run.{Run, ret, fault, unfinished, or_fault, ◌>>=◌}
use nfdecoder.Base.Text.{Text, codes, text_eq}
use nfdecoder.Provider.{DataProvider, Reading, seek_set}

-- A call of AudioConverterFillComplexBuffer: it ends, or it calls `inputDataProc` for so many
-- packets and goes on with the bytes and the number of packets that it is given, none for an error.
pub data Fill (A : Type 0) : Type 0 where
  filled : A → Fill A
  asking : ℕ → (Option (List ℕ × ℕ) → Fill A) → Fill A

-- A call of AudioFileStreamParseBytes: it ends, or it calls `sampleProc` with the bytes of so many
-- packets and goes on.
pub data Parse (A : Type 0) : Type 0 where
  parsed : A → Parse A
  packets : List ℕ → ℕ → Parse A → Parse A

-- What the code reads of an AudioStreamBasicDescription.
pub record Format (Rate : Type 0) : Type 0 where
  pub sample_rate : Rate
  pub format_id : ℕ
  pub frames_per_packet : ℕ
  pub channels_per_frame : ℕ

-- AudioToolbox. A status of 0 is `noErr`. `fill_complex_buffer`, for so many packets at most, gives
-- its status, the number of packets and the samples in the buffer.
pub record AudioToolbox (Float Rate : Type 0) : Type 1 where
  pub Stream : Type 0
  pub Converter : Type 0
  pub no_rate : Rate
  pub open_stream : Stream
  pub parse_bytes : Stream → List ℕ → Parse (ℤ × Stream)
  pub is_ready : Stream → Bool
  pub data_format : Stream → ℤ × Format Rate
  pub packet_count : Stream → ℤ × ℕ
  pub average_bytes_per_packet : Stream → ℕ
  pub seek_stream : Stream → ℕ → ℤ × ℤ × Stream
  pub data_offset : Stream → ℤ × ℤ
  pub value_unknown : ℤ
  pub mpeg4_aac : ℕ
  pub new_converter : Format Rate → ℤ × Converter
  pub maximum_output_packet_size : Converter → ℤ × ℕ
  pub fill_complex_buffer : Converter → ℕ → Fill (ℤ × ℕ × List Float × Converter)
  pub reset : Converter → Converter

module _ {Float Rate : Type 0} (lib : AudioToolbox Float Rate) (P : DataProvider) where
  -- The converter is none until it is made. `input` is the input buffer, none where its data is
  -- null, with the number of its packets.
  pub record AudioConverter : Type 0 where
    pub provider : P.State
    pub stream : lib.Stream
    pub converter : Option lib.Converter
    pub channels : ℕ
    pub samplerate : Rate
    pub input : Option (List ℕ)
    pub input_packets : ℕ
    pub frame_index : ℕ
    pub frames : ℤ
    pub frame_offset : ℕ
    pub pcm_buffer : List Float
    pub start_junk_frames : ℕ

  -- `inputDataProc`: what it gives, and the decoder after it, whose input buffer is null then.
  unfoldable pub input_data_proc : ℕ → AudioConverter → Option (List ℕ × ℕ) × AudioConverter
  input_data_proc zero d = (none, d)
  input_data_proc (suc n) d =
      (Option.map (λ bytes. (bytes, d.input_packets)) d.input, record d { input = none })

  -- A call of the converter with the calls of `inputDataProc` that it makes.
  unfoldable pub run_fill : {A : Type 0} → Fill A → AudioConverter → A × AudioConverter
  unfolding input_data_proc
  run_fill (filled a) d = (a, d)
  run_fill (asking n k) d = run_fill (k (input_data_proc n d).0) (input_data_proc n d).1

  -- What the converter gives: a status, a number of packets, the buffer, and the converter, with
  -- the decoder after it. The samples are cached; what is read behind the end of the buffer is
  -- undefined. False leaves the loop.
  unfoldable pub take_output :
      (ℤ × ℕ × List Float × lib.Converter) × AudioConverter → Run (Bool × AudioConverter)
  take_output ((status, n, output, converter'), d) =
      let d' : AudioConverter = record d { converter = some converter' } in
      let output_samples = n * d.channels in
      if failed status || (n == 0)
      then ret (false, d')
      else if ltb (length output) output_samples
      then fault
      else ret (true, record d' { pcm_buffer = d.pcm_buffer ++ take output_samples output })

  -- The loop of `sampleProc`, one round for each unit of fuel.
  unfoldable pub convert : ℕ → ℕ → AudioConverter → Run AudioConverter
  unfolding run_fill take_output
  convert zero maximum d = unfinished
  convert (suc fuel) maximum d = or_fault d.converter >>= λ converter.
      take_output (run_fill (lib.fill_complex_buffer converter maximum) d) >>= λ r.
      let rest = convert fuel maximum r.1 in if r.0 then rest else ret r.1

  unfoldable pub sample_proc : ℕ → List ℕ → ℕ → AudioConverter → Run AudioConverter
  unfolding convert
  sample_proc fuel bytes number_packets d = or_fault d.converter >>= λ converter.
      let (status, maximum) = lib.maximum_output_packet_size converter in
      let d' : AudioConverter = record d { input = some bytes; input_packets = number_packets } in
      if failed status then ret d' else convert fuel maximum d'

  -- A call of the stream with the calls of `sampleProc` that it makes.
  unfoldable pub run_parse : {A : Type 0} → ℕ → Parse A → AudioConverter → Run (A × AudioConverter)
  unfolding sample_proc
  run_parse fuel (parsed a) d = ret (a, d)
  run_parse fuel (packets bytes n next) d =
      sample_proc fuel bytes n d >>= λ d'. run_parse fuel next d'

  -- A chunk of the file for the stream: its status, or -1 at the end of the file.
  unfoldable pub fill_data : ℕ → AudioConverter → Run (ℤ × AudioConverter)
  unfolding run_parse
  fill_data fuel d = or_fault (P.read d.provider 1 (1024 * 500)) >>= λ r.
      let d1 : AudioConverter = record d { provider = r.next } in
      let parsed_bytes =
        run_parse fuel (lib.parse_bytes d.stream (take r.value r.bytes)) d1 >>= λ p.
        ret (p.0.0, record p.1 { stream = p.0.1 }) in
      if r.value == 0 then ret (negsuc 0, d1) else parsed_bytes

  unfoldable pub flush : AudioConverter → Run AudioConverter
  flush d = or_fault d.converter >>= λ converter.
      ret (record d { pcm_buffer = []; converter = some (lib.reset converter) })

  unfoldable pub eof : AudioConverter → Bool
  eof d = P.eof d.provider

  -- Only a negative status makes it return early. A stream without frames in its packets is a
  -- division by zero.
  unfoldable pub seek : ℕ → AudioConverter → Run AudioConverter
  seek frame_index d =
      let (status, format) = lib.data_format d.stream in
      let packet = frame_index / format.frames_per_packet in
      let (sought, byte_offset, stream') = lib.seek_stream d.stream packet in
      let (status', start) = lib.data_offset stream' in
      let d1 : AudioConverter = record d { stream = stream' } in
      let at : ℤ → AudioConverter = λ position. record d1 {
        frame_offset = frame_index % format.frames_per_packet;
        frame_index = frame_index;
        pcm_buffer = [];
        provider = (P.seek d.provider position seek_set).1;
      } in
      if is_negative status
      then ret d
      else if format.frames_per_packet == 0
      then fault
      else if is_negative sought
      then ret d1
      else if not (packet == 0)
      then ret (at byte_offset)
      else if is_negative status'
      then ret d1
      else ret (at start)
