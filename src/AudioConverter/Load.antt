-- ===== src/AudioConverter/Load.antt =====
-- source/DecoderAudioConverterImplementation.cpp: load.
use nfdecoder.Base.{
  ℕ, zero, suc, ◌+◌, ◌*◌, ◌%◌, ◌^◌, ◌==◌, ltb, if◌then◌else◌, Bool, true, false, ◌&&◌, not, some,
  List, [], ◌∷◌, ◌++◌, take,
}
use nfdecoder.Base.Event.{Event, error, done}
use nfdecoder.Base.Int.{ℤ, pos, negsuc, ◌-ℤ◌, ◌/ℤ◌, ◌==ℤ◌, failed, code_of, to_u64}
use nfdecoder.Base.Run.{Run, ret, fault, unfinished, or_fault, ◌>>=◌}
use nfdecoder.Base.Text.{Text, codes}
use nfdecoder.Provider.{DataProvider, seek_set}
use nfdecoder.AudioConverter.{AudioToolbox, Format, AudioConverter, run_parse, seek}

-- `DECODER_AUDIOCONVERTER_NAME`
abbrev pub domain : Text
domain = codes "com.nativeformat.decoder.audioconverter"

-- `ErrorCodeNotEnoughDataForHeader`
abbrev pub not_enough_data_for_header : ℕ
not_enough_data_for_header = 0

-- `maximum_header_size` and `chunk_size`
abbrev pub maximum_header_size : ℕ
maximum_header_size = 1024 * 1024

abbrev pub chunk_size : ℕ
chunk_size = 1024 * 500

-- `status > 0`: a negative status is none.
abbrev pub is_positive : ℤ → Bool
is_positive (pos n) = ltb 0 n
is_positive (negsuc n) = false

-- What a step of `load` comes to: the calls of the callbacks with which it returns, or its result.
pub data Step (A D : Type 0) : Type 0 where
  stops : List (Event Bool) → D → Step A D
  gives : A → D → Step A D

module _ {Float Rate : Type 0} (lib : AudioToolbox Float Rate) (P : DataProvider)
    (is_memory : Bool) where
  abbrev D : Type 0
  D = AudioConverter lib P

  abbrev refused : ℤ → List (Event Bool)
  refused status = error domain (code_of status) ∷ done false ∷ []

  -- The seeks that estimate the size of a packet, from packet `i` on: the sum of the differences of
  -- their offsets.
  unfoldable pub cumulate : ℕ → ℕ → ℤ → ℤ → D → Step ℤ D
  cumulate zero i last sum d = gives sum d
  cumulate (suc n) i last sum d =
      let (status, byte_offset, stream') = lib.seek_stream d.stream i in
      let d' : D = record d { stream = stream' } in
      let rest = cumulate n (i + 1) byte_offset (sum -ℤ (last -ℤ byte_offset)) d' in
      if failed status then stops (refused status) d' else rest

  -- The average size of a packet, as a UInt32: what the stream reports, or, where that is 0, the
  -- average of 50 packets; the stream goes back to its start then.
  unfoldable pub average_size : D → Step ℕ D
  unfolding cumulate
  average_size d =
      let n = lib.average_bytes_per_packet d.stream in
      if n == 0
      then elim (cumulate 50 0 (pos 0) (pos 0) d) [
        | stops es d' ↦ stops es d'
        | gives sum d' ↦
            gives (to_u64 (sum /ℤ pos 50) % 2 ^ 32)
              (record d' { stream = (lib.seek_stream d'.stream 0).2 })
      ]
      else gives n d

  -- The frames of a file: those of its packets, where their number is known, or those of as many
  -- packets as it has room for.
  unfoldable pub count_frames : Format Rate → D → Run (Step ℤ D)
  unfolding average_size
  count_frames format d =
      let (status, packet_count) = lib.packet_count d.stream in
      let estimated : Run (Step ℤ D) = elim (average_size d) [
        | stops es d' ↦ ret (stops es d')
        | gives average d' ↦
            if average == 0
            then fault
            else ret (gives (times format.frames_per_packet (P.size d'.provider /ℤ pos average)) d')
      ] in
      if not (is_positive status)
      then ret (gives (pos (format.frames_per_packet * packet_count % 2 ^ 32)) d)
      else if status ==ℤ lib.value_unknown
      then estimated
      else ret (stops (refused status) d)
    where
      times : ℕ → ℤ → ℤ
      times n (pos m) = pos (n * m)
      times n (negsuc m) = pos 0 -ℤ pos (n * (m + 1))

  -- The converter for a format.
  unfoldable pub set_up : Format Rate → ℤ → D → Step Bool D
  set_up format frames d =
      let (status, converter) = lib.new_converter format in
      let junk =
        if (format.format_id == lib.mpeg4_aac) && not is_memory
        then 1024
        else d.start_junk_frames in
      let d' : D = record d {
        provider = (P.seek d.provider (pos 0) seek_set).1;
        channels = format.channels_per_frame;
        samplerate = format.sample_rate;
        frames = frames;
      } in
      if is_positive status
      then stops (refused status) d'
      else gives true (record d' {
        converter = some converter;
        start_junk_frames = junk;
        frames = if is_positive frames then frames -ℤ pos junk else frames;
      })

  -- What is done once the stream is ready.
  unfoldable pub prepare : D → Run (Step Bool D)
  unfolding count_frames set_up
  prepare d =
      let (status, format) = lib.data_format d.stream in
      let counted = count_frames format d >>= λ step.
      ret (elim step [ stops es d' ↦ stops es d' | gives frames d' ↦ set_up format frames d' ]) in
      if is_positive status then ret (stops (refused status) d) else counted

  -- A chunk of the header: false goes on with the next one. At the end of the file the callbacks
  -- are called, and the loop is left all the same.
  unfoldable pub read_chunk : ℕ → D → Run (List (Event Bool) × ℕ × Step Bool D)
  unfolding run_parse prepare
  read_chunk inner d = or_fault (P.read d.provider 1 chunk_size) >>= λ r.
      let d1 : D = record d { provider = r.next } in
      let parsed =
        run_parse lib P inner (lib.parse_bytes d.stream (take r.value r.bytes)) d1 >>= λ p.
        let ((status, stream'), d2) = p in
        let d3 : D = record d2 { stream = stream' } in
        let prepared = prepare d3 >>= λ step. ret ([], r.value, step) in
        if is_positive status
        then ret ([], r.value, stops (refused status) d3)
        else if lib.is_ready stream'
        then prepared
        else ret ([], r.value, gives false d3) in
      if r.value == 0
      then ret (error domain not_enough_data_for_header ∷ done false ∷ [], 0, gives true d1)
      else parsed

  -- The rest of `load`, behind the loop.
  unfoldable pub finish : List (Event Bool) → D → Run (List (Event Bool) × D)
  unfolding seek
  finish events d =
      seek lib P 0 d >>= λ d'. ret (events ++ done true ∷ [], record d' { pcm_buffer = [] })

  -- The loop, one round for each unit of fuel.
  unfoldable pub read_header : ℕ → ℕ → ℕ → D → Run (List (Event Bool) × D)
  unfolding read_chunk finish
  read_header inner zero read_bytes d =
      if ltb read_bytes maximum_header_size then unfinished else finish [] d
  read_header inner (suc fuel) read_bytes d =
      let rest = read_chunk inner d >>= λ r. elim r.2 [
        | stops es d' ↦ ret (r.0 ++ es, d')
        | gives is_done d' ↦
            let goes_on = read_header inner fuel (read_bytes + r.1) d' in
            if is_done then finish r.0 d' else goes_on
      ] in
      if ltb read_bytes maximum_header_size then rest else finish [] d

  -- The calls of the callbacks, and the decoder after them.
  unfoldable pub load : ℕ → ℕ → D → Run (List (Event Bool) × D)
  unfolding read_header
  load inner fuel d = read_header inner fuel 0 (record d { stream = lib.open_stream })
