-- ===== src/Avcodec/Decode.antt =====
-- source/DecoderAVCodecImplementation.cpp: runDecodeThread.
use mathlib.Core.Option
use nfdecoder.Base.{
  ℕ, zero, suc, ◌+◌, ◌-◌, ◌*◌, ◌/◌, ◌==◌, ltb, leb, min, if◌then◌else◌, Bool, true, false, ◌&&◌,
  ◌||◌, not, Option, none, some, List, [], ◌++◌, take, drop, length,
}
use nfdecoder.Base.Frames.{Decoded, interleave}
use nfdecoder.Base.Int.{ℤ, pos, negsuc, ◌==ℤ◌, ◌/ℤ◌, failed, code_of}
use nfdecoder.Base.Run.{Run, ret, fault, unfinished, or_fault, ◌>>=◌}
use nfdecoder.Provider.{DataProvider}
use nfdecoder.Avcodec.{Libav, Times, Decrypter, Avcodec, channels, run_io}
use nfdecoder.Avcodec.Search.{vector_of}

-- `max(end - packet_frames, 0)`
abbrev pub frames_behind : ℕ → ℤ → ℕ
frames_behind end (pos n) = end - n
frames_behind end (negsuc n) = end + n + 1

-- A number where it is positive, and 0 where it is not.
abbrev pub if_positive : ℤ → ℕ
if_positive (pos n) = n
if_positive (negsuc n) = 0

module _ {Float : Type 0} (lib : Libav Float) (P : DataProvider) (times : Times)
    (decrypter : Option Decrypter) where
  -- The locals of `runDecodeThread`, the decoder included.
  pub record Decoding : Type 0 where
    pub decoder : Avcodec lib P
    pub output : List Float
    pub read_frames : ℕ
    pub drain : Bool
    pub first_run : Bool
    pub decoded_frames : ℕ

  -- `move_decoded`, for a call that wants so many frames.
  unfoldable pub move_decoded : ℕ → Decoding → Decoding
  move_decoded wanted l =
      let pcm = l.decoder.pcm_buffer in
      let samples_to_copy = min (length pcm) ((wanted - l.read_frames) * channels) in
      if samples_to_copy == 0 then l else record l {
        output = take (l.read_frames * channels) l.output ++ take samples_to_copy pcm;
        decoder = record l.decoder { pcm_buffer = drop samples_to_copy pcm };
        read_frames = l.read_frames + samples_to_copy / channels;
      }

  -- The frames that are left out of a block, for a call at frame `start`.
  unfoldable pub clip_frames : ℕ → ℤ → Decoding → ℕ
  clip_frames start packet_frames l =
      let junk = l.decoder.start_junk_frames in
      if l.first_run
      then (if ltb l.decoded_frames junk && (start == 0) then junk - l.decoded_frames else 0)
      else frames_behind (start + junk + l.read_frames) packet_frames

  -- A block of resampled frames: all but those that are left out are cached, and then moved. The
  -- samples are taken from the start of the block.
  unfoldable pub take_block : ℕ → ℕ → ℤ → ℕ → (ℕ → ℕ → Float) → Decoding → Decoding
  unfolding move_decoded clip_frames
  take_block wanted start packet_frames pcm_frames block l =
      let clip = clip_frames start packet_frames l in
      let l' : Decoding = record l {
        first_run = true;
        decoded_frames = l.decoded_frames + pcm_frames;
      } in
      let pcm = l.decoder.pcm_buffer ++ interleave block channels 0 (pcm_frames - clip) in
      if leb pcm_frames clip
      then l'
      else move_decoded wanted (record l' { decoder = record l.decoder { pcm_buffer = pcm } })

  -- A block of a packet, which is followed where it is null.
  unfoldable pub place : ℕ → ℕ → Option lib.Packet → ℕ → (ℕ → ℕ → Float) → Decoding → Run Decoding
  unfolding take_block
  place wanted start packet pcm_frames block l = or_fault packet >>= λ p.
      or_fault l.decoder.stream >>= λ s.
      let ratio = s.time_base_den / s.time_base_num in
      let packet_frames = times.frames_of (lib.pts p) ratio s.sample_rate in
      if s.time_base_num == 0
      then fault
      else ret (take_block wanted start packet_frames pcm_frames block l)

  -- A frame that the codec has decoded of a packet.
  unfoldable pub on_frame : ℕ → ℕ → Option lib.Packet → lib.Frame → Decoding → Run Decoding
  unfolding place
  on_frame wanted start packet frame l =
      let converted = or_fault l.decoder.resampler >>= λ resampler.
      let (pcm_frames, block, resampler') = lib.convert resampler frame in
      let l' : Decoding = record l { decoder = record l.decoder { resampler = some resampler' } } in
      let placed = place wanted start packet (if_positive pcm_frames) block l' in
      if ltb 0 (if_positive pcm_frames) then placed else ret l' in
      if ltb 0 (if_positive (lib.nb_samples frame)) then converted else ret l

  -- The inner loop, one round for each unit of fuel: every status but 0 ends it.
  unfoldable pub receive_frames :
      ℕ → ℕ → ℕ → Option lib.Packet → lib.Codec → Decoding → Run Decoding
  unfolding on_frame
  receive_frames zero wanted start packet codec l = unfinished
  receive_frames (suc fuel) wanted start packet codec l =
      let (error_code, frame, codec') = lib.receive_frame codec in
      let l' : Decoding = record l { decoder = record l.decoder { codec = some codec' } } in
      let rest = on_frame wanted start packet frame l' >>= λ l''.
      receive_frames fuel wanted start packet codec' l'' in
      if failed error_code then ret l' else rest

  -- The bytes of a packet, decrypted with a key and the vector of its entry, none where that is
  -- not known, where the decrypter reports 0. The output has the size of the input, or more.
  unfoldable pub decrypt_with : Decrypter → Option (List ℕ) → lib.Packet → Option ℕ → Run lib.Packet
  unfolding vector_of
  decrypt_with decrypts key_id packet none = ret packet
  decrypt_with decrypts key_id packet (some iv) =
      let input = lib.bytes packet in
      let (status, output) = decrypts input key_id (vector_of iv) in
      let written =
        if ltb (length output) (length input)
        then fault
        else ret (lib.with_bytes packet (take (length input) output)) in
      if failed status then ret packet else written

  -- The number of the entry is not looked up where it is -1.
  unfoldable pub decrypt : Avcodec lib P → lib.Packet → Run lib.Packet
  unfolding decrypt_with
  decrypt d packet = elim decrypter [
    | none ↦ ret packet
    | some decrypts ↦
        let entry_index = lib.pts packet /ℤ d.frames_per_entry_index in
        let looked_up =
          if code_of entry_index == code_of (negsuc 0)
          then ret packet
          else decrypt_with decrypts d.boxes.key_id packet (d.boxes.ivs (code_of entry_index)) in
        if not (lib.is_writable packet)
        then ret packet
        else if d.frames_per_entry_index ==ℤ pos 0
        then fault
        else looked_up
  ]

  -- What becomes of a packet that was read, none at the end: the loop goes on, or it is left. The
  -- format and the codec are those of the decoder.
  unfoldable pub send : ℕ → ℕ → ℕ → Option lib.Packet → Decoding → Run (Bool × Decoding)
  unfolding receive_frames
  send fuel wanted start packet l = or_fault l.decoder.codec >>= λ codec.
      let (error_code, codec') = lib.send_packet codec packet in
      let l' : Decoding = record l { decoder = record l.decoder { codec = some codec' } } in
      let received = receive_frames fuel wanted start packet codec' l' >>= λ l''. ret (true, l'') in
      if error_code ==ℤ lib.averror_eof
      then ret (false, record l' { drain = true })
      else if failed error_code
      then ret (true, l')
      else received

  -- A packet to send: none at the end of the file, and from then on.
  unfoldable pub prepare : lib.Packet → Decoding → Run (Option lib.Packet)
  unfolding decrypt
  prepare packet l =
      let decrypted = decrypt l.decoder packet >>= λ p. ret (some p) in
      if l.drain then ret none else decrypted

  -- What av_read_frame reports: a status, a packet and the format, with the decoder after it. The
  -- end of the file is remembered, and every other status but 0 makes the loop go on.
  unfoldable pub handle :
      ℕ → ℕ → ℕ → Decoding → (ℤ × lib.Packet × lib.Format) × Avcodec lib P → Run (Bool × Decoding)
  handle fuel wanted start l ((error_code, packet, format'), d) =
      let ended = error_code ==ℤ lib.averror_eof in
      let l' : Decoding = record l {
        decoder = record d { format = some format' };
        drain = ended || l.drain;
      } in
      let sent = prepare packet l' >>= λ p. send fuel wanted start p l' in
      if not ended && failed error_code then ret (true, l') else sent

  -- A round of the outer loop; false leaves it.
  unfoldable pub round : ℕ → ℕ → ℕ → Decoding → Run (Bool × Decoding)
  unfolding handle
  round fuel wanted start l = or_fault l.decoder.format >>= λ format.
      run_io lib P decrypter fuel (lib.read_frame format) l.decoder >>= handle fuel wanted start l

  -- The outer loop, one round for each unit of fuel. The loops of a round have `inner`.
  unfoldable pub decode_packets : ℕ → ℕ → ℕ → ℕ → Decoding → Run Decoding
  unfolding round
  decode_packets inner zero wanted start l = if ltb l.read_frames wanted then unfinished else ret l
  decode_packets inner (suc fuel) wanted start l =
      let rest = round inner wanted start l >>= λ r.
      let goes_on = decode_packets inner fuel wanted start r.1 in
      if r.0 then goes_on else ret r.1 in
      if ltb l.read_frames wanted then rest else ret l

  -- The codec is flushed after the end of the file; the callback is called once.
  unfoldable pub finish : ℕ → ℕ → Decoding → Decoded Float × Avcodec lib P
  finish wanted start l =
      let codec' =
        if l.drain then Option.map lib.flush_codec l.decoder.codec else l.decoder.codec in
      (
        record {
          frame_index = start;
          frame_count = min l.read_frames wanted;
          samples = take (min l.read_frames wanted * channels) l.output;
        },
        record l.decoder { codec = codec'; frame_index = start + l.read_frames },
      )

  unfoldable pub decode : ℕ → ℕ → ℕ → Avcodec lib P → Run (Decoded Float × Avcodec lib P)
  unfolding move_decoded decode_packets finish
  decode inner fuel wanted d =
      let l : Decoding = record {
        decoder = d;
        output = [];
        read_frames = 0;
        drain = false;
        first_run = false;
        decoded_frames = 0;
      } in
      decode_packets inner fuel wanted d.frame_index (move_decoded wanted l) >>= λ l'.
      ret (finish wanted d.frame_index l')
