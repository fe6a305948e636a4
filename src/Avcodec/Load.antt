-- ===== src/Avcodec/Load.antt =====
-- source/DecoderAVCodecImplementation.cpp: load and seek.
use nfdecoder.Base.{
  ℕ, ◌+◌, ◌/◌, ◌==◌, ltb, if◌then◌else◌, Bool, true, false, ◌||◌, Option, none, some, List, [], ◌∷◌,
  length,
}
use nfdecoder.Base.Event.{Event, error, done}
use nfdecoder.Base.Int.{ℤ, pos, negsuc, ◌-ℤ◌, ◌==ℤ◌, max_ℤ, failed, code_of}
use nfdecoder.Base.Run.{Run, ret, fault, or_fault, ◌>>=◌}
use nfdecoder.Provider.{DataProvider}
use nfdecoder.Avcodec.{
  domain, could_not_decode_header, Libav, Times, Decrypter, Avcodec, AvStream, run_io,
}

-- `UNKNOWN_FRAMES`
abbrev pub unknown_frames : ℤ
unknown_frames = negsuc 0

-- The first stream of audio.
unfoldable pub audio_stream : List AvStream → Option AvStream
audio_stream [] = none
audio_stream (s ∷ ss) = let rest = audio_stream ss in if s.is_audio then some s else rest

unfoldable pub last_stream : List AvStream → Option AvStream → Option AvStream
last_stream [] before = before
last_stream (s ∷ ss) before = last_stream ss (some s)

-- The frames that a stream reports, or that its duration has.
abbrev pub reported_frames : ℤ → ℤ → ℤ
reported_frames nb_frames duration_frames =
    if is_positive nb_frames || is_positive duration_frames
    then max_ℤ nb_frames duration_frames
    else unknown_frames
  where
    is_positive : ℤ → Bool
    is_positive (pos n) = ltb 0 n
    is_positive (negsuc n) = false

-- The frames without those at the start.
abbrev pub without_junk : ℤ → ℕ → ℤ
without_junk frames junk = if frames ==ℤ unknown_frames then frames else frames -ℤ pos junk

module _ {Float : Type 0} (lib : Libav Float) (P : DataProvider) (times : Times)
    (decrypter : Option Decrypter) where
  -- The calls of the callbacks, and the decoder after them.
  abbrev pub Loaded : Type 0
  Loaded = List (Event Bool) × Avcodec lib P

  abbrev pub refused : ℤ → Avcodec lib P → Run Loaded
  refused error_code d = ret (error domain (code_of error_code) ∷ done false ∷ [], d)

  abbrev pub junk_frames : ℕ → ℕ
  junk_frames codec_id =
      if codec_id == lib.codec_id_aac then 1024 else if codec_id == lib.codec_id_mp3 then 275 else 0

  -- What the vectors of a decrypter need of the index entries: `_frames_per_entry_index` and
  -- `_packets_per_moof`, which stay as they are for less than two entries.
  unfoldable pub guess_entries : List ℤ → ℤ × ℕ → ℤ × ℕ
  guess_entries (first ∷ second ∷ others) before = elim decrypter [
    | none ↦ before
    | some _ ↦ (second -ℤ first, length (first ∷ second ∷ others))
  ]
  guess_entries entries before = before

  unfoldable pub open_resampler : AvStream → Avcodec lib P → Run Loaded
  open_resampler s d =
      let (error_code, resampler) = lib.open_resampler s in
      if failed error_code
      then refused error_code d
      else ret (done true ∷ [], record d { resampler = some resampler })

  -- The stream is taken with the codec of its identifier, which is followed without a test. The
  -- junk of another codec is that of an earlier load.
  unfoldable pub open_stream : AvStream → Avcodec lib P → Run Loaded
  unfolding guess_entries open_resampler
  open_stream s d =
      let ratio = s.time_base_den / s.time_base_num in
      let frames = reported_frames s.nb_frames (times.frames_of s.duration ratio s.sample_rate) in
      let opened = or_fault (lib.find_decoder s.codec_id) >>= λ codec_id.
      let junk = if junk_frames codec_id == 0 then d.start_junk_frames else junk_frames codec_id in
      let (error_code, codec) = lib.open_codec s codec_id in
      let guessed =
        guess_entries s.timestamps (d.frames_per_entry_index, d.boxes.packets_per_moof) in
      let d' : Avcodec lib P = record d {
        stream = some s;
        frames = without_junk frames junk;
        start_junk_frames = junk;
      } in
      if failed error_code
      then refused error_code d'
      else open_resampler s (record d' {
        codec = some codec;
        frames_per_entry_index = guessed.0;
        boxes = record d.boxes { packets_per_moof = guessed.1 };
      }) in
      if s.time_base_num == 0 then fault else opened

  -- Without a stream of audio the last one is left as the stream.
  unfoldable pub find_stream : lib.Format → Avcodec lib P → Run Loaded
  unfolding audio_stream last_stream open_stream
  find_stream format d = elim (audio_stream (lib.streams format)) [
    | none ↦ ret (
      error domain could_not_decode_header ∷ done false ∷ [],
      record d { stream = last_stream (lib.streams format) d.stream },
    )
    | some s ↦ open_stream s d
  ]

  -- Every status but 0 of a call is a failure. A format that is not opened is freed.
  unfoldable pub load : ℕ → Avcodec lib P → Run Loaded
  unfolding run_io find_stream
  load fuel d = run_io lib P decrypter fuel lib.open_input d >>= λ r.
      let ((error_code, format), d1) = r in
      let probed = run_io lib P decrypter fuel (lib.find_stream_info format) d1 >>= λ r'.
      let ((error_code', format'), d2) = r' in
      let d3 : Avcodec lib P = record d2 { format = some format' } in
      if failed error_code' then refused error_code' d3 else find_stream format' d3 in
      if failed error_code then refused error_code (record d1 { format = none }) else probed

  -- The codec is not flushed. What libav reports is not looked at.
  unfoldable pub seek : ℕ → ℕ → Avcodec lib P → Run (Avcodec lib P)
  unfolding run_io
  seek fuel frame_index d = or_fault d.format >>= λ format. or_fault d.stream >>= λ s.
      let ratio = s.time_base_den / s.time_base_num in
      let time = times.time_of (frame_index + d.start_junk_frames) s.sample_rate ratio in
      let sought = run_io lib P decrypter fuel (lib.seek_frame format s.index time) d >>= λ r.
      ret (record r.1 { format = some r.0; pcm_buffer = []; frame_index = frame_index }) in
      if s.time_base_num == 0 then fault else sought
