-- ===== src/AudioConverter/Decode.antt =====
-- source/DecoderAudioConverterImplementation.cpp: decode.
use nfdecoder.Base.{
  ℕ, zero, suc, ◌+◌, ◌-◌, ◌*◌, ◌/◌, ◌==◌, ltb, min, if◌then◌else◌, Bool, true, false, ◌&&◌, List,
  [], ◌++◌, take, drop, length,
}
use nfdecoder.Base.Frames.{Decoded}
use nfdecoder.Base.Int.{failed}
use nfdecoder.Base.Run.{Run, ret, fault, unfinished, ◌>>=◌}
use nfdecoder.Provider.{DataProvider}
use nfdecoder.AudioConverter.{AudioToolbox, AudioConverter, fill_data}

module _ {Float Rate : Type 0} (lib : AudioToolbox Float Rate) (P : DataProvider) where
  -- The locals of `decode`, the decoder included.
  pub record Decoding : Type 0 where
    pub decoder : AudioConverter lib P
    pub read_frames : ℕ
    pub samples : List Float

  -- The junk frames that are removed from the cache, for a call at frame `start`.
  unfoldable pub delete_frames : ℕ → Decoding → ℕ
  delete_frames start l =
      let d = l.decoder in
      let current = start + l.read_frames in
      if ltb current d.start_junk_frames
      then min (d.start_junk_frames - current) (length d.pcm_buffer / d.channels)
      else 0

  -- `dump_data`, for a call of so many frames at frame `start`. The frames that are removed count
  -- as read in what this call may still read.
  unfoldable pub dump_data : ℕ → ℕ → Decoding → Run Decoding
  dump_data frames start l =
      let d = l.decoder in
      let n = delete_frames start l in
      let frames_to_read = frames - l.read_frames - n in
      let pcm = drop (n * d.channels) d.pcm_buffer in
      let samples_to_read = min (length pcm) (frames_to_read * d.channels) in
      if d.channels == 0
      then fault
      else if ltb 0 frames_to_read && ltb 0 (length pcm)
      then ret (record {
        decoder = record d { pcm_buffer = drop samples_to_read pcm };
        read_frames = l.read_frames + samples_to_read / d.channels;
        samples = take (l.read_frames * d.channels) l.samples ++ take samples_to_read pcm;
      })
      else ret (record l { decoder = record d { pcm_buffer = pcm } })

  -- A chunk is read; false leaves the loop.
  unfoldable pub fill : ℕ → Decoding → Run (Bool × Decoding)
  unfolding fill_data
  fill inner l = fill_data lib P inner l.decoder >>= λ r.
      ret (if failed r.0 then false else true, record l { decoder = r.1 })

  -- The frames before the one that was sought are removed; without enough of them a chunk is read.
  unfoldable pub skip_offset : ℕ → Decoding → Run (Bool × Decoding)
  unfolding fill
  skip_offset inner l =
      let d = l.decoder in
      let maximum_erase = min (length d.pcm_buffer / d.channels) d.frame_offset in
      let l' : Decoding = record l {
        decoder = record d {
          pcm_buffer = drop (maximum_erase * d.channels) d.pcm_buffer;
          frame_offset = d.frame_offset - maximum_erase;
        };
      } in
      let filled = fill inner l' in
      if d.channels == 0
      then fault
      else if ltb 0 (d.frame_offset - maximum_erase)
      then filled
      else ret (true, l')

  -- A round of the loop; false leaves it.
  unfoldable pub round : ℕ → ℕ → ℕ → Decoding → Run (Bool × Decoding)
  round inner frames start l =
      let skipped = skip_offset inner l in
      let filled = fill inner l in
      let dumped = dump_data frames start l >>= λ l'. ret (true, l') in
      if ltb 0 l.decoder.frame_offset
      then skipped
      else if length l.decoder.pcm_buffer == 0
      then filled
      else dumped

  -- The loop, one round for each unit of fuel. The loops of a round have `inner`.
  unfoldable pub read_samples : ℕ → ℕ → ℕ → ℕ → Decoding → Run Decoding
  read_samples inner zero frames start l = if ltb l.read_frames frames then unfinished else ret l
  read_samples inner (suc fuel) frames start l =
      let rest = round inner frames start l >>= λ r.
      let goes_on = read_samples inner fuel frames start r.1 in if r.0 then goes_on else ret r.1 in
      if ltb l.read_frames frames then rest else ret l

  -- What is cached is dumped once more, and the callback is called once.
  unfoldable pub decode :
      ℕ → ℕ → ℕ → AudioConverter lib P → Run (Decoded Float × AudioConverter lib P)
  decode inner fuel frames d =
      read_samples inner fuel frames d.frame_index
        (record { decoder = d; read_frames = 0; samples = [] })
      >>= dump_data frames d.frame_index
      >>= λ l.
          let out : Decoded Float = record {
            frame_index = d.frame_index;
            frame_count = l.read_frames;
            samples = l.samples;
          } in
          ret (out, record l.decoder { frame_index = d.frame_index + l.read_frames })
