-- ===== src/Dash.antt =====
-- source/DecoderDashToHLSTransmuxerImplementation.cpp: a decoder of the MPEG-2 stream that the
-- transmuxer makes of a DASH file, segment by segment. The transmuxer, the decoder that reads the
-- memory provider, and the arithmetic of doubles are parameters. What runs on other threads is
-- taken as run in place; frame indexes and numbers of frames are not negative, and a file has a
-- frame at least.
mod Bounds
mod Seek
mod Junk
mod Tests
use nfdecoder.Base.{
  ℕ, zero, suc, ◌+◌, ◌-◌, ◌*◌, ◌/◌, ◌==◌, ltb, leb, min, if◌then◌else◌, Bool, true, false, ◌&&◌,
  ◌||◌, Option, none, some, List, [], ◌∷◌, ◌++◌, take, drop, length, get_elem?,
}
use nfdecoder.Base.Event.{Event, error, done}
use nfdecoder.Base.Frames.{Decoded}
use nfdecoder.Base.Int.{ℤ, pos, negsuc}
use nfdecoder.Base.Run.{Run, ret, fault, unfinished, or_fault, ◌>>=◌}
use nfdecoder.Base.Text.{Text, codes}
use nfdecoder.Provider.{DataProvider, Reading, Whence, seek_set}
use nfdecoder.Provider.Memory.{Memory}
use nfdecoder.Provider.Memory

abbrev pub domain : Text
domain = codes "com.nativeformat.decoder.dash2hlstransmuxer"

-- `_start_junk_frames`
abbrev pub start_junk_frames : ℕ
start_junk_frames = 1024

-- An entry of the index.
pub record Segment : Type 0 where
  pub location : ℕ
  pub length : ℕ
  pub duration : ℕ
  pub timescale : ℕ

-- The transmuxer: a status of 0 is `kDashToHlsStatus_OK`, and `clear_content` is the other one that
-- parsing may give.
pub record Transmuxer : Type 1 where
  pub Session : Type 0
  pub clear_content : ℕ
  pub parse : Session → List ℕ → ℕ × List Segment × Session
  pub convert : Session → ℕ → List ℕ → ℕ × List ℕ × Session

-- The decoder of the stream. It reads the memory provider; `decode` gives the calls of its
-- callback.
pub record Stream (Float Rate : Type 0) : Type 1 where
  pub State : Type 0
  pub sample_rate : State → Rate
  pub channels : State → ℕ
  pub flush : State → State
  pub decode : State → Memory → ℕ → List (Decoded Float) × State × Memory

-- Times of segments, in doubles: the frames of one, an index with those of one added, and the
-- frames of all of them without the junk.
pub record Times (Rate : Type 0) : Type 0 where
  pub segment_frames : Segment → Rate → ℕ
  pub later : ℤ → Segment → Rate → ℤ
  pub total : List Segment → Rate → ℕ

-- `time_frame_index - start_junk_frames`
abbrev pub without_junk : ℤ → ℤ
without_junk (pos n) =
    if leb start_junk_frames n
    then pos (n - start_junk_frames)
    else negsuc (start_junk_frames - 1 - n)
without_junk (negsuc n) = negsuc (n + start_junk_frames)

-- `index < time_frame_index`
abbrev pub is_before : ℕ → ℤ → Bool
is_before index (pos n) = ltb index n
is_before index (negsuc n) = false

-- `index - start`, where `start` is not behind it, and 0 where it is.
abbrev pub frames_behind : ℕ → ℤ → ℕ
frames_behind index (pos n) = index - n
frames_behind index (negsuc n) = index + n + 1

module _ {Float Rate : Type 0} (mux : Transmuxer) (times : Times Rate) (P : DataProvider)
    (S : Stream Float Rate) where
  pub record Dash : Type 0 where
    pub provider : P.State
    pub memory : Memory
    pub session : mux.Session
    pub index : List Segment
    pub decoder : S.State
    pub frame_index : ℕ
    pub samples : List Float

  unfoldable pub frames : Dash → ℕ
  frames d = times.total d.index (S.sample_rate d.decoder)

  unfoldable pub eof : Dash → Bool
  unfolding frames
  eof d = leb (frames d) d.frame_index

  abbrev pub cached_frames : Dash → ℕ
  cached_frames d = length d.samples / S.channels d.decoder

  -- The status of the conversion, and the decoder after it. A segment out of the index is
  -- undefined.
  unfoldable pub write_segment : Dash → ℕ → Run (ℕ × Dash)
  write_segment d i = or_fault (get_elem? d.index i) >>= λ segment.
      or_fault (P.read (P.seek d.provider (pos segment.location) seek_set).1 1 segment.length)
      >>= λ r.
          let (status, hls, session') = mux.convert d.session i r.bytes in
          let d' = record d { provider = r.next; session = session' } in
          ret (
            if status == 0
            then (status, record d' { memory = Memory.write d.memory hls 1 (length hls) })
            else (status, d'))

  -- The calls of the stream's callback: each adds its samples, and then the exhaust callback runs.
  unfoldable pub take_calls : (Dash → Dash) → List (Decoded Float) → Dash → Run Dash
  take_calls exhausted [] d = ret d
  take_calls exhausted (call ∷ calls) d =
      let n = call.frame_count * S.channels d.decoder in
      let rest =
        take_calls exhausted calls
          (exhausted (record d { samples = d.samples ++ take n call.samples })) in
      if ltb (length call.samples) n then fault else rest

  -- `exhaustDecoder`: the calls, and the decoder after them.
  unfoldable pub exhaust : Dash → ℕ → (Dash → Dash) → Run (List (Decoded Float) × Dash)
  unfolding take_calls
  exhaust d i exhausted = or_fault (get_elem? d.index i) >>= λ segment.
      let n = times.segment_frames segment (S.sample_rate d.decoder) in
      let (calls, decoder', memory') = S.decode d.decoder d.memory n in
      take_calls exhausted calls (record d { decoder = decoder'; memory = memory' }) >>= λ d'.
      ret (calls, d')

  -- The wait ends with a call.
  unfoldable pub wait_for : List (Decoded Float) × Dash → Run (Bool × Dash)
  wait_for ([], d) = unfinished
  wait_for (call ∷ calls, d) = ret (false, d)

  -- `loadSegment` and the wait for it; true is an error.
  unfoldable pub load_segment : Dash → ℕ → Run (Bool × Dash)
  unfolding write_segment exhaust wait_for
  load_segment d i = write_segment d i >>= λ r.
      if r.0 == 0 then (exhaust r.1 i (λ d'. d') >>= wait_for) else ret (true, r.1)

  -- The segment to load at a frame: its number, and the frame that it starts with.
  unfoldable pub pick : Rate → ℕ → List Segment → ℕ → ℤ → ℕ × ℤ
  pick rate current [] i start = (i, start)
  pick rate current (s ∷ ss) i start =
      let time =
        if i == 0 then without_junk (times.later start s rate) else times.later start s rate in
      if is_before current time then (i, start) else pick rate current ss (i + 1) time

  -- The junk of the start is removed, at a frame of it.
  unfoldable pub remove_junk : ℕ → Dash → Dash
  remove_junk current d =
      if ltb current start_junk_frames
      then record d {
        samples =
            drop (min (start_junk_frames - current) (cached_frames d) * S.channels d.decoder)
              d.samples;
      }
      else d

  -- The samples before the frame are skipped; past the end of the samples that is undefined.
  unfoldable pub clip : Bool → ℕ → ℤ → Dash → Run Dash
  clip empty current start d =
      let n = frames_behind current start * S.channels d.decoder in
      if empty && ltb 0 (frames_behind current start)
      then (if ltb (length d.samples) n
          then fault
          else ret (record d { samples = drop n d.samples }))
      else ret d

  -- A round of the loop of `decode`: whether it met an error, and the decoder after it.
  unfoldable pub load_at : Dash → ℕ → Run (Bool × Dash)
  unfolding load_segment pick remove_junk clip
  load_at d current =
      let (i, start) = pick (S.sample_rate d.decoder) current d.index 0 (pos 0) in
      let n = length d.index in
      load_segment d (if i == n then i - 1 else i) >>= λ r.
      clip (cached_frames d == 0) current start (remove_junk current r.1) >>= λ d'. ret (r.0, d')

  -- The loop, one round for each unit of fuel, after which the samples of so many frames are there
  -- or there was an error.
  unfoldable pub fill_samples : ℕ → ℕ → Dash → Run Dash
  unfolding load_at
  fill_samples zero possible d =
      if S.channels d.decoder == 0
      then fault
      else if ltb (cached_frames d) possible
      then unfinished
      else ret d
  fill_samples (suc fuel) possible d =
      let rest = load_at d (d.frame_index + cached_frames d) >>= λ r.
      let goes_on = fill_samples fuel possible r.1 in if r.0 then ret r.1 else goes_on in
      if S.channels d.decoder == 0
      then fault
      else if ltb (cached_frames d) possible
      then rest
      else ret d

  unfoldable pub deliver : ℕ → Dash → Decoded Float × Dash
  deliver possible d =
      let output_frames = min possible (cached_frames d) in
      let n = output_frames * S.channels d.decoder in
      (
        record {
          frame_index = d.frame_index;
          frame_count = output_frames;
          samples = take n d.samples;
        },
        record d { frame_index = d.frame_index + output_frames; samples = drop n d.samples },
      )

  unfoldable pub decode : ℕ → ℕ → Dash → Run (Decoded Float × Dash)
  unfolding fill_samples deliver frames
  decode fuel wanted d =
      let possible = min wanted (frames d - d.frame_index) in
      fill_samples fuel possible d >>= λ d'. ret (deliver possible d')

  -- A seek forward keeps the samples from the new frame on where there are any.
  unfoldable pub seek : Dash → ℕ → Dash
  unfolding frames
  seek d index =
      let safe = min index (frames d - 1) in
      let n = (safe - d.frame_index) * S.channels d.decoder in
      if ltb d.frame_index safe && ltb n (length d.samples)
      then record d { frame_index = safe; samples = drop n d.samples }
      else if d.frame_index == safe
      then d
      else record d { frame_index = safe; samples = [] }

  unfoldable pub flush : Dash → Dash
  flush d = record d { samples = []; memory = Memory.flush d.memory; decoder = S.flush d.decoder }

  -- `load` once the stream has a decoder, none for a null pointer. The load callback is called by
  -- each call of the stream's callback, unless the decoder is that of libav.
  unfoldable pub start : Bool → Dash → Option S.State → Run (List (Event Bool) × Dash)
  unfolding exhaust seek flush
  start is_avcodec d none = fault
  start is_avcodec d (some decoder) =
      let d' = record d { decoder = decoder } in
      let fresh : Dash → Dash = λ e. flush (record (seek e 0) { samples = [] }) in
      let s = seek d' 0 in
      if is_avcodec
      then ret (done true ∷ [], record (flush s) { samples = s.samples })
      else exhaust d' 0 fresh >>= λ r. ret (reports r.0, r.1)
    where
      reports : List (Decoded Float) → List (Event Bool)
      reports [] = []
      reports (call ∷ calls) = done true ∷ reports calls

  -- The calls of the callbacks, in order, and the decoder after them. `index_end` is the end of the
  -- index range, and `created` the decoder that the factory makes of the memory provider. Where the
  -- first segment is not converted, the load callback is not called.
  unfoldable pub load : Bool → Option S.State → ℕ → Dash → Run (List (Event Bool) × Dash)
  unfolding write_segment start
  load is_avcodec created index_end d = or_fault (P.read d.provider 1 (index_end * 2)) >>= λ r.
      let (status, segments, session') = mux.parse d.session r.bytes in
      let d' = record d { provider = r.next; session = session'; index = segments } in
      if (status == 0) || (status == mux.clear_content)
      then (write_segment d' 0 >>= λ w.
          if w.0 == 0 then start is_avcodec w.1 created else ret (error domain w.0 ∷ [], w.1))
      else ret (error domain status ∷ done false ∷ [], d')
