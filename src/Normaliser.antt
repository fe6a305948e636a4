-- ===== src/Normaliser.antt =====
-- source/DecoderNormalisationImplementation.cpp: frames of another decoder, at another rate and
-- with another number of channels. The wrapped decoder, libresample and the arithmetic of floats
-- are parameters. Calls are synchronous and the mutex is free; the numbers of channels are not
-- negative.
pub mod Mixing
mod Mono
mod Stereo
mod Passes
mod Order
mod Empty
mod Tests
use nfdecoder.Base.{
  ℕ, zero, suc, ◌+◌, ◌-◌, ◌*◌, ◌/◌, ◌==◌, ltb, leb, min, if◌then◌else◌, Bool, true, false, ◌&&◌,
  ◌||◌, not, Option, none, some, List, [], ◌∷◌, ◌++◌, take, drop, length, get_elem?, get_or, set,
}
use nfdecoder.Base.Event.{Event, done}
use nfdecoder.Base.Frames.{Decoded}
use nfdecoder.Base.Int.{ℤ, pos, negsuc}
use nfdecoder.Base.Run.{Run, ret, fault, or_fault, ◌>>=◌}
use nfdecoder.Normaliser.Mixing.{Floats, mix}

-- Doubles: `requested` is `(frames / factor) * 1.01`, `resampled` is `frames * factor + 1`,
-- `before` is `frame_index / factor`, `scaled` is `frames * factor`, and `bytes` is the size of a
-- buffer of `rate * channels` floats, each as an integer.
pub record Doubles : Type 1 where
  pub Double : Type 0
  pub is_one : Double → Bool
  pub quotient : Double → Double → Double
  pub requested : Double → ℕ → ℕ
  pub resampled : Double → ℕ → ℕ
  pub before : Double → ℕ → ℕ
  pub scaled : Double → ℤ → ℤ
  pub bytes : Double → ℕ → ℕ

-- libresample: `process` is given its input, whether it is the last, and the number of floats that
-- it may write; it gives those that it writes.
pub record Libresample (Float Double : Type 0) : Type 1 where
  pub Handle : Type 0
  pub open_handle : Double → Option Handle
  pub process : Handle → Double → List Float → Bool → ℕ → List Float × Handle

-- A decoder. `decode` gives the calls of its callback, each with the decoder as it is then, and the
-- decoder after them.
pub record Wrapped (Float Double : Type 0) : Type 1 where
  pub State : Type 0
  pub sample_rate : State → Double
  pub channels : State → ℕ
  pub frames : State → ℤ
  pub eof : State → Bool
  pub seek : State → ℕ → State
  pub flush : State → State
  pub decode : State → ℕ → List (Decoded Float × State) × State

module _ {Float : Type 0} (floats : Floats Float) (doubles : Doubles)
    (lib : Libresample Float doubles.Double) (W : Wrapped Float doubles.Double) where
  open doubles use {Double, is_one, quotient, requested, resampled, before, scaled, bytes}

  pub record Normaliser : Type 0 where
    pub wrapped : W.State
    pub factor : Double
    pub handlers : List (Option lib.Handle)
    pub frame_index : ℕ
    pub pcm_buffer : List Float
    pub samplerate : Double
    pub channels : ℕ

  -- The loops over the handlers, `n` of them from `i` on; there are two.
  unfoldable pub open_handlers :
      Double → ℕ → ℕ → List (Option lib.Handle) → Run (List (Option lib.Handle))
  open_handlers factor i zero hs = ret hs
  open_handlers factor i (suc n) hs = or_fault (get_elem? hs i) >>= λ h.
      open_handlers factor (i + 1) n (set hs i (lib.open_handle factor))

  -- The load callback is called with true.
  unfoldable pub load : Normaliser → Run (List (Event Bool) × Normaliser)
  unfolding open_handlers
  load d =
      let factor = quotient d.samplerate (W.sample_rate d.wrapped) in
      if is_one factor
      then ret (done true ∷ [], record d { factor = factor })
      else open_handlers factor 0 d.channels d.handlers >>= λ hs.
          ret (done true ∷ [], record d { factor = factor; handlers = hs })

  -- A flush of a resampler into a buffer of some bytes, whose size is given as a number of floats.
  unfoldable pub drain : Double → ℕ → Option lib.Handle → Run (Option lib.Handle)
  drain factor size none = ret none
  drain factor size (some h) =
      let (xs, h') = lib.process h factor [] true size in
      if ltb (size / 4) (length xs) then fault else ret (some h')

  unfoldable pub drain_handlers :
      Double → ℕ → ℕ → ℕ → List (Option lib.Handle) → Run (List (Option lib.Handle))
  unfolding drain
  drain_handlers factor size i zero hs = ret hs
  drain_handlers factor size i (suc n) hs = or_fault (get_elem? hs i) >>= λ h.
      drain factor size h >>= λ h'. drain_handlers factor size (i + 1) n (set hs i h')

  unfoldable pub seek : Normaliser → ℕ → Run Normaliser
  unfolding drain_handlers
  seek d index =
      drain_handlers d.factor (bytes d.samplerate d.channels) 0 d.channels d.handlers >>= λ hs.
      ret (record d {
        wrapped = W.seek d.wrapped (before d.factor index);
        handlers = hs;
        frame_index = index;
        pcm_buffer = [];
      })

  unfoldable pub flush : Normaliser → Run Normaliser
  unfolding drain_handlers
  flush d =
      drain_handlers d.factor (bytes d.samplerate d.channels) 0 d.channels d.handlers >>= λ hs.
      ret (record d { wrapped = W.flush d.wrapped; handlers = hs; pcm_buffer = [] })

  -- `UNKNOWN_FRAMES` is -1.
  unfoldable pub frames_of : Double → ℤ → ℤ
  frames_of factor (negsuc zero) = negsuc zero
  frames_of factor (negsuc (suc n)) = scaled factor (negsuc (suc n))
  frames_of factor (pos n) = scaled factor (pos n)

  unfoldable pub frames : Normaliser → ℤ
  unfolding frames_of
  frames d = frames_of d.factor (W.frames d.wrapped)

  unfoldable pub eof : Normaliser → Bool
  eof d = W.eof d.wrapped && length d.pcm_buffer == 0

  -- The samples of a channel, of `n` frames from `j` on.
  unfoldable pub column : ℕ → ℕ → ℕ → ℕ → List Float → List Float
  column channels i j zero xs = []
  column channels i j (suc n) xs =
      get_or xs (j * channels + i) floats.silence ∷ column channels i (j + 1) n xs

  unfoldable pub put_column : ℕ → ℕ → ℕ → List Float → List Float → List Float
  put_column channels i j [] output = output
  put_column channels i j (y ∷ ys) output =
      put_column channels i (j + 1) ys (set output (j * channels + i) y)

  -- The resamplers, the number of frames, and the output, as the loop over the channels changes
  -- them.
  pub record Resampled : Type 0 where
    pub handlers : List (Option lib.Handle)
    pub new_frames : ℕ
    pub output : List Float

  unfoldable pub resample_channel :
      Normaliser → ℕ → List Float → ℕ → Option lib.Handle → Resampled → Resampled
  unfolding column put_column
  resample_channel d n samples i none r = record r {
    output =
        put_column d.channels i 0 (column d.channels i 0 (min r.new_frames n) samples) r.output;
  }
  resample_channel d n samples i (some h) r =
      let (ys, h') =
        lib.process h d.factor (column d.channels i 0 n samples) (W.eof d.wrapped) r.new_frames in
      let new_frames' = min (length ys) r.new_frames in
      record {
        handlers = set r.handlers i (some h');
        new_frames = new_frames';
        output = put_column d.channels i 0 (take new_frames' ys) r.output;
      }

  -- The loop, over `left` channels from `i` on.
  unfoldable pub resample_channels : Normaliser → ℕ → List Float → ℕ → ℕ → Resampled → Run Resampled
  unfolding resample_channel
  resample_channels d n samples i zero r = ret r
  resample_channels d n samples i (suc left) r = or_fault (get_elem? r.handlers i) >>= λ h.
      resample_channels d n samples (i + 1) left (resample_channel d n samples i h r)

  -- The rest of the callback: what is cached goes before what was resampled, and what is left over
  -- behind what stays cached. The number of cached samples is bounded by a number of frames.
  unfoldable pub finish : ℕ → Normaliser → Resampled → Run (Decoded Float × Normaliser)
  finish wanted d r =
      let room = wanted * d.channels in
      let cached = min (length d.pcm_buffer) r.new_frames in
      let used = min (room - cached) (length r.output) in
      let out = take cached d.pcm_buffer ++ take used r.output in
      let left = drop cached d.pcm_buffer ++ drop used r.output in
      let sent = (used + cached) / d.channels in
      if ltb room cached || d.channels == 0
      then fault
      else if sent == 1 && not (wanted == 1)
      then ret (
        record { frame_index = d.frame_index; frame_count = 0; samples = out },
        record d { handlers = r.handlers; pcm_buffer = [] },
      )
      else ret (
        record { frame_index = d.frame_index; frame_count = sent; samples = out },
        record d { handlers = r.handlers; pcm_buffer = left; frame_index = d.frame_index + sent },
      )

  -- The callback from the mixed samples of `n` frames on. Where the number of frames stays the
  -- same, the copy reads a frame more than there is. `left_over` is what the memory holds that the
  -- output is given.
  unfoldable pub on_mixed : ℕ → Normaliser → ℕ → List Float → Run (Decoded Float × Normaliser)
  unfolding resample_channels finish
  on_mixed wanted d n samples =
      let new_frames = resampled d.factor n in
      let start : Resampled = record {
        handlers = d.handlers;
        new_frames = new_frames;
        output = floats.left_over (new_frames * d.channels);
      } in
      if is_one d.factor
      then ret (record { frame_index = d.frame_index; frame_count = n; samples = samples }, d)
      else if new_frames == n + 1
      then fault
      else resample_channels d n samples 0 d.channels start >>= finish wanted d

  -- The callback of the wrapped decoder: the call of the client's callback, with the samples that
  -- it wrote.
  unfoldable pub on_samples : ℕ → Normaliser → Decoded Float → Run (Decoded Float × Normaliser)
  unfolding on_mixed
  on_samples wanted d call =
      mix floats d.channels (W.channels d.wrapped) call.frame_count call.samples
      >>= on_mixed wanted d call.frame_count

  unfoldable pub on_calls :
      ℕ → Normaliser → List (Decoded Float × W.State) → Run (List (Decoded Float) × Normaliser)
  unfolding on_samples
  on_calls wanted d [] = ret ([], d)
  on_calls wanted d ((call, w) ∷ calls) = on_samples wanted (record d { wrapped = w }) call >>= λ r.
      on_calls wanted r.1 calls >>= λ rest. ret (r.0 ∷ rest.0, rest.1)

  -- The calls of the client's callback, and the decoder after them.
  unfoldable pub decode : ℕ → Normaliser → Run (List (Decoded Float) × Normaliser)
  unfolding on_calls
  decode wanted d =
      let samples = wanted * d.channels in
      let (calls, w) =
        W.decode d.wrapped (if is_one d.factor then wanted else requested d.factor wanted) in
      if leb samples (length d.pcm_buffer)
      then ret (
        record {
          frame_index = d.frame_index;
          frame_count = wanted;
          samples = take samples d.pcm_buffer;
        }
            ∷ [],
        record d { frame_index = d.frame_index + wanted; pcm_buffer = drop samples d.pcm_buffer },
      )
      else on_calls wanted d calls >>= λ r. ret (r.0, record r.1 { wrapped = w })
