-- ===== src/Normaliser/Order.antt =====
-- The order of the samples that are cached and those that were resampled.
use nfdecoder.Base.{
  ℕ, ◌+◌, ◌-◌, ◌*◌, ◌/◌, ◌≡◌, ◌==◌, min, if◌then◌else◌, ◌&&◌, not, [], ◌++◌, length, take, drop,
}
use nfdecoder.Base.Frames.{Decoded}
use nfdecoder.Base.Run.{ret}
use nfdecoder.Normaliser.Mixing.{Floats}
use nfdecoder.Normaliser.{Doubles, Libresample, Wrapped, Normaliser, Resampled, finish}

module _ {F : Type 0} (floats : Floats F) (doubles : Doubles) (lib : Libresample F doubles.Double)
    (W : Wrapped F doubles.Double) where
  -- The frames that are delivered: the cached samples and the resampled ones, as far as there is
  -- room.
  abbrev pub sent_frames : ℕ → Normaliser floats doubles lib W → Resampled floats doubles lib W → ℕ
  sent_frames wanted d r =
      (min (wanted * d.channels - length d.pcm_buffer) (length r.output) + length d.pcm_buffer)
      / d.channels

  -- Every sample is delivered or cached in order, and the index moves by the frames that are
  -- delivered.
  abbrev pub Keeps :
      ℕ
      → Normaliser floats doubles lib W
      → Resampled floats doubles lib W
      → Decoded F
      → Normaliser floats doubles lib W
      → Type 0
  Keeps wanted d r out d' =
      (out.samples ++ d'.pcm_buffer ≡ d.pcm_buffer ++ r.output)
      × (out.frame_count ≡ sent_frames wanted d r)
      × (d'.frame_index ≡ d.frame_index + out.frame_count)
      × (sent_frames wanted d r ≡ 1 → wanted ≡ 1)

  -- Nothing is delivered, nor cached any longer.
  abbrev pub Drops :
      ℕ
      → Normaliser floats doubles lib W
      → Resampled floats doubles lib W
      → Decoded F
      → Normaliser floats doubles lib W
      → Type 0
  Drops wanted d r out d' =
      (out.frame_count ≡ 0)
      × (d'.pcm_buffer ≡ [])
      × (d'.frame_index ≡ d.frame_index)
      × (sent_frames wanted d r ≡ 1)
      × ¬ (wanted ≡ 1)

  abbrev Cut : ℕ → Normaliser floats doubles lib W → Resampled floats doubles lib W → Type 0
  Cut wanted d r = finish floats doubles lib W wanted d r ≡ (
      let room = wanted * d.channels in
      let used = min (room - length d.pcm_buffer) (length r.output) in
      let sent = sent_frames wanted d r in
      let out = d.pcm_buffer ++ take used r.output in
      if (sent == 1) && not (wanted == 1)
      then ret (
        record { frame_index = d.frame_index; frame_count = 0; samples = out },
        record d { handlers = r.handlers; pcm_buffer = [] },
      )
      else ret (
        record { frame_index = d.frame_index; frame_count = sent; samples = out },
        record d {
          handlers = r.handlers;
          pcm_buffer = drop used r.output;
          frame_index = d.frame_index + sent;
        },
      ))
