-- ===== src/Flac.antt =====
-- source/DecoderFLACImplementation.cpp: libFLAC, which is a parameter, and a queue of samples. Its
-- callbacks into the data provider stand in Callbacks, and are part of that parameter's state here;
-- the mutexes make each operation one step. Frame indexes and numbers of frames are not negative.
mod Blocks
mod Callbacks
mod Queue
mod Tests
use nfdecoder.Base.{
  ℕ, zero, suc, ◌+◌, ◌-◌, ◌*◌, ◌/◌, ◌%◌, ◌^◌, ◌==◌, ltb, leb, min, if◌then◌else◌, Bool, true, false,
  Option, none, some, List, [], ◌∷◌, ◌++◌, take, drop, length,
}
use nfdecoder.Base.Int.{ℤ, pos, negsuc}
use nfdecoder.Base.Text.{Text, codes}
use nfdecoder.Base.Event.{Event, error, done}
use nfdecoder.Base.Run.{Run, ret, fault, unfinished, ◌>>=◌}

-- The arguments of a write callback: `buffer[channel][i]`, and the block size of the frame.
pub record Block : Type 0 where
  pub blocksize : ℕ
  pub buffer : ℕ → ℕ → ℤ

-- The stream information of the metadata callback.
pub record StreamInfo : Type 0 where
  pub sample_rate : ℕ
  pub channels : ℕ
  pub total_samples : ℕ

-- libFLAC, with the provider that it reads. `init_stream` gives its status, 0 for success;
-- processing gives its result and what the callbacks are called with.
pub record Libflac : Type 1 where
  pub Handle : Type 0
  pub init_stream : Handle → ℕ × Handle
  pub process_until_end_of_metadata : Handle → Bool × List StreamInfo × Handle
  pub process_single : Handle → Bool × List Block × Handle
  pub get_state : Handle → ℕ
  pub seek_absolute : Handle → ℕ → List Block × Handle
  pub flush : Handle → Handle

-- A conversion to `FLAC__int16`.
abbrev pub to_i16 : ℤ → ℤ
to_i16 (pos n) =
    if ltb (n % 2 ^ 16) (2 ^ 15) then pos (n % 2 ^ 16) else negsuc (2 ^ 16 - 1 - n % 2 ^ 16)
to_i16 (negsuc n) =
    if ltb (n % 2 ^ 16) (2 ^ 15) then negsuc (n % 2 ^ 16) else pos (2 ^ 16 - 1 - n % 2 ^ 16)

abbrev pub domain : Text
domain = codes "com.nativeformat.decoder.flac"

-- `static_cast<float>` and the division of floats.
pub record Floats : Type 1 where
  pub Float : Type 0
  pub ratio : ℤ → ℤ → Float

module _ (floats : Floats) (flac : Libflac) where
  open floats use {Float, ratio}
  open flac use {
    Handle, init_stream, process_until_end_of_metadata, process_single, get_state, seek_absolute,
  }

  pub record Flac : Type 0 where
    pub handle : Handle
    pub channels : ℕ
    pub samplerate : ℕ
    pub frame_index : ℕ
    pub frames : ℕ
    pub samples : List Float

  pub create : Handle → Flac
  create handle = record {
    handle = handle;
    channels = 0;
    samplerate = 0;
    frame_index = 0;
    frames = 0;
    samples = [];
  }

  -- The loops of `flac_write`: the samples of each frame in turn, channel by channel.
  unfoldable pub frame_samples : Block → ℕ → ℕ → ℕ → List Float
  frame_samples block i channel zero = []
  frame_samples block i channel (suc n) =
      ratio (to_i16 (block.buffer channel i)) (pos 32767) ∷ frame_samples block i (channel + 1) n

  unfoldable pub block_samples : Block → ℕ → ℕ → ℕ → List Float
  unfolding frame_samples
  block_samples block channels i zero = []
  block_samples block channels i (suc n) =
      frame_samples block i 0 channels ++ block_samples block channels (i + 1) n

  unfoldable pub flac_write : Flac → Block → Flac
  unfolding block_samples
  flac_write d block = record d {
    samples = d.samples ++ block_samples block d.channels 0 block.blocksize;
  }

  unfoldable pub write_all : Flac → List Block → Flac
  unfolding flac_write
  write_all d [] = d
  write_all d (b ∷ bs) = write_all (flac_write d b) bs

  unfoldable pub flac_metadata : Flac → StreamInfo → Flac
  flac_metadata d info = record d {
    samplerate = info.sample_rate;
    channels = info.channels;
    frames = info.total_samples;
  }

  unfoldable pub take_metadata : Flac → List StreamInfo → Flac
  unfolding flac_metadata
  take_metadata d [] = d
  take_metadata d (i ∷ is) = take_metadata (flac_metadata d i) is

  -- The calls of the callbacks, in order, and the decoder after them.
  unfoldable pub load : Flac → List (Event Bool) × Flac
  unfolding take_metadata
  load d =
      let (status, opened) = init_stream d.handle in
      if not_ok status
      then (error domain status ∷ done false ∷ [], record d { handle = opened })
      else let (success, infos, handle') = process_until_end_of_metadata opened in
        let d' = record (take_metadata d infos) { handle = handle' } in
        if success
        then (done true ∷ [], d')
        else (error domain (get_state handle') ∷ done false ∷ [], d')
    where
      not_ok : ℕ → Bool
      not_ok s = if s == 0 then false else true

  -- Where libFLAC writes a block while it seeks, `flac_write` waits for the mutex that `seek`
  -- holds, and does not return.
  unfoldable pub seek : Flac → ℕ → Run Flac
  seek d frame_index =
      let (blocks, handle') = seek_absolute d.handle frame_index in
      elim blocks [
        | [] ↦ ret (record d { handle = handle'; samples = []; frame_index = frame_index })
        | b ∷ bs ↦ unfinished
      ]

  unfoldable pub flush : Flac → Flac
  flush d = record d { handle = flac.flush d.handle; samples = [] }

  -- A call of the decode callback: the index, the number of frames, and what stands at the pointer.
  pub record Decoded : Type 0 where
    pub frame_index : ℕ
    pub frame_count : ℕ
    pub samples : List Float

  -- The `while` of `decode`, one call of libFLAC for each unit of fuel: `frame_count`, and the
  -- decoder. The count is not taken again after a call that fails.
  unfoldable pub fill : ℕ → ℕ → Flac → Run (ℕ × Flac)
  unfolding write_all
  fill zero frames d =
      if ltb (length d.samples / d.channels) frames
      then unfinished
      else ret (length d.samples / d.channels, d)
  fill (suc fuel) frames d =
      let (more, blocks, handle') = process_single d.handle in
      let rest = fill fuel frames (record (write_all d blocks) { handle = handle' }) in
      if ltb (length d.samples / d.channels) frames
      then (if more
          then rest
          else ret
              (length d.samples / d.channels, record (write_all d blocks) { handle = handle' }))
      else ret (length d.samples / d.channels, d)

  -- The callback, and what is erased after it.
  unfoldable pub deliver : ℕ → ℕ → Flac → Decoded × Flac
  deliver frames frame_count d =
      let n = min frame_count frames in
      (
        record { frame_index = d.frame_index; frame_count = n; samples = d.samples },
        record d { samples = drop (n * d.channels) d.samples; frame_index = d.frame_index + n },
      )

  -- Without channels the number of frames is a division by zero.
  unfoldable pub decode : ℕ → ℕ → Flac → Run (Decoded × Flac)
  unfolding fill deliver
  decode fuel frames d =
      if d.channels == 0 then fault else fill fuel frames d >>= λ r. ret (deliver frames r.0 r.1)
