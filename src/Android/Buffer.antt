-- ===== src/Android/Buffer.antt =====
-- source/DecoderAndroidImplementation.cpp: the float buffer.
use nfdecoder.Base.{
  ℕ, ◌+◌, ◌-◌, ◌*◌, ◌/◌, ◌==◌, ltb, leb, if◌then◌else◌, Bool, true, false, List, ◌++◌, map, take,
  drop, length, replicate,
}
use nfdecoder.Base.Run.{Run, ret, fault}
use nfdecoder.Provider.{DataProvider}
use nfdecoder.Android.{Java, Machine, Android, write_at}

module _ {Float : Type 0} (java : Java) (machine : Machine Float) (P : DataProvider) where
  -- Room for some frames: the frames in the buffer are moved to its start, and where that is not
  -- enough it grows. False is out of memory.
  unfoldable pub make_room : ℕ → Android java machine P → Bool × Android java machine P
  make_room frames d =
      let kept = d.num_frames_in_buffer * d.channels in
      let moved =
        if ltb 0 d.num_frames_in_buffer
        then write_at 0 (take kept (drop (d.buffer_read_pos_frames * d.channels) d.float_buffer))
            d.float_buffer
        else d.float_buffer in
      let d1 : Android java machine P = record d {
        float_buffer = moved;
        buffer_read_pos_frames = 0;
        buffer_write_pos_frames = d.num_frames_in_buffer;
      } in
      let capacity = d.buffer_capacity_frames + frames * 2 in
      if leb frames (d.buffer_capacity_frames - d.buffer_write_pos_frames)
      then (true, d)
      else if leb frames (d.buffer_capacity_frames - d.num_frames_in_buffer)
      then (true, d1)
      else if machine.allocates (capacity * d.channels * 4)
      then (
        true,
        record d1 {
          float_buffer = moved ++ replicate (frames * 2 * d.channels) machine.unwritten;
          buffer_capacity_frames = capacity;
        },
      )
      else (false, d1)

  -- Some frames are converted, behind those that are in the buffer.
  unfoldable pub store : ℕ → List ℕ → Android java machine P → Android java machine P
  store frames ints d = record d {
    float_buffer =
        write_at (d.buffer_write_pos_frames * d.channels)
          (map machine.scaled (take (frames * d.channels) ints)) d.float_buffer;
    buffer_write_pos_frames = d.buffer_write_pos_frames + frames;
    num_frames_in_buffer = d.num_frames_in_buffer + frames;
  }

  -- `putIntoFloatBuffer` of so many bytes of what the Java object wrote. False is out of memory.
  unfoldable pub put_into_float_buffer :
      ℕ → List ℕ → Android java machine P → Run (Bool × Android java machine P)
  unfolding make_room store
  put_into_float_buffer bytes_read ints d =
      let frames_read = bytes_read / (2 * d.channels) in
      let (room, d') = make_room frames_read d in
      if d.channels == 0
      then fault
      else if ltb (length ints) (frames_read * d.channels)
      then fault
      else if room
      then ret (true, store frames_read ints d')
      else ret (false, d')
