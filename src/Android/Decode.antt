-- ===== src/Android/Decode.antt =====
-- source/DecoderAndroidImplementation.cpp: decode.
use nfdecoder.Base.{
  ℕ, zero, suc, ◌+◌, ◌-◌, ◌*◌, ◌^◌, ◌==◌, ltb, min, if◌then◌else◌, Bool, true, false, ◌||◌, not,
  none, some, List, [], ◌∷◌, ◌++◌, take, drop,
}
use nfdecoder.Base.Frames.{Decoded}
use nfdecoder.Base.Int.{ℤ, pos, negsuc}
use nfdecoder.Base.Run.{Run, ret, unfinished, or_fault, ◌>>=◌}
use nfdecoder.Provider.{DataProvider}
use nfdecoder.Android.{Java, Machine, Android, run_jni}
use nfdecoder.Android.Buffer.{put_into_float_buffer}

module _ {Float : Type 0} (java : Java) (machine : Machine Float) (P : DataProvider) where
  -- The locals of `decode`, the decoder included; `frames` is what is left to deliver.
  pub record Decoding : Type 0 where
    pub decoder : Android java machine P
    pub frames : ℕ
    pub frames_read : ℕ
    pub output : List Float

  -- The frames that the buffer can offer are delivered.
  unfoldable pub offer : ℕ → Decoding → Decoding
  offer n l =
      let d = l.decoder in
      record {
        decoder = record d {
          current_frame_index = d.current_frame_index + n;
          buffer_read_pos_frames = d.buffer_read_pos_frames + n;
          num_frames_in_buffer = d.num_frames_in_buffer - n;
        };
        frames = l.frames - n;
        frames_read = l.frames_read + n;
        output =
            take (l.frames_read * d.channels) l.output
            ++ take (n * d.channels) (drop (d.buffer_read_pos_frames * d.channels) d.float_buffer);
      }

  -- How a round ends: the loop goes on or is left, or the whole operation returns.
  pub data Next : Type 0 where
    continues breaks returns : Next

  -- The bytes that the Java object reports: none for an error, a negative number at the end.
  unfoldable pub take_packet :
      ℤ → List ℕ → java.State → Android java machine P → Run (Next × Android java machine P)
  unfolding put_into_float_buffer
  take_packet (pos zero) ints object d = elim (java.get_last_error object) [
    | some _ ↦ ret (returns, d)
    | none ↦ ret (breaks, d)
  ]
  take_packet (pos (suc n)) ints object d =
      put_into_float_buffer java machine P (suc n) ints (record d { eof = false }) >>= λ r.
      ret (if r.0 then continues else breaks, r.1)
  take_packet (negsuc n) ints object d =
      let put = put_into_float_buffer java machine P (suc n) ints (record d { eof = true }) >>= λ r.
      ret (if r.0 then continues else breaks, r.1) in
      if suc n == 2 ^ 31 then ret (breaks, record d { eof = true }) else put

  -- A packet of the Java object.
  unfoldable pub decode_packet : Android java machine P → Run (Next × Android java machine P)
  unfolding run_jni take_packet
  decode_packet d =
      let packet = or_fault d.java_decoder >>= λ object.
      run_jni java machine P (java.decode_one_packet object) d.provider >>= λ r.
      let ((bytes_read, ints, object'), provider') = r in
      take_packet bytes_read ints object'
        (record d { provider = provider'; java_decoder = some object' }) in
      if d.eof || not java.attaches || not java.new_direct_byte_buffer
      then ret (breaks, d)
      else packet

  -- The loop of `decode`, one round for each unit of fuel.
  unfoldable pub decode_frames : ℕ → Decoding → Run (Bool × Decoding)
  unfolding offer decode_packet
  decode_frames zero l = if ltb l.frames_read l.frames then unfinished else ret (true, l)
  decode_frames (suc fuel) l =
      let n = min l.decoder.num_frames_in_buffer l.frames in
      let offered = decode_frames fuel (offer n l) in
      let decoded = decode_packet l.decoder >>= λ r.
      let l' : Decoding = record l { decoder = r.1 } in
      let rest = decode_frames fuel l' in
      elim r.0 [ continues ↦ rest | breaks ↦ ret (true, l') | returns ↦ ret (false, l') ] in
      if ltb l.frames_read l.frames then (if ltb 0 n then offered else decoded) else ret (true, l)

  -- The call of the callback, if there is one, and the decoder after it.
  unfoldable pub decode :
      ℕ → ℕ → Android java machine P → Run (List (Decoded Float) × Android java machine P)
  unfolding decode_frames
  decode fuel frames d =
      let called : Bool × Decoding → List (Decoded Float) × Android java machine P = λ r.
        let call : Decoded Float = record {
          frame_index = r.1.decoder.current_frame_index;
          frame_count = r.1.frames_read;
          samples = r.1.output;
        } in
        (if r.0 then call ∷ [] else [], r.1.decoder) in
      let nothing : Decoded Float = record {
        frame_index = d.current_frame_index;
        frame_count = 0;
        samples = [];
      } in
      let decoded =
        decode_frames fuel (record { decoder = d; frames = frames; frames_read = 0; output = [] })
        >>= λ r. ret (called r) in
      if machine.allocates (frames * d.channels * 4) then decoded else ret (nothing ∷ [], d)
