-- ===== src/Android/Tests.antt =====
-- Examples for the decoder of Android: a Java object whose packets hold two frames of two channels.
use nfdecoder.Base.{
  ℕ, ◌+◌, ◌*◌, ◌≡◌, refl, arith, min, true, false, none, some, [], ◌∷◌, ◌++◌, length,
}
use nfdecoder.Base.Frames.{Decoded}
use nfdecoder.Base.Int.{pos}
use nfdecoder.Base.Run.{ret}
use nfdecoder.Provider.{DataProvider}
use nfdecoder.Android.{Java, Machine, Android, finished}
use nfdecoder.Android.Buffer.{put_into_float_buffer}
use nfdecoder.Android.Decode.{decode}
use nfdecoder.Android.Deliver.{decode-offers}
use nfdecoder.Android.Queue.{put_into_float_buffer-waiting}
use nfdecoder.Android.Room.{IsValid, waiting}

abbrev empty : DataProvider
empty = record {
  State = ℕ;
  read = λ s n k. some (record { value = 0; bytes = []; next = s });
  seek = λ s z w. (pos 0, s);
  tell = λ s. pos s;
  eof = λ s. true;
  size = λ s. pos 0;
}

abbrev java : Java
java = record {
  State = Unit {0};
  attaches = true;
  has_constructor = true;
  new_object = finished (some tt);
  global_ref = λ o. some o;
  get_last_error = λ o. none;
  samplerate = λ o. pos 44100;
  number_of_channels = λ o. 2;
  duration_frames = λ o. pos 100;
  new_direct_byte_buffer = true;
  decode_one_packet = λ o. finished (pos 8, 1 ∷ 2 ∷ 3 ∷ 4 ∷ [], o);
  seek = λ o n. finished (true, o);
}

abbrev machine : Machine ℕ
machine = record { allocates = λ n. true; unwritten = 0; scaled = λ i. i }

-- Three frames wait at the end of a small buffer.
abbrev buffered : Android java machine empty
buffered = record {
  provider = 0;
  java_decoder = some tt;
  float_buffer = 0 ∷ 0 ∷ 11 ∷ 12 ∷ 21 ∷ 22 ∷ 31 ∷ 32 ∷ [];
  samplerate = pos 44100;
  duration_frames = pos 100;
  channels = 2;
  buffer_capacity_frames = 4;
  buffer_read_pos_frames = 1;
  buffer_write_pos_frames = 4;
  num_frames_in_buffer = 3;
  current_frame_index = 1;
  eof = false;
}

abbrev buffered_is_valid : IsValid java machine empty buffered
buffered_is_valid = record { between = refl; inside = omega arith; sized = refl }

put_into_float_buffer-waiting_example :
    (d' : Android java machine empty) × (put_into_float_buffer java machine empty 8
        (1 ∷ 2 ∷ 3 ∷ 4 ∷ [])
        buffered
      ≡ ret (true, d'))
    × IsValid java machine empty d'
    × (waiting java machine empty d' ≡ (11 ∷ 12 ∷ 21 ∷ 22 ∷ 31 ∷ 32 ∷ []) ++ (1 ∷ 2 ∷ 3 ∷ 4 ∷ []))
put_into_float_buffer-waiting_example =
    put_into_float_buffer-waiting java machine empty 8 (1 ∷ 2 ∷ 3 ∷ 4 ∷ []) buffered (λ n. refl)
      buffered_is_valid refl (omega arith)

decode-offers_example :
    (out : Decoded ℕ) × (d' : Android java machine empty) × (decode java machine empty 2 5 buffered
      ≡ ret (out ∷ [], d'))
    × (out.frame_count ≡ min 3 5)
    × (out.frame_index ≡ 1 + out.frame_count)
    × (length out.samples ≡ out.frame_count * 2)
    × (out.samples ++ waiting java machine empty d' ≡ 11 ∷ 12 ∷ 21 ∷ 22 ∷ 31 ∷ 32 ∷ [])
decode-offers_example =
    decode-offers java machine empty 5 buffered buffered_is_valid refl (omega arith) (omega arith)
