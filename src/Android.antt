-- ===== src/Android.antt =====
-- source/DecoderAndroidImplementation.cpp: the decoder on Android's media classes, over any data
-- provider. The Java object that decodes packets is a parameter, and so are the conversion of
-- samples and whether memory can be allocated. Frame indexes and numbers of frames are not
-- negative, and the members that are of type `int` hold numbers that fit one.
mod Buffer
mod Decode
mod Slices
mod Room
mod Queue
mod Deliver
mod Launch
mod Tests
use nfdecoder.Base.{
  ℕ, zero, suc, ◌+◌, ◌-◌, ◌*◌, ◌/◌, ◌^◌, ◌==◌, ltb, leb, min, if◌then◌else◌, Bool, true, false,
  ◌||◌, not, Option, none, some, List, [], ◌∷◌, ◌++◌, map, take, drop, length, replicate,
}
use nfdecoder.Base.Event.{Event, error, done}
use nfdecoder.Base.Frames.{Decoded}
use nfdecoder.Base.Int.{ℤ, pos, negsuc, ◌==ℤ◌}
use nfdecoder.Base.Run.{Run, ret, fault, unfinished, or_fault, ◌>>=◌}
use nfdecoder.Base.Text.{Text, codes}
use nfdecoder.Provider.{DataProvider, Reading, seek_set}

abbrev pub domain : Text
domain = codes "com.nativeformat.decoder.android"

-- `JAVABUFFERSIZEBYTES`
abbrev pub java_buffer_size_bytes : ℕ
java_buffer_size_bytes = 512 * 1024

-- A call of the Java object: it ends, or it calls `nativeReadAt` for so many bytes at a position,
-- or `nativeGetSize`, and goes on with what that gives.
pub data Jni (A : Type 0) : Type 0 where
  finished : A → Jni A
  reading_at : ℕ → ℕ → (ℕ × List ℕ → Jni A) → Jni A
  asking_size : (ℤ → Jni A) → Jni A

-- The Java side. `attaches` says whether there is a Java environment, `has_constructor` and
-- `global_ref` whether the object can be made and kept. `decode_one_packet` gives its number of
-- bytes, and the samples that it wrote, as 16-bit patterns.
pub record Java : Type 1 where
  pub State : Type 0
  pub attaches : Bool
  pub has_constructor : Bool
  pub new_object : Jni (Option State)
  pub global_ref : State → Option State
  pub get_last_error : State → Option Text
  pub samplerate : State → ℤ
  pub number_of_channels : State → ℕ
  pub duration_frames : State → ℤ
  pub new_direct_byte_buffer : Bool
  pub decode_one_packet : State → Jni (ℤ × List ℕ × State)
  pub seek : State → ℕ → Jni (Bool × State)

-- Memory and samples: whether so many bytes can be allocated, what stands in memory that was not
-- written, and a sample of 16 bits as a float.
pub record Machine (Float : Type 0) : Type 0 where
  pub allocates : ℕ → Bool
  pub unwritten : Float
  pub scaled : ℕ → Float

-- `memmove` and `memcpy` of samples to a position of a buffer.
abbrev pub write_at {ℓ} : {A : Type ℓ} → ℕ → List A → List A → List A
write_at position xs buffer = take position buffer ++ (xs ++ drop (position + length xs) buffer)

module _ {Float : Type 0} (java : Java) (machine : Machine Float) (P : DataProvider) where
  -- `java_decoder` and the float buffer are none where they are null.
  pub record Android : Type 0 where
    pub provider : P.State
    pub java_decoder : Option java.State
    pub float_buffer : List Float
    pub samplerate : ℤ
    pub duration_frames : ℤ
    pub channels : ℕ
    pub buffer_capacity_frames : ℕ
    pub buffer_read_pos_frames : ℕ
    pub buffer_write_pos_frames : ℕ
    pub num_frames_in_buffer : ℕ
    pub current_frame_index : ℕ
    pub eof : Bool

  pub create : P.State → Android
  create provider = record {
    provider = provider;
    java_decoder = none;
    float_buffer = [];
    samplerate = pos 0;
    duration_frames = pos 0;
    channels = 0;
    buffer_capacity_frames = 4096;
    buffer_read_pos_frames = 0;
    buffer_write_pos_frames = 0;
    num_frames_in_buffer = 0;
    current_frame_index = 0;
    eof = false;
  }

  -- `nativeReadAt`: the number of bytes, the bytes, and the provider after it.
  unfoldable pub native_read_at : ℕ → ℕ → P.State → Run ((ℕ × List ℕ) × P.State)
  native_read_at position size s =
      let there = P.tell s ==ℤ pos position in
      let s' = if there then s else (P.seek s (pos position) seek_set).1 in
      or_fault (P.read s' 1 size) >>= λ r. ret ((r.value, r.bytes), r.next)

  -- A call of the Java object with the native methods that it calls.
  unfoldable pub run_jni : {A : Type 0} → Jni A → P.State → Run (A × P.State)
  unfolding native_read_at
  run_jni (finished a) s = ret (a, s)
  run_jni (reading_at position size k) s =
      native_read_at position size s >>= λ r. run_jni (k r.0) r.1
  run_jni (asking_size k) s = run_jni (k (P.size s)) s

  -- `createJavaDecoder`: an error, none where there is none, and the decoder after it.
  unfoldable pub create_java_decoder : Android → Run (Option Text × Android)
  unfolding run_jni
  create_java_decoder d =
      let made = run_jni java.new_object d.provider >>= λ r.
      let (object, provider') = r in ret (kept object (record d { provider = provider' })) in
      if not java.attaches
      then ret (some (codes "Can't attach current thread to Java."), d)
      else if not java.has_constructor
      then ret (some (codes "Can't get the Java Decoder constructor."), d)
      else made
    where
      kept : Option java.State → Android → Option Text × Android
      kept none d =
          (some (codes "Java Decoder constructor failed."), record d { java_decoder = none })
      kept (some object) d = (
        elim (java.global_ref object) [
          | none ↦ some (codes "Can't make the Decoder instance global.")
          | some _ ↦ none
        ],
        record d { java_decoder = java.global_ref object },
      )

  abbrev pub refused : Text → Android → List (Event Bool) × Android
  refused text d = (error text 0 ∷ done false ∷ [], d)

  -- The rest of `load`, once there is an object.
  unfoldable pub load_object : java.State → Android → List (Event Bool) × Android
  load_object object d =
      let channels = java.number_of_channels object in
      let d1 : Android = record d {
        samplerate = java.samplerate object;
        channels = channels;
        duration_frames = java.duration_frames object;
      } in
      let d2 : Android = record d1 {
        float_buffer = replicate (channels * d.buffer_capacity_frames) machine.unwritten;
      } in
      elim (java.get_last_error object) [
        | some text ↦ refused text d
        | none ↦
            if not (machine.allocates (channels * 4 * d.buffer_capacity_frames))
            then refused (codes "Out of memory.") d1
            else if not (machine.allocates java_buffer_size_bytes)
            then refused (codes "Out of memory.") d2
            else (done true ∷ [], d2)
      ]

  -- The calls of the callbacks, and the decoder after them.
  unfoldable pub load : Android → Run (List (Event Bool) × Android)
  unfolding create_java_decoder load_object
  load d = create_java_decoder d >>= λ r. answer r.0 r.1
    where
      answer : Option Text → Android → Run (List (Event Bool) × Android)
      answer (some text) d = ret (refused text d)
      answer none d = or_fault d.java_decoder >>= λ object. ret (load_object object d)

  abbrev pub emptied : Android → Android
  emptied d = record d {
    buffer_read_pos_frames = 0;
    buffer_write_pos_frames = 0;
    num_frames_in_buffer = 0;
    eof = false;
  }

  unfoldable pub seek : ℕ → Android → Run Android
  unfolding run_jni
  seek frame_index d =
      let sought = or_fault d.java_decoder >>= λ object.
      run_jni (java.seek object frame_index) d.provider >>= λ r.
      let ((answer, object'), provider') = r in
      let d' : Android = record d { provider = provider'; java_decoder = some object' } in
      ret (if answer then emptied (record d' { current_frame_index = frame_index }) else d') in
      if (d.current_frame_index == frame_index) || not java.attaches then ret d else sought

  unfoldable pub flush : Android → Run Android
  unfolding run_jni
  flush d =
      let flushed = or_fault d.java_decoder >>= λ object.
      run_jni (java.seek object d.current_frame_index) d.provider >>= λ r.
      let ((answer, object'), provider') = r in
      ret (emptied (record d { provider = provider'; java_decoder = some object' })) in
      if java.attaches then flushed else ret d
