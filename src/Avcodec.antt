-- ===== src/Avcodec.antt =====
-- source/DecoderAVCodecImplementation.cpp: the decoder on libav, over any data provider. The calls
-- of libav, the arithmetic of doubles and the decrypter are parameters. What runs on other threads
-- is taken as run in place, and the mutex makes each operation one step. Frame indexes and numbers
-- of frames are not negative.
mod Endians
mod Search
mod Index
mod Blocks
mod Calls
mod Order
mod Reports
mod Vectors
mod Ends
mod Tests
mod Decode
mod Load
use mathlib.Core.Option
use nfdecoder.Base.{
  ℕ, zero, suc, ◌+◌, ◌-◌, ◌*◌, ◌/◌, ◌%◌, ◌^◌, ◌==◌, ltb, leb, min, if◌then◌else◌, Bool, true, false,
  ◌&&◌, ◌||◌, not, Option, none, some, List, [], ◌∷◌, ◌++◌, take, drop, length, replicate,
}
use nfdecoder.Base.Event.{Event, error, done}
use nfdecoder.Base.Frames.{Decoded, interleave}
use nfdecoder.Base.Int.{
  ℤ, pos, negsuc, to_u64, ◌-ℤ◌, ◌==ℤ◌, ◌/ℤ◌, max_ℤ, failed, is_negative, code_of,
}
use nfdecoder.Base.Run.{Run, ret, fault, unfinished, or_fault, ◌>>=◌}
use nfdecoder.Base.Text.{Text, codes}
use nfdecoder.Provider.{DataProvider, Reading, Whence, seek_set}
use nfdecoder.Avcodec.Search.{Boxes, Scan, search_boxes, vector_of}

abbrev pub domain : Text
domain = codes "com.nativeformat.decoder.avcodec"

-- `ErrorCodeCouldNotDecodeHeader`
abbrev pub could_not_decode_header : ℕ
could_not_decode_header = 0

-- A call of libav that reads the file: it ends, or it calls the read callback for so many bytes and
-- goes on with what that gives, or it calls the seek callback.
pub data Io (A : Type 0) : Type 0 where
  finished : A → Io A
  reading : ℕ → (ℕ × List ℕ → Io A) → Io A
  seeking : ℤ → Whence → (ℤ → Io A) → Io A
  asking_size : (ℤ → Io A) → Io A

-- What the code reads of a stream. `timestamps` are those of its index entries.
pub record AvStream : Type 0 where
  pub index : ℕ
  pub is_audio : Bool
  pub codec_id : ℕ
  pub sample_rate : ℕ
  pub nb_frames : ℤ
  pub duration : ℤ
  pub time_base_num : ℕ
  pub time_base_den : ℕ
  pub timestamps : List ℤ

-- libav. `read_frame` gives the status of av_read_frame, `send_packet` that of avcodec_send_packet,
-- whose packet is none for a null pointer, `receive_frame` that of avcodec_receive_frame, and
-- `convert` the number of frames of avresample_convert and the samples of each channel.
pub record Libav (Float : Type 0) : Type 1 where
  pub Format : Type 0
  pub Codec : Type 0
  pub Resampler : Type 0
  pub Packet : Type 0
  pub Frame : Type 0
  pub averror_eof : ℤ
  pub averror_eagain : ℤ
  pub codec_id_aac : ℕ
  pub codec_id_mp3 : ℕ
  pub open_input : Io (ℤ × Format)
  pub find_stream_info : Format → Io (ℤ × Format)
  pub streams : Format → List AvStream
  pub find_decoder : ℕ → Option ℕ
  pub open_codec : AvStream → ℕ → ℤ × Codec
  pub open_resampler : AvStream → ℤ × Resampler
  pub read_frame : Format → Io (ℤ × Packet × Format)
  pub pts : Packet → ℤ
  pub is_writable : Packet → Bool
  pub bytes : Packet → List ℕ
  pub with_bytes : Packet → List ℕ → Packet
  pub send_packet : Codec → Option Packet → ℤ × Codec
  pub receive_frame : Codec → ℤ × Frame × Codec
  pub nb_samples : Frame → ℤ
  pub convert : Resampler → Frame → ℤ × (ℕ → ℕ → Float) × Resampler
  pub seek_frame : Format → ℕ → ℤ → Io Format
  pub flush_codec : Codec → Codec
  pub flush_format : Format → Format
  pub flush_io : Format → Format

-- Times in doubles, for the quotient of a time base and a rate: the frames of a time, and the time
-- of a frame.
pub record Times : Type 0 where
  pub frames_of : ℤ → ℕ → ℕ → ℤ
  pub time_of : ℕ → ℕ → ℕ → ℤ

-- The rate and the channels that every decoder reports.
abbrev pub sample_rate : ℕ
sample_rate = 44100

abbrev pub channels : ℕ
channels = 2

-- A decrypter: the status and the output for an input, a key and a vector.
abbrev pub Decrypter : Type 0
Decrypter = List ℕ → Option (List ℕ) → List ℕ → ℤ × List ℕ

module _ {Float : Type 0} (lib : Libav Float) (P : DataProvider) where
  -- The codec and the resampler are none until they are open, the format where it is null.
  pub record Avcodec : Type 0 where
    pub provider : P.State
    pub format : Option lib.Format
    pub codec : Option lib.Codec
    pub resampler : Option lib.Resampler
    pub stream : Option AvStream
    pub boxes : Boxes
    pub frame_index : ℕ
    pub frames : ℤ
    pub start_junk_frames : ℕ
    pub frames_per_entry_index : ℤ
    pub pcm_buffer : List Float

  unfoldable pub create : P.State → Avcodec
  create provider = record {
    provider = provider;
    format = none;
    codec = none;
    resampler = none;
    stream = none;
    boxes = record {
      found_sidx = false;
      key_id = none;
      ivs = λ k. none;
      moofs = record { offset = 0; sidx_frames = [] };
      packets_per_moof = 0;
    };
    frame_index = 0;
    frames = pos 0;
    start_junk_frames = 0;
    frames_per_entry_index = pos 0;
    pcm_buffer = [];
  }

  unfoldable pub eof : Avcodec → Bool
  eof d = P.eof d.provider

  unfoldable pub flush : Avcodec → Avcodec
  flush d = record d {
    codec = Option.map lib.flush_codec d.codec;
    format = Option.map (λ f. lib.flush_io (lib.flush_format f)) d.format;
    pcm_buffer = [];
  }

  -- The position where `n` bytes begin of which `tell` is the end.
  abbrev pub begin_of : ℤ → ℕ → ℕ
  begin_of tell n = (to_u64 tell + (2 ^ 64 - n)) % 2 ^ 64

  -- `avio_read`: the number of bytes and the bytes for libav, and the decoder after it. The search
  -- takes one unit of fuel for each position.
  unfoldable pub avio_read : Option Decrypter → ℕ → ℕ → Avcodec → Run ((ℕ × List ℕ) × Avcodec)
  unfolding search_boxes
  avio_read decrypter fuel buf_size d = or_fault (P.read d.provider 1 buf_size) >>= λ r.
      let tell = P.tell r.next in
      let scan : Scan P = record {
        bytes = take r.value r.bytes;
        provider = r.next;
        boxes = d.boxes;
      } in
      let searched = search_boxes P fuel (begin_of tell r.value) scan >>= λ s.
      let there = P.tell s.provider ==ℤ tell in
      ret (
        (r.value, r.bytes),
        record d {
          provider = if there then s.provider else (P.seek s.provider tell seek_set).1;
          boxes = s.boxes;
        },
      ) in
      elim decrypter [
        | none ↦ ret ((r.value, r.bytes), record d { provider = r.next })
        | some _ ↦
            if ltb 0 r.value
            then searched
            else ret ((r.value, r.bytes), record d { provider = r.next })
      ]

  -- `avio_seek`, where libav does not ask for the size.
  unfoldable pub avio_seek : ℤ → Whence → Avcodec → ℤ × Avcodec
  avio_seek offset whence d =
      let (status, provider') = P.seek d.provider offset whence in
      (status, record d { provider = provider' })

  -- A call of libav with the callbacks that it makes.
  unfoldable pub run_io : Option Decrypter → {A : Type 0} → ℕ → Io A → Avcodec → Run (A × Avcodec)
  unfolding avio_read avio_seek
  run_io decrypter fuel (finished a) d = ret (a, d)
  run_io decrypter fuel (reading n k) d =
      avio_read decrypter fuel n d >>= λ r. run_io decrypter fuel (k r.0) r.1
  run_io decrypter fuel (seeking offset whence k) d =
      run_io decrypter fuel (k (avio_seek offset whence d).0) (avio_seek offset whence d).1
  run_io decrypter fuel (asking_size k) d = run_io decrypter fuel (k (P.size d.provider)) d
