-- ===== src/Avcodec/Tests.antt =====
-- Examples for the decoder on libav: a file of two packets with a frame of two samples in each.
use nfdecoder.Base.{
  ℕ, zero, suc, ◌+◌, ◌-◌, ◌*◌, ◌^◌, ◌<◌, ◌≤◌, ◌≡◌, refl, arith, ◌⊎◌, inl, inr, Bool, true, false,
  Option, none, some, List, [], ◌∷◌, take, length, get_or, replicate,
}
use nfdecoder.Base.Bytes.{AreBytes}
use nfdecoder.Base.Frames.{Decoded, interleave, frame}
use nfdecoder.Base.Int.{ℤ, pos, negsuc, ◌==ℤ◌, failed}
use nfdecoder.Base.Run.{Run, ret, fault, unfinished, Keeps}
use nfdecoder.Provider.{DataProvider, Whence}
use nfdecoder.Avcodec.{Libav, Times, Decrypter, Avcodec, AvStream, finished, run_io}
use nfdecoder.Avcodec.Decode.{
  decode, decrypt_with, move_decoded, decode_packets, finish, round, handle, prepare, decrypt, send,
  receive_frames, on_frame, place, take_block, clip_frames,
}
use nfdecoder.Avcodec.Endians.{swap_endians, swap_endians-get_or}
use nfdecoder.Avcodec.Ends.{Always, ComesToEnd, IsTotal}
use nfdecoder.Avcodec.Index.{IsIn, total_size, moof_index_lem}
use nfdecoder.Avcodec.Load.{load}
use nfdecoder.Avcodec.Reports.{IsReady, Reports, avcodec_load-Reports}
use nfdecoder.Avcodec.Search.{Boxes, Moofs, moof_index, read_ivs}
use nfdecoder.Avcodec.Vectors.{decrypt_with-read_ivs}

-- A provider of zeros, which stands at a number.
abbrev zeros : DataProvider
zeros = record {
  State = ℕ;
  read = λ s n k. some (record { value = k; bytes = replicate k 0; next = s + k });
  seek = sought;
  tell = λ s. pos s;
  eof = λ s. false;
  size = λ s. pos 100;
}
  where
    sought : ℕ → ℤ → Whence → ℤ × ℕ
    sought s (pos n) w = (pos 0, n)
    sought s (negsuc n) w = (negsuc 0, s)

abbrev audio : AvStream
audio = record {
  index = 0;
  is_audio = true;
  codec_id = 1;
  sample_rate = 44100;
  nb_frames = pos 4;
  duration = pos 4;
  time_base_num = 1;
  time_base_den = 44100;
  timestamps = [];
}

-- A format is the number of packets that are left, and a codec holds a frame or none.
abbrev libav : Libav ℕ
libav = record {
  Format = ℕ;
  Codec = Bool;
  Resampler = Unit {0};
  Packet = List ℕ;
  Frame = Unit {0};
  averror_eof = negsuc 0;
  averror_eagain = negsuc 10;
  codec_id_aac = 2;
  codec_id_mp3 = 3;
  open_input = finished (pos 0, 2);
  find_stream_info = λ f. finished (pos 0, f);
  streams = λ f. audio ∷ [];
  find_decoder = λ n. some n;
  open_codec = λ s n. (pos 0, false);
  open_resampler = λ s. (pos 0, tt);
  read_frame = λ f. finished (next f);
  pts = λ p. pos 0;
  is_writable = λ p. true;
  bytes = λ p. p;
  with_bytes = λ p b. b;
  send_packet = sent;
  receive_frame = received;
  nb_samples = λ f. pos 2;
  convert = λ r f. (pos 2, λ channel i. channel + 10 * i, tt);
  seek_frame = λ f i t. finished 2;
  flush_codec = λ c. false;
  flush_format = λ f. f;
  flush_io = λ f. f;
}
  where
    next : ℕ → ℤ × List ℕ × ℕ
    next zero = (negsuc 0, [], 0)
    next (suc n) = (pos 0, 7 ∷ [], n)

    sent : Bool → Option (List ℕ) → ℤ × Bool
    sent c none = (negsuc 0, false)
    sent c (some p) = (pos 0, true)

    received : Bool → ℤ × Unit {0} × Bool
    received true = (pos 0, tt, false)
    received false = (negsuc 10, tt, false)

abbrev times : Times
times = record { frames_of = λ t ratio rate. t; time_of = λ n rate ratio. pos n }

abbrev no_boxes : Boxes
no_boxes = record {
  found_sidx = false;
  key_id = none;
  ivs = λ k. none;
  moofs = record { offset = 0; sidx_frames = [] };
  packets_per_moof = 0;
}

abbrev loaded : Avcodec libav zeros
loaded = record {
  provider = 0;
  format = some 2;
  codec = some false;
  resampler = some tt;
  stream = some audio;
  boxes = no_boxes;
  frame_index = 0;
  frames = pos 4;
  start_junk_frames = 0;
  frames_per_entry_index = pos 0;
  pcm_buffer = 5 ∷ 6 ∷ [];
}

abbrev loaded_is_ready : IsReady libav zeros times none loaded
loaded_is_ready = record {
  format = 2;
  codec = false;
  resampler = tt;
  stream = audio;
  has_format = refl;
  has_codec = refl;
  has_resampler = refl;
  has_stream = refl;
  is_audio = refl;
  timed = refl;
}

abbrev zeros_are_total : IsTotal zeros
zeros_are_total = λ s n. (record { value = n; bytes = replicate n 0; next = s + n }, refl)

abbrev held_by : Bool → ℕ
held_by true = 1
held_by false = 0

held_by_most : (c : Bool) → held_by c ≤ 1
held_by_most true = omega arith
held_by_most false = omega arith

packets_left :
    (f : ℕ)
    → Always
        (λ r. ((r.0 ==ℤ negsuc 0 ≡ true) × (r.2 ≤ f)) ⊎ ((r.0 ==ℤ negsuc 0 ≡ false) × (r.2 < f)))
        (Libav.read_frame libav f)
unfolding Always
packets_left zero = inl (refl, omega arith)
packets_left (suc f) = inr (refl, omega arith)

one_frame :
    (c : Bool)
    → (failed (Libav.receive_frame libav c).0 ≡ true)
      ⊎ ((failed (Libav.receive_frame libav c).0 ≡ false)
          × (held_by (Libav.receive_frame libav c).2 < held_by c))
one_frame true = inr (refl, omega arith)
one_frame false = inl refl

abbrev file : ComesToEnd libav
file = record {
  left = λ f. f;
  held = held_by;
  effort = λ c. 0;
  most = 1;
  held_most = held_by_most;
  effort_most = λ c. omega arith;
  reads = packets_left;
  receives = one_frame;
  nothing_delayed = λ c. refl;
  ends = λ c. inl refl;
}

swap_endians-get_or_example :
    (length (swap_endians (1 ∷ 2 ∷ 3 ∷ [])) ≡ 3)
    × ((j : ℕ)
        → j < 3
        → get_or (swap_endians (1 ∷ 2 ∷ 3 ∷ [])) j 0 ≡ get_or (1 ∷ 2 ∷ 3 ∷ []) (3 - j - 1) 0)
swap_endians-get_or_example =
    swap_endians-get_or (1 ∷ 2 ∷ 3 ∷ []) (omega arith, (omega arith, (omega arith, tt)))

abbrev two_moofs : Moofs
two_moofs = record {
  offset = 52;
  sidx_frames =
      record { junk = 0; subsegment_duration = 1; referenced_size = 100 }
      ∷ record { junk = 0; subsegment_duration = 1; referenced_size = 50 }
      ∷ [];
}

two_moofs_small : 52 + total_size two_moofs.sidx_frames < 2 ^ 31
unfolding total_size
two_moofs_small = omega arith

moof_index_lem_example :
    ((k : ℕ) × (moof_index two_moofs 160 ≡ some k) × IsIn 160 52 two_moofs.sidx_frames k)
    ⊎ ((moof_index two_moofs 160 ≡ none)
        × ((160 < 52) ⊎ (52 + total_size two_moofs.sidx_frames ≤ 160)))
moof_index_lem_example = moof_index_lem two_moofs 160 two_moofs_small

abbrev two_vectors : List ℕ
two_vectors = 9 ∷ 0 ∷ 0 ∷ 0 ∷ 0 ∷ 0 ∷ 0 ∷ 0 ∷ 1 ∷ 1 ∷ 2 ∷ 3 ∷ 4 ∷ 5 ∷ 6 ∷ 7 ∷ 8 ∷ []

-- The output is the vector.
abbrev shows_vector : Decrypter
shows_vector input key iv = (pos 0, take (length input) iv)

two_vectors-AreBytes : AreBytes two_vectors
two_vectors-AreBytes = ground arith

decrypt_with-read_ivs_example :
    decrypt_with libav zeros times none shows_vector none
      (0 ∷ 0 ∷ 0 ∷ [])
      (read_ivs 2 0 10 two_vectors (λ k. none) (10 + 1))
    ≡ ret (1 ∷ 1 ∷ 2 ∷ [])
decrypt_with-read_ivs_example =
    decrypt_with-read_ivs libav zeros times none 2 0 10 1 two_vectors (λ k. none) shows_vector none
      (0 ∷ 0 ∷ 0 ∷ []) (1 ∷ 1 ∷ 2 ∷ []) two_vectors-AreBytes (omega arith) (omega arith)
      (omega arith) refl refl

avcodec_load-Reports_example :
    Keeps (Reports libav zeros times none) (load libav zeros times none 9 loaded)
avcodec_load-Reports_example = avcodec_load-Reports libav zeros times none 9 loaded

-- What a run delivers.
abbrev samples_of : Run (Decoded ℕ × Avcodec libav zeros) → Option (List ℕ)
samples_of (ret r) = some r.0.samples
samples_of fault = none
samples_of unfinished = none

-- The cached frame and both packets, of the first of which a frame is left out: what is kept of it
-- are its first samples.
delivered :
    samples_of (decode libav zeros times none 2 5 4 loaded)
    ≡ some (5 ∷ 6 ∷ 0 ∷ 1 ∷ 0 ∷ 1 ∷ 10 ∷ 11 ∷ [])
unfolding decode move_decoded decode_packets finish round handle prepare decrypt send receive_frames
    on_frame place take_block clip_frames run_io interleave frame
delivered = refl
