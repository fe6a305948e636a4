-- ===== src/AudioConverter/Tests.antt =====
-- Examples for the decoder of Apple's systems: a file of three chunks, whose packets the converter
-- turns into 600 frames of one channel.
use nfdecoder.Base.{
  ℕ, zero, suc, ◌*◌, ◌<◌, ◌≤◌, ◌≡◌, refl, arith, ◌⊎◌, inl, inr, ◌==◌, ◌||◌, Bool, true, false, none,
  some, List, [], ◌∷◌, length, replicate, length-replicate,
}
use nfdecoder.Base.Int.{ℤ, pos, failed}
use nfdecoder.Provider.{DataProvider, Reading}
use nfdecoder.AudioConverter.{Fill, filled, asking, parsed, packets, AudioToolbox, AudioConverter}
use nfdecoder.AudioConverter.Rounds.{IsFinite}
use nfdecoder.AudioConverter.Start.{Always, RunsOut, AtStart}

-- A state is the number of chunks that are left.
abbrev chunks : DataProvider
chunks = record {
  State = ℕ;
  read = λ s n k. some (next s);
  seek = λ s z w. (pos 0, s);
  tell = λ s. pos 0;
  eof = λ s. s == 0;
  size = λ s. pos s;
}
  where
    next : ℕ → Reading ℕ
    next zero = record { value = 0; bytes = []; next = 0 }
    next (suc s) = record { value = 1; bytes = 7 ∷ []; next = s }

-- A converter is true where it has packets that were not given.
abbrev toolbox : AudioToolbox ℕ ℕ
toolbox = record {
  Stream = Unit {0};
  Converter = Bool;
  no_rate = 0;
  open_stream = tt;
  parse_bytes = λ s b. packets b 1 (parsed (pos 0, s));
  is_ready = λ s. true;
  data_format = λ s. (
    pos 0,
    record { sample_rate = 44100; format_id = 1; frames_per_packet = 1024; channels_per_frame = 1 },
  );
  packet_count = λ s. (pos 0, 3);
  average_bytes_per_packet = λ s. 1;
  seek_stream = λ s n. (pos 0, pos n, s);
  data_offset = λ s. (pos 0, pos 0);
  value_unknown = pos 1;
  mpeg4_aac = 1;
  new_converter = λ f. (pos 0, true);
  maximum_output_packet_size = λ c. (pos 0, 4096);
  fill_complex_buffer = λ c maximum. given c;
  reset = λ c. true;
}
  where
    given : Bool → Fill (ℤ × ℕ × List ℕ × Bool)
    given true = asking 1 (λ x. filled (pos 0, 600, replicate 600 5, false))
    given false = filled (pos 0, 0, [], true)

abbrev held_by : Bool → ℕ
held_by true = 1
held_by false = 0

held_by_most : (c : Bool) → held_by c ≤ 1
held_by_most true = omega arith
held_by_most false = omega arith

one_packet :
    (c : Bool) (maximum : ℕ)
    → Always
        (λ r.
          (failed r.0 || (r.1 == 0) ≡ true)
          ⊎ ((failed r.0 || (r.1 == 0) ≡ false)
              × (r.1 * 1 ≤ length r.2)
              × (held_by r.3 < held_by c)))
        (AudioToolbox.fill_complex_buffer toolbox c maximum)
unfolding Always
one_packet true maximum =
    λ x. inr (refl, omega (arith, length-replicate {A = ℕ} 600 5), omega arith)
one_packet false maximum = inl refl

abbrev runs_out : RunsOut toolbox 1
runs_out = record { held = held_by; most = 1; held_most = held_by_most; fills = one_packet }

chunks_left :
    (s : ℕ)
    → (r : Reading ℕ) × (DataProvider.read chunks s 1 512000 ≡ some r)
      × (((r.value == 0) ≡ true) ⊎ (((r.value == 0) ≡ false) × (r.next < s)))
chunks_left zero = (_, refl, inl refl)
chunks_left (suc s) = (_, refl, inr (refl, omega arith))

abbrev chunks_end : IsFinite chunks
chunks_end = record { left = λ s. s; reads = chunks_left }

abbrev loaded : AudioConverter toolbox chunks
loaded = record {
  provider = 3;
  stream = tt;
  converter = some true;
  channels = 1;
  samplerate = 44100;
  input = none;
  input_packets = 0;
  frame_index = 0;
  frames = pos 2048;
  frame_offset = 0;
  pcm_buffer = [];
  start_junk_frames = 1024;
}

abbrev loaded_at_start : AtStart toolbox chunks 1 runs_out 3 loaded
loaded_at_start = record {
  stands = refl;
  index = refl;
  offset = refl;
  junk = refl;
  wide = refl;
  converter = true;
  made = refl;
  frames = 0;
  whole = refl;
}
