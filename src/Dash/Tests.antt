-- ===== src/Dash/Tests.antt =====
-- Examples for the DASH decoder: one segment of 2000 frames of one channel.
use nfdecoder.Base.{
  ℕ, ◌+◌, ◌-◌, ◌*◌, ◌≡◌, refl, arith, true, false, ◌⊎◌, some, List, [], ◌∷◌, drop, replicate,
  length-replicate,
}
use nfdecoder.Base.Int.{ℤ, pos, negsuc}
use nfdecoder.Base.Run.{ret, fault, unfinished}
use nfdecoder.Provider.{DataProvider}
use nfdecoder.Provider.Memory
use nfdecoder.Dash.{
  Transmuxer, Segment, Times, Stream, Dash, load_segment, pick, load_at, decode, seek,
}
use nfdecoder.Dash.Bounds.{Delivers, decode-Delivers}
use nfdecoder.Dash.Seek.{decode-seek}
use nfdecoder.Dash.Junk.{load_at-remove_junk}

abbrev mux : Transmuxer
mux = record {
  Session = Unit;
  clear_content = 5;
  parse = λ s bytes. (0, [], s);
  convert = λ s i bytes. (0, bytes, s);
}

abbrev shifted : ℤ → ℕ → ℤ
shifted (pos n) k = pos (n + k)
shifted (negsuc n) k = negsuc (n - k)

-- A duration is a number of frames.
abbrev times : Times Unit
times = record {
  segment_frames = λ s rate. s.duration;
  later = λ t s rate. shifted t s.duration;
  total = λ segments rate. 976;
}

abbrev source : DataProvider
source = record {
  State = Unit;
  read = λ s n k. some (record { value = 0; bytes = []; next = s });
  seek = λ s o w. (pos 0, s);
  tell = λ s. pos 0;
  eof = λ s. true;
  size = λ s. pos 0;
}

abbrev stream : Stream ℕ Unit
stream = record {
  State = Unit;
  sample_rate = λ s. s;
  channels = λ s. 1;
  flush = λ s. s;
  decode =
      λ s m n. (record { frame_index = 0; frame_count = n; samples = replicate n 7 } ∷ [], s, m);
}

abbrev dash : List ℕ → Dash mux times source stream
dash samples = record {
  provider = tt;
  memory = record { path = []; bytes = [] };
  session = tt;
  index = record { location = 0; length = 9; duration = 2000; timescale = 1 } ∷ [];
  decoder = tt;
  frame_index = 0;
  samples = samples;
}

decode-Delivers_example :
    Delivers mux times source stream 3 (dash []) (decode mux times source stream 1 3 (dash []))
    ⊎ ((decode mux times source stream 1 3 (dash []) ≡ fault)
        ⊎ (decode mux times source stream 1 3 (dash []) ≡ unfinished))
unfolding nfdecoder.Dash.frames
decode-Delivers_example = decode-Delivers mux times source stream 1 3 (dash []) (omega arith)

decode-seek_example :
    decode mux times source stream 0 2 (dash (4 ∷ 5 ∷ 6 ∷ []))
    ≡ ret (
      record { frame_index = 0; frame_count = 2; samples = 4 ∷ 5 ∷ [] },
      seek mux times source stream (dash (4 ∷ 5 ∷ 6 ∷ [])) 2,
    )
unfolding nfdecoder.Dash.frames
decode-seek_example =
    decode-seek mux times source stream 0 2 (dash (4 ∷ 5 ∷ 6 ∷ [])) (omega arith) (omega arith)
      (omega arith) (omega arith)

-- The decoder once the segment is read.
abbrev filled : Dash mux times source stream
filled = record (dash (replicate 2000 7)) {
  memory = Memory.write (record { path = []; bytes = [] }) [] 1 0;
}

loaded : load_segment mux times source stream (dash []) 0 ≡ ret (false, filled)
unfolding load_segment
loaded = refl

picked : pick mux times source stream tt 500 (dash []).index 0 (pos 0) ≡ (0, pos 0)
unfolding pick
picked = refl

load_at-remove_junk_example :
    load_at mux times source stream (dash []) 500
    ≡ ret (false, record filled { samples = drop (1024 * 1) (replicate 2000 7) })
load_at-remove_junk_example =
    load_at-remove_junk mux times source stream 500 0 (dash []) filled false (omega arith) refl
      picked loaded (omega (arith, length-replicate {A = ℕ} 2000 7))
