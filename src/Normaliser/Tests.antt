-- ===== src/Normaliser/Tests.antt =====
-- Examples for the normaliser: numbers for floats, and a decoder that has its calls ready.
use nfdecoder.Base.{
  ℕ, zero, suc, ◌+◌, ◌*◌, ◌/◌, ◌≡◌, refl, arith, ◌==◌, true, some, List, [], ◌∷◌, ◌++◌, replicate,
}
use nfdecoder.Base.Frames.{Decoded}
use nfdecoder.Base.Int.{pos}
use nfdecoder.Base.Run.{ret}
use nfdecoder.Normaliser.Mixing.{Floats}
use nfdecoder.Normaliser.{Doubles, Libresample, Wrapped, Normaliser, Resampled, decode}
use nfdecoder.Normaliser.Passes.{at_index, decode-passes}

abbrev quotient : ℕ → ℕ → ℕ
quotient x zero = 0
quotient x (suc zero) = x
quotient x (suc (suc n)) = x / suc (suc n)

abbrev floats : Floats ℕ
floats = record {
  silence = 0;
  sum = λ a b. a + b;
  ratio = quotient;
  count = λ n. n;
  left_over = λ n. replicate n 99;
}

-- A factor is a whole number.
abbrev doubles : Doubles
doubles = record {
  Double = ℕ;
  is_one = λ x. x == 1;
  quotient = quotient;
  requested = λ f n. quotient n f;
  resampled = λ f n. n * f + 1;
  before = λ f n. quotient n f;
  scaled = λ f n. n;
  bytes = λ r c. r * c * 4;
}

abbrev lib : Libresample ℕ ℕ
lib = record { Handle = Unit; open_handle = λ f. some tt; process = λ h f xs eof n. (xs ++ xs, h) }

abbrev wrapped : Wrapped ℕ ℕ
wrapped = record {
  State = List (Decoded ℕ);
  sample_rate = λ w. 1;
  channels = λ w. 2;
  frames = λ w. pos 1;
  eof = λ w. true;
  seek = λ w n. w;
  flush = λ w. w;
  decode = calls;
}
  where
    calls : List (Decoded ℕ) → ℕ → List (Decoded ℕ × List (Decoded ℕ)) × List (Decoded ℕ)
    calls [] n = ([], [])
    calls (c ∷ cs) n = ((c, cs) ∷ [], cs)

abbrev call : Decoded ℕ
call = record { frame_index = 7; frame_count = 1; samples = 10 ∷ 20 ∷ [] }

abbrev nothing : Decoded ℕ
nothing = record { frame_index = 8; frame_count = 0; samples = [] }

abbrev normaliser : ℕ → List ℕ → Normaliser floats doubles lib wrapped
normaliser factor cached = record {
  wrapped = call ∷ [];
  factor = factor;
  handlers = some tt ∷ some tt ∷ [];
  frame_index = 3;
  pcm_buffer = cached;
  samplerate = 2;
  channels = 2;
}

sum_zero : (x : ℕ) → 0 + x ≡ x
sum_zero x = omega arith

abbrev surround : List ℕ
surround = 1 ∷ 2 ∷ 3 ∷ 4 ∷ 5 ∷ []

decode-passes_example :
    (d' : Normaliser floats doubles lib wrapped) × (decode floats doubles lib wrapped 1
        (normaliser 1 [])
      ≡ ret (at_index floats doubles lib wrapped 3 ((call, []) ∷ []), d'))
    × (d'.frame_index ≡ 3)
    × (d'.wrapped ≡ [])
    × (d'.pcm_buffer ≡ [])
decode-passes_example =
    decode-passes floats doubles lib wrapped 1 (normaliser 1 []) refl (omega arith)
      ((refl, refl), tt)

abbrev resampled_call : Resampled floats doubles lib wrapped
resampled_call = record {
  handlers = some tt ∷ some tt ∷ [];
  new_frames = 2;
  output = 10 ∷ 20 ∷ 11 ∷ 21 ∷ [];
}
