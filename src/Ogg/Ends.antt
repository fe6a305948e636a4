-- ===== src/Ogg/Ends.antt =====
-- How a loop ends that reads frames from a codec library until it has what it wants.
use nfdecoder.Base.{ℕ, ◌+◌, ◌≡◌, arith, ap, sym, ◌∙◌, List, ◌++◌, append-nil, append_assoc}
use nfdecoder.Base.Frames.{interleave, interleave-add}
use nfdecoder.Base.Run.{Run, ret}

-- `content channel i` is sample `i` of a channel; `At d p`: the decoder `d` stands before frame
-- `p`.
module _ {F D : Type 0} (content : ℕ → ℕ → F) (channels : ℕ) (At : D → ℕ → Type 0) where
  -- A loop that was entered at frame `p` with `n` frames in `out` ends with `m` frames more, and
  -- stands behind them.
  pub record Ends (r : Run (ℕ × List F × D)) (n p m : ℕ) (out : List F) : Type 0 where
    pub count : ℕ
    pub samples : List F
    pub after : D
    pub place : ℕ
    pub returns : r ≡ ret (count, samples, after)
    pub counted : count ≡ n + m
    pub in_order : samples ≡ out ++ interleave content channels p m
    pub there : At after place
    pub behind : place ≡ p + m

  pub Ends-now :
      (r : Run (ℕ × List F × D)) (d : D) (n p m : ℕ) (out : List F)
      → r ≡ ret (n, out, d)
      → At d p
      → m ≡ 0
      → Ends r n p m out
  unfolding interleave
  Ends-now r d n p m out e a none = record {
    count = n;
    samples = out;
    after = d;
    place = p;
    returns = e;
    counted = omega (arith, none);
    in_order = rw none (sym (append-nil out));
    there = a;
    behind = omega (arith, none);
  }

  pub Ends-same :
      (r r' : Run (ℕ × List F × D)) (n p m : ℕ) (out : List F)
      → r ≡ r'
      → Ends r' n p m out
      → Ends r n p m out
  Ends-same r r' n p m out e h = record {
    count = h.count;
    samples = h.samples;
    after = h.after;
    place = h.place;
    returns = e ∙ h.returns;
    counted = h.counted;
    in_order = h.in_order;
    there = h.there;
    behind = h.behind;
  }

  -- A round that delivered `k` frames, and the rounds behind it.
  pub Ends-later :
      (r r' : Run (ℕ × List F × D)) (n p k m m' : ℕ) (out : List F)
      → r ≡ r'
      → Ends r' (n + k) (p + k) m' (out ++ interleave content channels p k)
      → m ≡ k + m'
      → Ends r n p m out
  Ends-later r r' n p k m m' out e h split = record {
    count = h.count;
    samples = h.samples;
    after = h.after;
    place = h.place;
    returns = e ∙ h.returns;
    counted = omega (arith, h.counted, split);
    in_order =
        h.in_order
        ∙ append_assoc out (interleave content channels p k)
            (interleave content channels (p + k) m')
        ∙ ap (λ t. out ++ t)
            (interleave-add content channels p k m'
              ∙ ap (interleave content channels p) (sym split));
    there = h.there;
    behind = omega (arith, h.behind, split);
  }
