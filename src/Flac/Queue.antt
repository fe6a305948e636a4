-- ===== src/Flac/Queue.antt =====
-- The queue of samples: `decode` delivers the decoded stream in order, and when its loop ends.
use native.Mathlib.Decide.{dec_lt}
use native.Mathlib.Nat.{le-div_iff_mul-le, add-mul-div_right}
use nfdecoder.Base.{
  ℕ, zero, suc, ◌+◌, ◌*◌, ◌/◌, ◌<◌, ◌≤◌, ◌≡◌, refl, arith, ap, sym, ◌∙◌, min, true, List, [], ◌++◌,
  drop, length, append-nil, append_assoc, length-append, lt→ltb, le→ltb, ne→==,
}
use nfdecoder.Base.Run.{ret, unfinished}
use nfdecoder.Flac.{Block, Libflac, Floats, Flac, Decoded, write_all, fill, deliver, decode}
use nfdecoder.Flac.Blocks.{
  blocks_samples, total, length-blocks_samples, blocks_samples-append, write_all_lem, total-append,
}

module _ (floats : Floats) (flac : Libflac) where
  -- The stream goes on: each call of libFLAC succeeds and writes some frames, altogether the
  -- blocks.
  pub data Feeds : flac.Handle → List Block → Type 0 where
    ends : (h : flac.Handle) → Feeds h []
    goes_on :
        (h h' : flac.Handle) (written later : List Block)
        → flac.process_single h ≡ (true, written, h')
        → 0 < (total floats flac) written
        → Feeds h' later
        → Feeds h (written ++ later)

  -- The frames that are queued.
  abbrev queued_frames : Flac floats flac → ℕ
  queued_frames d = length d.samples / d.channels

  fill_stuck :
      (d : Flac floats flac) (fuel n : ℕ)
      → flac.process_single d.handle ≡ (true, [], d.handle)
      → length d.samples / d.channels < n
      → fill floats flac fuel n d ≡ unfinished
  unfolding fill write_all
  fill_stuck d zero n stuck few = rw (lt→ltb _ n few) refl
  fill_stuck d (suc k) n stuck few = rw (lt→ltb _ n few, stuck) (fill_stuck d k n stuck few)

  -- When libFLAC succeeds without writing anything, as it does at the end of its stream, and the
  -- queue holds fewer frames than are asked for, the loop of `decode` never ends.
  pub decode_stuck :
      (d : Flac floats flac) (fuel n : ℕ)
      → 0 < d.channels
      → flac.process_single d.handle ≡ (true, [], d.handle)
      → length d.samples / d.channels < n
      → decode floats flac fuel n d ≡ unfinished
  unfolding decode
  decode_stuck d fuel n c stuck few =
      rw (ne→== d.channels 0 (omega arith), fill_stuck d fuel n stuck few) refl

  -- What the loop leaves behind: some of the stream's samples are queued, and there are enough.
  pub record Filled (d d' : Flac floats flac) (n : ℕ) (blocks : List Block) : Type 0 where
    pub new : List floats.Float
    pub later : List floats.Float
    pub queued : d'.samples ≡ d.samples ++ new
    pub of_stream : new ++ later ≡ (blocks_samples floats flac) d.channels blocks
    pub same_channels : d'.channels ≡ d.channels
    pub same_index : d'.frame_index ≡ d.frame_index
    pub enough : n ≤ length d'.samples / d.channels

  fill_none :
      (d : Flac floats flac) (n : ℕ) (blocks : List Block)
      → n ≤ length d.samples / d.channels
      → Filled d d n blocks
  fill_none d n blocks h = record {
    new = [];
    later = (blocks_samples floats flac) d.channels blocks;
    queued = sym (append-nil d.samples);
    of_stream = refl;
    same_channels = refl;
    same_index = refl;
    enough = h;
  }

  -- The decoder after one more call of libFLAC.
  abbrev fed : Flac floats flac → List Block → flac.Handle → Flac floats flac
  fed d written h' = record d {
    samples = d.samples ++ (blocks_samples floats flac) d.channels written;
    handle = h';
  }

  fed-frames :
      (d : Flac floats flac) (written : List Block) (h' : flac.Handle)
      → 0 < d.channels
      → length (fed d written h').samples / d.channels
        ≡ length d.samples / d.channels + (total floats flac) written
  fed-frames d written h' c =
      ap (λ n. n / d.channels)
        (length-append d.samples ((blocks_samples floats flac) d.channels written)
          ∙ ap (λ n. length d.samples + n) ((length-blocks_samples floats flac) d.channels written))
      ∙ add-mul-div_right (length d.samples) ((total floats flac) written) c

  fill_more :
      (d d' : Flac floats flac) (n : ℕ) (written later : List Block) (h' : flac.Handle)
      → Filled (fed d written h') d' n later
      → Filled d d' n (written ++ later)
  fill_more d d' n written later h' f = record {
    new = (blocks_samples floats flac) d.channels written ++ f.new;
    later = f.later;
    queued =
        f.queued ∙ append_assoc d.samples ((blocks_samples floats flac) d.channels written) f.new;
    of_stream =
        append_assoc ((blocks_samples floats flac) d.channels written) f.new f.later
        ∙ ap (λ t. (blocks_samples floats flac) d.channels written ++ t) f.of_stream
        ∙ sym ((blocks_samples-append floats flac) d.channels written later);
    same_channels = f.same_channels;
    same_index = f.same_index;
    enough = f.enough;
  }

  fill_there :
      (fuel n : ℕ) (d : Flac floats flac) (blocks : List Block)
      → n ≤ length d.samples / d.channels
      → (d' : Flac floats flac) × (fill floats flac fuel n d ≡ ret (queued_frames d', d'))
        × Filled d d' n blocks
  unfolding fill
  fill_there zero n d blocks h =
      (d, rw (le→ltb (length d.samples / d.channels) n h) refl, fill_none d n blocks h)
  fill_there (suc fuel) n d blocks h =
      (d, rw (le→ltb (length d.samples / d.channels) n h) refl, fill_none d n blocks h)

  fill_round :
      (fuel n : ℕ) (d : Flac floats flac) (written : List Block) (h' : flac.Handle)
      → length d.samples / d.channels < n
      → flac.process_single d.handle ≡ (true, written, h')
      → fill floats flac (suc fuel) n d ≡ fill floats flac fuel n (fed d written h')
  unfolding fill
  fill_round fuel n d written h' few processed =
      rw (lt→ltb _ n few, processed, (write_all_lem floats flac) d written) refl

  fill_lem :
      (fuel n : ℕ) (d : Flac floats flac) (h : flac.Handle) (blocks : List Block)
      → h ≡ d.handle
      → Feeds h blocks
      → 0 < d.channels
      → n ≤ length d.samples / d.channels + (total floats flac) blocks
      → n ≤ length d.samples / d.channels + fuel
      → (d' : Flac floats flac) × (fill floats flac fuel n d ≡ ret (queued_frames d', d'))
        × Filled d d' n blocks
  fill_lem zero n d h blocks e feeds c long fuels = fill_there zero n d blocks (omega arith)
  fill_lem (suc fuel) n d h [] e (ends _) c long fuels = fill_there (suc fuel) n d [] (omega arith)
  fill_lem (suc fuel) n d h blocks e (goes_on _ h' written later processed some_frames feeds) c long
        fuels =
      elim (dec_lt (length d.samples / d.channels) n) [
        | no far ↦ fill_there (suc fuel) n d blocks (omega (arith, far))
        | yes few ↦
            let count = fed-frames d written h' c in
            let (d', loops, filled) =
              fill_lem fuel n (fed d written h') h' later refl feeds c
                (omega (arith, count, long, (total-append floats flac) written later))
                (omega (arith, count, fuels, some_frames)) in
            (
              d',
              fill_round fuel n d written h' few (rw (sym e) processed) ∙ loops,
              fill_more d d' n written later h' filled,
            )
      ]

  -- A call of the callback with the next `n` frames, of the queue first and then of the stream, and
  -- the decoder after it, which stands behind them.
  pub record IsDelivered (d d' : Flac floats flac) (n : ℕ) (blocks : List Block)
      (out : Decoded floats flac) : Type 0 where
    pub index : out.frame_index ≡ d.frame_index
    pub count : out.frame_count ≡ n
    pub later : List floats.Float
    pub in_order :
        out.samples ++ later ≡ d.samples ++ (blocks_samples floats flac) d.channels blocks
    pub long_enough : n * d.channels ≤ length out.samples
    pub left : d'.samples ≡ drop (n * d.channels) out.samples
    pub moved : d'.frame_index ≡ d.frame_index + n

  delivered :
      (d d' : Flac floats flac) (n : ℕ) (blocks : List Block)
      → 0 < d.channels
      → Filled d d' n blocks
      → IsDelivered d
          (deliver floats flac n (queued_frames d') d').1
          n
          blocks
          (deliver floats flac n (queued_frames d') d').0
  unfolding deliver
  delivered d d' n blocks c f = record {
    index = f.same_index;
    count = all;
    later = f.later;
    in_order =
        ap (λ t. t ++ f.later) f.queued
        ∙ append_assoc d.samples f.new f.later
        ∙ ap (λ t. d.samples ++ t) f.of_stream;
    long_enough = (le-div_iff_mul-le c).0 f.enough;
    left = rw (all, f.same_channels) refl;
    moved = omega (arith, all, f.same_index);
  }
    where
      all : min (length d'.samples / d'.channels) n ≡ n
      all = rw f.same_channels (omega (arith, f.enough))

  -- While the stream goes on for long enough, `decode` of `n` frames returns, `n` calls of libFLAC
  -- being enough: it delivers `n` frames, which are the first of the queue followed by the decoded
  -- stream, leaves in the queue what stands behind them, and moves the frame index by `n`.
  pub decode-in_order :
      (d : Flac floats flac) (n : ℕ) (blocks : List Block)
      → Feeds d.handle blocks
      → 0 < d.channels
      → n * d.channels ≤ length d.samples + (total floats flac) blocks * d.channels
      → (out : Decoded floats flac) × (d' : Flac floats flac) × (decode floats flac n n d
          ≡ ret (out, d'))
        × IsDelivered d d' n blocks out
  unfolding decode
  decode-in_order d n blocks feeds c long =
      let (d', loops, f) =
        fill_lem n n d d.handle blocks refl feeds c
          (rw (add-mul-div_right (length d.samples) ((total floats flac) blocks) c) at
            ((le-div_iff_mul-le c).1 long))
          (omega arith) in
      (
        (deliver floats flac n (queued_frames d') d').0,
        (deliver floats flac n (queued_frames d') d').1,
        rw (ne→== d.channels 0 (omega (arith, c)), loops) refl,
        delivered d d' n blocks c f,
      )
