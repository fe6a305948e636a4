-- ===== src/Midi/Play.antt =====
-- What `decode` plays, block by block.
use mathlib.Core.Path.{subst}
use nfdecoder.Base.{
  ℕ, zero, suc, ◌+◌, ◌-◌, ◌*◌, ◌%◌, ◌^◌, ◌<◌, ◌≤◌, ◌≡◌, refl, ap, sym, ◌∙◌, arith, some, List, [],
  ◌∷◌, ◌++◌, length, take, drop, replicate, ne→==, lt→ltb, take_all, append_assoc, append-nil,
  length-replicate,
}
use nfdecoder.Base.Frames.{Decoded}
use nfdecoder.Base.Run.{Run, ret, ◌>>=◌}
use nfdecoder.Midi.{TinySoundFont, Message, Midi, blocks, run_thread, at_end, decode}
use nfdecoder.Midi.Concert.{due, block_of, concert, blocks_end, round_lem, length-concert}

module _ {F : Type 0} (lib : TinySoundFont F) where
  open lib use {Font, Time}

  module _ (renders : (f : Font) (n : ℕ) → length (lib.render_float f n).0 ≡ n * 2) where
    Plays : ℕ → ℕ → ℕ → ℕ → Time → List Message → Font → ℕ → List F → Type 0
    Plays fuel left k rest time ms f index output =
        blocks lib fuel 2 64 left time ms f index output
        ≡ ret (
          take index output ++ (concert lib k rest time ms f).0,
          (concert lib k rest time ms f).1,
        )

    last_block :
        (fuel rest : ℕ) (time : Time) (ms : List Message) (f : Font) (index : ℕ) (output : List F)
        → rest < 64
        → rest ≤ fuel
        → index + rest * 2 ≡ length output
        → Plays fuel rest 0 rest time ms f index output
    unfolding Plays concert
    last_block fuel zero time ms f index output short enough full =
        blocks_end lib fuel 2 64 time ms f index output
        ∙ ap (λ o. ret (o, f))
            (sym (take_all index output (omega (arith, full)))
              ∙ sym (append-nil (take index output)))
    last_block zero (suc rest) time ms f index output short enough full =
        absurd (omega (arith, enough))
    last_block (suc fuel) (suc rest) time ms f index output short enough full =
        let n = suc rest in
        let (w, e, same, front) =
          round_lem lib renders fuel 64 n n time ms f index output (omega (arith, short))
            (omega arith) (omega (arith, full)) in
        e
        ∙ ap
            (λ left.
              blocks lib fuel 2 n left (lib.later time n) (drop (due lib (lib.later time n) ms) ms)
                (block_of lib n time ms f).1 (index + n * 2) w)
            (nothing n)
        ∙ blocks_end lib fuel 2 n (lib.later time n) (drop (due lib (lib.later time n) ms) ms)
            (block_of lib n time ms f).1 (index + n * 2) w
        ∙ ap (λ o. ret (o, (block_of lib n time ms f).1))
            (sym (take_all (index + n * 2) w (omega (arith, same, full))) ∙ front)
      where
        nothing : (n : ℕ) → n - n ≡ 0
        nothing n = omega arith

    blocks_lem :
        (fuel k rest : ℕ) (time : Time) (ms : List Message) (f : Font) (index : ℕ) (output : List F)
        → rest < 64
        → k * 64 + rest ≤ fuel
        → index + (k * 64 + rest) * 2 ≡ length output
        → Plays fuel (k * 64 + rest) k rest time ms f index output
    unfolding Plays concert
    blocks_lem fuel zero rest time ms f index output short enough full =
        subst (λ left. Plays fuel left 0 rest time ms f index output) (one rest)
          (last_block fuel rest time ms f index output short (omega (arith, enough))
            (omega (arith, full)))
      where
        one : (n : ℕ) → n ≡ 0 * 64 + n
        one n = omega arith
    blocks_lem zero (suc k) rest time ms f index output short enough full =
        absurd (omega (arith, enough))
    blocks_lem (suc fuel) (suc k) rest time ms f index output short enough full =
        let (w, e, same, front) =
          round_lem lib renders fuel 64 (suc k * 64 + rest) 64 time ms f index output (omega arith)
            (omega arith) (omega (arith, full)) in
        let time' = lib.later time 64 in
        let ms' = drop (due lib time' ms) ms in
        let f' = (block_of lib 64 time ms f).1 in
        e
        ∙ ap (λ left. blocks lib fuel 2 64 left time' ms' f' (index + 64 * 2) w) (fewer k rest)
        ∙ blocks_lem fuel k rest time' ms' f' (index + 64 * 2) w short (omega (arith, enough))
            (omega (arith, same, full))
        ∙ ap
            (λ o.
              ret (o ++ (concert lib k rest time' ms' f').0, (concert lib k rest time' ms' f').1))
            front
        ∙ ap (λ o. ret (o, (concert lib k rest time' ms' f').1))
            (append_assoc (take index output) (block_of lib 64 time ms f).0
              (concert lib k rest time' ms' f').0)
      where
        fewer : (k rest : ℕ) → suc k * 64 + rest - 64 ≡ k * 64 + rest
        fewer k rest = omega arith

    run_lem :
        (d : Midi lib) (f : Font) (k rest : ℕ)
        → d.channels ≡ 2
        → rest < 64
        → 0 < k * 64 + rest
        → k * 64 + rest < 2 ^ 31
        → run_thread lib (k * 64 + rest) d (some f)
          ≡ ret (
            record {
              frame_index = d.frame_index;
              frame_count = k * 64 + rest;
              samples = (concert lib k rest (lib.at_frame d.frame_index) d.midi_stream f).0;
            },
            record d {
              soundfont = some (concert lib k rest (lib.at_frame d.frame_index) d.midi_stream f).1;
            },
          )
    unfolding run_thread Plays
    run_lem d f k rest stereo short more few =
        let frames = k * 64 + rest in
        let time = lib.at_frame d.frame_index in
        let played = concert lib k rest time d.midi_stream f in
        let zeros = replicate (frames * 2) lib.silence in
        let h =
          blocks_lem frames k rest time d.midi_stream f 0 zeros short (omega arith)
            (omega (arith, length-replicate (frames * 2) lib.silence)) in
        let h' =
          subst
            (λ c.
              blocks lib frames c 64 frames time d.midi_stream f 0
                (replicate (frames * c) lib.silence)
              ≡ ret played)
            (sym stereo) h in
        let whole : frames % 2 ^ 32 ≡ frames = narrow frames few in
        rw
          (
            ne→== frames 0 (omega (arith, more)),
            ne→== d.channels 0 (omega (arith, stereo)),
            whole,
            lt→ltb frames (2 ^ 31) few,
            h',
          )
          refl
      where
        narrow : (n : ℕ) → n < 2 ^ 31 → n % 2 ^ 32 ≡ n
        narrow n h = omega (arith, h)

    -- For a decoder of two channels with a sound font and a library that renders two samples for
    -- each frame, a call of `decode` for `k * 64 + rest` frames, one at least and fewer than 2^31,
    -- delivers just so many and two samples for each: those that the library renders in blocks of
    -- 64 frames with the messages that are due by the end of a block before it, each once and in
    -- order. It leaves the frame index and the stream where they were, and without a stream it has
    -- called back with no frames before.
    pub midi-decode :
        (d : Midi lib) (f : Font) (k rest : ℕ)
        → d.soundfont ≡ some f
        → d.channels ≡ 2
        → rest < 64
        → 0 < k * 64 + rest
        → k * 64 + rest < 2 ^ 31
        → (samples : List F) × (d' : Midi lib) × (decode lib (k * 64 + rest) d
            ≡ ret (
              at_end lib d d.midi_stream
                  ++ record {
                    frame_index = d.frame_index;
                    frame_count = k * 64 + rest;
                    samples = samples;
                  }
                    ∷ [],
              d',
            ))
          × (samples ≡ (concert lib k rest (lib.at_frame d.frame_index) d.midi_stream f).0)
          × (length samples ≡ (k * 64 + rest) * 2)
          × (d'.frame_index ≡ d.frame_index)
          × (d'.midi_stream ≡ d.midi_stream)
    unfolding decode
    midi-decode d f k rest has_font stereo short more few =
        let played = concert lib k rest (lib.at_frame d.frame_index) d.midi_stream f in
        let ends : Decoded F × Midi lib → Run (List (Decoded F) × Midi lib) =
          λ r. ret (at_end lib d d.midi_stream ++ r.0 ∷ [], r.1) in
        (
          played.0,
          record d { soundfont = some played.1 },
          ap (λ font. run_thread lib (k * 64 + rest) d font >>= ends) has_font
              ∙ ap (λ r. r >>= ends) (run_lem d f k rest stereo short more few),
          refl,
          length-concert lib renders k rest (lib.at_frame d.frame_index) d.midi_stream f,
          refl,
          refl,
        )
