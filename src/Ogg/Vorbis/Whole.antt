-- ===== src/Ogg/Vorbis/Whole.antt =====
-- What `decode` delivers from a file that libvorbisfile can seek in and decode.
use mathlib.Core.Path.{subst}
use native.Mathlib.Decide.{dec_lt}
use nfdecoder.Base.{
  ℕ, zero, suc, ◌+◌, ◌-◌, ◌<◌, ◌≤◌, ◌≡◌, refl, arith, ap, sym, ◌∙◌, ◌⊎◌, inl, inr, min, List, [],
  ◌++◌, lt→ltb, le→ltb, ne→==,
}
use nfdecoder.Base.Frames.{interleave, interleave-shift}
use nfdecoder.Base.Int.{pos}
use nfdecoder.Base.Run.{ret}
use nfdecoder.Ogg.Ends.{Ends, Ends-now, Ends-same, Ends-later}
use nfdecoder.Ogg.Vorbis.{
  Libvorbis, frames, hole, stop, Vorbis, seek, on_packet, read_frames, decode,
}

-- What libvorbisfile documents for a seekable file of `total` frames, where sample `i` of a channel
-- is `content channel i`. `At f p`: the next frame is `p`. A call for some frames reports a hole,
-- or delivers some of the next frames and not more than were asked for; at the end it reports 0.
-- Each such call moves on in the file, which has `effort f` such calls left, `most` at most.
pub record IsVorbisFile {F : Type 0} (lib : Libvorbis F) (channels total : ℕ) (content : ℕ → ℕ → F)
    : Type 1 where
  pub At : lib.File → ℕ → Type 0
  pub effort : lib.File → ℕ
  pub most : ℕ
  pub bounded : (f : lib.File) (p : ℕ) → At f p → effort f ≤ most
  pub reads :
      (f : lib.File) (p k : ℕ)
      → At f p
      → 0 < k
      → p < total
      → (g : lib.File) × (((lib.read_float f k ≡ (hole, g)) × At g p)
          ⊎ ((n : ℕ) × (lib.read_float f k ≡ (frames n channels (λ j i. content j (p + i)), g))
              × (0 < n)
              × (n ≤ k)
              × (p + n ≤ total)
              × At g (p + n)))
        × (effort g < effort f)
  pub ends :
      (f : lib.File) (k : ℕ)
      → At f total
      → (g : lib.File) × (lib.read_float f k ≡ (stop, g)) × At g total
  pub seeks :
      (f : lib.File) (p q : ℕ)
      → At f p
      → q ≤ total
      → (g : lib.File) × (lib.pcm_seek f q ≡ (pos 0, g)) × At g q

module _ {F : Type 0} (lib : Libvorbis F) (channels total : ℕ) (content : ℕ → ℕ → F)
    (file : IsVorbisFile lib channels total content) where
  abbrev At : Vorbis lib → ℕ → Type 0
  At d p = file.At d.file p

  module _ (fuel wanted : ℕ) (d : Vorbis lib) (n : ℕ) (out : List F) (more : n < wanted) where
    -- The three kinds of a round.
    round_stop :
        (g : lib.File)
        → lib.read_float d.file (wanted - n) ≡ (stop, g)
        → read_frames lib (suc fuel) wanted d n out ≡ ret (n, out, record d { file = g })
    unfolding read_frames on_packet
    round_stop g e = rw (lt→ltb n wanted more, e) refl

    round_hole :
        (g : lib.File)
        → lib.read_float d.file (wanted - n) ≡ (hole, g)
        → read_frames lib (suc fuel) wanted d n out
          ≡ read_frames lib fuel wanted (record d { file = g }) n out
    unfolding read_frames on_packet
    round_hole g e = rw (lt→ltb n wanted more, e) refl

    round_frames :
        (g : lib.File) (p k : ℕ)
        → lib.read_float d.file (wanted - n) ≡ (frames k channels (λ j i. content j (p + i)), g)
        → 0 < k
        → n + k ≤ wanted
        → d.channels ≡ channels
        → read_frames lib (suc fuel) wanted d n out
          ≡ read_frames lib fuel wanted
              (record d { file = g })
              (n + k)
              (out ++ interleave content channels p k)
    unfolding read_frames on_packet
    round_frames g p k e some_frames fits c =
        rw
          (
            lt→ltb n wanted more,
            e,
            ne→== k 0 (omega (arith, some_frames)),
            c,
            le→ltb channels channels (omega arith),
            le→ltb wanted (n + k) fits,
          )
          (ap
            (λ t.
              read_frames lib fuel wanted (record d { file = g; channels = channels }) (n + k)
                (out ++ t))
            (interleave-shift content p channels 0 k
              ∙ ap (λ q. interleave content channels q k) from_start))
      where
        from_start : p + 0 ≡ p
        from_start = omega arith

  read_frames_lem :
      (fuel wanted : ℕ) (d : Vorbis lib) (n p : ℕ) (out : List F)
      → d.channels ≡ channels
      → file.At d.file p
      → p ≤ total
      → n ≤ wanted
      → file.effort d.file < fuel
      → Ends content channels At
          (read_frames lib fuel wanted d n out)
          n
          p
          (min (wanted - n) (total - p))
          out
  unfolding read_frames
  read_frames_lem zero wanted d n p out c a within room fuels = absurd (omega arith)
  read_frames_lem (suc fuel) wanted d n p out c a within room fuels = elim (dec_lt n wanted) [
    | no all ↦
        Ends-now content channels At _ d n p _ out (rw (le→ltb n wanted (omega (arith, all))) refl)
          a (omega (arith, all))
    | yes more ↦ elim (dec_lt p total) [
      | no ended ↦
          let at_total : p ≡ total = omega (arith, ended) in
          let (g, e, b) = file.ends d.file (wanted - n) (rw at_total at a) in
          Ends-now content channels At _ (record d { file = g }) n p _ out
            (round_stop fuel wanted d n out more g e) (rw (sym at_total) at b)
            (omega (arith, at_total))
      | yes left ↦
          let (g, answer, less) = file.reads d.file p (wanted - n) a (omega (arith, more)) left in
          elim answer [
            | inl (e, b) ↦
                Ends-same content channels At _ _ n p _ out
                  (round_hole fuel wanted d n out more g e)
                  (read_frames_lem fuel wanted (record d { file = g }) n p out c b within room
                    (omega (arith, less, fuels)))
            | inr (k, e, some_frames, fits, inside, b) ↦
                Ends-later content channels At _ _ n p k _
                  (min (wanted - (n + k)) (total - (p + k))) out
                  (round_frames fuel wanted d n out more g p k e some_frames
                    (omega (arith, fits, more)) c)
                  (read_frames_lem fuel wanted (record d { file = g }) (n + k) (p + k)
                    (out ++ interleave content channels p k) c b inside (omega (arith, fits, more))
                    (omega (arith, less, fuels)))
                  (omega (arith, fits, inside, more))
          ]
    ]
  ]

  decoded :
      (fuel wanted count : ℕ) (d sought_d after : Vorbis lib) (samples : List F)
      → seek lib d d.frame_index ≡ sought_d
      → read_frames lib fuel wanted sought_d 0 [] ≡ ret (count, samples, after)
      → decode lib fuel wanted d
        ≡ ret (
          record { frame_index = d.frame_index; frame_count = count; samples = samples },
          record after { frame_index = d.frame_index + count },
        )
  unfolding decode
  decoded fuel wanted count d sought_d after samples sought e = rw (sought, e) refl

  -- From a file of which the library can seek and decode every frame, `decode` ends, delivers the
  -- frames from the decoder's index on, as many as are wanted or are left, channel by channel, and
  -- moves the index behind them: how the library cuts the stream into packets, and the holes in it,
  -- do not show.
  pub vorbis-decode :
      (d : Vorbis lib) (p wanted : ℕ)
      → d.channels ≡ channels
      → file.At d.file p
      → d.frame_index ≤ total
      → (d' : Vorbis lib) × (decode lib (suc file.most) wanted d
          ≡ ret (
            record {
              frame_index = d.frame_index;
              frame_count = min wanted (total - d.frame_index);
              samples =
                  interleave content channels d.frame_index (min wanted (total - d.frame_index));
            },
            d',
          ))
        × (d'.frame_index ≡ d.frame_index + min wanted (total - d.frame_index))
        × file.At d'.file d'.frame_index
  unfolding seek
  vorbis-decode d p wanted c a within =
      let (g, e, b) = file.seeks d.file p d.frame_index a within in
      let sought : seek lib d d.frame_index ≡ record d { file = g } = rw (e, seek) refl in
      let h =
        read_frames_lem (suc file.most) wanted (record d { file = g }) 0 d.frame_index [] c b within
          (omega arith) (omega (arith, file.bounded g d.frame_index b)) in
      let all : min (wanted - 0) (total - d.frame_index) ≡ min wanted (total - d.frame_index) =
        omega arith in
      let count : h.count ≡ min wanted (total - d.frame_index) = omega (arith, h.counted) in
      (
        record h.after { frame_index = d.frame_index + h.count },
        decoded (suc file.most) wanted h.count d (record d { file = g }) h.after h.samples sought
              h.returns
            ∙ ap
                (λ t. ret (
                  record { frame_index = d.frame_index; frame_count = t; samples = h.samples },
                  record h.after { frame_index = d.frame_index + h.count },
                ))
                count
            ∙ ap
                (λ t. ret (
                  record {
                    frame_index = d.frame_index;
                    frame_count = min wanted (total - d.frame_index);
                    samples = t;
                  },
                  record h.after { frame_index = d.frame_index + h.count },
                ))
                (h.in_order ∙ ap (λ m. interleave content channels d.frame_index m) all),
        omega (arith, h.counted),
        subst (λ q. file.At h.after.file q) (omega (arith, h.behind, h.counted)) h.there,
      )
