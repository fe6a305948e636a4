-- ===== src/Ogg/Opus/Whole.antt =====
-- What `decode` delivers from a file that libopusfile can seek in and decode.
use native.Mathlib.Decide.{dec_lt}
use nfdecoder.Base.{
  ℕ, zero, suc, ◌+◌, ◌-◌, ◌*◌, ◌<◌, ◌≤◌, ◌≡◌, refl, arith, ap, ◌∙◌, ◌⊎◌, inl, inr, some, List, [],
  ◌++◌, length, length-append, lt→ltb, le→ltb, ne→==,
}
use nfdecoder.Base.Frames.{interleave, interleave-shift, length-interleave}
use nfdecoder.Base.Int.{pos}
use nfdecoder.Base.Run.{Run, ret}
use nfdecoder.Ogg.Ends.{Ends, Ends-now, Ends-same, Ends-later}
use nfdecoder.Ogg.Opus.Served.{IsServed, fewer, IsServed-later, room_left}
use nfdecoder.Ogg.Opus.{
  Libopusfile, frames, hole, stop, Opus, Loop, seek, on_packet, read_frames, decode_channels,
  decode,
}

-- What libopusfile documents for a seekable file of `total` frames whose sections all have the same
-- number of channels, where sample `i` of a channel is `content channel i`. `At f p`: the next
-- frame is `p`. A call reports a hole, or delivers some of the next frames, whose values have room
-- in the buffer; it reports 0 where the buffer has no room for a frame, and at the end. Each call
-- moves on in the file, which has `effort f` such calls left, `most` at most.
pub record IsOpusFile {F : Type 0} (lib : Libopusfile F) (channels total : ℕ) (content : ℕ → ℕ → F)
    : Type 1 where
  pub At : lib.File → ℕ → Type 0
  pub effort : lib.File → ℕ
  pub most : ℕ
  pub some_channels : 0 < channels
  pub bounded : (f : lib.File) (p : ℕ) → At f p → effort f ≤ most
  pub same_channels : (f : lib.File) (section : ℕ) → lib.channel_count f section ≡ channels
  pub reads :
      (f : lib.File) (p k : ℕ)
      → At f p
      → channels ≤ k
      → p < total
      → (g : lib.File) × (((lib.read_float f k ≡ (hole, g)) × At g p)
          ⊎ ((n section : ℕ) × (lib.read_float f k
                ≡ (frames n section (λ j i. content j (p + i)), g))
              × (0 < n)
              × (n * channels ≤ k)
              × (p + n ≤ total)
              × At g (p + n)))
        × (effort g < effort f)
  pub stops :
      (f : lib.File) (p k : ℕ)
      → At f p
      → (k < channels) ⊎ (p ≡ total)
      → (g : lib.File) × (lib.read_float f k ≡ (stop, g)) × At g p
  pub seeks :
      (f : lib.File) (p q : ℕ)
      → At f p
      → q ≤ total
      → (g : lib.File) × (lib.pcm_seek f q ≡ (pos 0, g)) × At g q

module _ {F : Type 0} (lib : Libopusfile F) (channels total : ℕ) (content : ℕ → ℕ → F)
    (file : IsOpusFile lib channels total content) where
  abbrev At : Loop lib → ℕ → Type 0
  At l p = (l.channels ≡ channels) × file.At l.file p

  module _ (fuel wanted room : ℕ) (l : Loop lib) (n : ℕ) (out : List F) (more : n < wanted) where
    -- The three kinds of a round.
    round_stop :
        (g : lib.File)
        → lib.read_float l.file (wanted - n) ≡ (stop, g)
        → read_frames lib (suc fuel) wanted room l n out ≡ ret (n, out, record l { file = g })
    unfolding read_frames on_packet
    round_stop g e = rw (lt→ltb n wanted more, e) refl

    round_hole :
        (g : lib.File)
        → lib.read_float l.file (wanted - n) ≡ (hole, g)
        → read_frames lib (suc fuel) wanted room l n out
          ≡ read_frames lib fuel wanted room (record l { file = g }) n out
    unfolding read_frames on_packet
    round_hole g e = rw (lt→ltb n wanted more, e) refl

    round_frames :
        (g : lib.File) (p k section : ℕ)
        → lib.read_float l.file (wanted - n) ≡ (frames k section (λ j i. content j (p + i)), g)
        → 0 < k
        → length out + k * channels ≤ room
        → l.channels ≡ channels
        → read_frames lib (suc fuel) wanted room l n out
          ≡ read_frames lib fuel wanted room
              (record l { file = g })
              (n + k)
              (out ++ interleave content channels p k)
    unfolding read_frames on_packet
    round_frames g p k section e some_frames fits c =
        rw
          (
            lt→ltb n wanted more,
            e,
            file.same_channels g section,
            ne→== k 0 (omega (arith, some_frames)),
            c,
            le→ltb room (length out + k * channels) fits,
            le→ltb channels channels (omega arith),
          )
          (ap
            (λ t.
              read_frames lib fuel wanted room (record l { file = g; channels = channels }) (n + k)
                (out ++ t))
            (interleave-shift content p channels 0 k
              ∙ ap (λ q. interleave content channels q k) from_start))
      where
        from_start : p + 0 ≡ p
        from_start = omega arith

  abbrev Loops : (r : Run (ℕ × List F × Loop lib)) (w n p : ℕ) (out : List F) → Type 0
  Loops r w n p out = (m : ℕ) × Ends content channels At r n p m out × IsServed channels total w p m

  Loops-now :
      (r : Run (ℕ × List F × Loop lib)) (l : Loop lib) (w n p : ℕ) (out : List F)
      → r ≡ ret (n, out, l)
      → At l p
      → p ≤ total
      → (p ≡ total) ⊎ (w < channels)
      → Loops r w n p out
  Loops-now r l w n p out e a within h = (
    0,
    Ends-now content channels At r l n p 0 out e a refl,
    record {
      wanted_most = omega arith;
      inside = omega arith;
      short = λ c some_wanted. omega arith;
      all = elim h [ inl x ↦ inl (omega (arith, x)) | inr x ↦ inr (omega (arith, x)) ];
    },
  )

  longer :
      (n p k : ℕ) (out : List F)
      → length out ≡ n * channels
      → length (out ++ interleave content channels p k) ≡ (n + k) * channels
  longer n p k out len = grind (
    arith,
    len,
    length-append out (interleave content channels p k),
    length-interleave content channels p k,
  )

  read_frames_lem :
      (fuel wanted : ℕ) (l : Loop lib) (n p : ℕ) (out : List F)
      → At l p
      → p ≤ total
      → n ≤ wanted
      → length out ≡ n * channels
      → file.effort l.file < fuel
      → Loops (read_frames lib fuel wanted (wanted * channels) l n out) (wanted - n) n p out
  unfolding read_frames
  read_frames_lem zero wanted l n p out a within room len fuels = absurd (omega arith)
  read_frames_lem (suc fuel) wanted l n p out a within room len fuels = elim (dec_lt n wanted) [
    | no all ↦
        Loops-now _ l _ n p out (rw (le→ltb n wanted (omega (arith, all))) refl) a within
          (inr (omega (arith, all, file.some_channels)))
    | yes more ↦ elim (dec_lt (wanted - n) channels) [
      | yes small ↦
          let (g, e, b) = file.stops l.file p (wanted - n) a.1 (inl small) in
          Loops-now _ (record l { file = g }) _ n p out
            (round_stop fuel wanted (wanted * channels) l n out more g e) (a.0, b) within
            (inr small)
      | no big ↦ elim (dec_lt p total) [
        | no ended ↦
            let (g, e, b) =
              file.stops l.file p (wanted - n) a.1 (inr (omega (arith, ended, within))) in
            Loops-now _ (record l { file = g }) _ n p out
              (round_stop fuel wanted (wanted * channels) l n out more g e) (a.0, b) within
              (inl (omega (arith, ended, within)))
        | yes left ↦
            let (g, answer, less) =
              file.reads l.file p (wanted - n) a.1 (omega (arith, big)) left in
            elim answer [
              | inl (e, b) ↦
                  let (m, h, s) =
                    read_frames_lem fuel wanted (record l { file = g }) n p out (a.0, b) within room
                      len (omega (arith, less, fuels)) in
                  (
                    m,
                    Ends-same content channels At _ _ n p m out
                        (round_hole fuel wanted (wanted * channels) l n out more g e) h,
                    s,
                  )
              | inr (k, section, e, some_frames, fits, inside, b) ↦
                  let (m, h, s) =
                    read_frames_lem fuel wanted (record l { file = g }) (n + k) (p + k)
                      (out ++ interleave content channels p k) (a.0, b) inside
                      (omega
                        (arith, more, fewer channels total file.some_channels k (wanted - n) fits))
                      (longer n p k out len) (omega (arith, less, fuels)) in
                  (
                    k + m,
                    Ends-later content channels At _ _ n p k (k + m) m out
                        (round_frames fuel wanted (wanted * channels) l n out more g p k section e
                          some_frames
                          (omega (
                            arith,
                            len,
                            room_left channels total file.some_channels n k wanted room fits,
                          ))
                          a.0)
                        h refl,
                    IsServed-later channels total file.some_channels (wanted - n) (wanted - (n + k))
                        p k m
                        (omega (
                          arith,
                          more,
                          fewer channels total file.some_channels k (wanted - n) fits,
                        ))
                        some_frames fits s,
                  )
            ]
      ]
    ]
  ]

  decoded :
      (fuel wanted count : ℕ) (d : Opus lib) (l : Loop lib) (f g : lib.File) (samples : List F)
      → d.channels ≡ pos channels
      → d.file ≡ some f
      → lib.pcm_seek f d.frame_index ≡ (pos 0, g)
      → read_frames lib fuel wanted
          (wanted * channels)
          (record { file = g; channels = channels })
          0
          []
        ≡ ret (count, samples, l)
      → decode lib fuel wanted d
        ≡ ret (
          record { frame_index = d.frame_index; frame_count = count; samples = samples },
          record d {
            file = some l.file;
            channels = pos l.channels;
            frame_index = d.frame_index + count;
          },
        )
  unfolding decode decode_channels seek
  decoded fuel wanted count d l f g samples c is_open sought e = rw (c, is_open, sought, e) refl

  -- From a file of which the library can seek and decode every frame, `decode` ends and delivers
  -- frames from the decoder's index on, channel by channel, and moves the index behind them. They
  -- are at most what is wanted, and stop short by less than the number of channels, or at the end;
  -- of more than one channel, some frame is always left out, since the size of the buffer is given
  -- in frames where the library counts values.
  pub opus-decode :
      (d : Opus lib) (f : lib.File) (p wanted : ℕ)
      → d.channels ≡ pos channels
      → d.file ≡ some f
      → file.At f p
      → d.frame_index ≤ total
      → (m : ℕ) × (d' : Opus lib) × (decode lib (suc file.most) wanted d
          ≡ ret (
            record {
              frame_index = d.frame_index;
              frame_count = m;
              samples = interleave content channels d.frame_index m;
            },
            d',
          ))
        × (d'.frame_index ≡ d.frame_index + m)
        × IsServed channels total wanted d.frame_index m
  opus-decode d f p wanted c is_open a within =
      let (g, e, b) = file.seeks f p d.frame_index a within in
      let (m, h, s) =
        read_frames_lem (suc file.most) wanted (record { file = g; channels = channels }) 0
          d.frame_index [] (refl, b) within (omega arith) (omega arith)
          (omega (arith, file.bounded g d.frame_index b)) in
      let count : h.count ≡ m = omega (arith, h.counted) in
      let d' : Opus lib = record d {
        file = some h.after.file;
        channels = pos h.after.channels;
        frame_index = d.frame_index + h.count;
      } in
      (
        m,
        d',
        decoded (suc file.most) wanted h.count d h.after f g h.samples c is_open e h.returns
            ∙ ap
                (λ t. ret (
                  record { frame_index = d.frame_index; frame_count = t; samples = h.samples },
                  d',
                ))
                count
            ∙ ap
                (λ t.
                  ret (record { frame_index = d.frame_index; frame_count = m; samples = t }, d'))
                h.in_order,
        omega (arith, count),
        rw (wanted_all wanted) at s,
      )
    where
      wanted_all : (w : ℕ) → w - 0 ≡ w
      wanted_all w = omega arith
