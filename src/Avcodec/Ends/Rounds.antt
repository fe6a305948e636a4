-- ===== src/Avcodec/Ends/Rounds.antt =====
-- What a packet that is sent leaves of the rounds of runDecodeThread.
use nfdecoder.Base.{
  ℕ, zero, suc, ◌+◌, ◌<◌, ◌≤◌, ◌≡◌, refl, ◌∙◌, ◌⊎◌, inl, inr, arith, if◌then◌else◌, Bool, true,
  false, Option, none, some, Bool-cases,
}
use nfdecoder.Base.Int.{◌==ℤ◌, failed}
use nfdecoder.Base.Run.{Run, ret}
use nfdecoder.Provider.{DataProvider}
use nfdecoder.Avcodec.{Libav, Times}
use nfdecoder.Avcodec.Decode.{Decoding, receive_frames, send}
use nfdecoder.Avcodec.Ends.{ComesToEnd, Going, Going-codec, on_frame-ends}

module _ {F : Type 0} (lib : Libav F) (P : DataProvider) (times : Times)
    (file : ComesToEnd lib) where
  abbrev L : Type 0
  L = Decoding lib P times none

  receive_frames-ends :
      (fuel wanted start : ℕ) (p : lib.Packet) (f : lib.Format) (c c0 : lib.Codec) (l : L)
      → Going lib P times f c0 l
      → file.held c < fuel
      → (l' : L) × (c' : lib.Codec) × (receive_frames lib P times none fuel wanted start
            (some p)
            c
            l
          ≡ ret l')
        × Going lib P times f c' l'
        × (l'.drain ≡ l.drain)
  unfolding receive_frames
  receive_frames-ends zero wanted start p f c c0 l g enough = absurd (omega (arith, enough))
  receive_frames-ends (suc fuel) wanted start p f c c0 l g enough =
      let (error_code, frame, codec') = lib.receive_frame c in
      let l1 : L = record l { decoder = record l.decoder { codec = some codec' } } in
      let g1 : Going lib P times f codec' l1 = Going-codec lib P times f c0 codec' l g in
      elim (file.receives c) [
        | inl e ↦ (l1, codec', rw e refl, g1, refl)
        | inr (e, less) ↦
            let (l2, q, g2, d2) = on_frame-ends lib P times wanted start p frame f codec' l1 g1 in
            let (l3, c3, q3, g3, d3) =
              receive_frames-ends fuel wanted start p f codec' codec' l2 g2
                (omega (arith, less, enough)) in
            (l3, c3, rw (e, q) q3, g3, d3 ∙ d2)
      ]

  -- The rounds that are left at most.
  abbrev pub budget : lib.Format → lib.Codec → Bool → ℕ
  budget f c drain = if drain then file.left f + file.effort c else file.left f + file.most + 1

  -- The codec of the decoder has reported the end, in the last call of it.
  abbrev pub Ended : L → Type 0
  Ended l =
      (c : lib.Codec) × (p : Option lib.Packet) × ((lib.send_packet c p).0 ==ℤ lib.averror_eof
        ≡ true)
      × (l.decoder.codec ≡ some (lib.send_packet c p).1)
      × (l.drain ≡ true)

  -- A round that goes on leaves fewer rounds; else the codec has reported the end.
  abbrev pub Progress : ℕ → Run (Bool × L) → Type 0
  Progress n r =
      ((l : L) × (r ≡ ret (false, l)) × Ended l)
      ⊎ ((l : L) × (f : lib.Format) × (c : lib.Codec) × (r ≡ ret (true, l))
          × Going lib P times f c l
          × (budget f c l.drain < n))

  pub send_packet-ends :
      (fuel wanted start n : ℕ) (p : lib.Packet) (f : lib.Format) (c : lib.Codec) (l : L)
      → Going lib P times f c l
      → l.drain ≡ false
      → file.most < fuel
      → file.left f + file.most + 1 < n
      → Progress n (send lib P times none fuel wanted start (some p) l)
  unfolding send
  send_packet-ends fuel wanted start n p f c l g on enough less =
      let (error_code, c') = lib.send_packet c (some p) in
      let l1 : L = record l { decoder = record l.decoder { codec = some c' } } in
      let g1 = Going-codec lib P times f c c' l g in
      elim (Bool-cases (error_code ==ℤ lib.averror_eof)) [
        | inl e ↦
            inl (record l1 { drain = true }, rw (g.has_codec, e) refl, (c, some p, e, refl, refl))
        | inr e ↦ elim (Bool-cases (failed error_code)) [
          | inl e' ↦ inr (l1, f, c', rw (g.has_codec, e, e') refl, g1, rw on less)
          | inr e' ↦
              let (l2, c2, q, g2, d2) =
                receive_frames-ends fuel wanted start p f c' c' l1 g1
                  (omega (arith, file.held_most c', enough)) in
              inr (l2, f, c2, rw (g.has_codec, e, e', q) refl, g2, rw (d2, on) less)
        ]
      ]

  receive_nothing :
      (fuel wanted start : ℕ) (c : lib.Codec) (l : L)
      → failed (lib.receive_frame c).0 ≡ true
      → receive_frames lib P times none (suc fuel) wanted start none c l
        ≡ ret (record l { decoder = record l.decoder { codec = some (lib.receive_frame c).2 } })
  unfolding receive_frames
  receive_nothing fuel wanted start c l e = rw e refl

  pub send_nothing-ends :
      (fuel wanted start n : ℕ) (f : lib.Format) (c : lib.Codec) (l : L)
      → Going lib P times f c l
      → l.drain ≡ true
      → file.left f + file.effort c ≤ n
      → Progress n (send lib P times none (suc fuel) wanted start none l)
  unfolding send
  send_nothing-ends fuel wanted start n f c l g off less =
      let (error_code, c') = lib.send_packet c none in
      let c2 = (lib.receive_frame c').2 in
      let l1 : L = record l { decoder = record l.decoder { codec = some c' } } in
      let l2 : L = record l { decoder = record l.decoder { codec = some c2 } } in
      elim (file.ends c) [
        | inl e ↦
            inl (record l1 { drain = true }, rw (g.has_codec, e) refl, (c, none, e, refl, refl))
        | inr (fewer, fewer') ↦ elim (Bool-cases (error_code ==ℤ lib.averror_eof)) [
          | inl e ↦
              inl (record l1 { drain = true }, rw (g.has_codec, e) refl, (c, none, e, refl, refl))
          | inr e ↦ elim (Bool-cases (failed error_code)) [
            | inl e' ↦ inr (
              l1,
              f,
              c',
              rw (g.has_codec, e, e') refl,
              Going-codec lib P times f c c' l g,
              rw off (omega (arith, less, fewer)),
            )
            | inr e' ↦ inr (
              l2,
              f,
              c2,
              rw
                  (
                    g.has_codec,
                    e,
                    e',
                    receive_nothing fuel wanted start c' l1 (file.nothing_delayed c),
                  )
                  refl,
              Going-codec lib P times f c c2 l g,
              rw off (omega (arith, less, fewer')),
            )
          ]
        ]
      ]
