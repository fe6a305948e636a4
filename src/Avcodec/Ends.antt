-- ===== src/Avcodec/Ends.antt =====
-- runDecodeThread comes to an end, where libav and the data provider do and nothing is delayed.
pub mod Rounds
pub mod Whole
use mathlib.Core.Path.{subst}
use nfdecoder.Base.{
  ℕ, zero, suc, ◌+◌, ◌-◌, ◌*◌, ◌/◌, ◌==◌, ◌<◌, ◌≤◌, ◌≡◌, refl, sym, ap, ◌∙◌, ◌⊎◌, inl, inr, arith,
  ltb, leb, min, if◌then◌else◌, Bool, true, false, ◌&&◌, ◌||◌, not, Option, none, some, List, [],
  ◌∷◌, length, Bool-cases,
}
use nfdecoder.Base.Frames.{Decoded}
use nfdecoder.Base.Int.{ℤ, pos, ◌==ℤ◌, failed}
use nfdecoder.Base.Run.{Run, ret, fault, or_fault, ◌>>=◌, Keeps-inv}
use nfdecoder.Provider.{DataProvider, Reading}
use nfdecoder.Avcodec.{
  Libav, Times, Decrypter, Avcodec, AvStream, Io, finished, reading, seeking, asking_size,
  avio_read, avio_seek, run_io,
}
use nfdecoder.Avcodec.Decode.{
  Decoding, move_decoded, take_block, clip_frames, if_positive, place, on_frame, receive_frames,
  prepare, decrypt, send, handle, round, decode_packets, finish, decode,
}
use nfdecoder.Avcodec.Order.{Delivers, decode-Delivers_in_order}
use nfdecoder.Avcodec.Reports.{IsReady}

-- Whatever the callbacks answer, the call ends with a result that satisfies `Q`.
unfoldable pub Always : {A : Type 0} → (A → Type 0) → Io A → Type 0
Always Q (finished a) = Q a
Always Q (reading n k) = (r : ℕ × List ℕ) → Always Q (k r)
Always Q (seeking offset whence k) = (v : ℤ) → Always Q (k v)
Always Q (asking_size k) = (v : ℤ) → Always Q (k v)

-- A file that comes to its end, in a codec that gives all frames of a packet before the next one is
-- sent. `left` is how often the file can be read before its end, `held` how many frames the codec
-- holds, and `effort` how often it takes a null packet before it reports the end.
pub record ComesToEnd {F : Type 0} (lib : Libav F) : Type 0 where
  pub left : lib.Format → ℕ
  pub held : lib.Codec → ℕ
  pub effort : lib.Codec → ℕ
  pub most : ℕ
  pub held_most : (c : lib.Codec) → held c ≤ most
  pub effort_most : (c : lib.Codec) → effort c ≤ most
  pub reads :
      (f : lib.Format)
      → Always
          (λ r.
            ((r.0 ==ℤ lib.averror_eof ≡ true) × (left r.2 ≤ left f))
            ⊎ ((r.0 ==ℤ lib.averror_eof ≡ false) × (left r.2 < left f)))
          (lib.read_frame f)
  pub receives :
      (c : lib.Codec)
      → (failed (lib.receive_frame c).0 ≡ true)
        ⊎ ((failed (lib.receive_frame c).0 ≡ false) × (held (lib.receive_frame c).2 < held c))
  pub nothing_delayed :
      (c : lib.Codec) → failed (lib.receive_frame (lib.send_packet c none).1).0 ≡ true
  pub ends :
      (c : lib.Codec)
      → ((lib.send_packet c none).0 ==ℤ lib.averror_eof ≡ true)
        ⊎ ((effort (lib.send_packet c none).1 < effort c)
            × (effort (lib.receive_frame (lib.send_packet c none).1).2 < effort c))

-- A read of bytes is always defined.
abbrev pub IsTotal : DataProvider → Type 0
IsTotal P = (s : P.State) (n : ℕ) → (r : Reading P.State) × (P.read s 1 n ≡ some r)

module _ {F : Type 0} (lib : Libav F) (P : DataProvider) (times : Times) where
  abbrev pub L : Type 0
  L = Decoding lib P times none

  -- The decoder is on a format and a codec, with a resampler and a stream.
  pub record Going (f : lib.Format) (c : lib.Codec) (l : L) : Type 0 where
    pub has_format : l.decoder.format ≡ some f
    pub has_codec : l.decoder.codec ≡ some c
    pub resampler : lib.Resampler
    pub has_resampler : l.decoder.resampler ≡ some resampler
    pub stream : AvStream
    pub has_stream : l.decoder.stream ≡ some stream
    pub timed : (stream.time_base_num == 0) ≡ false

  -- The parts of a decoding that `Going` and the end of the file are about.
  abbrev Alike : L → L → Type 0
  Alike l l' =
      (l'.decoder.format ≡ l.decoder.format)
      × (l'.decoder.codec ≡ l.decoder.codec)
      × (l'.decoder.resampler ≡ l.decoder.resampler)
      × (l'.decoder.stream ≡ l.decoder.stream)
      × (l'.drain ≡ l.drain)

  pub move_decoded-Alike : (wanted : ℕ) (l : L) → Alike l (move_decoded lib P times none wanted l)
  unfolding move_decoded
  move_decoded-Alike wanted l = ground arith

  take_block-Alike :
      (wanted start : ℕ) (z : ℤ) (n : ℕ) (block : ℕ → ℕ → F) (l : L)
      → Alike l (take_block lib P times none wanted start z n block l)
  unfolding take_block
  take_block-Alike wanted start z n block l =
      elim (Bool-cases (leb n (clip_frames lib P times none start z l))) [
        | inl e ↦ rw e (refl, refl, refl, refl, refl)
        | inr e ↦ rw e (move_decoded-Alike wanted _)
      ]

  pub Going-Alike :
      (f : lib.Format) (c : lib.Codec) (l l' : L) → Going f c l → Alike l l' → Going f c l'
  Going-Alike f c l l' g (ef, ec, er, es, ed) = record {
    has_format = ef ∙ g.has_format;
    has_codec = ec ∙ g.has_codec;
    resampler = g.resampler;
    has_resampler = er ∙ g.has_resampler;
    stream = g.stream;
    has_stream = es ∙ g.has_stream;
    timed = g.timed;
  }

  pub Going-codec :
      (f : lib.Format) (c c' : lib.Codec) (l : L)
      → Going f c l
      → Going f c' (record l { decoder = record l.decoder { codec = some c' } })
  Going-codec f c c' l g = record {
    has_format = g.has_format;
    has_codec = refl;
    resampler = g.resampler;
    has_resampler = g.has_resampler;
    stream = g.stream;
    has_stream = g.has_stream;
    timed = g.timed;
  }

  place-ends :
      (wanted start n : ℕ) (p : lib.Packet) (block : ℕ → ℕ → F) (f : lib.Format) (c : lib.Codec)
      (l : L)
      → Going f c l
      → (l' : L) × (place lib P times none wanted start (some p) n block l ≡ ret l')
        × Going f c l'
        × (l'.drain ≡ l.drain)
  unfolding place
  place-ends wanted start n p block f c l g =
      let s = g.stream in
      let z = times.frames_of (lib.pts p) (s.time_base_den / s.time_base_num) s.sample_rate in
      let (ef, ec, er, es, ed) = take_block-Alike wanted start z n block l in
      (
        take_block lib P times none wanted start z n block l,
        rw (g.has_stream, g.timed) refl,
        Going-Alike f c l _ g (ef, ec, er, es, ed),
        ed,
      )

  pub on_frame-ends :
      (wanted start : ℕ) (p : lib.Packet) (frame : lib.Frame) (f : lib.Format) (c : lib.Codec)
      (l : L)
      → Going f c l
      → (l' : L) × (on_frame lib P times none wanted start (some p) frame l ≡ ret l')
        × Going f c l'
        × (l'.drain ≡ l.drain)
  unfolding on_frame
  on_frame-ends wanted start p frame f c l g =
      elim (Bool-cases (ltb 0 (if_positive (lib.nb_samples frame)))) [
        | inr e ↦ (l, rw e refl, g, refl)
        | inl e ↦
            let (n, block, resampler') = lib.convert g.resampler frame in
            let l' : L = record l { decoder = record l.decoder { resampler = some resampler' } } in
            let g' : Going f c l' = record {
              has_format = g.has_format;
              has_codec = g.has_codec;
              resampler = resampler';
              has_resampler = refl;
              stream = g.stream;
              has_stream = g.has_stream;
              timed = g.timed;
            } in
            elim (Bool-cases (ltb 0 (if_positive n))) [
              | inr e' ↦ (l', rw (e, g.has_resampler, e') refl, g', refl)
              | inl e' ↦
                  let (l'', q, g'', d) =
                    place-ends wanted start (if_positive n) p block f c l' g' in
                  (l'', rw (e, g.has_resampler, e') q, g'', d)
            ]
      ]
