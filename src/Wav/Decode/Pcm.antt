-- ===== src/Wav/Decode/Pcm.antt =====
-- What `decode` delivers.
use native.Mathlib.Nat.{mul-div_cancel_left}
use nfdecoder.Base.{
  ℕ, ◌+◌, ◌*◌, ◌/◌, ◌<◌, ◌≡◌, ◌≢◌, refl, arith, sym, ◌==◌, leb, if◌then◌else◌, Bool, true, false,
  ◌||◌, some, List, ◌++◌, map, drop, length, replicate, inl, inr, Option-cases, append-nil,
  drop_all, length-replicate, le→ltb, lt→leb, ne→==,
}
use nfdecoder.Base.Run.{ret, fault, unfinished, or_fault}
use nfdecoder.Provider.{DataProvider, Reading, IsStream}
use nfdecoder.Provider.Stream.{read_prefix}
use nfdecoder.Wav.{Wav}
use nfdecoder.Wav.Fmt
use nfdecoder.Wav.Decode.{
  Floats, Width, uint8, int16, int32, bytes_of, words, scaled, Decoded, receive, decode_float,
  decode_pcm, decode_width, decode, nothing, Result,
}

width_pos : (width : Width) → 0 < bytes_of width
width_pos uint8 = omega arith
width_pos int16 = omega arith
width_pos int32 = omega arith

module _ (floats : Floats) (P : DataProvider) where
  Keeps : Wav P → Result floats P → Type 0
  Keeps w (ret (d, v)) = (d.frame_index ≡ w.frame_index) × (v.frame_index ≡ w.frame_index)
  Keeps w fault = Unit {0}
  Keeps w unfinished = Unit {0}

  decode_float-Keeps : (w : Wav P) (n : ℕ) → Keeps w (decode_float floats P w n)
  unfolding decode_float receive Keeps
  decode_float-Keeps w n =
      elim (Option-cases (P.read w.provider (Fmt.sample_size w.fmt * w.channels) n)) [
        | inl e ↦ rw (e, or_fault) tt
        | inr (r, e) ↦ rw e (ground arith)
      ]

  decode_pcm-Keeps : (width : Width) (w : Wav P) (n : ℕ) → Keeps w (decode_pcm floats P width w n)
  unfolding decode_pcm receive Keeps
  decode_pcm-Keeps width w n = ground arith

  nothing-Keeps : (w : Wav P) → Keeps w (nothing floats P w)
  unfolding Keeps
  nothing-Keeps w = (refl, refl)

  -- A test between two results that keep the index.
  either :
      (w : Wav P) (b : Bool) (x y : Result floats P)
      → Keeps w x
      → Keeps w y
      → Keeps w (if b then x else y)
  either w true x y h k = h
  either w false x y h k = k

  decode_width-Keeps : (size : ℕ) (w : Wav P) (n : ℕ) → Keeps w (decode_width floats P size w n)
  unfolding decode_width
  decode_width-Keeps size w n = either w _ _ _ (decode_pcm-Keeps uint8 w n) (
      either w _ _ _ (decode_pcm-Keeps int16 w n)
        (either w _ _ _ (decode_pcm-Keeps int32 w n) (nothing-Keeps w)))

  decode-Keeps : (w : Wav P) (n : ℕ) → Keeps w (decode floats P w n)
  unfolding decode
  decode-Keeps w n = either w (leb w.frames w.frame_index) _ _ (nothing-Keeps w) (
      either w (n == 0) _ _ (nothing-Keeps w) (
        either w (w.channels == 0) _ _ (nothing-Keeps w) (
          either w (Fmt.sample_size w.fmt == 0 || Fmt.audio_format w.fmt == 0) _ _ (nothing-Keeps w)
            (either w (Fmt.audio_format w.fmt == 3) _ _ (decode_float-Keeps w n)
              (decode_width-Keeps (Fmt.sample_size w.fmt) w n)))))

  -- No branch of `decode` moves the frame index: every callback reports the index of the last seek,
  -- and the decoder keeps it.
  pub decode-frame_index :
      (w v : Wav P) (n : ℕ) (d : Decoded (floats.Float))
      → decode floats P w n ≡ ret (d, v)
      → (d.frame_index ≡ w.frame_index) × (v.frame_index ≡ w.frame_index)
  unfolding Keeps
  decode-frame_index w v n d e = rw e at (decode-Keeps w n)

  module _ (content : List ℕ) (stream : IsStream P content) where
    -- A decoder that stands inside its file, before `left`, and is asked for some frames.
    pub record IsReady (w : Wav P) (p n : ℕ) (samples rest : List ℕ) : Type 0 where
      pub there : stream.At w.provider p
      pub left : drop p content ≡ samples ++ rest
      pub inside : w.frame_index < w.frames
      pub some_frames : 0 < n
      pub some_channels : 0 < w.channels

    pub receive_whole :
        (room : ℕ) (r : Reading P.State)
        → length r.bytes ≡ room
        → receive floats P room r ≡ ret r.bytes
    unfolding receive
    receive_whole room r e = rw (
      le→ltb room (length r.bytes) (omega arith),
      drop_all (length r.bytes) (replicate {A = ℕ} room 0)
          (omega (arith, length-replicate {A = ℕ} room 0)),
      append-nil r.bytes,
    )

    decode_pcm_lem :
        (width : Width) (w : Wav P) (p n : ℕ) (samples rest : List ℕ)
        → IsReady w p n samples rest
        → length samples ≡ bytes_of width * w.channels * n
        → (s : P.State) × (decode_pcm floats P width w n
            ≡ ret (
              record {
                frame_index = w.frame_index;
                frame_count = n;
                samples =
                    some
                      (map (scaled floats width) (words (n * w.channels) (bytes_of width) samples));
              },
              record w { provider = s },
            ))
          × stream.At s (p + length samples)
    unfolding decode_pcm receive
    decode_pcm_lem width w p n samples rest r e =
        let (s, answer, b) =
          read_prefix P content stream w.provider p (bytes_of width * w.channels) n samples rest
            r.there r.left item r.some_frames (sym e) in
        let reading : Reading P.State = record {
          value = bytes_of width * w.channels * n;
          bytes = samples;
          next = s;
        } in
        (
          s,
          rw (
            answer,
            receive_whole (n * w.channels * bytes_of width) reading whole,
            counted,
            le→ltb n n (omega arith),
          ),
          rw e b,
        )
      where
        item : 0 < bytes_of width * w.channels
        item = grind (arith, width_pos width, r.some_channels)

        counted : bytes_of width * w.channels * n / (bytes_of width * w.channels) ≡ n
        counted = mul-div_cancel_left n item

        whole : length samples ≡ n * w.channels * bytes_of width
        whole = omega (arith, e)

    -- The decoder of a file in one of the three integer formats.
    pub record IsPcm (w : Wav P) (width : Width) : Type 0 where
      pub sized : Fmt.sample_size w.fmt ≡ bytes_of width
      pub has_format : Fmt.audio_format w.fmt ≢ 0
      pub not_float : Fmt.audio_format w.fmt ≢ 3

    dispatch :
        (width : Width) (w : Wav P) (n p : ℕ) (samples rest : List ℕ)
        → IsReady w p n samples rest
        → IsPcm w width
        → decode floats P w n ≡ decode_pcm floats P width w n
    unfolding decode decode_width
    dispatch width w n p samples rest r f =
        rw
          (
            lt→leb w.frame_index w.frames r.inside,
            ne→== n 0 (omega (arith, r.some_frames)),
            ne→== w.channels 0 (omega (arith, r.some_channels)),
            ne→== (Fmt.sample_size w.fmt) 0 some_size,
            ne→== (Fmt.audio_format w.fmt) 0 f.has_format,
            ne→== (Fmt.audio_format w.fmt) 3 f.not_float,
            f.sized,
          )
          (by_width width)
      where
        some_size : Fmt.sample_size w.fmt ≢ 0
        some_size = omega (arith, f.sized, width_pos width)

        by_width :
            (width : Width)
            → decode_width floats P (bytes_of width) w n ≡ decode_pcm floats P width w n
        by_width uint8 = refl
        by_width int16 = refl
        by_width int32 = refl

    -- Standing before enough samples of an integer format, `decode` of some frames delivers exactly
    -- those frames, each sample of each channel centred and divided by the largest value of its
    -- type, and stands behind them.
    pub decode_lem :
        (width : Width) (w : Wav P) (p n : ℕ) (samples rest : List ℕ)
        → IsReady w p n samples rest
        → IsPcm w width
        → length samples ≡ bytes_of width * w.channels * n
        → (s : P.State) × (decode floats P w n
            ≡ ret (
              record {
                frame_index = w.frame_index;
                frame_count = n;
                samples =
                    some
                      (map (scaled floats width) (words (n * w.channels) (bytes_of width) samples));
              },
              record w { provider = s },
            ))
          × stream.At s (p + length samples)
    decode_lem width w p n samples rest r f e =
        rw (dispatch width w n p samples rest r f) (decode_pcm_lem width w p n samples rest r e)
