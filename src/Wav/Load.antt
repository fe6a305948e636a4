-- ===== src/Wav/Load.antt =====
-- `load` of a WAVE file on a stream: what it reports and what the decoder holds then.
use nfdecoder.Base.{
  ℕ, suc, ◌+◌, ◌*◌, ◌/◌, ◌^◌, ◌<◌, ◌≤◌, ◌≡◌, refl, ap, ◌∙◌, sym, arith, Bool, true, false, some,
  List, [], ◌∷◌, ◌++◌, drop, length, All, length-drop, drop-append, lt→ltb,
}
use nfdecoder.Base.Int.{pos}
use nfdecoder.Base.Bytes.{u32_bytes}
use nfdecoder.Base.Event.{Event, done}
use nfdecoder.Base.Run.{Run, ret, ◌>>=◌}
use nfdecoder.Provider.{DataProvider, IsStream, seek_set}
use nfdecoder.Provider.Stream.{read_prefix}
use nfdecoder.Wav.{
  Wav, chunk_type_is, fmt_type, data_type, find_chunks, header_errors, load, seek, byte_offset,
  finish,
}
use nfdecoder.Wav.Fmt
use nfdecoder.Wav.Layout.{Chunk, IsOther, chunks_bytes}
use nfdecoder.Wav.Loop.{round, find_others, find_done}
use nfdecoder.Wav.Chunks.{Stands, take_format, formatted, take_samples, measured, fill_whole}

-- A file as the decoder expects it: other chunks may stand before the format and before the data.
-- `fmt` is the size of the format chunk, which the decoder does not look at, and the 16 bytes of
-- its body; a longer body, and the padding byte behind a body of odd size, would be taken for the
-- next chunk.
pub record WaveFile : Type 0 where
  pub header : List ℕ
  pub before : List Chunk
  pub fmt : List ℕ
  pub between : List Chunk
  pub samples : List ℕ
  pub rest : List ℕ

abbrev pub frame_bytes : List ℕ → ℕ
frame_bytes fmt = Fmt.bit_depth fmt / 8 * Fmt.channels fmt

pub record IsWaveFile (f : WaveFile) : Type 0 where
  pub header_size : length f.header ≡ 12
  pub before_others : All IsOther f.before
  pub fmt_size : length f.fmt ≡ 20
  pub some_frame : 0 < frame_bytes f.fmt
  pub between_others : All IsOther f.between
  pub small : length f.samples < 2 ^ 32

abbrev data_part : WaveFile → List ℕ
data_part f = data_type ++ (u32_bytes (length f.samples) ++ (f.samples ++ f.rest))

abbrev fmt_part : WaveFile → List ℕ
fmt_part f = fmt_type ++ (f.fmt ++ chunks_bytes f.between (data_part f))

abbrev pub file_bytes : WaveFile → List ℕ
file_bytes f = f.header ++ chunks_bytes f.before (fmt_part f)

-- One round of the loop for each chunk up to the data chunk.
abbrev pub rounds : WaveFile → ℕ
rounds f = length f.before + length f.between + 2

-- What the decoder holds after `load`: the format, the length, and where the samples begin.
pub record IsLoaded (P : DataProvider) (f : WaveFile) (w : Wav P) : Type 0 where
  pub format : w.fmt ≡ f.fmt
  pub channels : w.channels ≡ Fmt.channels f.fmt
  pub sample_rate : w.sample_rate ≡ Fmt.sample_rate f.fmt
  pub frame_count : w.frames ≡ length f.samples / frame_bytes f.fmt
  pub at_start : w.frame_index ≡ 0
  pub samples_begin : drop w.data_offset (file_bytes f) ≡ f.samples ++ f.rest

module _ (P : DataProvider) (f : WaveFile) (v : IsWaveFile f)
    (stream : IsStream P (file_bytes f)) where
  abbrev Here : Wav P → ℕ → List ℕ → Type 0
  Here w p left = Stands P (file_bytes f) stream w p × (drop p (file_bytes f) ≡ left)

  -- The loop ends with both chunks found, and nothing of `w` but what a data chunk sets has
  -- changed.
  abbrev Found : Run (Bool × Wav P) → Wav P → Type 0
  Found r w =
      (s : P.State) × (q : ℕ) × (r
        ≡ ret (true, measured P w s (length f.samples) q (frame_bytes f.fmt)))
      × (drop q (file_bytes f) ≡ f.samples ++ f.rest)
      × (q ≤ length (file_bytes f))
      × stream.At s (q + length f.samples)

  Found-trans : {r r' : Run (Bool × Wav P)} (w : Wav P) → r ≡ r' → Found r' w → Found r w
  Found-trans w e (s, q, ends, there, within, at_end) = (s, q, e ∙ ends, there, within, at_end)

  module _ (u : ℕ → List ℕ) (fuel : ℕ) where
    -- From the data chunk on.
    find_data :
        (w : Wav P) (p : ℕ)
        → Here w p (data_part f)
        → w.frame_size ≡ some (frame_bytes f.fmt)
        → Found (find_chunks P (suc fuel) true false w u) w
    unfolding chunk_type_is
    find_data w p (a, e) sized =
        let (t, read, b, after) =
          take_samples P (file_bytes f) stream w p (frame_bytes f.fmt) (u fuel) f.samples f.rest a
            sized v.some_frame v.small e in
        (
          t,
          p + 8,
          round P (file_bytes f) stream fuel true false _ _ u refl read
              ∙ find_done P (file_bytes f) stream fuel _ u,
          after,
          omega (arith, ap length e, length-drop p (file_bytes f)),
          b,
        )

    -- From behind the format chunk on.
    find_between :
        (w : Wav P) (p : ℕ)
        → Here w p (chunks_bytes f.between (data_part f))
        → w.frame_size ≡ some (frame_bytes f.fmt)
        → Found (find_chunks P (length f.between + suc fuel) true false w u) w
    find_between w p (a, e) sized =
        let (t, type, q, loops, b, after) =
          find_others P (file_bytes f) stream f.between (suc fuel) true false w p u (data_part f)
            refl a v.between_others e in
        Found-trans w loops
          (find_data (record w { provider = t; chunk_type = type }) q (b, after) sized)

    -- From the format chunk on.
    find_format :
        (w : Wav P) (p : ℕ)
        → Here w p (fmt_part f)
        → Found
            (find_chunks P (suc (length f.between + suc fuel)) false false w u)
            (formatted P w w.provider f.fmt)
    unfolding chunk_type_is
    find_format w p (a, e) =
        let (t, read, b, after) =
          take_format P (file_bytes f) stream w p (u (length f.between + suc fuel)) f.fmt _ a
            v.fmt_size e in
        Found-trans (formatted P w t f.fmt)
          (round P (file_bytes f) stream (length f.between + suc fuel) false false _ _ u refl read)
          (find_between (formatted P w t f.fmt) (p + 24)
            (record { there = b; type_buffer = refl; fmt_buffer = v.fmt_size }, after) refl)

    -- From the first chunk on.
    find_both :
        (w : Wav P) (p : ℕ)
        → Here w p (chunks_bytes f.before (fmt_part f))
        → Found
            (find_chunks P (length f.before + suc (length f.between + suc fuel)) false false w u)
            (formatted P w w.provider f.fmt)
    find_both w p (a, e) =
        let (t, type, q, loops, b, after) =
          find_others P (file_bytes f) stream f.before (suc (length f.between + suc fuel)) false
            false w p u (fmt_part f) refl a v.before_others e in
        Found-trans (formatted P w w.provider f.fmt) loops
          (find_format (record w { provider = t; chunk_type = type }) q (b, after))

  -- The seek to the first frame goes to where the samples begin.
  seek_start :
      (w : Wav P)
      → w.data_offset < 2 ^ 63
      → seek P w 0 ≡ record w {
        provider = (P.seek w.provider (pos w.data_offset) seek_set).1;
        frame_index = 0;
      }
  unfolding seek
  seek_start w small =
      let offset : byte_offset P w 0 ≡ w.data_offset = omega arith in rw (offset, lt→ltb _ _ small)

  -- The decoder whose header has been read and whose loop ended with `s` and `q`; then after
  -- `load`.
  abbrev found_both : Wav P → P.State → ℕ → Wav P
  found_both w s q =
      record (measured P (formatted P w s f.fmt) s (length f.samples) q (frame_bytes f.fmt)) {
        header = f.header;
      }

  abbrev loaded : Wav P → P.State → ℕ → Wav P
  loaded w s q = record (found_both w s q) {
    provider = (P.seek s (pos q) seek_set).1;
    frame_index = 0;
  }

  after_header :
      (w : Wav P) (s : P.State) (u : ℕ → List ℕ) (fuel : ℕ)
      → Stands P (file_bytes f) stream (record w { provider = s; header = f.header }) 12
      → (w' : Wav P) × (◌>>=◌ {B = List (Event Bool) × Wav P}
            (find_chunks P
              (rounds f + fuel)
              false
              false
              (record w { provider = s; header = f.header })
              u)
            (λ found. ret (finish P (header_errors f.header) found))
          ≡ ret (header_errors f.header ++ (done true ∷ []), w'))
        × IsLoaded P f w'
        × stream.At w'.provider w'.data_offset
  unfolding finish
  after_header w s u fuel a =
      let (t, q, ends, there, within, at_end) =
        find_both u fuel (record w { provider = s; header = f.header }) 12
          (a, drop-append 12 f.header _ (sym v.header_size)) in
      let count : rounds f + fuel ≡ length f.before + suc (length f.between + suc fuel) =
        omega arith in
      (
        loaded w t q,
        rw (count, ends, seek_start (found_both w t q) (omega (arith, within, stream.small))),
        record {
          format = refl;
          channels = refl;
          sample_rate = refl;
          frame_count = refl;
          at_start = refl;
          samples_begin = there;
        },
        stream.seeks t (q + length f.samples) q at_end within,
      )

  -- On a stream of a file with a format chunk of 16 bytes and frames that are not empty and, behind
  -- it, a data chunk, and other chunks before and between, the body of each as long as its size
  -- says and without a padding byte, `load` ends within a round for each chunk, reports success,
  -- after the reports on a header that is not RIFF or not WAVE, and stands at the first sample with
  -- the format, the channels, the rate and the length of the file.
  pub load_lem :
      (w : Wav P) (u : ℕ → List ℕ) (fuel : ℕ)
      → Stands P (file_bytes f) stream w 0
      → length w.header ≡ 12
      → (w' : Wav P) × (load P (rounds f + fuel) w u
          ≡ ret (header_errors f.header ++ (done true ∷ []), w'))
        × IsLoaded P f w'
        × stream.At w'.provider w'.data_offset
  unfolding load
  load_lem w u fuel a h =
      let (s, answer, b) =
        read_prefix P (file_bytes f) stream w.provider 0 12 1 f.header _ a.there refl (omega arith)
          (omega arith) (omega (arith, v.header_size)) in
      rw (answer, fill_whole w.header f.header (omega (arith, h, v.header_size)))
        (after_header w s u fuel
          (record { there = b; type_buffer = a.type_buffer; fmt_buffer = a.fmt_buffer }))
