-- ===== src/Wav/Chunks.antt =====
-- One round of the chunk loop on a stream: another chunk is skipped, a format chunk sets the
-- format, a data chunk sets the length.
use nfdecoder.Base.{
  ℕ, ◌+◌, ◌*◌, ◌/◌, ◌%◌, ◌^◌, ◌<◌, ◌≤◌, ◌==◌, if◌then◌else◌, ◌≡◌, refl, ap, ◌∙◌, sym, arith, Bool,
  true, false, some, List, ◌++◌, drop, length, append-nil, drop_all, length-append, length-drop,
  Bool-cases, inl, inr,
}
use nfdecoder.Base.Int.{pos}
use nfdecoder.Base.Bytes.{fill, u32_at, u32_bytes}
use nfdecoder.Base.Run.{ret, ◌>>=◌}
use nfdecoder.Provider.{DataProvider, IsStream, seek_cur}
use nfdecoder.Provider.Stream.{read_prefix, beyond, room}
use nfdecoder.Wav.{
  Wav, chunk_type_is, fmt_type, data_type, read_chunk, read_body, take_other, take_fmt, take_data,
  count_frames, skip_body,
}
use nfdecoder.Wav.Fmt
use nfdecoder.Wav.Layout.{Chunk, IsOther}

u32_at-u32_bytes : (n : ℕ) → n < 2 ^ 32 → u32_at 0 (u32_bytes n) ≡ n
u32_at-u32_bytes n h = omega arith

pub fill_whole : (buffer bytes : List ℕ) → length buffer ≡ length bytes → fill buffer bytes ≡ bytes
fill_whole buffer bytes h = rw (drop_all (length bytes) buffer (omega arith)) (append-nil bytes)

module _ (P : DataProvider) where
  -- The decoder after a format chunk.
  abbrev pub formatted : Wav P → P.State → List ℕ → Wav P
  formatted w s fmt = record w {
    provider = s;
    chunk_type = fmt_type;
    fmt = fmt;
    frame_size = some (Fmt.bit_depth fmt / 8 * Fmt.channels fmt);
    channels = Fmt.channels fmt;
    sample_rate = Fmt.sample_rate fmt;
  }

  -- The decoder after a data chunk of `n` bytes whose samples begin at `q`.
  abbrev pub measured : Wav P → P.State → ℕ → ℕ → ℕ → Wav P
  measured w s n q size = record w {
    provider = s;
    chunk_type = data_type;
    data_bytes = n;
    frames = n / size;
    data_offset = q;
  }

module _ (P : DataProvider) (content : List ℕ) (stream : IsStream P content) where
  -- The decoder stands at `p`, and its buffers have their sizes.
  pub record Stands (w : Wav P) (p : ℕ) : Type 0 where
    pub there : stream.At w.provider p
    pub type_buffer : length w.chunk_type ≡ 4
    pub fmt_buffer : length w.fmt ≡ 20

  -- The type of the next chunk is read.
  read_type :
      (w : Wav P) (p : ℕ) (u type rest : List ℕ)
      → Stands w p
      → drop p content ≡ type ++ rest
      → length type ≡ 4
      → (s : P.State) × (read_chunk P w u
          ≡ read_body P (record w { provider = s; chunk_type = type }) u)
        × Stands (record w { provider = s; chunk_type = type }) (p + 4)
  unfolding read_chunk
  read_type w p u type rest a e four =
      let (s, answer, there) =
        read_prefix P content stream w.provider p 1 4 type rest a.there e (omega arith)
          (omega arith) (omega arith) in
      (
        s,
        rw (
          stream.goes_on w.provider p a.there inside,
          answer,
          fill_whole w.chunk_type type (omega (arith, a.type_buffer)),
        ),
        record { there = there; type_buffer = four; fmt_buffer = a.fmt_buffer },
      )
    where
      inside : p < length content
      inside = omega (arith, room P content stream p type rest e (omega arith))

  -- The provider after the body of a chunk of `n` bytes.
  abbrev pub behind : P.State → ℕ → P.State
  behind s n = if n == 0 then s else (P.seek s (pos n) seek_cur).1

  behind_lem :
      (s : P.State) (p n : ℕ)
      → stream.At s p
      → p + n ≤ length content
      → stream.At (behind s n) (p + n)
  behind_lem s p n a h = elim (Bool-cases (n == 0)) [
    | inl e ↦ let stays : p + n ≡ p = ground arith in rw (e, stays) a
    | inr e ↦ rw e (stream.skips s p n a h)
  ]

  skip_body_lem :
      (w : Wav P) (n : ℕ) → skip_body P w n ≡ record w { provider = behind w.provider n }
  unfolding skip_body
  skip_body_lem w n = ground arith

  -- The size of a chunk that is no format chunk is read.
  read_size :
      (w : Wav P) (p n : ℕ) (u rest : List ℕ)
      → Stands w p
      → drop p content ≡ u32_bytes n ++ rest
      → n < 2 ^ 32
      → chunk_type_is w.chunk_type fmt_type ≡ false
      → (s : P.State) × (read_body P w u
          ≡ (take_data P (record w { provider = s }) n >>= λ v. ret (true, skip_body P v n)))
        × stream.At s (p + 4)
  unfolding read_body take_other
  read_size w p n u rest a e small other =
      let (s, answer, there) =
        read_prefix P content stream w.provider p 4 1 (u32_bytes n) rest a.there e (omega arith)
          (omega arith) (omega arith) in
      (s, rw (other, answer, u32_at-u32_bytes n small), there)

  -- A chunk with a size: its type and its size are read.
  read_head :
      (w : Wav P) (p n : ℕ) (u type rest : List ℕ)
      → Stands w p
      → length type ≡ 4
      → chunk_type_is type fmt_type ≡ false
      → n < 2 ^ 32
      → drop p content ≡ type ++ (u32_bytes n ++ rest)
      → (s : P.State) × (read_chunk P w u ≡ (
          take_data P (record w { provider = s; chunk_type = type }) n >>= λ v.
          ret (true, skip_body P v n)))
        × stream.At s (p + 8)
        × (drop (p + 8) content ≡ rest)
  read_head w p n u type rest a four other small e = both (read_type w p u type _ a e four)
    where
      after_type : drop (p + 4) content ≡ u32_bytes n ++ rest
      after_type = beyond P content stream p 4 type _ e (sym four)

      twice : p + 4 + 4 ≡ p + 8
      twice = omega arith

      after_size : drop (p + 8) content ≡ rest
      after_size =
          rw (← twice) (beyond P content stream (p + 4) 4 (u32_bytes n) rest after_type refl)

      both :
          (s : P.State) × (read_chunk P w u
              ≡ read_body P (record w { provider = s; chunk_type = type }) u)
            × Stands (record w { provider = s; chunk_type = type }) (p + 4)
          → (s : P.State) × (read_chunk P w u ≡ (
              take_data P (record w { provider = s; chunk_type = type }) n >>= λ v.
              ret (true, skip_body P v n)))
            × stream.At s (p + 8)
            × (drop (p + 8) content ≡ rest)
      both (s, typed, b) =
          let (t, sized, d) =
            read_size (record w { provider = s; chunk_type = type }) (p + 4) n u rest b after_type
              small other in
          (t, typed ∙ sized, rw (← twice) d, after_size)

  skip_unless_data :
      (v : Wav P) (n : ℕ)
      → chunk_type_is v.chunk_type data_type ≡ false
      → ◌>>=◌ {B = Bool × Wav P} (take_data P v n) (λ v'. ret (true, skip_body P v' n))
        ≡ ret (true, record v { provider = behind v.provider n })
  unfolding take_data
  skip_unless_data v n h = rw (h, skip_body_lem v n)

  -- A chunk that is neither is skipped: only the type buffer and the position change.
  pub skip_other :
      (w : Wav P) (p : ℕ) (u rest : List ℕ) (c : Chunk)
      → Stands w p
      → IsOther c
      → drop p content ≡ c.type ++ (u32_bytes (length c.body) ++ (c.body ++ rest))
      → (s : P.State) × (read_chunk P w u
          ≡ ret (true, record w { provider = s; chunk_type = c.type }))
        × Stands (record w { provider = s; chunk_type = c.type }) (p + 8 + length c.body)
        × (drop (p + 8 + length c.body) content ≡ rest)
  skip_other w p u rest c a o e =
      let (s, headed, b, after) =
        read_head w p (length c.body) u c.type (c.body ++ rest) a o.four o.not_fmt o.small e in
      (
        behind s (length c.body),
        headed
            ∙ skip_unless_data (record w { provider = s; chunk_type = c.type }) (length c.body)
                o.not_data,
        record {
          there = behind_lem s (p + 8) (length c.body) b fits;
          type_buffer = o.four;
          fmt_buffer = a.fmt_buffer;
        },
        beyond P content stream (p + 8) (length c.body) c.body rest after refl,
      )
    where
      fits : p + 8 + length c.body ≤ length content
      fits = omega (
        arith,
        length-drop p content,
        ap length e,
        o.four,
        length-append c.type (u32_bytes (length c.body) ++ (c.body ++ rest)),
        length-append c.body rest,
      )

  -- A format chunk sets the format.
  pub take_format :
      (w : Wav P) (p : ℕ) (u fmt rest : List ℕ)
      → Stands w p
      → length fmt ≡ 20
      → drop p content ≡ fmt_type ++ (fmt ++ rest)
      → (s : P.State) × (read_chunk P w u ≡ ret (true, formatted P w s fmt))
        × stream.At s (p + 24)
        × (drop (p + 24) content ≡ rest)
  unfolding read_body take_fmt
  take_format w p u fmt rest a twenty e = both (read_type w p u fmt_type _ a e refl)
    where
      after_type : drop (p + 4) content ≡ fmt ++ rest
      after_type = beyond P content stream p 4 fmt_type _ e refl

      total : p + 4 + 20 ≡ p + 24
      total = omega arith

      after_fmt : drop (p + 24) content ≡ rest
      after_fmt = rw (← total) (beyond P content stream (p + 4) 20 fmt rest after_type (sym twenty))

      body :
          (s : P.State)
          → stream.At s (p + 4)
          → (t : P.State) × (read_body P (record w { provider = s; chunk_type = fmt_type }) u
              ≡ ret (true, formatted P w t fmt))
            × stream.At t (p + 4 + 20)
      body s b =
          let (t, answer, there) =
            read_prefix P content stream s (p + 4) 20 1 fmt rest b after_type (omega arith)
              (omega arith) (omega (arith, twenty)) in
          (t, rw (answer, fill_whole w.fmt fmt (omega (arith, a.fmt_buffer, twenty))), there)

      both :
          (s : P.State) × (read_chunk P w u
              ≡ read_body P (record w { provider = s; chunk_type = fmt_type }) u)
            × Stands (record w { provider = s; chunk_type = fmt_type }) (p + 4)
          → (s : P.State) × (read_chunk P w u ≡ ret (true, formatted P w s fmt))
            × stream.At s (p + 24)
            × (drop (p + 24) content ≡ rest)
      both (s, typed, b) =
          let (t, taken, d) = body s b.there in (t, typed ∙ taken, rw (← total) d, after_fmt)

  measure :
      (w : Wav P) (s : P.State) (n q size : ℕ)
      → stream.At s q
      → w.frame_size ≡ some size
      → 0 < size
      → q < 2 ^ 63
      → ◌>>=◌ {B = Bool × Wav P}
          (take_data P (record w { provider = s; chunk_type = data_type }) n)
          (λ v. ret (true, skip_body P v n))
        ≡ ret (true, measured P w (behind s n) n q size)
  unfolding take_data count_frames chunk_type_is
  measure w s n q size a sized positive small =
      let not_zero : (size == 0) ≡ false = ground arith in
      let offset : q % 2 ^ 64 ≡ q = omega arith in
      rw (sized, count_frames, not_zero, stream.tells s q a, offset, skip_body_lem)

  -- A data chunk after the format sets the length and where the samples begin.
  pub take_samples :
      (w : Wav P) (p size : ℕ) (u samples rest : List ℕ)
      → Stands w p
      → w.frame_size ≡ some size
      → 0 < size
      → length samples < 2 ^ 32
      → drop p content ≡ data_type ++ (u32_bytes (length samples) ++ (samples ++ rest))
      → (s : P.State) × (read_chunk P w u
          ≡ ret (true, measured P w s (length samples) (p + 8) size))
        × stream.At s (p + 8 + length samples)
        × (drop (p + 8) content ≡ samples ++ rest)
  take_samples w p size u samples rest a sized positive small e =
      let (s, headed, b, after) =
        read_head w p (length samples) u data_type (samples ++ rest) a refl is_other small e in
      (
        behind s (length samples),
        headed ∙ measure w s (length samples) (p + 8) size b sized positive in_range,
        behind_lem s (p + 8) (length samples) b fits,
        after,
      )
    where
      is_other : chunk_type_is data_type fmt_type ≡ false
      is_other = unfold chunk_type_is in refl

      fits : p + 8 + length samples ≤ length content
      fits = omega (arith, length-drop p content, ap length e, length-append samples rest)

      in_range : p + 8 < 2 ^ 63
      in_range = omega (arith, fits, stream.small)
