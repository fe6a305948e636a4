-- ===== src/Wav/Layout.antt =====
-- The layout of a WAVE file: a header of 12 bytes, then chunks.
use nfdecoder.Base.{ℕ, ◌<◌, ◌^◌, ◌≡◌, false, List, [], ◌∷◌, ◌++◌, length}
use nfdecoder.Base.Bytes.{u32_bytes}
use nfdecoder.Base.Text.{Text}
use nfdecoder.Wav.{chunk_type_is, fmt_type, data_type}

-- A chunk that the decoder skips.
pub record Chunk : Type 0 where
  pub type : Text
  pub body : List ℕ

pub record IsOther (c : Chunk) : Type 0 where
  pub four : length c.type ≡ 4
  pub not_fmt : chunk_type_is c.type fmt_type ≡ false
  pub not_data : chunk_type_is c.type data_type ≡ false
  pub small : length c.body < 2 ^ 32

-- Chunks in order, and what follows them.
abbrev pub chunks_bytes : List Chunk → List ℕ → List ℕ
chunks_bytes [] rest = rest
chunks_bytes (c ∷ cs) rest =
    c.type ++ (u32_bytes (length c.body) ++ (c.body ++ chunks_bytes cs rest))
