-- ===== src/Base/Bytes.antt =====
-- Buffers of bytes, and the little-endian numbers in them.
use nfdecoder.Base.{ℕ, ◌+◌, ◌*◌, ◌/◌, ◌%◌, ◌<◌, List, [], ◌∷◌, ◌++◌, drop, length, get_or, All}

-- A read into a buffer that holds something already.
abbrev pub fill : List ℕ → List ℕ → List ℕ
fill buffer bytes = bytes ++ drop (length bytes) buffer

abbrev pub u16_at : ℕ → List ℕ → ℕ
u16_at i b = get_or b i 0 + get_or b (i + 1) 0 * 256

abbrev pub u32_at : ℕ → List ℕ → ℕ
u32_at i b = u16_at i b + u16_at (i + 2) b * 65536

abbrev pub AreBytes : List ℕ → Type 0
AreBytes = All (λ b. b < 256)

-- The four bytes of a number below 2 ^ 32.
abbrev pub u32_bytes : ℕ → List ℕ
u32_bytes n = (n % 256) ∷ (n / 256 % 256) ∷ (n / 65536 % 256) ∷ (n / 16777216 % 256) ∷ []

abbrev pub u16_bytes : ℕ → List ℕ
u16_bytes n = (n % 256) ∷ (n / 256 % 256) ∷ []
