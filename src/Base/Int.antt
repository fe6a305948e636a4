-- ===== src/Base/Int.antt =====
-- Signed machine integers over the native numbers (the library's ℤ stands on the unary ℕ).
use nfdecoder.Base.{
  ℕ, zero, suc, min, max, ◌+◌, ◌-◌, ◌%◌, ◌^◌, ◌/◌, ◌<◌, ◌==◌, ltb, if◌then◌else◌, Option, none,
  some, Bool, true, false,
}

-- `negsuc n` is -(n + 1).
pub data ℤ : Type 0 where
  pos : ℕ → ℤ
  negsuc : ℕ → ℤ

-- A conversion to `size_t`: the value modulo 2 ^ 64.
abbrev pub to_u64 : ℤ → ℕ
to_u64 (pos n) = n % 2 ^ 64
to_u64 (negsuc n) = 2 ^ 64 - 1 - n % 2 ^ 64

-- A conversion of a `size_t` to `long`: the two's complement value.
abbrev pub to_i64 : ℕ → ℤ
to_i64 n = if ltb n (2 ^ 63) then pos n else negsuc (2 ^ 64 - 1 - n)

-- The values of a `long`.
abbrev pub IsI64 : ℤ → Type 0
IsI64 (pos n) = n < 2 ^ 63
IsI64 (negsuc n) = n < 2 ^ 63

-- A position moved by a signed offset; `none` lies before the start.
abbrev pub move : ℕ → ℤ → Option ℕ
move p (pos n) = some (p + n)
move p (negsuc n) = if ltb n p then some (p - suc n) else none

-- `if (error_code)`
abbrev pub failed : ℤ → Bool
failed (pos zero) = false
failed (pos (suc n)) = true
failed (negsuc n) = true

abbrev pub is_negative : ℤ → Bool
is_negative (pos n) = false
is_negative (negsuc n) = true

abbrev pub min_ℤ : ℤ → ℤ → ℤ
min_ℤ (pos a) (pos b) = pos (min a b)
min_ℤ (pos a) (negsuc b) = negsuc b
min_ℤ (negsuc a) (pos b) = negsuc a
min_ℤ (negsuc a) (negsuc b) = negsuc (max a b)

-- An error code, an `int`, as its 32-bit pattern.
abbrev pub code_of : ℤ → ℕ
code_of (pos n) = n % 2 ^ 32
code_of (negsuc n) = 2 ^ 32 - 1 - n % 2 ^ 32

abbrev pub max_ℤ : ℤ → ℤ → ℤ
max_ℤ (pos a) (pos b) = pos (max a b)
max_ℤ (pos a) (negsuc b) = pos a
max_ℤ (negsuc a) (pos b) = pos b
max_ℤ (negsuc a) (negsuc b) = negsuc (min a b)

infix 50 ◌==ℤ◌
abbrev pub ◌==ℤ◌ : ℤ → ℤ → Bool
pos a ==ℤ pos b = a == b
pos a ==ℤ negsuc b = false
negsuc a ==ℤ pos b = false
negsuc a ==ℤ negsuc b = a == b

-- The difference of two natural numbers.
abbrev pub diff : ℕ → ℕ → ℤ
diff a b = if ltb a b then negsuc (b - a - 1) else pos (a - b)

infixl 65 ◌-ℤ◌
abbrev pub ◌-ℤ◌ : ℤ → ℤ → ℤ
pos a -ℤ pos b = diff a b
pos a -ℤ negsuc b = pos (a + b + 1)
negsuc a -ℤ pos b = negsuc (a + b)
negsuc a -ℤ negsuc b = diff b a

-- Minus a natural number.
abbrev pub neg : ℕ → ℤ
neg zero = pos 0
neg (suc n) = negsuc n

-- A quotient, rounded towards zero; the divisor is not zero.
infixl 70 ◌/ℤ◌
abbrev pub ◌/ℤ◌ : ℤ → ℤ → ℤ
pos a /ℤ pos b = pos (a / b)
pos a /ℤ negsuc b = neg (a / (b + 1))
negsuc a /ℤ pos b = neg ((a + 1) / b)
negsuc a /ℤ negsuc b = pos ((a + 1) / (b + 1))
