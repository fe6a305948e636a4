-- ===== src/Base64/Bits.antt =====
-- The masks of base64.cpp as arithmetic, by tables over a byte or a six-bit digit.
use nfdecoder.Base.{
  ℕ, ◌/◌, ◌%◌, ◌<◌, ◌≡◌, refl, bit_and, true, ◌==◌, ==_iff, true_below, true_below_lem,
}
use nfdecoder.Base64.{index_of, continues, char_at}

by_table : (n : ℕ) (f g : ℕ → ℕ) (x : ℕ) → true_below n (λ y. f y == g y) ≡ true → x < n → f x ≡ g x
by_table n f g x t h = (==_iff (f x) (g x)).0 (true_below_lem n (λ y. f y == g y) x t h)

pub high_six : (x : ℕ) → x < 256 → bit_and x 0xfc / 4 ≡ x / 4
unfolding true_below
high_six x h = by_table 256 (λ y. bit_and y 0xfc / 4) (λ y. y / 4) x refl h

pub low_two : (x : ℕ) → x < 256 → bit_and x 0x03 ≡ x % 4
unfolding true_below
low_two x h = by_table 256 (λ y. bit_and y 0x03) (λ y. y % 4) x refl h

pub high_four : (x : ℕ) → x < 256 → bit_and x 0xf0 / 16 ≡ x / 16
unfolding true_below
high_four x h = by_table 256 (λ y. bit_and y 0xf0 / 16) (λ y. y / 16) x refl h

pub low_four : (x : ℕ) → x < 256 → bit_and x 0x0f ≡ x % 16
unfolding true_below
low_four x h = by_table 256 (λ y. bit_and y 0x0f) (λ y. y % 16) x refl h

pub high_two : (x : ℕ) → x < 256 → bit_and x 0xc0 / 64 ≡ x / 64
unfolding true_below
high_two x h = by_table 256 (λ y. bit_and y 0xc0 / 64) (λ y. y / 64) x refl h

pub low_six : (x : ℕ) → x < 256 → bit_and x 0x3f ≡ x % 64
unfolding true_below
low_six x h = by_table 256 (λ y. bit_and y 0x3f) (λ y. y % 64) x refl h

pub middle_two : (x : ℕ) → x < 64 → bit_and x 0x30 / 16 ≡ x / 16
unfolding true_below
middle_two x h = by_table 64 (λ y. bit_and y 0x30 / 16) (λ y. y / 16) x refl h

pub middle_four : (x : ℕ) → x < 64 → bit_and x 0x3c / 4 ≡ x / 4
unfolding true_below
middle_four x h = by_table 64 (λ y. bit_and y 0x3c / 4) (λ y. y / 4) x refl h

-- The alphabet has no repetition: the index of a digit's character is the digit.
pub index_of-char_at : (k : ℕ) → k < 64 → index_of (char_at k) ≡ k
unfolding true_below index_of
index_of-char_at k h = by_table 64 (λ y. index_of (char_at y)) (λ y. y) k refl h

-- The decoder's loop goes on at every character of the alphabet.
pub continues-char_at : (k : ℕ) → k < 64 → continues (char_at k) ≡ true
unfolding true_below continues
continues-char_at k h = true_below_lem 64 (λ y. continues (char_at y)) k refl h
