-- ===== src/Base64/Encode.antt =====
-- `base64_encode` writes what RFC 4648 prescribes.
use nfdecoder.Base.{
  ℕ, ◌+◌, ◌*◌, ◌/◌, ◌%◌, ◌^◌, ◌<◌, ◌≡◌, ◌∙◌, sym, arith, List, [], ◌∷◌, ◌++◌, append-nil,
  append_assoc, bit_and,
}
use nfdecoder.Base64.{base64_encode, encode_loop}
use nfdecoder.Base64.Spec.{AreBytes, rfc4648, group}
use nfdecoder.Base64.Bits.{high_six, low_two, high_four, low_four, high_two, low_six}

-- The four elements of `char_array_4` are the digits of the 24-bit number.
module _ (a b c : ℕ) (ha : a < 256) (hb : b < 256) (hc : c < 256) where
  first : bit_and a 0xfc / 4 ≡ group a b c / 64 ^ 3 % 64
  first = rw (high_six a ha) (omega arith)

  second : (bit_and a 0x03 * 16 + bit_and b 0xf0 / 16) % 256 ≡ group a b c / 64 ^ 2 % 64
  second = rw (low_two a ha, high_four b hb) (omega arith)

  third : (bit_and b 0x0f * 4 + bit_and c 0xc0 / 64) % 256 ≡ group a b c / 64 ^ 1 % 64
  third = rw (low_four b hb, high_two c hc) (omega arith)

  fourth : bit_and c 0x3f ≡ group a b c / 64 ^ 0 % 64
  fourth = rw (low_six c hc) (omega arith)

encode_loop-rfc4648 :
    (bytes ret : List ℕ) (x y z : ℕ)
    → AreBytes bytes
    → encode_loop bytes 0 (x ∷ y ∷ z ∷ []) ret ≡ ret ++ rfc4648 bytes
unfolding encode_loop rfc4648
encode_loop-rfc4648 [] ret x y z h = sym (append-nil ret)
encode_loop-rfc4648 (a ∷ []) ret x y z h =
    rw (first a 0 0 h.0 (omega arith) (omega arith), second a 0 0 h.0 (omega arith) (omega arith))
encode_loop-rfc4648 (a ∷ b ∷ []) ret x y z h = rw (
  first a b 0 h.0 h.1.0 (omega arith),
  second a b 0 h.0 h.1.0 (omega arith),
  third a b 0 h.0 h.1.0 (omega arith),
)
encode_loop-rfc4648 (a ∷ b ∷ c ∷ rest) ret x y z h =
    encode_loop-rfc4648 rest _ a b c h.1.1.1
    ∙ rw
        (
          first a b c h.0 h.1.0 h.1.1.0,
          second a b c h.0 h.1.0 h.1.1.0,
          third a b c h.0 h.1.0 h.1.1.0,
          fourth a b c h.0 h.1.0 h.1.1.0,
        )
        (append_assoc ret _ (rfc4648 rest))

-- For every list of bytes the encoder writes the text that RFC 4648 prescribes.
pub base64_encode-rfc4648 : (bytes : List ℕ) → AreBytes bytes → base64_encode bytes ≡ rfc4648 bytes
unfolding base64_encode
base64_encode-rfc4648 bytes h = encode_loop-rfc4648 bytes [] 0 0 0 h
