-- ===== src/Base64/Decode.antt =====
-- `base64_decode` takes back what RFC 4648 prescribes, and so what `base64_encode` writes.
use nfdecoder.Base.{
  ℕ, ◌+◌, ◌*◌, ◌/◌, ◌%◌, ◌^◌, ◌<◌, ◌≡◌, refl, ◌∙◌, sym, arith, List, [], ◌∷◌, ◌++◌, append-nil,
  append_assoc, bit_and, ◌==◌, false, true, set, map, ap, some, length, take_all, lt→ltb,
}
use nfdecoder.Base.Text.{Text}
use nfdecoder.Base64.{base64_encode, base64_decode, decode_loop, continues, index_of, triple}
use nfdecoder.Base64.Spec.{AreBytes, rfc4648, digit, group}
use nfdecoder.Base64.Bits.{
  low_two, low_four, middle_two, middle_four, index_of-char_at, continues-char_at,
}
use nfdecoder.Base64.Encode.{base64_encode-rfc4648}

-- One round of the loop at a character of the alphabet.
module _ (c : ℕ) (h : continues c ≡ true) (cs : Text) (i : ℕ) (a ret : Text) where
  keep :
      (i + 1 == 4) ≡ false → decode_loop (c ∷ cs) i a ret ≡ decode_loop cs (i + 1) (set a i c) ret
  unfolding decode_loop
  keep e = rw (h, decode_loop, e)

  finish :
      (i + 1 == 4) ≡ true
      → decode_loop (c ∷ cs) i a ret
        ≡ decode_loop cs 0 (map index_of (set a i c)) (ret ++ triple (map index_of (set a i c)))
  unfolding decode_loop
  finish e = rw (h, decode_loop, e)

-- The bytes of a group from the digits that the loop has read.
module _ (a b c : ℕ) (ha : a < 256) (hb : b < 256) (hc : c < 256) where
  abbrev n : ℕ
  n = group a b c

  head_byte : (n / 64 ^ 3 % 64 * 4 + bit_and (n / 64 ^ 2 % 64) 0x30 / 16) % 256 ≡ a
  head_byte = rw (middle_two (n / 64 ^ 2 % 64) (omega arith)) (omega arith)

  middle_byte : (bit_and (n / 64 ^ 2 % 64) 0xf * 16 + bit_and (n / 64 ^ 1 % 64) 0x3c / 4) % 256 ≡ b
  middle_byte =
      rw (low_four (n / 64 ^ 2 % 64) (omega arith), middle_four (n / 64 ^ 1 % 64) (omega arith))
        (omega arith)

  last_byte : (bit_and (n / 64 ^ 1 % 64) 0x3 * 64 + n / 64 ^ 0 % 64) % 256 ≡ c
  last_byte = rw (low_two (n / 64 ^ 1 % 64) (omega arith)) (omega arith)

  index_digit : (k : ℕ) → index_of (digit n k) ≡ n / 64 ^ k % 64
  index_digit k = index_of-char_at (n / 64 ^ k % 64) (omega arith)

  continues-digit : (k : ℕ) → continues (digit n k) ≡ true
  continues-digit k = continues-char_at (n / 64 ^ k % 64) (omega arith)

  triple-digits :
      triple (
        index_of (digit n 3)
        ∷ index_of (digit n 2)
        ∷ index_of (digit n 1)
        ∷ index_of (digit n 0)
        ∷ [])
      ≡ a ∷ b ∷ c ∷ []
  unfolding triple
  triple-digits = rw (
    index_digit 3,
    index_digit 2,
    index_digit 1,
    index_digit 0,
    head_byte,
    middle_byte,
    last_byte,
  )

zero_byte : 0 < 256
zero_byte = omega arith

decode_loop-rfc4648 :
    (bytes ret : List ℕ) (x y z w : ℕ)
    → AreBytes bytes
    → decode_loop (rfc4648 bytes) 0 (x ∷ y ∷ z ∷ w ∷ []) ret ≡ ret ++ bytes
unfolding rfc4648
decode_loop-rfc4648 [] ret x y z w h = unfold decode_loop in sym (append-nil ret)
decode_loop-rfc4648 (a ∷ []) ret x y z w (ha, _) =
    keep _ (continues-digit a 0 0 ha zero_byte zero_byte 3) _ _ _ _ refl
    ∙ keep _ (continues-digit a 0 0 ha zero_byte zero_byte 2) _ _ _ _ refl
    ∙ unfold decode_loop triple in
      rw (
        index_digit a 0 0 ha zero_byte zero_byte 3,
        index_digit a 0 0 ha zero_byte zero_byte 2,
        head_byte a 0 0 ha zero_byte zero_byte,
      )
decode_loop-rfc4648 (a ∷ b ∷ []) ret x y z w (ha, (hb, _)) =
    keep _ (continues-digit a b 0 ha hb zero_byte 3) _ _ _ _ refl
    ∙ keep _ (continues-digit a b 0 ha hb zero_byte 2) _ _ _ _ refl
    ∙ keep _ (continues-digit a b 0 ha hb zero_byte 1) _ _ _ _ refl
    ∙ unfold decode_loop triple in
      rw (
        index_digit a b 0 ha hb zero_byte 3,
        index_digit a b 0 ha hb zero_byte 2,
        index_digit a b 0 ha hb zero_byte 1,
        head_byte a b 0 ha hb zero_byte,
        middle_byte a b 0 ha hb zero_byte,
      )
decode_loop-rfc4648 (a ∷ b ∷ c ∷ rest) ret x y z w (ha, (hb, (hc, h))) =
    keep _ (continues-digit a b c ha hb hc 3) _ _ _ _ refl
    ∙ keep _ (continues-digit a b c ha hb hc 2) _ _ _ _ refl
    ∙ keep _ (continues-digit a b c ha hb hc 1) _ _ _ _ refl
    ∙ finish _ (continues-digit a b c ha hb hc 0) _ _ _ _ refl
    ∙ rw (triple-digits a b c ha hb hc)
        (decode_loop-rfc4648 rest _ _ _ _ _ h ∙ append_assoc ret (a ∷ b ∷ c ∷ []) rest)

-- A text that an `int` can count is decoded as a whole.
counted :
    (encoded : Text)
    → length encoded < 2 ^ 31
    → base64_decode encoded ≡ some (decode_loop encoded 0 (0 ∷ 0 ∷ 0 ∷ 0 ∷ []) [])
unfolding base64_decode
counted encoded few =
    rw
      (whole, lt→ltb (length encoded) (2 ^ 31) few, take_all (length encoded) encoded (omega arith))
      refl
  where
    whole : length encoded % 2 ^ 32 ≡ length encoded
    whole = omega (arith, few)

-- Decoding what the encoder wrote gives the bytes back, for every list of bytes whose text has
-- fewer than 2^31 characters, the number that the decoder's `int` can count.
pub base64_decode-base64_encode :
    (bytes : List ℕ)
    → AreBytes bytes
    → length (base64_encode bytes) < 2 ^ 31
    → base64_decode (base64_encode bytes) ≡ some bytes
base64_decode-base64_encode bytes h few =
    counted (base64_encode bytes) few
    ∙ ap (λ text. some (decode_loop text 0 (0 ∷ 0 ∷ 0 ∷ 0 ∷ []) [])) (base64_encode-rfc4648 bytes h)
    ∙ ap some (decode_loop-rfc4648 bytes [] 0 0 0 0 h)
