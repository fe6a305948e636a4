-- ===== src/Base64/Tests.antt =====
-- Runs of base64.cpp, and its theorems at concrete bytes.
use nfdecoder.Base.{◌≡◌, refl, ◌^◌, ◌<◌, some, [], ◌∷◌, arith, length}
use nfdecoder.Base.Text.{codes}
use nfdecoder.Base64.{base64_encode, base64_decode}
use nfdecoder.Base64.Spec.{rfc4648}
use nfdecoder.Base64.Encode.{base64_encode-rfc4648}
use nfdecoder.Base64.Decode.{base64_decode-base64_encode}

encode_man : base64_encode (codes "Man!") ≡ codes "TWFuIQ=="
unfolding base64_encode
encode_man = refl

-- The decoder stops at the first character outside the alphabet.
decode_stops : base64_decode (codes "TWFu\nIQ==") ≡ some (codes "Man")
unfolding base64_decode
decode_stops = refl

base64_encode-rfc4648_example :
    base64_encode (255 ∷ 0 ∷ 7 ∷ 9 ∷ []) ≡ rfc4648 (255 ∷ 0 ∷ 7 ∷ 9 ∷ [])
base64_encode-rfc4648_example = base64_encode-rfc4648 (255 ∷ 0 ∷ 7 ∷ 9 ∷ []) (omega arith)

few_characters : length (base64_encode (255 ∷ 0 ∷ 7 ∷ 9 ∷ [])) < 2 ^ 31
unfolding base64_encode
few_characters = omega arith

base64_decode-base64_encode_example :
    base64_decode (base64_encode (255 ∷ 0 ∷ 7 ∷ 9 ∷ [])) ≡ some (255 ∷ 0 ∷ 7 ∷ 9 ∷ [])
base64_decode-base64_encode_example =
    base64_decode-base64_encode (255 ∷ 0 ∷ 7 ∷ 9 ∷ []) (omega arith) few_characters
