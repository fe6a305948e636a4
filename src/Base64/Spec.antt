-- ===== src/Base64/Spec.antt =====
-- RFC 4648: three bytes are a number of 24 bits, written as four digits of six bits.
use nfdecoder.Base.{ℕ, ◌+◌, ◌*◌, ◌/◌, ◌%◌, ◌^◌, List, [], ◌∷◌, ◌<◌, All, get_or}
use nfdecoder.Base.Text.{Text, codes}

abbrev pub IsByte : ℕ → Type 0
IsByte b = b < 256

abbrev pub AreBytes : List ℕ → Type 0
AreBytes = All IsByte

abbrev pub alphabet : Text
alphabet = codes "ABCDEFGHIJKLMNOPQRSTUVWXYZabcdefghijklmnopqrstuvwxyz0123456789+/"

abbrev pub digit : ℕ → ℕ → ℕ
digit n k = get_or alphabet (n / 64 ^ k % 64) 0

abbrev pub group : ℕ → ℕ → ℕ → ℕ
group a b c = a * 2 ^ 16 + b * 2 ^ 8 + c

unfoldable pub rfc4648 : List ℕ → Text
rfc4648 [] = []
rfc4648 (a ∷ []) = digit (group a 0 0) 3 ∷ digit (group a 0 0) 2 ∷ b'=' ∷ b'=' ∷ []
rfc4648 (a ∷ b ∷ []) =
    digit (group a b 0) 3 ∷ digit (group a b 0) 2 ∷ digit (group a b 0) 1 ∷ b'=' ∷ []
rfc4648 (a ∷ b ∷ c ∷ rest) =
    digit (group a b c) 3
    ∷ digit (group a b c) 2
    ∷ digit (group a b c) 1
    ∷ digit (group a b c) 0
    ∷ rfc4648 rest
