-- ===== src/Base64.antt =====
-- source/base64.cpp: encoding bytes as text and back.
-- A byte array of fixed size is a list; `unsigned char` arithmetic keeps its `% 256`, shifts are
-- `*` and `/` by powers of two. The uninitialised arrays start as zeros: no element is read before
-- it is written. `isalnum` is that of the C locale.
pub mod Spec
pub mod Bits
pub mod Encode
pub mod Decode
mod Tests
use nfdecoder.Base.{
  ℕ, ◌+◌, ◌-◌, ◌*◌, ◌/◌, ◌%◌, bit_and, Bool, true, false, ◌||◌, ◌&&◌, not, Option, none, some, List,
  [], ◌∷◌, ◌++◌, map, leb, ◌==◌, if◌then◌else◌, get_or, set, take, replicate, length, ltb, ◌^◌,
}
use nfdecoder.Base.Text.{Text, codes, find?}

abbrev pub base64_chars : Text
base64_chars = codes "ABCDEFGHIJKLMNOPQRSTUVWXYZabcdefghijklmnopqrstuvwxyz0123456789+/"

abbrev pub is_alnum : ℕ → Bool
is_alnum c = (leb b'0' c && leb c b'9') || (leb b'A' c && leb c b'Z') || (leb b'a' c && leb c b'z')

pub is_base64 : ℕ → Bool
is_base64 c = is_alnum c || c == b'+' || c == b'/'

-- `base64_chars[k]`
abbrev pub char_at : ℕ → ℕ
char_at k = get_or base64_chars k 0

-- `base64_chars.find(c)` as an `unsigned char`: `npos` becomes 255.
pub index_of : ℕ → ℕ
unfolding find?
index_of c = elim (find? (c ∷ []) base64_chars) [ none ↦ 255 | some k ↦ k % 256 ]

-- An element of an array.
abbrev at : Text → ℕ → ℕ
at array i = get_or array i 0

-- `char_array_4` from `char_array_3`
quad : Text → Text
quad a =
    (bit_and (at a 0) 0xfc / 4)
    ∷ ((bit_and (at a 0) 0x03 * 16 + bit_and (at a 1) 0xf0 / 16) % 256)
    ∷ ((bit_and (at a 1) 0x0f * 4 + bit_and (at a 2) 0xc0 / 64) % 256)
    ∷ bit_and (at a 2) 0x3f
    ∷ []

-- `char_array_3` from `char_array_4`
triple : Text → Text
triple a =
    ((at a 0 * 4 + bit_and (at a 1) 0x30 / 16) % 256)
    ∷ ((bit_and (at a 1) 0xf * 16 + bit_and (at a 2) 0x3c / 4) % 256)
    ∷ ((bit_and (at a 2) 0x3 * 64 + at a 3) % 256)
    ∷ []

-- What follows the loop of `base64_encode`: the last one or two bytes, padded.
encode_rest : ℕ → Text → Text → Text
unfolding quad
encode_rest i a ret =
    if i == 0
    then ret
    else ret
      ++ (map char_at (take (i + 1) (quad (take i a ++ replicate (3 - i) 0)))
          ++ replicate (3 - i) b'=')

encode_loop : List ℕ → ℕ → Text → Text → Text
unfolding encode_rest
encode_loop [] i a ret = encode_rest i a ret
encode_loop (b ∷ bs) i a ret = elim (i + 1 == 3) [
  | true ↦ encode_loop bs 0 (set a i b) (ret ++ map char_at (quad (set a i b)))
  | false ↦ encode_loop bs (i + 1) (set a i b) ret
]

pub base64_encode : List ℕ → Text
unfolding encode_loop
base64_encode bytes = encode_loop bytes 0 (0 ∷ 0 ∷ 0 ∷ []) []

-- What follows the loop of `base64_decode`: an unfinished group of `i` characters gives `i - 1`
-- bytes.
decode_rest : ℕ → Text → Text → Text
unfolding triple index_of
decode_rest i a ret =
    if i == 0
    then ret
    else ret ++ take (i - 1) (triple (map index_of (take i a ++ replicate (4 - i) 0)))

-- The loop's test of the next character.
pub continues : ℕ → Bool
unfolding is_base64
continues c = not (c == b'=') && is_base64 c

decode_loop : Text → ℕ → Text → Text → Text
unfolding decode_rest continues
decode_loop [] i a ret = decode_rest i a ret
decode_loop (c ∷ cs) i a ret = elim (continues c) [
  | false ↦ decode_rest i a ret
  | true ↦ elim (i + 1 == 4) [
    | true ↦ decode_loop cs 0 (map index_of (set a i c)) (ret ++ triple (map index_of (set a i c)))
    | false ↦ decode_loop cs (i + 1) (set a i c) ret
  ]
]

-- Whether some character ends the loop.
stops : Text → Bool
unfolding continues
stops [] = false
stops (c ∷ cs) = not (continues c) || stops cs

-- `in_len` and `in_` are of type `int`. From a negative length on the loop counts down until a
-- character ends it, and overflows, which is undefined, where none does before.
pub base64_decode : Text → Option Text
unfolding decode_loop stops
base64_decode encoded =
    let in_len = length encoded % 2 ^ 32 in
    let counted = take (in_len - 2 ^ 31) encoded in
    if ltb in_len (2 ^ 31)
    then some (decode_loop (take in_len encoded) 0 (0 ∷ 0 ∷ 0 ∷ 0 ∷ []) [])
    else if stops counted
    then some (decode_loop counted 0 (0 ∷ 0 ∷ 0 ∷ 0 ∷ []) [])
    else none
