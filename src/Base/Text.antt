-- ===== src/Base/Text.antt =====
-- Byte strings as lists of numbers: `std::string` constants, comparison, `find` and `substr`.
use Prim.Native.Char.{code}
use Prim.Native.String.{String}
use nfdecoder.Base.{
  ℕ, ◌+◌, ◌≡◌, refl, ◌↔◌, Bool, true, false, ◌&&◌, List, [], ◌∷◌, Option, none, some, arith, ◌==◌,
  if◌then◌else◌, take, length,
}

-- A byte string.
abbrev pub Text : Type 0
Text = List ℕ

-- The bytes of an ASCII constant.
abbrev pub codes : String → Text
codes String.[] = []
codes (String.◌∷◌ c s) = code c ∷ codes s

unfoldable pub text_eq : Text → Text → Bool
text_eq [] [] = true
text_eq [] (b ∷ bs) = false
text_eq (a ∷ as') [] = false
text_eq (a ∷ as') (b ∷ bs) = (a == b) && text_eq as' bs

pub text_eq_sound : (s t : Text) → text_eq s t ≡ true → s ≡ t
unfolding text_eq
text_eq_sound [] [] h = refl
text_eq_sound [] (b ∷ t) h = cc
text_eq_sound (a ∷ s) [] h = cc
text_eq_sound (a ∷ s) (b ∷ t) h = ground (arith, text_eq_sound s t)

pub text_eq_refl : (s : Text) → text_eq s s ≡ true
unfolding text_eq
text_eq_refl [] = refl
text_eq_refl (a ∷ s) = ground (arith, text_eq_refl s)

pub text_eq_iff : (s t : Text) → (text_eq s t ≡ true) ↔ (s ≡ t)
text_eq_iff s t = (text_eq_sound s t, λ e. rw e (text_eq_refl t))

-- `s.find(t) != npos` for texts: the first position where `t` stands, if there is one.
unfoldable pub find_from : ℕ → Text → Text → Option ℕ
unfolding text_eq
find_from i t [] = if text_eq t [] then some i else none
find_from i t (c ∷ s) =
    let rest = find_from (i + 1) t s in if text_eq (take (length t) (c ∷ s)) t then some i else rest

unfoldable pub find? : Text → Text → Option ℕ
unfolding find_from
find? t s = find_from 0 t s
