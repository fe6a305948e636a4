-- ===== src/Path/Service.antt =====
-- Which paths belong to SoundCloud.
use nfdecoder.Base.{
  ◌≡◌, refl, ◌↔◌, ◌⊎◌, inl, inr, arith, ap, ◌&&◌, ◌||◌, Bool, true, false, ◌++◌, take, drop, length,
  ltb, ltb→lt, lt→ltb, take-append-drop, take-append, length-append, ◌<◌, ◌∙◌, length-drop, sym,
}
use nfdecoder.Base.Text.{Text, text_eq_sound, text_eq_refl}
use nfdecoder.Path.{
  holds, goes_on_from, mangled, http_protocol, https_protocol, soundcloud_domain,
  soundcloud_api_domain, is_path_soundcloud,
}

-- `s` is `prefix` and something more.
pub GoesOn : Text → Text → Type 0
GoesOn prefix s = (rest : Text) × (s ≡ prefix ++ rest) × (0 < length rest)

-- The two halves of the test.
parts : (a b : Bool) → a && b ≡ true → (a ≡ true) × (b ≡ true)
parts true b h = (refl, h)
parts false b h = cc

GoesOn-there : (prefix s : Text) → goes_on_from prefix s ≡ true → GoesOn prefix s
unfolding GoesOn goes_on_from
GoesOn-there prefix s h =
    let (longer, same) = parts (ltb (length prefix) (length s)) _ h in
    let equal = text_eq_sound (take (length prefix) s) prefix same in
    (
      drop (length prefix) s,
      sym (take-append-drop (length prefix) s) ∙ ap (λ t. t ++ drop (length prefix) s) equal,
      omega (arith, ltb→lt (length prefix) (length s) longer, length-drop (length prefix) s),
    )

goes_on_from-back : (prefix s : Text) → GoesOn prefix s → goes_on_from prefix s ≡ true
unfolding GoesOn goes_on_from
goes_on_from-back prefix s (rest, e, some_more) =
    rw
      (
        e,
        take-append (length prefix) prefix rest refl,
        lt→ltb (length prefix) (length (prefix ++ rest)) (omega (arith, length-append prefix rest)),
      )
      (text_eq_refl prefix)

goes_on : (prefix s : Text) → (goes_on_from prefix s ≡ true) ↔ GoesOn prefix s
goes_on prefix s = (GoesOn-there prefix s, goes_on_from-back prefix s)

or_iff : {P Q : Type 0} (a b : Bool) → (a ≡ true) ↔ P → (b ≡ true) ↔ Q → (a || b ≡ true) ↔ (P ⊎ Q)
or_iff true b p q = (λ h. inl (p.0 refl), λ h. refl)
or_iff false b p q = (λ h. inr (q.0 h), λ h. elim h [ inl x ↦ cc (p.1 x) | inr y ↦ q.1 y ])

-- An address that names its host after `http://`, or after `https://` without holding `http://`.
unfoldable pub IsAddress : Text → Text → Type 0
IsAddress path host =
    (path ≡ http_protocol ++ host)
    ⊎ ((path ≡ https_protocol ++ host) × (holds http_protocol path ≡ false))

mangled_lem : (path host : Text) → IsAddress path host → mangled path ≡ host
unfolding mangled IsAddress
mangled_lem path host (inl e) = rw e refl
mangled_lem path host (inr (e, none_there)) = rw none_there (rw e refl)

-- What the path of a web address names is taken from its host on: it belongs to SoundCloud exactly
-- if it begins with one of the two domains and goes on after it. The address begins with
-- `http://`, or with `https://` and does not hold `http://`.
pub is_path_soundcloud_lem :
    (path host : Text)
    → IsAddress path host
    → (is_path_soundcloud path ≡ true)
      ↔ (GoesOn soundcloud_domain host ⊎ GoesOn soundcloud_api_domain host)
unfolding is_path_soundcloud
is_path_soundcloud_lem path host h = rw (mangled_lem path host h) (
    or_iff (goes_on_from soundcloud_domain host) _ (goes_on soundcloud_domain host)
      (goes_on soundcloud_api_domain host))
