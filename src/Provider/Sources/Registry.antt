-- ===== src/Provider/Sources/Registry.antt =====
-- The registry of creator functions: indexes are fresh, and removing undoes adding.
use nfdecoder.Base.{
  ℕ, ◌∙◌, ◌+◌, ◌<◌, ◌≡◌, refl, arith, none, some, List, [], ◌∷◌, ◌++◌, All, All-append, inl, inr,
  le→ltb, ne→==, ==_refl, Option-cases,
}
use nfdecoder.Base.Text.{Text}
use nfdecoder.Provider.Sources.{
  Creators, Creator, insert, erase, add_data_provider_creator, remove_data_provider_creator,
  first_created,
}

module _ (C : Type 0) where
  -- Every index that is in use has been given out.
  unfoldable pub IsRegistry : Creators C → Type 0
  IsRegistry s = All (λ (p : ℕ × Creator C). p.0 < s.count) s.functions

  insert_last :
      (n : ℕ) (f : Creator C) (fs : List (ℕ × Creator C))
      → All (λ (p : ℕ × Creator C). p.0 < n) fs
      → insert C n f fs ≡ fs ++ ((n, f) ∷ [])
  unfolding insert
  insert_last n f [] h = refl
  insert_last n f ((j, g) ∷ fs) h =
      rw (le→ltb n j (omega (arith, h.0)), ne→== n j (omega (arith, h.0)), insert_last n f fs h.1)
        refl

  erase_last :
      (n : ℕ) (f : Creator C) (fs : List (ℕ × Creator C))
      → All (λ (p : ℕ × Creator C). p.0 < n) fs
      → erase C n (fs ++ ((n, f) ∷ [])) ≡ fs
  unfolding erase
  erase_last n f [] h = rw (==_refl n) refl
  erase_last n f ((j, g) ∷ fs) h = rw (ne→== n j (omega (arith, h.0)), erase_last n f fs h.1) refl

  widen :
      (n : ℕ) (fs : List (ℕ × Creator C))
      → All (λ (p : ℕ × Creator C). p.0 < n) fs
      → All (λ (p : ℕ × Creator C). p.0 < n + 1) fs
  widen n [] h = tt
  widen n ((j, g) ∷ fs) h = (omega (arith, h.0), widen n fs h.1)

  first_created-append :
      (fs gs : List (ℕ × Creator C)) (path : Text)
      → first_created C fs path ≡ none
      → first_created C (fs ++ gs) path ≡ first_created C gs path
  unfolding first_created
  first_created-append [] gs path h = refl
  first_created-append ((j, f) ∷ fs) gs path h = elim (Option-cases (f path)) [
    | inl e ↦ rw e (first_created-append fs gs path (rw e at h))
    | inr (c, e) ↦ cc (rw e at h)
  ]

  first_created-keeps :
      (fs gs : List (ℕ × Creator C)) (path : Text) (c : C)
      → first_created C fs path ≡ some c
      → first_created C (fs ++ gs) path ≡ some c
  unfolding first_created
  first_created-keeps [] gs path c h = cc
  first_created-keeps ((j, f) ∷ fs) gs path c h = elim (Option-cases (f path)) [
    | inl e ↦ rw e (first_created-keeps fs gs path c (rw e at h))
    | inr (d, e) ↦ rw e (rw e at h)
  ]

  last_created : (n : ℕ) (f : Creator C) (path : Text) → first_created C ((n, f) ∷ []) path ≡ f path
  unfolding first_created
  last_created n f path = elim (Option-cases (f path)) [
    | inl e ↦ rw e refl
    | inr (c, e) ↦ rw e refl
  ]

  -- Adding a creator gives it an index that no creator has, behind all others: it is asked only for
  -- the paths that no earlier creator takes, and what others take does not change. Removing that
  -- index again leaves the creators as they were, and both keep the registry valid.
  pub remove-add :
      (s : Creators C) (f : Creator C)
      → IsRegistry s
      → IsRegistry (add_data_provider_creator C s f).1
        × ((remove_data_provider_creator C
              (add_data_provider_creator C s f).1
              (add_data_provider_creator C s f).0).functions
            ≡ s.functions)
        × ((path : Text)
            → first_created C s.functions path ≡ none
            → first_created C (add_data_provider_creator C s f).1.functions path ≡ f path)
        × ((path : Text) (c : C)
            → first_created C s.functions path ≡ some c
            → first_created C (add_data_provider_creator C s f).1.functions path ≡ some c)
  unfolding add_data_provider_creator remove_data_provider_creator IsRegistry
  remove-add s f h = rw (insert_last s.count f s.functions h) (
    All-append (λ (p : ℕ × Creator C). p.0 < s.count + 1) s.functions _
        (widen s.count s.functions h) (omega arith, tt),
    erase_last s.count f s.functions h,
    λ path e. first_created-append s.functions _ path e ∙ last_created s.count f path,
    λ path c e. first_created-keeps s.functions _ path c e,
  )
