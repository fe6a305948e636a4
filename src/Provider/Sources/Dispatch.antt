-- ===== src/Provider/Sources/Dispatch.antt =====
-- How often the callback is called, and with what.
use nfdecoder.Base.{
  ℕ, suc, ◌≡◌, refl, true, false, Option, none, some, List, ◌⊎◌, inl, inr, Bool-cases, Option-cases,
}
use nfdecoder.Base.Text.{Text}
use nfdecoder.Factory.{Calls}
use nfdecoder.Factory.Once.{Once, call-Once, continue-Once}
use nfdecoder.Provider.Sources.{
  Source, custom, Creator, Services, Response, first_created, wants_resolving, source_of,
  resolve_url, on_response, load_source, create_data_provider, serve,
}

module _ (C : Type 0) (services : Services C) (creators : List (ℕ × Creator C)) where
  -- The path is served without a resolve request.
  unfoldable pub IsDirect : Text → Type 0
  IsDirect path =
      ((c : C) × (first_created C creators path ≡ some c))
      ⊎ (wants_resolving C services creators path ≡ false)

  -- A path that needs no resolve request, and one whose request succeeds with the URL of such a
  -- path.
  pub data IsServed : Text → Type 0 where
    direct : (path : Text) → IsDirect path → IsServed path
    resolved :
        (path url : Text)
        → first_created C creators path ≡ none
        → services.alive ≡ true
        → (services.resolve (resolve_url C services creators path)).status ≡ 200
        → services.stream_url (services.resolve (resolve_url C services creators path)).body
          ≡ some url
        → IsDirect url
        → IsServed path

  load_source-Once :
      ((s : Source C) → Once (services.load s))
      → (s : Source C) → Once (load_source C services creators s)
  unfolding load_source
  load_source-Once once s = continue-Once _ _ (once s) (λ b. call-Once _)

  direct-Once :
      ((s : Source C) → Once (services.load s))
      → (path : Text) (fuel : ℕ) → IsDirect path
      → Once (create_data_provider C services creators (suc fuel) path)
  unfolding create_data_provider IsDirect serve
  direct-Once once path fuel (inl (c, e)) = rw e (load_source-Once once (custom c))
  direct-Once once path fuel (inr e) = elim (Option-cases (first_created C creators path)) [
    | inl n ↦ rw (n, e) (load_source-Once once (source_of C services creators path))
    | inr (c, n) ↦ rw n (load_source-Once once (custom c))
  ]

  resolving :
      (path : Text)
      → wants_resolving C services creators path ≡ true
        ⊎ (wants_resolving C services creators path ≡ false)
  resolving path = Bool-cases _

  named :
      (next : Text → Calls (Option (Source C))) (r : Response) (url : Text)
      → services.alive ≡ true
      → r.status ≡ 200
      → services.stream_url r.body ≡ some url
      → on_response C services creators next r ≡ next url
  unfolding on_response
  named next r url alive ok names = rw (alive, ok, names) refl

  -- Two rounds are enough, and the callback is called exactly once, for every path that needs no
  -- resolve request or whose request names such a path, when loading calls back once.
  pub create_data_provider-Once :
      (path : Text) (fuel : ℕ)
      → ((s : Source C) → Once (services.load s))
      → IsServed path
      → Once (create_data_provider C services creators (suc (suc fuel)) path)
  unfolding create_data_provider serve IsDirect
  create_data_provider-Once path fuel once (direct _ d) = direct-Once once path (suc fuel) d
  create_data_provider-Once path fuel once (resolved _ url none_took alive ok names d) =
      elim (resolving path) [
        | inl w ↦
            rw
              (
                none_took,
                w,
                named (create_data_provider C services creators (suc fuel)) _ url alive ok names,
              )
              (direct-Once once url fuel d)
        | inr w ↦ direct-Once once path (suc fuel) (inr w)
      ]
