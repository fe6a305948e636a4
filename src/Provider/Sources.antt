-- ===== src/Provider/Sources.antt =====
-- source/DataProviderFactoryImplementation.cpp: the data provider of a path. The HTTP client, the
-- JSON library and the creator functions are parameters; the calls of the callbacks are a list.
-- The mutex makes each walk over the creators one step; indexes do not reach the end of `int`.
mod Registry
mod Dispatch
mod Tests
use nfdecoder.Base.{
  ℕ, zero, suc, ◌+◌, ◌==◌, ltb, leb, if◌then◌else◌, ◌||◌, ◌&&◌, not, Bool, true, false, Option,
  none, some, List, [], ◌∷◌, ◌++◌, take, length,
}
use nfdecoder.Base.Text.{Text, codes, text_eq}
use nfdecoder.Base.Event.{Event, error, done}
use nfdecoder.Base.Run.{Run, ret, unfinished, or_fault, ◌>>=◌}
use nfdecoder.Path.{holds, is_path_soundcloud, http_protocol, https_protocol}
use nfdecoder.Factory.{Calls, call, continue}

abbrev pub domain : Text
domain = codes "com.nativeformat.dataprovider.factory"

-- `path.size() >= prefix.size() && path.substr(0, prefix.size()) == prefix`
unfoldable pub begins : Text → Text → Bool
unfolding text_eq
begins prefix path = leb (length prefix) (length path) && text_eq (take (length prefix) path) prefix

-- The response to a resolve request.
pub record Response : Type 0 where
  pub status : ℕ
  pub body : List ℕ

-- What a path is served by; `custom` is what a creator function made.
pub data Source (C : Type 0) : Type 0 where
  custom : C → Source C
  http : Text → Source C
  file : Text → Source C

module _ (C : Type 0) where
  abbrev pub Creator : Type 0
  Creator = Text → Option C

  -- `_creator_functions`, in the order of their indexes, and `_creator_count`.
  pub record Creators : Type 0 where
    pub functions : List (ℕ × Creator)
    pub count : ℕ

  -- Insertion into the `std::map`.
  unfoldable pub insert : ℕ → Creator → List (ℕ × Creator) → List (ℕ × Creator)
  insert i f [] = (i, f) ∷ []
  insert i f ((j, g) ∷ fs) =
      let rest = insert i f fs in
      if ltb i j then (i, f) ∷ (j, g) ∷ fs else if i == j then (i, f) ∷ fs else (j, g) ∷ rest

  unfoldable pub erase : ℕ → List (ℕ × Creator) → List (ℕ × Creator)
  erase i [] = []
  erase i ((j, g) ∷ fs) = let rest = erase i fs in if i == j then fs else (j, g) ∷ rest

  unfoldable pub add_data_provider_creator : Creators → Creator → ℕ × Creators
  unfolding insert
  add_data_provider_creator s f =
      (s.count, record { functions = insert s.count f s.functions; count = s.count + 1 })

  unfoldable pub remove_data_provider_creator : Creators → ℕ → Creators
  unfolding erase
  remove_data_provider_creator s i = record s { functions = erase i s.functions }

  -- The loop over the creators.
  unfoldable pub first_created : List (ℕ × Creator) → Text → Option C
  first_created [] path = none
  first_created ((j, f) ∷ fs) path =
      let rest = first_created fs path in elim (f path) [ some c ↦ some c | none ↦ rest ]

  -- The services: `resolve` answers a request, `stream_url` parses its data and is `none` where the
  -- library throws, `load` is what loading a provider calls, and `alive` says that the factory
  -- still lives when an answer comes.
  pub record Services : Type 0 where
    pub resolve : Text → Response
    pub stream_url : List ℕ → Option Text
    pub load : Source C → Calls Bool
    pub alive : Bool

  module _ (services : Services) (creators : List (ℕ × Creator)) where
    open services use {resolve, stream_url, load, alive}

    unfoldable pub load_source : Source C → Calls (Option (Source C))
    unfolding continue
    load_source s = continue (load s) (λ success. call (if success then some s else none))

    unfoldable pub is_remote : Text → Bool
    unfolding begins
    is_remote path = begins http_protocol path || begins https_protocol path

    -- The paths whose streaming URL is resolved first.
    unfoldable pub wants_resolving : Text → Bool
    unfolding is_remote is_path_soundcloud holds
    wants_resolving path =
        is_remote path && is_path_soundcloud path && not (holds (codes "/stream") path)

    abbrev pub resolve_url : Text → Text
    resolve_url path = codes "https://api.soundcloud.com/resolve?url=" ++ path

    -- The callback of the request; `next` is the call for the URL that it names.
    unfoldable pub on_response :
        (Text → Calls (Option (Source C))) → Response → Calls (Option (Source C))
    on_response next r =
        if not alive
        then ret []
        else if r.status == 200
        then or_fault (stream_url r.body) >>= next
        else ret (done none ∷ error domain r.status ∷ [])

    -- The provider of a path that no creator took.
    unfoldable pub source_of : Text → Source C
    unfolding is_remote
    source_of path = if is_remote path then http path else file path

    -- What a creator took, else the answer of the request where one is wanted.
    unfoldable pub serve :
        Option C → Bool → Text → Calls (Option (Source C)) → Calls (Option (Source C))
    unfolding load_source source_of
    serve (some c) wants path answer = load_source (custom c)
    serve none true path answer = answer
    serve none false path answer = load_source (source_of path)

    -- One unit of fuel for each URL that is resolved.
    unfoldable pub create_data_provider : ℕ → Text → Calls (Option (Source C))
    unfolding serve wants_resolving on_response first_created
    create_data_provider zero path = unfinished
    create_data_provider (suc fuel) path =
        serve (first_created creators path) (wants_resolving path) path
          (on_response (create_data_provider fuel) (resolve (resolve_url path)))
