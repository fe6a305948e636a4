-- ===== src/Factory.antt =====
-- The decoder factories: include/NFDecoder/Factory.h, and the state that their callbacks thread.
-- The objects that a factory connects are parameters; the calls of its callbacks are a list.
pub mod Once
pub mod Answered
pub mod MimeTypes
pub mod Common
pub mod Platform
pub mod Lgpl
pub mod Transmuxer
pub mod Normalisation
pub mod Service
pub mod Create
mod Tests
use nfdecoder.Base.{◌≡◌, Bool, Option, none, some, List, [], ◌∷◌, ◌++◌, if◌then◌else◌}
use nfdecoder.Base.Int.{ℤ}
use nfdecoder.Base.Text.{Text}
use nfdecoder.Base.Event.{Event, error, done}
use nfdecoder.Base.Run.{Run, ret, fault, unfinished, ◌>>=◌}
use nfdecoder.Provider.{DataProvider}

-- The calls of the callbacks of an operation, in order, where nothing is undefined before them.
abbrev pub Calls {ℓ} : Type ℓ → Type ℓ
Calls A = Run (List (Event A))

-- An operation whose completion callback runs `f`.
unfoldable pub resume {ℓ κ} : {A : Type ℓ} {B : Type κ} → List (Event A) → (A → Calls B) → Calls B
resume [] f = ret []
resume (error d c ∷ es) f = resume es f >>= λ rest. ret (error d c ∷ rest)
resume (done a ∷ es) f = f a >>= λ first. resume es f >>= λ rest. ret (first ++ rest)

unfoldable pub continue {ℓ κ} : {A : Type ℓ} {B : Type κ} → Calls A → (A → Calls B) → Calls B
unfolding resume
continue calls f = calls >>= λ es. resume es f

-- One call of a completion callback.
abbrev pub call {ℓ} : {A : Type ℓ} → A → Calls A
call a = ret (done a ∷ [])

-- The objects: sample rates with `==` on doubles, decoders with their getters, data providers and
-- decrypters.
pub record Objects : Type 1 where
  pub Rate : Type 0
  pub same_rate : Rate → Rate → Bool
  pub standard_samplerate : Rate
  pub Decoder : Type 0
  pub sample_rate : Decoder → Rate
  pub channels : Decoder → ℤ
  pub Provider : DataProvider
  pub Decrypter : Type 0

-- `createDataProvider` of a `DataProviderFactory`
abbrev pub CreateDataProvider : Objects → Type 0
CreateDataProvider O = Text → Calls (Option (DataProvider.State O.Provider))

-- `load` of a decoder that has just been made: its calls, and the decoder after them.
abbrev pub Loading : Type 0 → Type 0
Loading D = Calls Bool × D

-- `decoder->load(error, [](bool success) { create(success ? decoder : nullptr); })`
unfoldable pub load_decoder : {D : Type 0} → Loading D → Calls (Option D)
unfolding continue
load_decoder (calls, decoder) =
    continue calls (λ success. call (if success then some decoder else none))

-- `createDecoder` of a `Factory` whose decoders are in `D`: the path, the MIME type, the rate and
-- the number of channels.
abbrev pub CreateDecoder : Objects → Type 0 → Type 0
CreateDecoder O D = Text → Text → O.Rate → ℤ → Calls (Option D)
