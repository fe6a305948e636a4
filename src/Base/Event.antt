-- ===== src/Base/Event.antt =====
-- What a callback interface does, as the list of the calls that it makes, in order.
use nfdecoder.Base.{ℕ, List, [], ◌∷◌, ◌++◌, suc}
use nfdecoder.Base.Text.{Text}

-- A call of the error callback, with its domain and code, or of the completion callback.
pub data Event {ℓ} (A : Type ℓ) : Type ℓ where
  error : Text → ℕ → Event A
  done : A → Event A

module _ {ℓ κ} {A : Type ℓ} {B : Type κ} where
  -- A completion callback that runs `f`; errors pass through.
  unfoldable pub and_then : List (Event A) → (A → List (Event B)) → List (Event B)
  and_then [] f = []
  and_then (error d c ∷ es) f = error d c ∷ and_then es f
  and_then (done a ∷ es) f = f a ++ and_then es f

module _ {ℓ} {A : Type ℓ} where
  -- How often the completion callback is called.
  unfoldable pub completions : List (Event A) → ℕ
  completions [] = 0
  completions (error d c ∷ es) = completions es
  completions (done a ∷ es) = suc (completions es)
