-- ===== src/Base/Run.antt =====
-- A computation that may meet undefined behaviour, or that has not ended within its fuel.
use mathlib.Core.Path.{subst}
use nfdecoder.Base.{◌≡◌, refl, Bool, true, false, if◌then◌else◌, Option, none, some}

pub data Run {ℓ} (A : Type ℓ) : Type ℓ where
  ret : A → Run A
  fault : Run A
  unfinished : Run A

infixl 5 ◌>>=◌
abbrev pub ◌>>=◌ {ℓ κ} : {A : Type ℓ} {B : Type κ} → Run A → (A → Run B) → Run B
ret a >>= f = f a
fault >>= f = fault
unfinished >>= f = unfinished

-- An operation whose undefined behaviour is `none`.
abbrev pub or_fault {ℓ} : {A : Type ℓ} → Option A → Run A
or_fault none = fault
or_fault (some a) = ret a

-- Whatever a computation gives satisfies `P`.
pub Keeps {ℓ κ} : {A : Type ℓ} → (A → Type κ) → Run A → Type κ
Keeps P (ret a) = P a
Keeps P fault = Unit
Keeps P unfinished = Unit

module _ {ℓ κ} {A : Type ℓ} (P : A → Type κ) where
  pub Keeps-ret : (a : A) → P a → Keeps P (ret a)
  unfolding Keeps
  Keeps-ret a p = p

  pub Keeps-fault : Keeps P fault
  unfolding Keeps
  Keeps-fault = tt

  pub Keeps-unfinished : Keeps P unfinished
  unfolding Keeps
  Keeps-unfinished = tt

  pub Keeps-if : (b : Bool) (x y : Run A) → Keeps P x → Keeps P y → Keeps P (if b then x else y)
  Keeps-if true x y p q = p
  Keeps-if false x y p q = q

  pub Keeps-or_fault {κ'} :
      {B : Type κ'} (o : Option B) (f : B → Run A)
      → ((b : B) → Keeps P (f b))
      → Keeps P (or_fault o >>= f)
  Keeps-or_fault none f h = Keeps-fault
  Keeps-or_fault (some b) f h = h b

  pub Keeps-option {κ'} :
      {B : Type κ'} (o : Option B) (x : Run A) (f : B → Run A)
      → Keeps P x
      → ((b : B) → o ≡ some b → Keeps P (f b))
      → Keeps P (elim o [ none ↦ x | some b ↦ f b ])
  Keeps-option none x f p q = p
  Keeps-option (some b) x f p q = q b refl

  pub Keeps-bind {ℓ' κ'} :
      {B : Type ℓ'} (Q : B → Type κ') (m : Run B) (f : B → Run A)
      → Keeps Q m
      → ((b : B) → Q b → Keeps P (f b))
      → Keeps P (m >>= f)
  unfolding Keeps
  Keeps-bind Q (ret b) f q k = k b q
  Keeps-bind Q fault f q k = tt
  Keeps-bind Q unfinished f q k = tt

  pub Keeps-map {κ'} : (Q : A → Type κ') (m : Run A) → Keeps P m → ((a : A) → P a → Q a) → Keeps Q m
  unfolding Keeps
  Keeps-map Q (ret a) p k = k a p
  Keeps-map Q fault p k = tt
  Keeps-map Q unfinished p k = tt

  pub Keeps-inv : (r : Run A) (a : A) → Keeps P r → r ≡ ret a → P a
  unfolding Keeps
  Keeps-inv (ret b) a p e = subst P (ret_injective b a e) p
    where
      ret_injective : (x y : A) → ret x ≡ ret y → x ≡ y
      ret_injective x y e = cc
  Keeps-inv fault a p e = cc
  Keeps-inv unfinished a p e = cc

pub Keeps-anything {ℓ} : {A : Type ℓ} (m : Run A) → Keeps (λ _. Unit {0}) m
unfolding Keeps
Keeps-anything (ret a) = tt
Keeps-anything fault = tt
Keeps-anything unfinished = tt
