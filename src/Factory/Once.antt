-- ===== src/Factory/Once.antt =====
-- Callbacks that are called exactly once, and what they are called with.
use nfdecoder.Base.{ℕ, ◌+◌, ◌≡◌, refl, arith, List, [], ◌∷◌, ◌++◌}
use nfdecoder.Base.Event.{Event, error, done, completions}
use nfdecoder.Base.Text.{Text}
use nfdecoder.Base.Run.{ret, fault, unfinished, ◌>>=◌}
use nfdecoder.Factory.{Calls, resume, continue, call}

-- The operation is defined and calls its completion callback exactly once.
pub Once {ℓ} : {A : Type ℓ} → Calls A → Type ℓ
Once {A = A} r = (es : List (Event A)) × (r ≡ ret es) × (completions es ≡ 1)

-- Every call of the completion callback is with a value in `Q`.
unfoldable pub EachDone {ℓ κ} : {A : Type ℓ} → (A → Type κ) → List (Event A) → Type κ
EachDone Q [] = Unit
EachDone Q (error d c ∷ es) = EachDone Q es
EachDone Q (done a ∷ es) = Q a × EachDone Q es

unfoldable pub Each {ℓ κ} : {A : Type ℓ} → (A → Type κ) → Calls A → Type κ
unfolding EachDone
Each Q (ret es) = EachDone Q es
Each Q fault = Unit
Each Q unfinished = Unit

module _ {ℓ} {A : Type ℓ} where
  pub completions-append :
      (xs ys : List (Event A)) → completions (xs ++ ys) ≡ completions xs + completions ys
  unfolding completions
  completions-append [] ys = omega arith
  completions-append (error d c ∷ xs) ys = completions-append xs ys
  completions-append (done a ∷ xs) ys = omega (arith, completions-append xs ys)

  pub call-Once : (a : A) → Once (call a)
  unfolding Once completions
  call-Once a = (done a ∷ [], refl, refl)

module _ {ℓ κ} {A : Type ℓ} (P : A → Type κ) where
  pub ret-Each : (r : Calls A) (es : List (Event A)) → r ≡ ret es → Each P r → EachDone P es
  unfolding Each
  ret-Each r es e h = rw e at h

module _ {ℓ κ} {A : Type ℓ} {B : Type κ} (f : A → Calls B) where
  none_then :
      (es : List (Event A))
      → completions es ≡ 0
      → (fs : List (Event B)) × (resume es f ≡ ret fs) × (completions fs ≡ 0)
  unfolding resume completions
  none_then [] h = ([], refl, refl)
  none_then (error d c ∷ es) h =
      let (fs, e, n) = none_then es h in (error d c ∷ fs, rw (e, resume) refl, n)
  none_then (done a ∷ es) h = absurd (omega arith)

  resume-Once :
      (es : List (Event A)) → completions es ≡ 1 → ((a : A) → Once (f a)) → Once (resume es f)
  unfolding resume completions Once
  resume-Once [] h once = cc
  resume-Once (error d c ∷ es) h once =
      let (fs, e, n) = resume-Once es h once in (error d c ∷ fs, rw (e, resume) refl, n)
  resume-Once (done a ∷ es) h once =
      let (first, e, n) = once a in
      let (rest, e', n') = none_then es (omega arith) in
      (first ++ rest, rw (e, e', resume) refl, omega (arith, completions-append first rest))

  pub continue-Once : (r : Calls A) → Once r → ((a : A) → Once (f a)) → Once (continue r f)
  unfolding continue Once
  continue-Once r (es, e, n) once = rw e (resume-Once es n once)

  module _ {μ} (Q : B → Type μ) where
    EachDone-append :
        (xs ys : List (Event B)) → EachDone Q xs → EachDone Q ys → EachDone Q (xs ++ ys)
    unfolding EachDone
    EachDone-append [] ys p q = q
    EachDone-append (error d c ∷ xs) ys p q = EachDone-append xs ys p q
    EachDone-append (done a ∷ xs) ys p q = (p.0, EachDone-append xs ys p.1 q)

    Each-append :
        (x y : Calls B) → Each Q x → Each Q y → Each Q (x >>= λ xs. y >>= λ ys. ret (xs ++ ys))
    unfolding Each
    Each-append (ret xs) (ret ys) p q = EachDone-append xs ys p q
    Each-append (ret xs) fault p q = tt
    Each-append (ret xs) unfinished p q = tt
    Each-append fault y p q = tt
    Each-append unfinished y p q = tt

    Each-error :
        (d : Text) (c : ℕ) (y : Calls B) → Each Q y → Each Q (y >>= λ ys. ret (error d c ∷ ys))
    unfolding Each EachDone
    Each-error d c (ret ys) q = q
    Each-error d c fault q = tt
    Each-error d c unfinished q = tt

    module _ {ν} (R : A → Type ν) (each : (a : A) → R a → Each Q (f a)) where
      resume-Each : (es : List (Event A)) → EachDone R es → Each Q (resume es f)
      unfolding resume Each EachDone
      resume-Each [] h = tt
      resume-Each (error d c ∷ es) h = Each-error d c (resume es f) (resume-Each es h)
      resume-Each (done a ∷ es) h =
          Each-append (f a) (resume es f) (each a h.0) (resume-Each es h.1)

      pub continue-Each : (r : Calls A) → Each R r → Each Q (continue r f)
      unfolding continue Each
      continue-Each (ret es) h = resume-Each es h
      continue-Each fault h = tt
      continue-Each unfinished h = tt

module _ {ℓ} {A : Type ℓ} where
  EachDone-all : (es : List (Event A)) → EachDone (λ a. Unit {0}) es
  unfolding EachDone
  EachDone-all [] = tt
  EachDone-all (error d c ∷ es) = EachDone-all es
  EachDone-all (done a ∷ es) = (tt, EachDone-all es)

  pub Each-all : (r : Calls A) → Each (λ a. Unit {0}) r
  unfolding Each
  Each-all (ret es) = EachDone-all es
  Each-all fault = tt
  Each-all unfinished = tt

pub call-Each {ℓ κ} : {A : Type ℓ} (Q : A → Type κ) (a : A) → Q a → Each Q (call a)
unfolding Each EachDone
call-Each Q a q = (q, tt)
