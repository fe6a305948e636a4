-- ===== src/Factory/Answered.antt =====
-- Callbacks that are called, once or more often: some decoders report a failure and go on.
use nfdecoder.Base.{◌<◌, ◌≤◌, ◌≡◌, refl, arith, List, [], ◌∷◌, ◌++◌}
use nfdecoder.Base.Event.{Event, error, done, completions}
use nfdecoder.Base.Run.{ret}
use nfdecoder.Factory.Once.{EachDone, Each, ret-Each, Each-all, completions-append}
use nfdecoder.Factory.{Calls, resume, continue, call, Loading, load_decoder}

-- The operation is defined and calls its completion callback, once or more often.
unfoldable pub Answered {ℓ} : {A : Type ℓ} → Calls A → Type ℓ
Answered {A = A} r = (es : List (Event A)) × (r ≡ ret es) × (0 < completions es)

module _ {ℓ} {A : Type ℓ} where
  pub call-Answered : (a : A) → Answered (call a)
  unfolding Answered completions
  call-Answered a = (done a ∷ [], refl, omega arith)

module _ {ℓ κ} {A : Type ℓ} {B : Type κ} (f : A → Calls B) where
  module _ {μ} (P : A → Type μ) where
    -- There are as many calls at least as there are of the operation's callback.
    resume-Answered :
        (es : List (Event A))
        → EachDone P es
        → ((a : A) → P a → Answered (f a))
        → (fs : List (Event B)) × (resume es f ≡ ret fs) × (completions es ≤ completions fs)
    unfolding resume completions Answered EachDone
    resume-Answered [] each answers = ([], refl, omega arith)
    resume-Answered (error d c ∷ es) each answers =
        let (fs, e, n) = resume-Answered es each answers in (error d c ∷ fs, rw (e, resume) refl, n)
    resume-Answered (done a ∷ es) each answers =
        let (first, e, n) = answers a each.0 in
        let (rest, e', n') = resume-Answered es each.1 answers in
        (
          first ++ rest,
          rw (e, e', resume) refl,
          omega (arith, completions-append first rest, n, n'),
        )

    pub continue-Answered_where :
        (r : Calls A)
        → Answered r
        → Each P r
        → ((a : A) → P a → Answered (f a))
        → Answered (continue r f)
    unfolding continue Answered
    continue-Answered_where r (es, e, n) each answers =
        let (fs, e', more) = resume-Answered es (ret-Each P r es e each) answers in
        (fs, rw e e', omega (arith, n, more))

  pub continue-Answered :
      (r : Calls A) → Answered r → ((a : A) → Answered (f a)) → Answered (continue r f)
  continue-Answered r h answers =
      continue-Answered_where (λ a. Unit {0}) r h (Each-all r) (λ a u. answers a)

-- Where loading a decoder calls back, its maker is called back.
pub load_decoder-Answered : {D : Type 0} (l : Loading D) → Answered l.0 → Answered (load_decoder l)
unfolding load_decoder
load_decoder-Answered (r, d) h = continue-Answered _ r h (λ success. call-Answered _)
