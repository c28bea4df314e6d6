-- ===== src/Base/Flow/Ends.antt =====
-- How a flow may end: a predicate on its values, its early results and what it throws.
use xrpl.Prelude.{◌≡◌, ◌≢◌, refl, ◌⊎◌, inl, inr, arith}
use xrpl.Js.Outcome.{Thrown}
use xrpl.Base.Flow.{Flow, next, stop, fail, ◌>>=◌}

pub Flow-cases : {R A : Type 0} (f : Flow R A) → ((a : A) × (f ≡ next a)) ⊎ ((a : A) → f ≢ next a)
Flow-cases (next a) = inl (a, refl)
Flow-cases (stop r) = inr λ a. ground arith
Flow-cases (fail e) = inr λ a. ground arith

module _ {R : Type 0} (P : R → Type 0) (Q : Thrown → Type 0) where
  abbrev pub Ends : {A : Type 0} → Flow R A → Type 0
  Ends (next _) = Unit
  Ends (stop r) = P r
  Ends (fail e) = Q e

  pub Ends-bind :
      {A B : Type 0} (m : Flow R A) (f : A → Flow R B)
      → Ends m
      → ((a : A) → m ≡ next a → Ends (f a))
      → Ends (m >>= f)
  Ends-bind (next a) f p h = h a refl
  Ends-bind (stop r) f p h = p
  Ends-bind (fail e) f p h = p
