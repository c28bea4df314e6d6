-- ===== src/Js/Task.antt =====
-- Asynchronous code that calls services: a task runs on a world, which it leaves changed, and returns
-- or throws. Each call of a service is recorded with its outcome.
pub mod Acts
pub mod Returns
use xrpl.Prelude.{List, [], ◌∷◌, Option, none, some}
use xrpl.Js.Outcome.{Outcome, ok, throw, Thrown}

-- The world and the acts so far, the latest first.
pub record Run (W E : Type 0) : Type 0 where
  pub world : W
  pub acts : List E

abbrev pub Task : Type 0 → Type 0 → Type 0 → Type 0
Task W E A = Run W E → Outcome A × Run W E

module _ {W E : Type 0} where
  abbrev pub after : {A B : Type 0} → (A → Task W E B) → Outcome A × Run W E → Outcome B × Run W E
  after f (ok a, r) = f a r
  after f (throw e, r) = (throw e, r)

  abbrev pub otherwise :
      {A : Type 0} → (Thrown → Task W E A) → Outcome A × Run W E → Outcome A × Run W E
  otherwise f (ok a, r) = (ok a, r)
  otherwise f (throw e, r) = f e r

  infixl 5 ◌>>=◌ ◌>>◌
  unfoldable pub ◌>>=◌ : {A B : Type 0} → Task W E A → (A → Task W E B) → Task W E B
  (m >>= f) r = after f (m r)

  abbrev pub ◌>>◌ : {A B : Type 0} → Task W E A → Task W E B → Task W E B
  m >> k = m >>= λ _. k

  unfoldable pub pure : {A : Type 0} → A → Task W E A
  pure a r = (ok a, r)

  unfoldable pub raise : {A : Type 0} → Thrown → Task W E A
  raise e r = (throw e, r)

  -- A call of a service.
  unfoldable pub perform : {A : Type 0} → (Outcome A → E) → (W → Outcome A × W) → Task W E A
  perform act f r =
      let out = f r.world in (out.0, record { world = out.1; acts = act out.0 ∷ r.acts })

  -- `try { … } catch (e) { … }`
  unfoldable pub catch : {A : Type 0} → Task W E A → (Thrown → Task W E A) → Task W E A
  catch m f r = otherwise f (m r)

  -- The outcome of a function that calls no service.
  abbrev pub lift : {A : Type 0} → Outcome A → Task W E A
  lift (ok a) = pure a
  lift (throw e) = raise e

  -- The outcome of a task as a value, for a caller that tells them apart.
  unfoldable pub outcome : {A : Type 0} → Task W E A → Task W E (Outcome A)
  outcome m r = let out = m r in (ok out.0, out.1)

  -- A task as a service of others: what it does is not recorded.
  abbrev pub embed : {A : Type 0} → Task W E A → W → Outcome A × W
  embed m w = let out = m (record { world = w; acts = [] }) in (out.0, out.1.world)
