-- ===== src/Base/Flow.antt =====
-- Code with early returns and exceptions: it goes on with a value, returns a result to its caller,
-- or throws.
pub mod Ends
use xrpl.Prelude.{Bool, true, false, Option, none, some}
use xrpl.Js.Outcome.{Outcome, ok, throw, Thrown}

pub data Flow (R A : Type 0) : Type 0 where
  next : A → Flow R A
  stop : R → Flow R A
  fail : Thrown → Flow R A

module _ {R : Type 0} where
  infixl 5 ◌>>=◌ ◌>>◌
  abbrev pub ◌>>=◌ : {A B : Type 0} → Flow R A → (A → Flow R B) → Flow R B
  next a >>= f = f a
  stop r >>= f = stop r
  fail e >>= f = fail e

  abbrev pub ◌>>◌ : {B : Type 0} → Flow R (Unit {0}) → Flow R B → Flow R B
  m >> k = m >>= λ _. k

  -- `if (!test) return r;`
  abbrev pub require : Bool → R → Flow R (Unit {0})
  require true r = next tt
  require false r = stop r

  -- `if (test) return r;`
  abbrev pub return_if : Bool → R → Flow R (Unit {0})
  return_if true r = stop r
  return_if false r = next tt

  -- A value, or a return where it is `undefined`.
  abbrev pub or_return : {A : Type 0} → Option A → R → Flow R A
  or_return none r = stop r
  or_return (some a) r = next a

  -- A call outside `try`.
  abbrev pub call : {A : Type 0} → Outcome A → Flow R A
  call (ok a) = next a
  call (throw e) = fail e

  -- `try { … } catch (e) { return … }`
  abbrev pub attempt : {A : Type 0} → Outcome A → (Thrown → R) → Flow R A
  attempt (ok a) f = next a
  attempt (throw e) f = stop (f e)

  -- The end of a function that always returns a result.
  abbrev pub settle : Flow R R → Outcome R
  settle (next r) = ok r
  settle (stop r) = ok r
  settle (fail e) = throw e
