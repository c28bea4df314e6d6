-- ===== src/Js/Outcome.antt =====
-- A call that returns or throws. What is thrown is kept as a value; the wording that an engine or
-- a package gives its errors is not modelled.
use xrpl.Prelude.{ℕ, ◌≡◌, refl, ◌⊎◌, inl, inr, Option, none, some}
use xrpl.Js.Text.{Text}

pub data Thrown : Type 0 where
  -- "invalid hex: odd length", with the length
  odd_length : ℕ → Thrown
  -- "invalid hex: non-hex characters"
  non_hex : Thrown
  -- "string too long for bytes32", with the number of bytes
  too_long : ℕ → Thrown
  -- a SyntaxError of `JSON.parse`
  bad_json : Thrown
  -- a SyntaxError or a RangeError of `BigInt`
  bad_integer : Thrown
  -- a TypeError: a property of `null` or `undefined`, or a method that a value lacks
  bad_access : Thrown
  -- a text of the source
  message : Text → Thrown
  -- thrown by a package or a service
  external : Text → Thrown

pub data Outcome (A : Type 0) : Type 0 where
  ok : A → Outcome A
  throw : Thrown → Outcome A

infixl 5 ◌>>=◌
abbrev pub ◌>>=◌ : {A B : Type 0} → Outcome A → (A → Outcome B) → Outcome B
ok a >>= f = f a
throw e >>= f = throw e

abbrev pub or_throw : {A : Type 0} → Thrown → Option A → Outcome A
or_throw e none = throw e
or_throw e (some a) = ok a

pub Outcome-cases :
    {A : Type 0} (o : Outcome A) → ((a : A) × (o ≡ ok a)) ⊎ ((e : Thrown) × (o ≡ throw e))
Outcome-cases (ok a) = inl (a, refl)
Outcome-cases (throw e) = inr (e, refl)
