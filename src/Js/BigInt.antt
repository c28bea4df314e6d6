-- ===== src/Js/BigInt.antt =====
-- `bigint`: signed whole numbers, with division towards zero.
use xrpl.Prelude.{
  ℕ, suc, ◌+◌, ◌-◌, ◌*◌, ◌/◌, ◌^◌, Bool, true, false, not, ◌∷◌, ◌==◌, ltb, if◌then◌else◌, Option,
  none, some,
}
use xrpl.Js.Text.{Text}
use xrpl.Js.Number.{Number, nan, infinite, finite, round}
use xrpl.Js.Number.Show.{decimal}
use xrpl.Js.Number.Read.{integer_of}
use xrpl.Js.Outcome.{Outcome, ok, throw, bad_integer}

-- `negsuc n` is -(n + 1)
pub data ℤ : Type 0 where
  pos : ℕ → ℤ
  negsuc : ℕ → ℤ

abbrev pub of_sign : Bool → ℕ → ℤ
of_sign neg n = if neg then (if n == 0 then pos 0 else negsuc (n - 1)) else pos n

abbrev pub sign : ℤ → Bool
sign (pos _) = false
sign (negsuc _) = true

abbrev pub magnitude : ℤ → ℕ
magnitude (pos n) = n
magnitude (negsuc n) = suc n

-- `BigInt(x)`: only a whole number has one.
unfoldable pub big_int : Number → Outcome ℤ
big_int nan = throw bad_integer
big_int (infinite _) = throw bad_integer
big_int (finite neg a s) =
    if a / 2 ^ s * 2 ^ s == a then ok (of_sign neg (a / 2 ^ s)) else throw bad_integer

abbrev signed_or_throw : Option (Bool × ℕ) → Outcome ℤ
signed_or_throw none = throw bad_integer
signed_or_throw (some (neg, n)) = ok (of_sign neg n)

-- `BigInt(s)` of a text
unfoldable pub big_int_of_text : Text → Outcome ℤ
unfolding integer_of
big_int_of_text s = signed_or_throw (integer_of s)

abbrev opposite : Bool → Bool → Bool
opposite true b = not b
opposite false b = b

-- `a * b`
unfoldable pub times : ℤ → ℤ → ℤ
times a b = of_sign (opposite (sign a) (sign b)) (magnitude a * magnitude b)

-- `a / d`, towards zero, for a positive `d`
unfoldable pub over : ℤ → ℕ → ℤ
over a d = of_sign (sign a) (magnitude a / d)

-- `Number(a)`
unfoldable pub number_of : ℤ → Number
unfolding round
number_of a = round (sign a) (magnitude a) 1

abbrev pub is_zero : ℤ → Bool
is_zero a = magnitude a == 0

-- `a.toString()`
unfoldable pub big_text : ℤ → Text
unfolding decimal
big_text (pos n) = decimal n
big_text (negsuc n) = b'-' ∷ decimal (suc n)

-- How far a number lies above zero, and below it.
abbrev rise : ℤ → ℕ
rise (pos n) = n
rise (negsuc _) = 0

abbrev fall : ℤ → ℕ
fall (pos _) = 0
fall (negsuc n) = suc n

-- `a < b`
unfoldable pub less : ℤ → ℤ → Bool
less a b = ltb (rise a + fall b) (rise b + fall a)

-- `a - b`
unfoldable pub minus : ℤ → ℤ → ℤ
minus a b =
    let up = rise a + fall b in
    let down = rise b + fall a in if ltb up down then negsuc (down - up - 1) else pos (up - down)
