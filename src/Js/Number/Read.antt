-- ===== src/Js/Number/Read.antt =====
-- `Number(s)` of a text.
use xrpl.Prelude.{
  ℕ, ◌+◌, ◌-◌, ◌*◌, ◌^◌, Bool, true, false, ◌&&◌, ◌||◌, [], ◌∷◌, leb, ◌==◌, if◌then◌else◌, Option,
  none, some, ◌≡◌, refl,
}
use mathlib.Core.List.{reverse}
use xrpl.Js.Text.{Text, lit, same, lower}
use xrpl.Js.Number.{Number, nan, infinite, round, of_ℕ}

-- The white space that `Number` ignores, of ASCII, Latin-1 and the byte order mark.
unfoldable pub is_space : ℕ → Bool
is_space c = (leb 9 c && leb c 13) || c == 32 || c == 160 || c == 0xFEFF

unfoldable pub trim_start : Text → Text
unfolding is_space
trim_start [] = []
trim_start (c ∷ s) = if is_space c then trim_start s else c ∷ s

-- `s.trim()`
unfoldable pub trim : Text → Text
unfolding trim_start
trim s = reverse (trim_start (reverse (trim_start s)))

digit : ℕ → Option ℕ
digit c =
    if leb b'0' c && leb c b'9'
    then some (c - b'0')
    else if leb b'a' (lower c) && leb (lower c) b'z'
    then some (lower c - b'a' + 10)
    else none

-- The digits of a base at the head of a text: their value, their number, the rest.
record Digits : Type 0 where
  value : ℕ
  count : ℕ
  rest : Text

abbrev fits : ℕ → Option ℕ → Option ℕ
fits base none = none
fits base (some d) = if leb base d then none else some d

digits : ℕ → ℕ → ℕ → Text → Digits
unfolding digit lower
digits base value count [] = record { value = value; count = count; rest = [] }
digits base value count (c ∷ s) = elim (fits base (digit c)) [
  | none ↦ record { value = value; count = count; rest = c ∷ s }
  | some d ↦ digits base (value * base + d) (count + 1) s
]

-- All of the text has to be digits.
whole : ℕ → Text → Number
unfolding digits
whole base s = elim (digits base 0 0 s).rest [
  | [] ↦ if (digits base 0 0 s).count == 0 then nan else of_ℕ (digits base 0 0 s).value
  | _ ∷ _ ↦ nan
]

-- The exponent behind `e`, as powers of ten above and below.
powers : Text → Option (ℕ × ℕ)
unfolding digits
powers [] = none
powers (c ∷ s) =
    let body = if c == b'-' || c == b'+' then s else c ∷ s in
    let d = digits 10 0 0 body in
    elim d.rest [
      | [] ↦
          if d.count == 0
          then none
          else if c == b'-'
          then some (1, 10 ^ d.value)
          else some (10 ^ d.value, 1)
      | _ ∷ _ ↦ none
    ]

exponent : Text → Option (ℕ × ℕ)
unfolding powers lower
exponent [] = some (1, 1)
exponent (c ∷ s) = if lower c == b'e' then powers s else none

abbrev scaled : Bool → ℕ → ℕ → Option (ℕ × ℕ) → Number
scaled neg value places none = nan
scaled neg value places (some (up, down)) = round neg (value * up) (10 ^ places * down)

-- Digits, a point with more digits, an exponent.
decimal : Bool → Text → Number
unfolding digits exponent
decimal neg s =
    let d = digits 10 0 0 s in
    elim d.rest [
      | [] ↦ if d.count == 0 then nan else round neg d.value 1
      | c ∷ s' ↦
          if c == b'.'
          then (let e = digits 10 d.value 0 s' in
              if d.count + e.count == 0 then nan else scaled neg e.value e.count (exponent e.rest))
          else if d.count == 0
          then nan
          else scaled neg d.value 0 (exponent (c ∷ s'))
    ]

unsigned : Bool → Text → Number
unfolding decimal same
unsigned neg s = if same s (lit "Infinity") then infinite neg else decimal neg s

-- `0x`, `0o` and `0b` take no sign.
prefixed : Text → Option Number
unfolding whole lower
prefixed [] = none
prefixed (a ∷ []) = none
prefixed (a ∷ b ∷ s) =
    if a == b'0'
    then if lower b == b'x'
      then some (whole 16 s)
      else if lower b == b'o'
      then some (whole 8 s)
      else if lower b == b'b'
      then some (whole 2 s)
      else none
    else none

signed : Text → Number
unfolding unsigned
signed [] = of_ℕ 0
signed (c ∷ s) =
    if c == b'-'
    then unsigned true s
    else if c == b'+'
    then unsigned false s
    else unsigned false (c ∷ s)

abbrev get : Option Number → Number → Number
get none d = d
get (some x) d = x

unfoldable pub to_number : Text → Number
unfolding trim prefixed signed
to_number s = get (prefixed (trim s)) (signed (trim s))

-- All of the text has to be digits of the base.
integer : ℕ → Text → Option ℕ
unfolding digits
integer base s = elim (digits base 0 0 s).rest [
  | [] ↦ if (digits base 0 0 s).count == 0 then none else some (digits base 0 0 s).value
  | _ ∷ _ ↦ none
]

abbrev with_sign : Bool → Option ℕ → Option (Bool × ℕ)
with_sign neg none = none
with_sign neg (some n) = some (neg, n)

signed_integer : Text → Option (Bool × ℕ)
unfolding integer lower
signed_integer [] = some (false, 0)
signed_integer (a ∷ []) = with_sign false (integer 10 (a ∷ []))
signed_integer (a ∷ b ∷ s) =
    if a == b'-'
    then with_sign true (integer 10 (b ∷ s))
    else if a == b'+'
    then with_sign false (integer 10 (b ∷ s))
    else if (a == b'0') && (lower b == b'x')
    then with_sign false (integer 16 s)
    else if (a == b'0') && (lower b == b'o')
    then with_sign false (integer 8 s)
    else if (a == b'0') && (lower b == b'b')
    then with_sign false (integer 2 s)
    else with_sign false (integer 10 (a ∷ b ∷ s))

-- What `BigInt(s)` reads: a sign and a whole number, or nothing.
unfoldable pub integer_of : Text → Option (Bool × ℕ)
unfolding trim signed_integer
integer_of s = signed_integer (trim s)

to_number_run :
    (to_number (lit " -12.50e1 ") ≡ to_number (lit "-125"))
    × (to_number (lit "0x1F") ≡ of_ℕ 31)
    × (to_number (lit "abc") ≡ nan)
    × (to_number [] ≡ of_ℕ 0)
unfolding to_number round
to_number_run = (refl, refl, refl, refl)
