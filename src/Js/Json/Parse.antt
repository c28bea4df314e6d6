-- ===== src/Js/Json/Parse.antt =====
-- `JSON.parse`. `none` is a thrown SyntaxError.
use mathlib.Core.Option
use xrpl.Prelude.{
  ℕ, zero, suc, ◌+◌, ◌-◌, ◌*◌, ◌^◌, Bool, true, false, ◌&&◌, ◌||◌, [], ◌∷◌, ◌++◌, Option, none,
  some, leb, ltb, ◌==◌, if◌then◌else◌, length,
}
use xrpl.Js.Text.{Text, lit}
use xrpl.Js.Number.{round}
use xrpl.Js.Json.{Json, null, bool, num, str, arr, obj, Items, nil, cons, Fields, end, field}

-- What is read, and the text behind it.
abbrev Read : Type 0 → Type 0
Read A = Option (A × Text)

infixl 5 ◌>>=◌
abbrev ◌>>=◌ : {A B : Type 0} → Option A → (A → Option B) → Option B
none >>= f = none
some a >>= f = f a

skip_space : Text → Text
skip_space [] = []
skip_space (c ∷ s) =
    if c == 0x20 || c == 0x09 || c == 0x0A || c == 0x0D then skip_space s else c ∷ s

take_literal : Text → Text → Option Text
take_literal [] s = some s
take_literal (_ ∷ _) [] = none
take_literal (a ∷ p) (b ∷ s) = if a == b then take_literal p s else none

is_digit : ℕ → Bool
is_digit c = leb b'0' c && leb c b'9'

-- The value of the digits, their number, and the rest.
pub digits_from : ℕ → ℕ → Text → ℕ × ℕ × Text
unfolding is_digit
digits_from value count [] = (value, count, [])
digits_from value count (c ∷ s) =
    if is_digit c
    then digits_from (value * 10 + (c - b'0')) (count + 1) s
    else (value, count, c ∷ s)

-- value * 10 ^ up / 10 ^ down
record Decimal : Type 0 where
  value : ℕ
  up : ℕ
  down : ℕ

-- `.` and digits
fraction : ℕ → Text → Read Decimal
unfolding digits_from
fraction whole [] = some (record { value = whole; up = 0; down = 0 }, [])
fraction whole (c ∷ s) =
    if c == b'.'
    then (let (v, n, rest) = digits_from whole 0 s in
        if n == 0 then none else some (record { value = v; up = 0; down = n }, rest))
    else some (record { value = whole; up = 0; down = 0 }, c ∷ s)

signed_exponent : Bool → Decimal → Text → Read Decimal
unfolding digits_from
signed_exponent minus d s =
    let (e, n, rest) = digits_from 0 0 s in
    if n == 0
    then none
    else if minus
    then some (record d { down = d.down + e }, rest)
    else some (record d { up = e }, rest)

after_e : Decimal → Text → Read Decimal
unfolding signed_exponent
after_e d [] = none
after_e d (c ∷ s) =
    if c == b'-'
    then signed_exponent true d s
    else if c == b'+'
    then signed_exponent false d s
    else signed_exponent false d (c ∷ s)

exponent : Decimal → Text → Read Decimal
unfolding after_e
exponent d [] = some (d, [])
exponent d (c ∷ s) = if c == b'e' || c == b'E' then after_e d s else some (d, c ∷ s)

-- A number behind its sign. A leading zero stands alone.
unsigned : Bool → Text → Read Json
unfolding digits_from fraction exponent
unsigned neg [] = none
unsigned neg (c ∷ s) =
    let (whole, n, rest) = digits_from 0 0 (c ∷ s) in
    if n == 0 || (c == b'0' && ltb 1 n) then none else do
      (d, rest) ← fraction whole rest
      (d, rest) ← exponent d rest
      some (num (round neg (d.value * 10 ^ d.up) (10 ^ d.down)), rest)

number : Text → Read Json
unfolding unsigned
number [] = none
number (c ∷ s) = if c == b'-' then unsigned true s else unsigned false (c ∷ s)

hex_value : ℕ → Option ℕ
unfolding is_digit
hex_value c =
    if is_digit c
    then some (c - b'0')
    else if leb b'a' c && leb c b'f'
    then some (c - b'a' + 10)
    else if leb b'A' c && leb c b'F'
    then some (c - b'A' + 10)
    else none

-- Inside a string: behind a plain character, behind a backslash, or in `\u` with the digits that
-- are left and the bits so far.
pub data Mode : Type 0 where
  plain escaped : Mode
  unicode : ℕ → ℕ → Mode

pub data Next : Type 0 where
  closed bad : Next
  go : Mode → Text → Next

escape : ℕ → Next
escape c =
    if c == b'"' || c == b'\\' || c == b'/'
    then go plain (c ∷ [])
    else if c == b'b'
    then go plain (8 ∷ [])
    else if c == b'f'
    then go plain (12 ∷ [])
    else if c == b'n'
    then go plain (10 ∷ [])
    else if c == b'r'
    then go plain (13 ∷ [])
    else if c == b't'
    then go plain (9 ∷ [])
    else if c == b'u'
    then go (unicode 4 0) []
    else bad

unicode_digit : ℕ → ℕ → Option ℕ → Next
unicode_digit left bits none = bad
unicode_digit left bits (some d) =
    if left == 1
    then go plain ((bits * 16 + d) ∷ [])
    else go (unicode (left - 1) (bits * 16 + d)) []

next : Mode → ℕ → Next
unfolding escape unicode_digit hex_value
next plain c =
    if c == b'"'
    then closed
    else if c == b'\\'
    then go escaped []
    else if ltb c 0x20
    then bad
    else go plain (c ∷ [])
next escaped c = escape c
next (unicode left bits) c = unicode_digit left bits (hex_value c)

-- The rest of a string, behind its opening quote.
string_rest : Mode → Text → Read Text
unfolding next
string_rest m [] = none
string_rest m (c ∷ s) = elim (next m c) [
  | closed ↦ some ([], s)
  | bad ↦ none
  | go m' out ↦ Option.map (λ r. (out ++ r.0, r.1)) (string_rest m' s)
]

-- A comma, or the closing bracket: what follows the comma is read by `more`.
separated : {A : Type 0} → ℕ → A → (Text → Read A) → Text → Read A
unfolding skip_space
separated close done more s = elim (skip_space s) [
  | [] ↦ none
  | c ∷ rest ↦ if c == b',' then more rest else if c == close then some (done, rest) else none
]

keyword : Text → Json → Text → Read Json
unfolding take_literal
keyword word v s = Option.map (λ rest. (v, rest)) (take_literal word s)

-- `[]` and `{}` are empty; anything else in brackets is read by `more`.
bracket : {A : Type 0} → ℕ → A → (Text → Read A) → Text → Read A
unfolding skip_space
bracket close done more s = elim (skip_space s) [
  | [] ↦ none
  | c ∷ rest ↦ if c == close then some (done, rest) else more (c ∷ rest)
]

-- A value by its first character; lists and fields are read by the calls that are passed in.
value_with : (Text → Read Items) → (Text → Read Fields) → Text → Read Json
unfolding bracket string_rest keyword number
value_with list fields [] = none
value_with list fields (c ∷ s) =
    if c == b'{'
    then Option.map (λ r. (obj r.0, r.1)) (bracket b'}' end fields s)
    else if c == b'['
    then Option.map (λ r. (arr r.0, r.1)) (bracket b']' nil list s)
    else if c == b'"'
    then Option.map (λ r. (str r.0, r.1)) (string_rest plain s)
    else if c == b't'
    then keyword (lit "true") (bool true) (c ∷ s)
    else if c == b'f'
    then keyword (lit "false") (bool false) (c ∷ s)
    else if c == b'n'
    then keyword (lit "null") null (c ∷ s)
    else number (c ∷ s)

-- A key with its colon.
key_of : Text → Read Text
unfolding skip_space string_rest
key_of s = elim (skip_space s) [
  | [] ↦ none
  | c ∷ rest ↦
      if c == b'"'
      then (string_rest plain rest >>= λ r. elim (skip_space r.1) [
        | [] ↦ none
        | d ∷ rest' ↦ if d == b':' then some (r.0, rest') else none
      ])
      else none
]

mutual
  unfolding skip_space value_with separated key_of

  value : ℕ → Text → Read Json
  value zero s = none
  value (suc f) s = value_with (list f) (fields f) (skip_space s)

  -- The items behind an opening bracket or a comma.
  list : ℕ → Text → Read Items
  list zero s = none
  list (suc f) s = value f s >>= λ r.
      separated b']' (cons r.0 nil) (λ t. Option.map (λ q. (cons r.0 q.0, q.1)) (list f t)) r.1

  fields : ℕ → Text → Read Fields
  fields zero s = none
  fields (suc f) s = key_of s >>= λ k. value f k.1 >>= λ r.
      separated b'}' (field k.0 r.0 end)
        (λ t. Option.map (λ q. (field k.0 r.0 q.0, q.1)) (fields f t)) r.1

only_space : Json × Text → Option Json
unfolding skip_space
only_space (v, rest) = elim (skip_space rest) [ [] ↦ some v | _ ∷ _ ↦ none ]

-- Every call of the block is behind a character that an earlier one read, or one call above it.
unfoldable pub parse : Text → Option Json
unfolding value only_space
parse s = value (2 * length s + 2) s >>= only_space
