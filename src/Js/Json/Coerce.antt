-- ===== src/Js/Json/Coerce.antt =====
-- What JavaScript makes of a JSON value where a text or a number is wanted: `String(v)` and
-- `Number(v)`.
use xrpl.Prelude.{[], ◌∷◌, ◌++◌, Option, none, some, if◌then◌else◌}
use xrpl.Js.Text.{Text, lit}
use xrpl.Js.Number.{Number, nan, of_ℕ}
use xrpl.Js.Number.Show.{number_text}
use xrpl.Js.Number.Read.{to_number}
use xrpl.Js.Json.{Json, null, bool, num, str, arr, obj, Items, nil, cons}

-- Inside an array `null` is written as nothing.
abbrev unless_null : Json → Text → Text
unless_null null s = []
unless_null (bool _) s = s
unless_null (num _) s = s
unless_null (str _) s = s
unless_null (arr _) s = s
unless_null (obj _) s = s

unfoldable mutual
  unfolding number_text

  pub string_of : Json → Text
  string_of null = lit "null"
  string_of (bool b) = if b then lit "true" else lit "false"
  string_of (num x) = number_text x
  string_of (str s) = s
  string_of (arr vs) = join vs
  string_of (obj _) = lit "[object Object]"

  pub join : Items → Text
  join nil = []
  join (cons v nil) = unless_null v (string_of v)
  join (cons v (cons w vs)) = unless_null v (string_of v) ++ b',' ∷ join (cons w vs)

-- `undefined` is no number.
unfoldable pub number_of : Option Json → Number
unfolding string_of to_number
number_of none = nan
number_of (some null) = of_ℕ 0
number_of (some (bool b)) = if b then of_ℕ 1 else of_ℕ 0
number_of (some (num x)) = x
number_of (some (str s)) = to_number s
number_of (some (arr vs)) = to_number (string_of (arr vs))
number_of (some (obj _)) = nan
