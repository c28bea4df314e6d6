-- ===== src/Js/Json/Print.antt =====
-- `JSON.stringify`
use xrpl.Prelude.{ℕ, ◌+◌, ◌-◌, ◌/◌, ◌%◌, ◌&&◌, [], ◌∷◌, ◌++◌, leb, ltb, ◌==◌, if◌then◌else◌}
use xrpl.Js.Text.{Text, lit}
use xrpl.Js.Number.{Number, nan, infinite, finite}
use xrpl.Js.Number.Show.{number_text}
use xrpl.Js.Json.{Json, null, bool, num, str, arr, obj, Items, nil, cons, Fields, end, field}

-- `JSON.stringify` writes `null` for what JSON has no number for.
number_json : Number → Text
unfolding number_text
number_json nan = lit "null"
number_json (infinite n) = lit "null"
number_json (finite n a s) = number_text (finite n a s)

hex_digit : ℕ → ℕ
hex_digit d = if ltb d 10 then b'0' + d else b'a' + (d - 10)

unicode_escape : ℕ → Text
unfolding hex_digit
unicode_escape c =
    lit "\\u"
    ++ hex_digit (c / 0x1000)
      ∷ hex_digit (c / 0x100 % 0x10)
      ∷ hex_digit (c / 0x10 % 0x10)
      ∷ hex_digit (c % 0x10)
      ∷ []

-- A code unit inside a string. Whether a surrogate stands alone is told by `quoted_from`.
quoted_unit : ℕ → Text
unfolding unicode_escape
quoted_unit c =
    if c == b'"'
    then lit "\\\""
    else if c == b'\\'
    then lit "\\\\"
    else if c == 8
    then lit "\\b"
    else if c == 9
    then lit "\\t"
    else if c == 10
    then lit "\\n"
    else if c == 12
    then lit "\\f"
    else if c == 13
    then lit "\\r"
    else if ltb c 0x20
    then unicode_escape c
    else c ∷ []

-- `held` is a high surrogate that waits for its partner, or 0.
quoted_from : ℕ → Text → Text
unfolding quoted_unit
quoted_from held [] = if held == 0 then [] else unicode_escape held
quoted_from held (c ∷ s) =
    let plain = quoted_from 0 s in
    let waiting = quoted_from c s in
    let alone = if held == 0 then [] else unicode_escape held in
    if leb 0xDC00 c && leb c 0xDFFF
    then (if held == 0 then unicode_escape c else held ∷ c ∷ []) ++ plain
    else if leb 0xD800 c && leb c 0xDBFF
    then alone ++ waiting
    else alone ++ quoted_unit c ++ plain

quoted : Text → Text
unfolding quoted_from
quoted s = b'"' ∷ quoted_from 0 s ++ b'"' ∷ []

mutual
  unfolding quoted number_json

  print : Json → Text
  print null = lit "null"
  print (bool b) = if b then lit "true" else lit "false"
  print (num x) = number_json x
  print (str s) = quoted s
  print (arr vs) = b'[' ∷ print_items vs
  print (obj fs) = b'{' ∷ print_fields fs

  print_items : Items → Text
  print_items nil = b']' ∷ []
  print_items (cons v nil) = print v ++ b']' ∷ []
  print_items (cons v (cons w vs)) = print v ++ b',' ∷ print_items (cons w vs)

  print_fields : Fields → Text
  print_fields end = b'}' ∷ []
  print_fields (field k v end) = quoted k ++ b':' ∷ print v ++ b'}' ∷ []
  print_fields (field k v (field j w fs)) =
      quoted k ++ b':' ∷ print v ++ b',' ∷ print_fields (field j w fs)

unfoldable pub stringify : Json → Text
unfolding print
stringify v = print v
