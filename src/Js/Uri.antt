-- ===== src/Js/Uri.antt =====
-- `decodeURIComponent`: the bytes of a run of escapes must be UTF-8; any other character stands for
-- itself.
use xrpl.Prelude.{
  ℕ, zero, suc, ◌+◌, ◌*◌, true, false, ◌&&◌, [], ◌∷◌, ◌++◌, Option, none, some, ◌==◌, if◌then◌else◌,
  length,
}
use xrpl.Js.Text.{Text, same, lit}
use xrpl.Js.Utf8.{Bytes, encode, decode}
use xrpl.Js.Outcome.{Outcome, ok, throw, Thrown, external}
use xrpl.Base.Encoding.{is_hex, hex_value}

abbrev malformed : Thrown
malformed = external (lit "URI malformed")

-- The text of a run of bytes; malformed bytes do not encode as they were.
unfoldable pub flush : Bytes → Option Text
flush bytes = let t = decode bytes in if same (encode t) bytes then some t else none

abbrev joined : Option Text → Option Text → Option Text
joined none t = none
joined (some s) none = none
joined (some s) (some t) = some (s ++ t)

-- The two digits behind `%`, and the text behind them.
unfoldable pub escape_of : Text → Option (ℕ × Text)
unfolding hex_value
escape_of [] = none
escape_of (a ∷ []) = none
escape_of (a ∷ b ∷ s) =
    if is_hex a && is_hex b then some (hex_value a * 16 + hex_value b, s) else none

-- The bytes that wait stand in front of the text; the fuel is the length of the text and one more.
unfoldable pub decode_from : ℕ → Bytes → Text → Option Text
unfolding flush escape_of
decode_from zero held s = flush held
decode_from (suc n) held [] = flush held
decode_from (suc n) held (c ∷ s) = elim (c == b'%') [
  | false ↦ joined (flush held) (joined (some (c ∷ [])) (decode_from n [] s))
  | true ↦ elim (escape_of s) [
    | none ↦ none
    | some (byte, rest) ↦ decode_from n (held ++ byte ∷ []) rest
  ]
]

unfoldable pub decode_uri_component : Text → Outcome Text
unfolding decode_from
decode_uri_component s = elim (decode_from (length s + 1) [] s) [
  | none ↦ throw malformed
  | some t ↦ ok t
]
