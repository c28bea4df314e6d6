-- ===== src/TypesServer.antt =====
-- scripts/types-server/decodeServer.ts: the shape of an action message, for logs (hexToBytes,
-- bytes32HexToString, decodeDataFixedFromActionMessage, safeJsonParseBytes, decodeShape, the route).
pub mod Opaque
mod Tests
use xrpl.Prelude.{
  ℕ, ◌+◌, ◌*◌, ◌%◌, Bool, true, false, ◌&&◌, List, [], ◌∷◌, Option, none, some, ◌==◌, if◌then◌else◌,
  length, take, drop,
}
use xrpl.Js.Text.{Text, lit, same, is_empty, starts_with}
use xrpl.Js.Number.{Number, of_ℕ}
use xrpl.Js.Utf8.{Bytes, decode}
use xrpl.Js.Json.{Json, null, num, str, obj, Fields, end, field, property, or_else, as_text}
use xrpl.Js.Json.Parse.{parse}
use xrpl.Js.Outcome.{Outcome, ok, throw, Thrown, message, bad_json, or_throw, ◌>>=◌}
use xrpl.Base.Encoding.{is_hex, hex_value, trimmed_end}
use xrpl.Base.Server.{truthy}

-- `Buffer.from(s, "hex")`: the bytes before the first pair that is not of two digits
unfoldable pub buffer_of_hex : Text → Bytes
unfolding hex_value
buffer_of_hex [] = []
buffer_of_hex (a ∷ []) = []
buffer_of_hex (a ∷ b ∷ s) =
    let rest = buffer_of_hex s in
    if is_hex a && is_hex b then (hex_value a * 16 + hex_value b) ∷ rest else []

-- `hexToBytes`
unfoldable pub hex_to_bytes : Text → Outcome Bytes
hex_to_bytes hex =
    let normalized = if starts_with (lit "0x") hex then drop 2 hex else hex in
    if length normalized % 2 == 0
    then ok (buffer_of_hex normalized)
    else throw (message (lit "hex must have even length"))

-- `bytes32HexToString`
unfoldable pub bytes32_hex_to_string : Text → Outcome Text
unfolding trimmed_end
bytes32_hex_to_string hex = do b ← hex_to_bytes hex; ok (decode (take (trimmed_end b (length b)) b))

-- `decodeDataFixedFromActionMessage`
unfoldable pub decode_data_fixed : Text → Outcome Json
decode_data_fixed hex = do bytes ← hex_to_bytes hex; or_throw bad_json (parse (decode bytes))

-- `safeJsonParseBytes`; `none` is `null`.
abbrev safe_json_parse_bytes : Bytes → Option Json
safe_json_parse_bytes bytes = parse (decode bytes)

-- `v?.key`
abbrev optional : Option Json → Text → Option Json
optional none key = none
optional (some v) key = property key v

-- The hex text of the message of a payload.
unfoldable pub action_message : Json → Option Json
action_message payload = or_else (property (lit "message") payload) (
    or_else (optional (property (lit "data") payload) (lit "message"))
      (optional (optional (property (lit "action") payload) (lit "data")) (lit "message")))

-- `v ?? null`
abbrev or_null : Option Json → Json
or_null none = null
or_null (some v) = v

-- `typeof v === "string" ? bytes32HexToString(v) : null`
unfoldable pub text_of_bytes32 : Option Text → Outcome (Option Text)
text_of_bytes32 none = ok none
text_of_bytes32 (some hex) = do s ← bytes32_hex_to_string hex; ok (some s)

abbrev json_of_text : Option Text → Json
json_of_text none = null
json_of_text (some s) = str s

abbrev is_text : Option Text → Text → Bool
is_text none t = false
is_text (some s) t = same s t

unfoldable pub is_hello : Option Text → Option Text → Bool
is_hello op_type op_command =
    is_text op_type (lit "GREETING") && is_text op_command (lit "SAY_HELLO")

abbrev name_of : Option Json → Option Text
name_of none = none
name_of (some v) = elim (truthy (some v)) [
  | true ↦ as_text (property (lit "name") v)
  | false ↦ none
]

-- The name of a greeting.
unfoldable pub greeting_name : Bool → Bytes → Option Text
greeting_name hello bytes = elim hello [
  | true ↦ name_of (safe_json_parse_bytes bytes)
  | false ↦ none
]

abbrev greeting_field : Option Text → Fields
greeting_field none = end
greeting_field (some name) =
    if is_empty name then end else field (lit "greetingName") (str name) end

abbrev prefix_of : Option Text → Json
prefix_of none = null
prefix_of (some hex) = str (take 18 hex)

unfoldable pub bytes_or_none : Option Text → Outcome Bytes
bytes_or_none none = ok []
bytes_or_none (some hex) = hex_to_bytes hex

-- What is told of the fixed data of a message: never the message itself.
unfoldable pub describe : Json → Option Text → Option Text → Option Text → Bytes → Json
describe df op_type op_command hex bytes = obj (
    field (lit "instructionId") (or_null (property (lit "instructionId") df)) (
      field (lit "teeId") (or_null (property (lit "teeId") df)) (
        field (lit "timestamp") (or_null (property (lit "timestamp") df)) (
          field (lit "rewardEpochId") (or_null (property (lit "rewardEpochId") df)) (
            field (lit "opType") (json_of_text op_type) (
              field (lit "opCommand") (json_of_text op_command) (
                field (lit "originalMessage")
                  (obj (
                    field (lit "bytes") (num (of_ℕ (length bytes)))
                      (field (lit "hexPrefix") (prefix_of hex) end)))
                  (greeting_field (greeting_name (is_hello op_type op_command) bytes)))))))))

-- The hex text of the message in the fixed data; `none` where it is no text.
unfoldable pub original_message : Json → Option Text
original_message df =
    as_text (or_else (property (lit "originalMessage") df) (some (str (lit "0x"))))

unfoldable pub shape_of : Json → Outcome Json
unfolding text_of_bytes32 describe original_message
shape_of df = do
  op_type ← text_of_bytes32 (as_text (property (lit "opType") df))
  op_command ← text_of_bytes32 (as_text (property (lit "opCommand") df))
  bytes ← bytes_or_none (original_message df)
  ok (describe df op_type op_command (original_message df) bytes)

abbrev missing : Thrown
missing = message (lit "missing action.data.message hex (expected 0x...)")

abbrev message_hex : Option Text → Outcome Text
message_hex none = throw missing
message_hex (some s) = if starts_with (lit "0x") s then ok s else throw missing

-- `decodeShape`
unfoldable pub decode_shape : Json → Outcome Json
decode_shape payload = do
  hex ← message_hex (as_text (action_message payload))
  df ← decode_data_fixed hex
  shape_of df

pub data Answer : Type 0 where
  not_found : Answer
  decoded : Json → Answer
  refused : Thrown → Answer

abbrev answered : Outcome Json → Answer
answered (ok v) = decoded v
answered (throw e) = refused e

-- The route: 404, 200 with the shape, or 400 with the error.
unfoldable pub decode_route : Text → Text → Text → Answer
decode_route method pathname body =
    if same method (lit "POST") && same pathname (lit "/decode")
    then answered (do payload ← or_throw bad_json (parse body); decode_shape payload)
    else not_found
