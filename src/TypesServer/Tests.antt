-- ===== src/TypesServer/Tests.antt =====
-- The shape of two signals of the same length.
use xrpl.Prelude.{◌≡◌, refl, false, [], ◌∷◌, some}
use xrpl.Js.Text.{Text, lit, same, starts_with}
use xrpl.Js.Json.{Json, str, obj, field, end, property, lookup, as_text}
use xrpl.Js.Utf8.{decode}
use xrpl.Js.Outcome.{ok}
use xrpl.Base.Encoding.{is_hex, hex_value, trimmed_end}
use xrpl.TypesServer.{
  hex_to_bytes, buffer_of_hex, bytes32_hex_to_string, is_hello, shape_of, text_of_bytes32,
  original_message,
}
use xrpl.TypesServer.Opaque.{AlikeButMessage, shape_of-opaque}

abbrev with_message : Text → Json
with_message hex = obj (
    field (lit "opType") (str (lit "0x4d4952524f52")) (
      field (lit "opCommand") (str (lit "0x4d41544348"))
        (field (lit "originalMessage") (str hex) end)))

abbrev long_bought : Text
long_bought = lit "0x010203040506070809"

abbrev long_sold : Text
long_sold = lit "0x01020304050607080a"

alike : AlikeButMessage (with_message long_bought) (with_message long_sold)
unfolding property lookup same
alike = record {
  op_types = refl;
  op_commands = refl;
  instructions = refl;
  tees = refl;
  timestamps = refl;
  epochs = refl;
}

type_read :
    text_of_bytes32 (as_text (property (lit "opType") (with_message long_bought)))
    ≡ ok (some (lit "MIRROR"))
unfolding text_of_bytes32 property lookup same bytes32_hex_to_string hex_to_bytes buffer_of_hex
    is_hex hex_value trimmed_end decode starts_with
type_read = refl

command_read :
    text_of_bytes32 (as_text (property (lit "opCommand") (with_message long_bought)))
    ≡ ok (some (lit "MATCH"))
unfolding text_of_bytes32 property lookup same bytes32_hex_to_string hex_to_bytes buffer_of_hex
    is_hex hex_value trimmed_end decode starts_with
command_read = refl

no_hello : is_hello (some (lit "MIRROR")) (some (lit "MATCH")) ≡ false
unfolding is_hello same
no_hello = refl

message_read :
    (original_message (with_message long_bought) ≡ some long_bought)
    × (original_message (with_message long_sold) ≡ some long_sold)
unfolding original_message property lookup same
message_read = (refl, refl)

bytes_read :
    (hex_to_bytes long_bought ≡ ok (1 ∷ 2 ∷ 3 ∷ 4 ∷ 5 ∷ 6 ∷ 7 ∷ 8 ∷ 9 ∷ []))
    × (hex_to_bytes long_sold ≡ ok (1 ∷ 2 ∷ 3 ∷ 4 ∷ 5 ∷ 6 ∷ 7 ∷ 8 ∷ 10 ∷ []))
unfolding hex_to_bytes buffer_of_hex is_hex hex_value starts_with
bytes_read = (refl, refl)

shape_of-opaque_example : shape_of (with_message long_bought) ≡ shape_of (with_message long_sold)
shape_of-opaque_example =
    shape_of-opaque (with_message long_bought) (with_message long_sold) (some (lit "MIRROR"))
      (some (lit "MATCH")) long_bought long_sold (1 ∷ 2 ∷ 3 ∷ 4 ∷ 5 ∷ 6 ∷ 7 ∷ 8 ∷ 9 ∷ [])
      (1 ∷ 2 ∷ 3 ∷ 4 ∷ 5 ∷ 6 ∷ 7 ∷ 8 ∷ 10 ∷ []) alike type_read command_read no_hello message_read.0
      message_read.1 refl bytes_read.0 bytes_read.1 refl
