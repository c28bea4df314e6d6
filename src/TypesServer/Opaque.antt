-- ===== src/TypesServer/Opaque.antt =====
-- decodeServer.ts: what the shape of a message tells of the message.
use xrpl.Prelude.{◌≡◌, refl, sym, ap, ◌∙◌, false, Option, some, length, take}
use xrpl.Js.Text.{Text, lit}
use xrpl.Js.Utf8.{Bytes}
use xrpl.Js.Json.{Json, property, as_text}
use xrpl.Js.Outcome.{ok}
use xrpl.TypesServer.{
  hex_to_bytes, is_hello, greeting_name, shape_of, text_of_bytes32, bytes_or_none, describe,
  original_message,
}

-- Two data that differ in the message at most.
pub record AlikeButMessage (df df' : Json) : Type 0 where
  pub op_types : property (lit "opType") df ≡ property (lit "opType") df'
  pub op_commands : property (lit "opCommand") df ≡ property (lit "opCommand") df'
  pub instructions : property (lit "instructionId") df ≡ property (lit "instructionId") df'
  pub tees : property (lit "teeId") df ≡ property (lit "teeId") df'
  pub timestamps : property (lit "timestamp") df ≡ property (lit "timestamp") df'
  pub epochs : property (lit "rewardEpochId") df ≡ property (lit "rewardEpochId") df'

shape_of-describe :
    (df : Json) (op_type op_command : Option Text) (m : Text) (b : Bytes)
    → text_of_bytes32 (as_text (property (lit "opType") df)) ≡ ok op_type
    → text_of_bytes32 (as_text (property (lit "opCommand") df)) ≡ ok op_command
    → original_message df ≡ some m
    → hex_to_bytes m ≡ ok b
    → shape_of df ≡ ok (describe df op_type op_command (some m) b)
unfolding shape_of bytes_or_none
shape_of-describe df op_type op_command m b h₁ h₂ h₃ h₄ = rw (shape_of, h₁, h₂, h₃, h₄) refl

describe-opaque :
    (df df' : Json) (op_type op_command : Option Text) (m m' : Text) (b b' : Bytes)
    → AlikeButMessage df df'
    → is_hello op_type op_command ≡ false
    → take 18 m ≡ take 18 m'
    → length b ≡ length b'
    → describe df op_type op_command (some m) b ≡ describe df' op_type op_command (some m') b'
unfolding describe greeting_name
describe-opaque df df' op_type op_command m m' b b' alike quiet prefix same_length =
    rw
      (
        describe, alike.instructions, alike.tees, alike.timestamps, alike.epochs, quiet, prefix,
        same_length,
      )
      refl

-- Of a message that is no greeting, the shape tells its first eighteen characters and its number of
-- bytes, and nothing else: two data that differ in their messages alone have the same shape where the
-- messages agree in these.
pub shape_of-opaque :
    (df df' : Json) (op_type op_command : Option Text) (m m' : Text) (b b' : Bytes)
    → AlikeButMessage df df'
    → text_of_bytes32 (as_text (property (lit "opType") df)) ≡ ok op_type
    → text_of_bytes32 (as_text (property (lit "opCommand") df)) ≡ ok op_command
    → is_hello op_type op_command ≡ false
    → original_message df ≡ some m
    → original_message df' ≡ some m'
    → take 18 m ≡ take 18 m'
    → hex_to_bytes m ≡ ok b
    → hex_to_bytes m' ≡ ok b'
    → length b ≡ length b'
    → shape_of df ≡ shape_of df'
shape_of-opaque df df' op_type op_command m m' b b' alike is_type is_command quiet at at' prefix
      bytes bytes' same_length =
    let type' : text_of_bytes32 (as_text (property (lit "opType") df')) ≡ ok op_type =
      rw (sym alike.op_types) is_type in
    let command' : text_of_bytes32 (as_text (property (lit "opCommand") df')) ≡ ok op_command =
      rw (sym alike.op_commands) is_command in
    shape_of-describe df op_type op_command m b is_type is_command at bytes
    ∙ ap ok (describe-opaque df df' op_type op_command m m' b b' alike quiet prefix same_length)
    ∙ sym (shape_of-describe df' op_type op_command m' b' type' command' at' bytes')
