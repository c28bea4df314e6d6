-- ===== src/Base/Framework.antt =====
-- fce-matching-engine/typescript/src/base/types.ts: the wire types and the handler registry.
pub mod Dispatch
use xrpl.Prelude.{
  ℕ, Bool, true, false, ◌&&◌, List, [], ◌∷◌, ◌++◌, Option, none, some, if◌then◌else◌, replicate,
}
use xrpl.Js.Text.{Text, lit, same, starts_with, to_lower_case, is_empty}
use xrpl.Js.Outcome.{Outcome, ok, throw, Thrown, ◌>>=◌}
use xrpl.Js.Json.{Json}
use xrpl.Base.Encoding.{string_to_bytes32_hex}

-- [dataHexOrNull, status, errorOrNull]. The text of an error is a text of the source, with what
-- was thrown behind it where the source appends that.
pub record Failure : Type 0 where
  pub text : Text
  pub cause : Option Thrown

pub record HandlerResult : Type 0 where
  pub payload : Option Text
  pub status : ℕ
  pub error : Option Failure

-- [null, 0, text]
abbrev pub refuse : Text → HandlerResult
refuse t = record { payload = none; status = 0; error = some (record { text = t; cause = none }) }

-- [null, 0, `${text}${String(e)}`]
abbrev pub refuse_with : Text → Thrown → HandlerResult
refuse_with t e = record {
  payload = none;
  status = 0;
  error = some (record { text = t; cause = some e });
}

-- [hex, 1, null]
abbrev pub respond : Text → HandlerResult
respond hex = record { payload = some hex; status = 1; error = none }

-- The `log` line of a result: `error: …`, `ok` or `pending`.
pub data LogLine : Type 0 where
  failed : Option Failure → LogLine
  done pending : LogLine

-- The answer to an action. What the caller sent is echoed as it came; `none` is `undefined`.
pub record ActionResult : Type 0 where
  pub id : Option Json
  pub submission_tag : Option Json
  pub status : ℕ
  pub log : LogLine
  pub op_type : Json
  pub op_command : Option Json
  pub additional_result_status : Text
  pub version : Text
  pub payload : Text

-- `stringToBytes32Hex("")`
unfoldable pub empty_bytes32 : Text
empty_bytes32 = lit "0x" ++ replicate 64 b'0'

-- Lowercase and 0x-prefix a hex identifier so comparisons are stable.
unfoldable pub normalize : Text → Text
normalize h =
    if is_empty h
    then empty_bytes32
    else if starts_with (lit "0x") (to_lower_case h)
    then to_lower_case h
    else lit "0x" ++ to_lower_case h

-- A registered handler with its two identifiers.
pub record Entry (H : Type 0) : Type 0 where
  pub op_type : Text
  pub op_command : Text
  pub handler : H

module _ {H : Type 0} where
  -- `Framework.handle`
  unfoldable pub handle : Text → Text → H → List (Entry H) → Outcome (List (Entry H))
  handle op_type op_command handler entries = do
    t ← string_to_bytes32_hex op_type
    c ← string_to_bytes32_hex op_command
    ok (entries ++ record { op_type = t; op_command = c; handler = handler } ∷ [])

  -- One loop of `lookup`: the first entry with these two identifiers.
  unfoldable pub find : Text → Text → List (Entry H) → Option H
  find t c [] = none
  find t c (e ∷ es) =
      if same e.op_type t && same e.op_command c then some e.handler else find t c es

  abbrev pub or_default : Option H → Option H → Option H
  or_default (some h) _ = some h
  or_default none other = other

  -- `Framework.lookup`
  unfoldable pub lookup : Text → Text → List (Entry H) → Option H
  lookup op_type op_command entries =
      or_default (find (normalize op_type) (normalize op_command) entries)
        (find (normalize op_type) empty_bytes32 entries)
