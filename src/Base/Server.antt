-- ===== src/Base/Server.antt =====
-- fce-matching-engine/typescript/src/base/server.ts, and the same file of fce-ai-agent: how the server
-- turns a request body into a handler call and its result into an answer.
pub mod Answers
pub mod Echoes
pub mod Requests
pub mod Routing
use xrpl.Prelude.{
  ℕ, Bool, true, false, not, ◌&&◌, ◌||◌, List, [], ◌∷◌, Option, none, some, ◌==◌, if◌then◌else◌,
}
use xrpl.Js.Text.{Text, lit, is_empty}
use xrpl.Js.Number.{Number, is_nan, eq, of_ℕ}
use xrpl.Js.Utf8.{Bytes, decode}
use xrpl.Js.Outcome.{Outcome, ok, throw, Thrown, bad_access, bad_json, or_throw}
use xrpl.Js.Json.{Json, null, bool, num, str, arr, obj, property, is_object, or_else}
use xrpl.Js.Json.Parse.{parse}
use xrpl.Base.Encoding.{hex_to_bytes}
use xrpl.Base.Flow.{
  Flow, next, stop, fail, ◌>>=◌, ◌>>◌, require, return_if, or_return, call, attempt,
}
use xrpl.Base.Framework.{
  HandlerResult, Failure, LogLine, failed, done, pending, ActionResult, Entry, lookup,
}

-- A handler over the extension's state: it returns a result or throws, and what it wrote stays.
abbrev pub Handler : Type 0 → Type 0
Handler S = Json → S → Outcome HandlerResult × S

-- What is sent back: a text, an error object with its text and what was thrown, or a value.
pub data Body : Type 0 where
  plain : Text → Body
  error : Text → Option Thrown → Body
  result : ActionResult → Body
  json : Json → Body

pub record Reply : Type 0 where
  pub status : ℕ
  pub body : Body

abbrev pub reply : ℕ → Body → Reply
reply n b = record { status = n; body = b }

-- `!v`, for a value that may be `undefined`
unfoldable pub truthy : Option Json → Bool
truthy none = false
truthy (some null) = false
truthy (some (bool b)) = b
truthy (some (num x)) = not (is_nan x) && not (eq x (of_ℕ 0))
truthy (some (str s)) = not (is_empty s)
truthy (some (arr _)) = true
truthy (some (obj _)) = true

-- `hexToBytes` of whatever the JSON holds: only a text, `null` and `undefined` do not throw.
unfoldable pub hex_of_json : Option Json → Outcome Bytes
hex_of_json none = hex_to_bytes none
hex_of_json (some null) = hex_to_bytes none
hex_of_json (some (str s)) = hex_to_bytes (some s)
hex_of_json (some (bool _)) = throw bad_access
hex_of_json (some (num _)) = throw bad_access
hex_of_json (some (arr _)) = throw bad_access
hex_of_json (some (obj _)) = throw bad_access

-- `normalize` reads an identifier as a text: what is not one but counts as empty is the empty one,
-- and any other value has no `toLowerCase`.
unfoldable pub identifier : Json → Outcome Text
unfolding truthy
identifier (str s) = ok s
identifier null = ok []
identifier (bool b) = if b then throw bad_access else ok []
identifier (num x) = if truthy (some (num x)) then throw bad_access else ok []
identifier (arr _) = throw bad_access
identifier (obj _) = throw bad_access

-- What a body asks for: the handler that it names, and the fields that are echoed.
pub record Request (S : Type 0) : Type 0 where
  pub id : Option Json
  pub submission_tag : Option Json
  pub op_type : Json
  pub op_command : Option Json
  pub message : Json
  pub handler : Handler S

-- The checks before the handler runs, in order. `null` has no properties, but is refused first.
unfoldable pub read_data : Text → Flow Reply Json
read_data body = do
  action ←
      attempt (or_throw bad_json (parse body))
        (λ e. reply 400 (error (lit "invalid action JSON: ") (some e)))
  require (is_object action && truthy (property (lit "data") action))
      (reply 400 (error (lit "invalid action structure: missing data") none))
  or_return (property (lit "data") action)
      (reply 400 (error (lit "invalid action structure: missing data") none))

unfoldable pub read_fixed : Json → Flow Reply Json
read_fixed action_data = do
  bytes ←
      attempt (hex_of_json (property (lit "message") action_data))
        (λ e. reply 400 (error (lit "invalid hex in message: ") (some e)))
  fixed ←
      attempt (or_throw bad_json (parse (decode bytes)))
        (λ e. reply 400 (error (lit "invalid DataFixed JSON in message: ") (some e)))
  require (is_object fixed && truthy (property (lit "opType") fixed))
      (reply 400 (error (lit "invalid DataFixed: missing opType") none))
  next fixed

abbrev pub get : Option Json → Json
get none = null
get (some v) = v

abbrev pub log_line : HandlerResult → LogLine
log_line r = if r.status == 0 then failed r.error else if r.status == 1 then done else pending

abbrev pub data_or_empty : Option Text → Text
data_or_empty none = lit "0x"
data_or_empty (some t) = t

module _ {S : Type 0} where
  unfoldable pub answer : Text → Request S → HandlerResult → Reply
  answer version q r = reply 200 (
      result (record {
        id = q.id;
        submission_tag = q.submission_tag;
        status = r.status;
        log = log_line r;
        op_type = q.op_type;
        op_command = q.op_command;
        additional_result_status = lit "0x";
        version = version;
        payload = data_or_empty r.payload;
      }))

  abbrev pub answered : Text → Request S → Outcome HandlerResult → Outcome Reply
  answered version q (ok r) = ok (answer version q r)
  answered version q (throw e) = throw e

  -- The handler runs, or the request is answered without it.
  unfoldable pub dispatch : Text → S → Flow Reply (Request S) → Outcome Reply × S
  dispatch version s (next q) =
      let (out, s') = q.handler q.message s in (answered version q out, s')
  dispatch version s (stop r) = (ok r, s)
  dispatch version s (fail e) = (throw e, s)

module _ {S : Type 0} (handlers : List (Entry (Handler S))) where
  unfoldable pub find_handler : Json → Flow Reply (Handler S)
  find_handler fixed = do
    op_type ← call (identifier (get (property (lit "opType") fixed)))
    op_command ←
        call (identifier (get (or_else (property (lit "opCommand") fixed) (some (str [])))))
    or_return (lookup op_type op_command handlers) (reply 501 (plain (lit "unsupported op type")))

  unfoldable pub read_request : Text → Flow Reply (Request S)
  read_request body = do
    action_data ← read_data body
    fixed ← read_fixed action_data
    handler ← find_handler fixed
    next (record {
      id = property (lit "id") action_data;
      submission_tag = property (lit "submissionTag") action_data;
      op_type = get (property (lit "opType") fixed);
      op_command = property (lit "opCommand") fixed;
      message = get (or_else (property (lit "originalMessage") fixed) (some (str (lit "0x"))));
      handler = handler;
    })

  -- `processAction`
  unfoldable pub process_action : Text → Text → S → Outcome Reply × S
  process_action version body s = dispatch version s (read_request body)
