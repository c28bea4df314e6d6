-- ===== src/Base/Server/Routing.antt =====
-- server.ts: a well-formed action reaches the handler that is registered for it.
use xrpl.Prelude.{◌≡◌, true, false, List, none, some, inl, inr, Option-cases}
use xrpl.Js.Text.{Text, lit, is_empty}
use xrpl.Js.Utf8.{Bytes, decode}
use xrpl.Js.Outcome.{ok}
use xrpl.Js.Json.{Json, str, property, is_object}
use xrpl.Js.Json.Parse.{parse}
use xrpl.Base.Flow.{next, or_return}
use xrpl.Base.Framework.{Entry, lookup}
use xrpl.Base.Server.Echoes.{echoed, answered-echoed}
use xrpl.Base.Server.{
  Handler, reply, plain, Request, truthy, hex_of_json, identifier, read_data, read_fixed,
  find_handler, read_request, dispatch, process_action,
}

-- A body with an action whose `message` decodes to a DataFixed with these identifiers and this
-- original message, all of them texts.
pub record IsAction (body t c m : Text) (d : Json) : Type 0 where
  pub action : Json
  pub fixed : Json
  pub bytes : Bytes
  pub parsed : parse body ≡ some action
  pub is_action : is_object action ≡ true
  pub data_field : property (lit "data") action ≡ some d
  pub data_set : truthy (some d) ≡ true
  pub hex : hex_of_json (property (lit "message") d) ≡ ok bytes
  pub parsed_fixed : parse (decode bytes) ≡ some fixed
  pub is_fixed : is_object fixed ≡ true
  pub op_type : property (lit "opType") fixed ≡ some (str t)
  pub named : is_empty t ≡ false
  pub op_command : property (lit "opCommand") fixed ≡ some (str c)
  pub original : property (lit "originalMessage") fixed ≡ some (str m)

read_data-next : {body t c m : Text} {d : Json} → IsAction body t c m d → read_data body ≡ next d
unfolding read_data
read_data-next a = rw (a.parsed, a.is_action, a.data_field, a.data_set)

read_fixed-next :
    {body t c m : Text} {d : Json} (a : IsAction body t c m d) → read_fixed d ≡ next a.fixed
unfolding read_fixed truthy
read_fixed-next a = rw (a.hex, a.parsed_fixed, a.is_fixed, a.op_type, a.named)

-- The request that such a body makes, once its handler is known.
abbrev pub request : {S : Type 0} → Text → Text → Text → Json → Handler S → Request S
request t c m d h = record {
  id = property (lit "id") d;
  submission_tag = property (lit "submissionTag") d;
  op_type = str t;
  op_command = some (str c);
  message = str m;
  handler = h;
}

module _ {S : Type 0} (handlers : List (Entry (Handler S))) where
  find_handler-eq :
      {body t c m : Text} {d : Json} (a : IsAction body t c m d)
      → find_handler handlers a.fixed
        ≡ or_return (lookup t c handlers) (reply 501 (plain (lit "unsupported op type")))
  unfolding find_handler identifier
  find_handler-eq a = rw (a.op_type, a.op_command)

  -- A well-formed action runs the handler that `lookup` finds for its identifiers, once, on its
  -- original message. The answer has status 200 and echoes the action's id, tag and identifiers, with the
  -- status and the payload of the result (`0x` where there is none) and its line of the log; what the
  -- handler throws is thrown on; and the state is the one that the handler leaves. Where there is no
  -- handler, the action is answered with status 501 and the state is left alone.
  pub process_action-IsAction :
      (version : Text) {body t c m : Text} {d : Json} (s : S)
      → IsAction body t c m d
      → process_action handlers version body s ≡ elim (lookup t c handlers) [
        | some h ↦ (
          echoed version
              (property (lit "id") d)
              (property (lit "submissionTag") d)
              (str t)
              (some (str c))
              (h (str m) s).0,
          (h (str m) s).1,
        )
        | none ↦ (ok (record { status = 501; body = plain (lit "unsupported op type") }), s)
      ]
  unfolding process_action read_request dispatch
  process_action-IsAction version {t = t} {c = c} {m = m} {d = d} s a =
      elim (Option-cases (lookup t c handlers)) [
        | inr (h, found) ↦ rw (
          read_data-next a,
          read_fixed-next a,
          find_handler-eq a,
          found,
          a.op_type,
          a.op_command,
          a.original,
          answered-echoed version (request t c m d h) (h (str m) s).0,
        )
        | inl missing ↦ rw (read_data-next a, read_fixed-next a, find_handler-eq a, missing)
      ]
