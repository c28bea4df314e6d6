-- ===== src/Base/Server/Answers.antt =====
-- server.ts: how actions are answered, and what the answers leave of the state.
use xrpl.Prelude.{◌≡◌, ◌⊎◌, List}
use xrpl.Js.Text.{Text, lit}
use xrpl.Js.Outcome.{Outcome, ok, throw, Thrown, bad_access}
use xrpl.Js.Json.{Json, str, property}
use xrpl.Base.Flow.{Flow}
use xrpl.Base.Flow.Ends.{Ends}
use xrpl.Base.Framework.{Entry}
use xrpl.Base.Server.Echoes.{echoed}
use xrpl.Base.Server.Requests.{Asks, message_in}
use xrpl.Base.Server.{Handler, Reply}

abbrev pub IsRefusal : Reply → Type 0
IsRefusal r = (r.status ≡ 400) ⊎ (r.status ≡ 501)

abbrev IsAccess : Thrown → Type 0
IsAccess e = e ≡ bad_access

module _ {S : Type 0} (handlers : List (Entry (Handler S))) where
  -- What became of a body in the state `s`: the outcome and the state that is left.
  pub data Answered (version body : Text) (s : S) (out : Outcome Reply × S) : Type 0 where
    refused :
        ¬ Asks handlers body
        → (r : Reply) → IsRefusal r
        → out ≡ (ok r, s)
        → Answered version body s out
    not_text : ¬ Asks handlers body → out ≡ (throw bad_access, s) → Answered version body s out
    handled :
        (a : Asks handlers body)
        → out ≡ (
          echoed version
              (property (lit "id") a.action_data)
              (property (lit "submissionTag") a.action_data)
              (str a.op_type)
              (property (lit "opCommand") a.fixed)
              (a.handler (message_in (property (lit "originalMessage") a.fixed)) s).0,
          (a.handler (message_in (property (lit "originalMessage") a.fixed)) s).1,
        )
        → Answered version body s out
