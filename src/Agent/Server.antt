-- ===== src/Agent/Server.antt =====
-- fce-ai-agent/typescript/src/base/server.ts: the routes of the agent, and the registration in
-- app/handlers.ts.
pub mod Routes
use xrpl.Prelude.{ℕ, Bool, true, false, List, [], Option, none, some}
use xrpl.Js.Text.{Text, lit, same, before}
use xrpl.Js.Outcome.{Outcome, ok, throw, ◌>>=◌}
use xrpl.Js.Json.{str, obj, end, field}
use xrpl.Base.Encoding.{string_to_bytes32_hex}
use xrpl.Base.Framework.{Entry, handle}
use xrpl.Base.Server.{Handler, Reply, reply, plain, error, json, process_action}
use xrpl.Agent.Host.{AgentHost}
use xrpl.Agent.Handlers.{
  AgentState, report_state, version, handle_say_hello, handle_say_goodbye, handle_score,
}

-- `register`
unfoldable pub register :
    AgentHost → List (Entry (Handler AgentState)) → Outcome (List (Entry (Handler AgentState)))
register h entries =
    handle (lit "GREETING") (lit "SAY_HELLO") handle_say_hello entries
    >>= handle (lit "GREETING") (lit "SAY_GOODBYE") (handle_say_goodbye h)
    >>= handle (lit "MIRROR") (lit "SCORE_V1") (handle_score h)

-- The fields of the server that stay as the constructor sets them.
pub record AgentServer : Type 0 where
  pub state_version_hex : Text
  pub handlers : List (Entry (Handler AgentState))

-- The constructor
unfoldable pub new_agent_server : AgentHost → Outcome AgentServer
new_agent_server h = do
  hex ← string_to_bytes32_hex version
  entries ← register h []
  ok (record { state_version_hex = hex; handlers = entries })

abbrev pub not_allowed : Reply
not_allowed = reply 405 (plain (lit "method not allowed"))

-- `processState`
unfoldable pub process_state : AgentServer → AgentState → Reply
process_state server s = reply 200 (
    json (
      obj (
        field (lit "stateVersion") (str server.state_version_hex)
          (field (lit "state") (report_state s) end))))

-- The routes, once the path is known.
unfoldable pub route : AgentServer → Text → Text → Text → AgentState → Outcome Reply × AgentState
route server clean method body s = elim (same clean (lit "/action")) [
  | true ↦ elim (same method (lit "POST")) [
    | true ↦ process_action server.handlers version body s
    | false ↦ (ok not_allowed, s)
  ]
  | false ↦ elim (same clean (lit "/state")) [
    | true ↦ (
      ok (elim (same method (lit "GET")) [ true ↦ process_state server s | false ↦ not_allowed ]),
      s,
    )
    | false ↦ (ok (reply 404 (plain (lit "not found"))), s)
  ]
]

-- `handleRequest`
unfoldable pub handle_request :
    AgentServer → Text → Text → Text → AgentState → Outcome Reply × AgentState
handle_request server method path body s = route server (before b'?' path) method body s

-- `serve`; the body is `none` where reading it failed.
unfoldable pub serve :
    AgentServer → Text → Text → Option Text → AgentState → Outcome Reply × AgentState
serve server method url none s = (ok (reply 400 (error (lit "failed to read body") none)), s)
serve server method url (some body) s = handle_request server method url body s
