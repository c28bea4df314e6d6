-- ===== src/Matching/Server.antt =====
-- fce-matching-engine/typescript/src/base/server.ts: the routes, and what the transport does before
-- them.
pub mod Routes
use xrpl.Prelude.{
  ℕ, Bool, true, false, ◌&&◌, ◌||◌, List, [], ◌∷◌, ◌++◌, map, Option, none, some, drop, length, ◌+◌,
}
use xrpl.Js.Text.{Text, lit, same, includes, before, is_empty}
use xrpl.Js.Number.{Number, of_ℕ}
use xrpl.Js.Outcome.{Outcome, ok, throw, ◌>>=◌}
use xrpl.Js.Json.{Json, bool, num, str, arr, obj, Fields, end, field, from_list}
use xrpl.Base.Encoding.{string_to_bytes32_hex}
use xrpl.Base.Framework.{Entry}
use xrpl.Base.Server.{Handler, Reply, reply, plain, error, json, process_action}
use xrpl.Matching.OutcomeLog.{
  OutcomeRecord, Log, Direction, direction_text, get_outcomes_for_lead, get_all_outcomes,
}
use xrpl.Matching.Signal.{is_text, text_or}
use xrpl.Matching.Swap.{if_not_empty}
use xrpl.Matching.Host.{Host}
use xrpl.Matching.Handlers.{State, report_state, version, register}

unfoldable pub outcome_json : OutcomeRecord → Json
outcome_json r = obj (
    field (lit "lead") (str r.lead) (
      field (lit "timestamp") (num (of_ℕ r.timestamp)) (
        field (lit "pnlBps") (num r.pnl_bps) (
          field (lit "direction") (str (direction_text r.direction))
            (field (lit "sizePct") (num r.size_pct) end)))))

-- `url.split("?")[1]`, where there is a `?`
unfoldable pub query_of : Text → Text
query_of url = before b'?' (drop (length (before b'?' url) + 1) url)

abbrev pub events_for : Option Text → Log → Log
events_for none log = get_all_outcomes log
events_for (some lead) log = get_outcomes_for_lead lead log

abbrev pub not_allowed : Reply
not_allowed = reply 405 (plain (lit "method not allowed"))

unfoldable pub health : Reply
health = reply 200 (
    json (
      obj (
        field (lit "ok") (bool true)
          (field (lit "service") (str (lit "mirror-matching-engine")) end))))

-- The fields of the server that stay as the constructor sets them.
pub record Server : Type 0 where
  pub state_version_hex : Text
  pub handlers : List (Entry (Handler State))

-- The constructor
unfoldable pub new_server : Host → Outcome Server
new_server h = do
  hex ← string_to_bytes32_hex version
  entries ← register h []
  ok (record { state_version_hex = hex; handlers = entries })

-- `processState`
unfoldable pub process_state : Server → State → Reply
process_state server s = reply 200 (
    json (
      obj (
        field (lit "stateVersion") (str server.state_version_hex)
          (field (lit "state") (report_state s) end))))

-- A request as the transport hands it over; the body is `none` where reading it failed.
pub record Incoming : Type 0 where
  pub method : Text
  pub url : Text
  pub authorization : Text
  pub body : Option Text

module _ (h : Host) where
  -- The lead that is asked for: without a query there is none, and an empty one counts as none.
  abbrev pub lead_in : Text → Option Text
  lead_in path = elim (includes (lit "?") path) [
    | true ↦ if_not_empty (h.query_lead (query_of path))
    | false ↦ none
  ]

  -- `processOutcomeLog`
  unfoldable pub process_outcome_log : Text → State → Reply
  process_outcome_log path s = elim (if_not_empty (h.env (lit "TEE_INTERNAL_TOKEN"))) [
    | none ↦ reply 503 (error (lit "TEE_INTERNAL_TOKEN not configured") none)
    | some _ ↦ reply 200 (
        json (
          obj (
            field (lit "events")
              (arr (from_list (map outcome_json (events_for (lead_in path) s.log)))) end)))
  ]

  -- The routes, once the path is known.
  unfoldable pub route : Server → Text → Text → Text → Text → State → Outcome Reply × State
  route server clean method path body s =
      elim (same clean (lit "/health") || same clean (lit "/")) [
        | true ↦ (
          ok (elim (same method (lit "GET") || same method (lit "HEAD")) [
            | true ↦ health
            | false ↦ not_allowed
          ]),
          s,
        )
        | false ↦ elim (same clean (lit "/action")) [
          | true ↦ elim (same method (lit "POST")) [
            | true ↦ process_action server.handlers version body s
            | false ↦ (ok not_allowed, s)
          ]
          | false ↦ elim (same clean (lit "/state")) [
            | true ↦ (
              ok (elim (same method (lit "GET")) [
                | true ↦ process_state server s
                | false ↦ not_allowed
              ]),
              s,
            )
            | false ↦ elim (same clean (lit "/internal/outcome-log")) [
              | true ↦ (
                ok (elim (same method (lit "GET")) [
                  | true ↦ process_outcome_log path s
                  | false ↦ not_allowed
                ]),
                s,
              )
              | false ↦ (ok (reply 404 (plain (lit "not found"))), s)
            ]
          ]
        ]
      ]

  -- `handleRequest`
  unfoldable pub handle_request : Server → Text → Text → Text → State → Outcome Reply × State
  handle_request server method path body s = route server (before b'?' path) method path body s

  -- The token test of the outcome log.
  unfoldable pub authorized : Text → Bool
  authorized given = elim (if_not_empty (h.env (lit "TEE_INTERNAL_TOKEN"))) [
    | none ↦ false
    | some token ↦ same given (lit "Bearer " ++ token)
  ]

  unfoldable pub serve_body : Server → Incoming → State → Outcome Reply × State
  serve_body server i s = elim (same i.method (lit "OPTIONS")) [
    | true ↦ (ok (reply 204 (plain [])), s)
    | false ↦ elim i.body [
      | none ↦ (ok (reply 400 (error (lit "failed to read body") none)), s)
      | some body ↦ handle_request server i.method i.url body s
    ]
  ]

  -- `serve`
  unfoldable pub serve : Server → Incoming → State → Outcome Reply × State
  serve server i s = elim (same (before b'?' i.url) (lit "/internal/outcome-log")) [
    | true ↦ elim (authorized i.authorization) [
      | true ↦ serve_body server i s
      | false ↦ (ok (reply 401 (error (lit "unauthorized") none)), s)
    ]
    | false ↦ serve_body server i s
  ]
