-- ===== src/Agent/Handlers.antt =====
-- fce-ai-agent/typescript/src/app/handlers.ts and config.ts: SCORE_V1, the state and the registration.
pub mod Events
pub mod Requests
pub mod Scores
use xrpl.Prelude.{
  ℕ, Bool, true, false, ◌||◌, List, [], ◌∷◌, ◌++◌, Option, none, some, length, ◌==◌, replicate,
  if◌then◌else◌,
}
use xrpl.Js.Text.{Text, lit, same, is_empty, starts_with}
use xrpl.Js.Number.{Number, of_ℕ}
use xrpl.Js.Number.Show.{decimal}
use xrpl.Js.Utf8.{decode}
use xrpl.Js.Outcome.{Outcome, ok, throw, Thrown, bad_access, message, or_throw, bad_json}
use xrpl.Js.Json.{
  Json, null, bool, num, str, obj, end, field, property, is_null, is_object, as_text, as_number,
  as_list, or_else,
}
use xrpl.Js.Json.Parse.{parse}
use xrpl.Js.Json.Coerce.{number_of}
use xrpl.Base.Framework.{HandlerResult, Entry, refuse, refuse_with, respond, handle}
use xrpl.Base.Flow.{
  Flow, next, stop, fail, ◌>>=◌, ◌>>◌, require, return_if, or_return, call, attempt,
}
use xrpl.Base.Server.{Handler, hex_of_json, truthy}
use xrpl.Base.Greeting.{Counters, no_greetings, hex_json, run, say_hello, say_goodbye}
use xrpl.Matching.OutcomeLog.{Direction, buy, sell}
use xrpl.Matching.Signal.{is_text, is_address, if_address, text_or}
use xrpl.Matching.Swap.{if_not_empty, if_hex}
use xrpl.Agent.Host.{AgentHost, Response}
use xrpl.Agent.Series.{OutcomeEvent}
use xrpl.Agent.Scoring.{ScoreBreakdown, score_lead}
use xrpl.Agent.Classify.{
  StrategyClass, momentum, mean_reversion, yield_arb, Classification, classify_lead,
}
use xrpl.Agent.Drift.{DriftResult, History, drift_of, detect_drift, drift_confidence_threshold}
use xrpl.Agent.Report.{ScoreRequest, score_json, run_json}
use xrpl.Agent.Synthetic.{synthetic_momentum_lead, synthetic_mean_rev_lead}

-- What the process keeps; the history of the drift detector is its own.
pub record AgentState : Type 0 where
  pub counters : Counters
  pub last_score_run : Json
  pub history : History

-- `resetState`
unfoldable pub reset_state : AgentState → AgentState
reset_state s = record s { counters = no_greetings; last_score_run = null }

-- `reportState`
unfoldable pub report_state : AgentState → Json
report_state s = obj (
    field (lit "greetingCount") (num (of_ℕ s.counters.greeting_count)) (
      field (lit "lastGreeting") (str s.counters.last_greeting) (
        field (lit "farewellCount") (num (of_ℕ s.counters.farewell_count)) (
          field (lit "lastFarewell") (str s.counters.last_farewell)
            (field (lit "lastScoreRun") s.last_score_run end)))))

-- A number where there is one; `null` and a missing field are `undefined` behind `??`.
abbrev pub size_of : Option Json → Option Number
size_of none = none
size_of (some null) = none
size_of (some v) = some (number_of (some v))

-- An event as scoring and classifying read it. A field that is no number is read as arithmetic reads it,
-- which differs only for sizes that are texts or lists, since these are joined by `+`.
unfoldable pub read_event : Json → Outcome OutcomeEvent
read_event v = elim (is_null v) [
  | true ↦ throw bad_access
  | false ↦ ok (record {
    lead = text_or (as_text (property (lit "lead") v)) [];
    timestamp = number_of (property (lit "timestamp") v);
    pnl_bps = number_of (property (lit "pnlBps") v);
    direction =
        some (if is_text (as_text (property (lit "direction") v)) (lit "SELL") then sell else buy);
    size_pct = size_of (property (lit "sizePct") v);
  })
]

unfoldable pub read_events : List Json → Flow HandlerResult (List OutcomeEvent)
read_events [] = next []
read_events (v ∷ vs) = call (read_event v) >>= λ e. read_events vs >>= λ es. next (e ∷ es)

module _ (h : AgentHost) where
  -- `fetchOutcomeLog`
  unfoldable pub fetch_outcome_log : Text → Outcome (List Json)
  fetch_outcome_log lead = elim (if_not_empty (h.env (lit "MATCHING_ENGINE_PRIVATE_LOG_URL"))) [
    | none ↦ throw (
        message
          (lit "MATCHING_ENGINE_PRIVATE_LOG_URL / TEE_INTERNAL_TOKEN not set (and no fixture)"))
    | some base ↦ elim (if_not_empty (h.env (lit "TEE_INTERNAL_TOKEN"))) [
      | none ↦ throw (
          message
            (lit "MATCHING_ENGINE_PRIVATE_LOG_URL / TEE_INTERNAL_TOKEN not set (and no fixture)"))
      | some token ↦ elim (h.get_log base token lead) [
        | throw e ↦ throw e
        | ok r ↦ elim r.is_ok [
          | false ↦ throw (message (lit "HTTP " ++ decimal r.status))
          | true ↦ elim r.events [ throw e ↦ throw e | ok none ↦ ok [] | ok (some vs) ↦ ok vs ]
        ]
      ]
    ]
  ]

  -- The events: of a fixture, of the message, or of the matching engine.
  unfoldable pub find_events : Json → Text → Flow HandlerResult (List OutcomeEvent)
  find_events parsed lead =
      elim (is_text (h.env (lit "SYNTHETIC_OUTCOME_FIXTURE")) (lit "1")
        || truthy (property (lit "fixture") parsed)) [
          | true ↦ next (
              if is_text (as_text (property (lit "fixture") parsed)) (lit "mean-reversion")
              then synthetic_mean_rev_lead lead (of_ℕ 1700000000)
              else synthetic_momentum_lead lead (of_ℕ 1700000000))
          | false ↦ elim (as_list (property (lit "events") parsed)) [
            | some vs ↦ read_events vs
            | none ↦
                attempt (fetch_outcome_log lead) (refuse_with (lit "outcome log: ")) >>= read_events
          ]
        ]

abbrev pub number_or_zero : Option Number → Number
number_or_zero none = of_ℕ 0
number_or_zero (some x) = x

unfoldable pub read_score : AgentHost → Json → Flow HandlerResult ScoreRequest
read_score h msg = do
  raw ← attempt (hex_of_json (some msg)) (refuse_with (lit "decoding request: invalid hex: "))
  parsed ← or_return (parse (decode raw)) (refuse (lit "payload: expected JSON object"))
  return_if (is_null parsed) (refuse (lit "payload: expected JSON object"))
  require (is_object parsed) (refuse (lit "payload: expected JSON object"))
  lead ←
      or_return (if_address (as_text (property (lit "lead") parsed)))
        (refuse (lit "lead must be a 20-byte hex address"))
  events ← find_events h parsed lead
  return_if (length events == 0) (refuse (lit "no outcome events for lead"))
  next (record {
    lead = lead;
    events = events;
    baseline = number_or_zero (as_number (property (lit "baselineStrategyType") parsed));
    cycle = number_or_zero (as_number (property (lit "cycle") parsed));
    attestation_id =
        text_or (if_hex (as_text (property (lit "attestationId") parsed)))
          (lit "0x" ++ replicate 64 b'0');
  })

-- The score of a request, its classification and its drift, with what they leave of the state.
unfoldable pub execute_score : AgentHost → ScoreRequest → AgentState → HandlerResult × AgentState
execute_score h q s =
    let b = score_lead h.now q.events in
    let c = classify_lead q.events in
    let threshold = drift_confidence_threshold (h.env (lit "DRIFT_CONFIDENCE_THRESHOLD")) in
    let (d, history) = detect_drift q.lead q.baseline q.events q.cycle threshold s.history in
    (
      respond (hex_json (score_json q b c d)),
      record s { last_score_run = run_json q b c d; history = history },
    )

-- `handleScoreV1`
unfoldable pub handle_score : AgentHost → Handler AgentState
handle_score h msg s = run (read_score h msg) (execute_score h) s

abbrev with_counters :
    Outcome HandlerResult × Counters → AgentState → Outcome HandlerResult × AgentState
with_counters (r, c) s = (r, record s { counters = c })

unfoldable pub handle_say_hello : Handler AgentState
handle_say_hello msg s =
    with_counters (say_hello (lit "! Welcome to Mirror AI Agent FCE.") msg s.counters) s

unfoldable pub handle_say_goodbye : AgentHost → Handler AgentState
handle_say_goodbye h msg s = with_counters (say_goodbye h.decode_goodbye msg s.counters) s

abbrev pub version : Text
version = lit "0.1.0-ai-agent"
