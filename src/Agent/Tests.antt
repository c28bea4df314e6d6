-- ===== src/Agent/Tests.antt =====
-- The agent on concrete events and positions.
use xrpl.Js.Json.Coerce.{number_of}
use xrpl.Matching.Signal.{is_address}
use xrpl.Js.Json.Parse.{parse}
use xrpl.Js.Utf8.{decode}
use xrpl.Base.Encoding.{byte_pairs, is_hex, hex_to_bytes}
use xrpl.Base.Server.{truthy, hex_of_json}
use xrpl.Prelude.{
  length, ℕ, ◌+◌, ◌*◌, ◌≤◌, ◌<◌, ◌≡◌, refl, ◌⊎◌, true, false, List, [], ◌∷◌, none, some, arith,
}
use xrpl.Js.Text.{starts_with, same, lit}
use xrpl.Js.Number.{
  nan, infinite, of_ℕ, round, lt, le, is_nan, eq, neg, add, sub, mul, div, sqrt, max_of, min_of,
  round_half_up,
}
use xrpl.Js.BigInt.{pos}
use xrpl.Js.Outcome.{ok, throw, bad_access}
use xrpl.Js.Json.{property, Json, null, str, lookup as field_of}
use xrpl.Base.Framework.{HandlerResult}
use xrpl.Base.Flow.{Flow, next, stop, fail}
use xrpl.Base.Greeting.{no_greetings}
use xrpl.Agent.Host.{AgentHost}
use xrpl.Agent.Report.{ScoreRequest}
use xrpl.Agent.Handlers.{read_event, read_events, find_events, AgentState, read_score, handle_score}
use xrpl.Agent.Handlers.Scores.{ScoreEnds, handle_score_lem}
use xrpl.Matching.OutcomeLog.{buy}
use xrpl.Agent.Series.{
  OutcomeEvent, sort_by, insert_by, sum, sum_from, squares, squares_from, mean_of, clamp01,
}
use xrpl.Agent.Scoring.{
  score_lead, breakdown_of, composite, returns_of, sharpe_equivalent, sharpe_of, max_drawdown,
  drawdown_from, step, consistency_score, data_completeness, in_window, normalize_sharpe,
  normalize_drawdown, weight_sharpe, weight_drawdown, weight_consistency, weight_completeness,
}
use xrpl.Agent.Scoring.Range.{IsScore, IsNonneg, InUnit, score_lead-range}
use xrpl.Agent.Classify.{classify_lead}
use xrpl.Agent.Classify.Confidence.{classify_lead-InUnit}
use xrpl.Agent.Health.{HealthSnapshot, liquidation_risk, assess_health}
use xrpl.Agent.Health.Restore.{assess_health-restores}

abbrev event : ℕ → ℕ → OutcomeEvent
event time pnl = record {
  lead = lit "0xa1";
  timestamp = of_ℕ time;
  pnl_bps = of_ℕ pnl;
  direction = some buy;
  size_pct = none;
}

abbrev events : List OutcomeEvent
events = event 300 40 ∷ event 100 20 ∷ event 200 30 ∷ []

score_lead-range_example :
    IsScore (score_lead (of_ℕ 400) events).ai_score
    × IsNonneg (score_lead (of_ℕ 400) events).max_drawdown
    × InUnit (score_lead (of_ℕ 400) events).data_completeness
    × (((score_lead (of_ℕ 400) events).consistency ≡ nan)
        ⊎ InUnit (score_lead (of_ℕ 400) events).consistency)
score_lead-range_example = score_lead-range (of_ℕ 400) events

classify_lead-InUnit_example : InUnit (classify_lead events).confidence
classify_lead-InUnit_example = classify_lead-InUnit events

low : lt (of_ℕ 12000) (of_ℕ 13000) ≡ true
unfolding lt
low = refl

high : le (of_ℕ 11000) (of_ℕ 12000) ≡ true
unfolding le lt is_nan
high = refl

-- A loan of 100 with a supply of 120 is brought to 130.
assess_health-restores_example :
    (h : HealthSnapshot) × (t : ℕ) × (assess_health none (record {
      collateral_ratio_bps = of_ℕ 12000;
      liquidate_bps = some (of_ℕ 11000);
      alert_bps = some (of_ℕ 13000);
      drift = false;
      borrow_balance = some (pos 100);
      supply_balance = some (pos 120);
    })
      ≡ ok h)
    × (h.status ≡ liquidation_risk)
    × (h.needs_top_up ≡ true)
    × (h.suggested_top_up ≡ pos t)
    × (100 * 13000 < (120 + t) * 10000 + 10000)
    × ((t ≡ 0) ⊎ ((120 + t) * 10000 ≤ 100 * 13000))
assess_health-restores_example =
    assess_health-restores none (of_ℕ 12000) (of_ℕ 11000) 13000 100 120 false low high (omega arith)

abbrev host : AgentHost
host = record {
  env = λ name. none;
  now = of_ℕ 400;
  decode_goodbye = λ t. ok (t, t);
  get_log = λ base token lead. throw bad_access;
}

abbrev empty_state : AgentState
empty_state = record { counters = no_greetings; last_score_run = null; history = [] }

-- An object with this lead and two events, of 10 and 30 basis points at the times 100 and 200.
abbrev score_message : Json
score_message = str (
    lit
      "0x7b226c656164223a22307830303030303030303030303030303030303030303030303030303030303030303030303030306131222c226576656e7473223a5b7b2274696d657374616d70223a3130302c22706e6c427073223a31302c22646972656374696f6e223a22425559227d2c7b2274696d657374616d70223a3230302c22706e6c427073223a33302c22646972656374696f6e223a2253454c4c227d5d7d")

handle_score_lem_example :
    ScoreEnds host score_message empty_state (handle_score host score_message empty_state)
handle_score_lem_example = handle_score_lem host score_message empty_state

-- How many events a message leads to.
abbrev count_of : Flow HandlerResult ScoreRequest → ℕ
count_of (next q) = length q.events
count_of (stop r) = 0
count_of (fail e) = 0

-- That message is scored, with both events.
scored_run : count_of (read_score host score_message) ≡ 2
unfolding read_score find_events read_events read_event truthy is_address property same hex_of_json
    hex_to_bytes decode parse field_of is_hex byte_pairs number_of starts_with
scored_run = refl

-- An infinite return leaves a score that is no number.
infinite_return_run :
    (score_lead
      (of_ℕ 400)
      (record (event 100 0) { pnl_bps = infinite false } ∷ event 200 30 ∷ [])).ai_score
    ≡ nan
unfolding score_lead breakdown_of composite sort_by insert_by returns_of sharpe_equivalent sharpe_of
    mean_of sum sum_from squares squares_from max_drawdown drawdown_from step consistency_score
    data_completeness in_window normalize_sharpe normalize_drawdown clamp01 weight_sharpe
    weight_drawdown weight_consistency weight_completeness round add sub neg mul div sqrt max_of
    min_of round_half_up lt le eq is_nan
infinite_return_run = refl
