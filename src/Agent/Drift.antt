-- ===== src/Agent/Drift.antt =====
-- fce-ai-agent/typescript/src/app/drift.ts: the drift of a lead from its registered strategy.
pub mod History
use xrpl.Prelude.{
  ℕ, Bool, false, not, ◌&&◌, List, [], ◌∷◌, ◌++◌, Option, none, some, length, filter, if◌then◌else◌,
}
use xrpl.Js.Text.{Text, lit}
use xrpl.Js.Number.{Number, of_ℕ, round, le, eq, is_finite}
use xrpl.Js.Number.Read.{to_number}
use xrpl.Agent.Series.{OutcomeEvent}
use xrpl.Agent.Classify.{StrategyClass, classify_lead, strategy_type_code}

pub record DriftResult : Type 0 where
  pub lead : Text
  pub baseline : Number
  pub live : StrategyClass
  pub live_code : ℕ
  pub confidence : Number
  pub drifted : Bool
  pub cycle : Number
  pub threshold : Number

abbrev pub History : Type 0
History = List DriftResult

-- `Number(value ?? fallback)`, or the fallback where that is not finite
unfoldable pub finite_or : Option Text → Number → Number
finite_or none fallback = fallback
finite_or (some t) fallback = if is_finite (to_number t) then to_number t else fallback

-- `driftConfidenceThreshold`, of the value of the environment
unfoldable pub drift_confidence_threshold : Option Text → Number
drift_confidence_threshold value = finite_or value (round false 55 100)

-- The result of one detection.
unfoldable pub drift_of : Text → Number → List OutcomeEvent → Number → Number → DriftResult
drift_of lead baseline events cycle threshold =
    let classification = classify_lead events in
    let live_code = strategy_type_code classification.strategy in
    record {
      lead = lead;
      baseline = baseline;
      live = classification.strategy;
      live_code = live_code;
      confidence = classification.confidence;
      drifted = not (eq (of_ℕ live_code) baseline) && le threshold classification.confidence;
      cycle = cycle;
      threshold = threshold;
    }

-- `detectDrift`: the result, which the history keeps
unfoldable pub detect_drift :
    Text → Number → List OutcomeEvent → Number → Number → History → DriftResult × History
detect_drift lead baseline events cycle threshold history =
    let result = drift_of lead baseline events cycle threshold in (result, history ++ result ∷ [])

unfoldable pub get_drift_history : History → List DriftResult
get_drift_history history = history

unfoldable pub reset_drift_history : History → History
reset_drift_history history = []

unfoldable pub count_false_positives : List DriftResult → ℕ
count_false_positives results = length (filter (λ r. r.drifted) results)
