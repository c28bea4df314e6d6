-- ===== src/Agent/Report.antt =====
-- fce-ai-agent/typescript/src/app/handlers.ts: the request of SCORE_V1 and its answer as JSON.
use xrpl.Prelude.{List, length}
use xrpl.Js.Text.{Text, lit}
use xrpl.Js.Number.{Number, of_ℕ}
use xrpl.Js.Json.{Json, bool, num, str, obj, end, field}
use xrpl.Agent.Series.{OutcomeEvent}
use xrpl.Agent.Scoring.{ScoreBreakdown}
use xrpl.Agent.Classify.{StrategyClass, momentum, mean_reversion, yield_arb, Classification}
use xrpl.Agent.Drift.{DriftResult}

-- What a message asks for.
pub record ScoreRequest : Type 0 where
  pub lead : Text
  pub events : List OutcomeEvent
  pub baseline : Number
  pub cycle : Number
  pub attestation_id : Text

unfoldable pub strategy_name : StrategyClass → Text
strategy_name momentum = lit "momentum"
strategy_name mean_reversion = lit "mean-reversion"
strategy_name yield_arb = lit "yield-arb"

unfoldable pub breakdown_json : ScoreBreakdown → Json
breakdown_json b = obj (
    field (lit "sharpe") (num b.sharpe) (
      field (lit "maxDrawdown") (num b.max_drawdown) (
        field (lit "consistency") (num b.consistency) (
          field (lit "dataCompleteness") (num b.data_completeness)
            (field (lit "aiScore") (num b.ai_score) end)))))

unfoldable pub classification_json : Classification → Json
classification_json c = obj (
    field (lit "strategy") (str (strategy_name c.strategy)) (
      field (lit "confidence") (num c.confidence) (
        field (lit "features")
          (obj (
            field (lit "directionAutocorr") (num c.direction_autocorr) (
              field (lit "sizeCv") (num c.size_cv)
                (field (lit "meanAbsPnlBps") (num c.mean_abs_pnl_bps) end))))
          end)))

unfoldable pub drift_json : DriftResult → Json
drift_json d = obj (
    field (lit "lead") (str d.lead) (
      field (lit "baseline") (num d.baseline) (
        field (lit "live") (str (strategy_name d.live)) (
          field (lit "liveCode") (num (of_ℕ d.live_code)) (
            field (lit "confidence") (num d.confidence) (
              field (lit "drifted") (bool d.drifted) (
                field (lit "cycle") (num d.cycle)
                  (field (lit "threshold") (num d.threshold) end))))))))

unfoldable pub score_json : ScoreRequest → ScoreBreakdown → Classification → DriftResult → Json
score_json q b c d = obj (
    field (lit "lead") (str q.lead) (
      field (lit "score") (num b.ai_score) (
        field (lit "breakdown") (breakdown_json b) (
          field (lit "classification") (classification_json c) (
            field (lit "drift") (drift_json d) (
              field (lit "attestationId") (str q.attestation_id)
                (field (lit "eventCount") (num (of_ℕ (length q.events))) end)))))))

unfoldable pub run_json : ScoreRequest → ScoreBreakdown → Classification → DriftResult → Json
run_json q b c d = obj (
    field (lit "lead") (str q.lead) (
      field (lit "score") (num b.ai_score) (
        field (lit "strategy") (str (strategy_name c.strategy))
          (field (lit "drifted") (bool d.drifted) end))))
