-- ===== src/Watch/Drift.antt =====
-- scripts/ai-agent/drift-monitor.ts: a cycle of the monitor of drift, and its run.
pub mod Quiet
use xrpl.Prelude.{ℕ, ◌+◌, Bool, true, false, ◌&&◌, List, [], ◌∷◌, ◌++◌, Option, none, some}
use xrpl.Js.Text.{Text, lit}
use xrpl.Js.Number.{Number, of_ℕ, le}
use xrpl.Js.Number.Show.{to_fixed2}
use xrpl.Js.Number.Read.{to_number}
use xrpl.Js.Outcome.{Outcome, ok}
use xrpl.Js.Task.{Run, Task, ◌>>=◌, ◌>>◌, pure, perform}
use xrpl.Agent.Series.{OutcomeEvent}
use xrpl.Agent.Drift.{DriftResult, drift_of, drift_confidence_threshold}
use xrpl.Agent.Report.{strategy_name}
use xrpl.Agent.Synthetic.{synthetic_momentum_lead, synthetic_mean_rev_lead}
use xrpl.Watch.Loop.{WatchAct, alerted, slept, run_cycles}

-- `sendAlert` and the timer, and the environment; the history that `detectDrift` keeps is not read here.
pub record Watcher (W : Type 0) : Type 0 where
  pub env : Text → Option Text
  pub send_alert : Text → Text → Text → W → Outcome (Unit {0}) × W
  pub sleep : Number → W → Outcome (Unit {0}) × W

-- `Number(value ?? fallback)`
abbrev pub number_or : Option Text → Text → Number
number_or none fallback = to_number fallback
number_or (some t) fallback = to_number t

abbrev pub start_time : ℕ
start_time = 1700000000

-- The events of a lead in a cycle: from the injected cycle on, those of another strategy.
unfoldable pub events_at : Number → Text → ℕ → List OutcomeEvent
unfolding synthetic_momentum_lead synthetic_mean_rev_lead
events_at inject_at lead i = elim (le (of_ℕ 0) inject_at && le inject_at (of_ℕ i)) [
  | true ↦ synthetic_mean_rev_lead lead (of_ℕ start_time)
  | false ↦ synthetic_momentum_lead lead (of_ℕ (start_time + i))
]

module _ {W : Type 0} (h : Watcher W) where
  abbrev pub inject_at : Number
  inject_at = number_or (h.env (lit "DRIFT_MONITOR_INJECT_AT")) (lit "-1")

  unfoldable pub detect : Text → ℕ → DriftResult
  detect lead i =
      drift_of lead (of_ℕ 0) (events_at inject_at lead i) (of_ℕ i)
        (drift_confidence_threshold (h.env (lit "DRIFT_CONFIDENCE_THRESHOLD")))

  abbrev drift_message : DriftResult → Text
  drift_message r =
      lit "Drift: baseline momentum "
      ++ 0x2192 ∷ b' ' ∷ strategy_name r.live
      ++ lit " (conf "
      ++ to_fixed2 r.confidence
      ++ lit ")"

  unfoldable pub watch_lead : Text → ℕ → Task W WatchAct (Unit {0})
  watch_lead lead i = elim (detect lead i).drifted [
    | true ↦
        let message = drift_message (detect lead i) in
        perform (λ _. alerted (lit "drift") lead message) (h.send_alert (lit "drift") lead message)
    | false ↦ pure tt
  ]

  unfoldable pub watch_leads : List Text → ℕ → Task W WatchAct (Unit {0})
  watch_leads [] i = pure tt
  watch_leads (lead ∷ leads) i = watch_lead lead i >> watch_leads leads i

  -- `main`, for so many cycles of fuel
  unfoldable pub drift_monitor : List Text → ℕ → Task W WatchAct Bool
  drift_monitor leads fuel =
      run_cycles (watch_leads leads)
        (h.sleep (number_or (h.env (lit "DRIFT_MONITOR_INTERVAL_MS")) (lit "60000")))
        (number_or (h.env (lit "DRIFT_MONITOR_CYCLES")) (lit "0")) fuel 0
