-- ===== src/Watch/Health.antt =====
-- scripts/ai-agent/health-monitor.ts: a cycle of the monitor of health, and its run.
pub mod Alerts
use xrpl.Prelude.{ℕ, Bool, true, false, List, [], ◌∷◌, ◌++◌, Option, none, some}
use xrpl.Js.Text.{Text, lit}
use xrpl.Js.Number.{Number, of_ℕ}
use xrpl.Js.Number.Show.{decimal, number_text}
use xrpl.Js.BigInt.{pos, number_of}
use xrpl.Js.Outcome.{Outcome, ok}
use xrpl.Js.Task.{Run, Task, ◌>>=◌, ◌>>◌, pure, perform, lift}
use xrpl.Agent.Health.{
  HealthStatus, healthy, drift_detected, liquidation_risk, HealthSnapshot, Position, assess_health,
}
use xrpl.Watch.Loop.{WatchAct, alerted, asked_pool, slept, run_cycles}
use xrpl.Watch.Drift.{number_or}

-- The pool of the follower, `sendAlert`, the timer, and the environment.
pub record Ward (W : Type 0) : Type 0 where
  pub env : Text → Option Text
  pub collateral_ratio_bps : W → Outcome ℕ × W
  pub liquidation_threshold_bps : W → Outcome ℕ × W
  pub send_alert : Text → Text → Text → W → Outcome (Unit {0}) × W
  pub sleep : Number → W → Outcome (Unit {0}) × W

abbrev pub position_of : ℕ → ℕ → Position
position_of cr liq = record {
  collateral_ratio_bps = number_of (pos cr);
  liquidate_bps = some (number_of (pos liq));
  alert_bps = none;
  drift = false;
  borrow_balance = none;
  supply_balance = none;
}

abbrev is_risk : HealthStatus → Bool
is_risk liquidation_risk = true
is_risk healthy = false
is_risk drift_detected = false

abbrev pub risk_message : ℕ → HealthSnapshot → Text
risk_message cr health =
    lit "CR " ++ decimal cr ++ lit " below alert " ++ number_text health.alert_bps

module _ {W : Type 0} (h : Ward W) where
  unfoldable pub alert_if_risk : Text → ℕ → HealthSnapshot → Task W WatchAct (Unit {0})
  alert_if_risk lead cr health = elim (is_risk health.status) [
    | true ↦
        perform (λ _. alerted (lit "liquidation_risk") lead (risk_message cr health))
          (h.send_alert (lit "liquidation_risk") lead (risk_message cr health))
    | false ↦ pure tt
  ]

  -- One cycle
  unfoldable pub watch_position : Text → ℕ → Task W WatchAct (Unit {0})
  watch_position lead i = do
    cr ← perform (λ _. asked_pool (lit "getCollateralRatioBps")) h.collateral_ratio_bps
    liq ← perform (λ _. asked_pool (lit "liquidationThresholdBps")) h.liquidation_threshold_bps
    health ← lift (assess_health (h.env (lit "LIQUIDATION_ALERT_BPS")) (position_of cr liq))
    alert_if_risk lead cr health

  -- `main`, for so many cycles of fuel
  unfoldable pub health_monitor : Text → ℕ → Task W WatchAct Bool
  health_monitor lead fuel =
      run_cycles (watch_position lead)
        (h.sleep (number_or (h.env (lit "HEALTH_MONITOR_INTERVAL_MS")) (lit "60000")))
        (number_or (h.env (lit "HEALTH_MONITOR_CYCLES")) (lit "0")) fuel 0
