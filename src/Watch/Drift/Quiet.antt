-- ===== src/Watch/Drift/Quiet.antt =====
-- drift-monitor.ts: when the monitor of drift sends an alert.
use xrpl.Prelude.{ℕ, ◌+◌, ◌≤◌, ◌≡◌, refl, Bool, true, false, List, [], ◌∷◌, arith}
use xrpl.Js.Text.{Text, lit}
use xrpl.Js.Number.{Number, of_ℕ, le, eq, lt, is_nan}
use xrpl.Js.Task.{Run}
use xrpl.Js.Task.Acts.{AtMost, AtMost-pure, AtMost-skip, count}
use xrpl.Agent.Classify.{strategy_type_code}
use xrpl.Agent.Drift.{drift_of, drift_confidence_threshold}
use xrpl.Agent.Synthetic.{synthetic_momentum_lead}
use xrpl.Agent.Synthetic.Momentum.{classify_lead-synthetic_momentum_lead}
use xrpl.Watch.Loop.{WatchAct, alerted}
use xrpl.Watch.Loop.Ends.{run_cycles-none}
use xrpl.Watch.Drift.{
  Watcher, number_or, events_at, detect, watch_lead, watch_leads, drift_monitor, start_time,
  inject_at,
}

-- A momentum lead has not drifted from the strategy 0, whatever the threshold.
drifted-momentum :
    (lead : Text) (now cycle threshold : Number)
    → (drift_of lead (of_ℕ 0) (synthetic_momentum_lead lead now) cycle threshold).drifted ≡ false
unfolding drift_of strategy_type_code eq le lt is_nan
drifted-momentum lead now cycle threshold =
    let strategy = (classify_lead-synthetic_momentum_lead lead now).0 in rw strategy refl

events_at-before :
    (inject : Number) (lead : Text) (i : ℕ)
    → le (of_ℕ 0) inject ≡ false
    → events_at inject lead i ≡ synthetic_momentum_lead lead (of_ℕ (start_time + i))
unfolding events_at
events_at-before inject lead i never = rw (events_at, never) refl

abbrev pub is_alert : WatchAct → Bool
is_alert (alerted _ _ _) = true
is_alert _ = false

module _ {W : Type 0} (h : Watcher W) where
  detect-quiet :
      (lead : Text) (i : ℕ) → le (of_ℕ 0) (inject_at h) ≡ false → (detect h lead i).drifted ≡ false
  unfolding detect
  detect-quiet lead i never = rw (events_at-before (inject_at h) lead i never) (
      drifted-momentum lead (of_ℕ (start_time + i)) (of_ℕ i)
        (drift_confidence_threshold (h.env (lit "DRIFT_CONFIDENCE_THRESHOLD"))))

  watch_leads-quiet :
      (leads : List Text) (i : ℕ)
      → le (of_ℕ 0) (inject_at h) ≡ false
      → AtMost is_alert 0 (watch_leads h leads i)
  unfolding watch_leads watch_lead
  watch_leads-quiet [] i never = AtMost-pure tt 0
  watch_leads-quiet (lead ∷ leads) i never =
      AtMost-skip _ _ 0 (rw (watch_lead, detect-quiet lead i never) (AtMost-pure tt 0))
        λ _. watch_leads-quiet leads i never

  -- Where no drift is injected, the monitor of drift sends no alert, for whatever leads, threshold and
  -- number of cycles.
  pub drift_monitor-quiet :
      (leads : List Text) (fuel : ℕ) (r : Run W WatchAct)
      → le (of_ℕ 0) (inject_at h) ≡ false
      → count is_alert (drift_monitor h leads fuel r).1.acts ≤ count is_alert r.acts
  unfolding drift_monitor
  drift_monitor-quiet leads fuel r never =
      let silent =
        run_cycles-none (watch_leads h leads)
          (h.sleep (number_or (h.env (lit "DRIFT_MONITOR_INTERVAL_MS")) (lit "60000"))) is_alert
          (number_or (h.env (lit "DRIFT_MONITOR_CYCLES")) (lit "0")) fuel 0 refl
          λ i. watch_leads-quiet leads i never in
      omega (arith, silent.at_most r)
