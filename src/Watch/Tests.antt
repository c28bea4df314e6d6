-- ===== src/Watch/Tests.antt =====
-- The alerts of a process, and a cycle of the monitor of health.
use xrpl.Prelude.{ℕ, ◌-◌, ◌≡◌, refl, [], ◌∷◌, none, some, length, drop}
use xrpl.Js.Text.{lit}
use xrpl.Js.Number.{lt, le}
use xrpl.Js.BigInt.{number_of}
use xrpl.Js.Outcome.{ok}
use xrpl.Js.Task.{Run, ◌>>=◌, pure, perform}
use xrpl.Js.Task.Returns.{Returns-of}
use xrpl.Agent.Health.{assess_health, suggested, liquidation_alert_bps, status_of}
use xrpl.Agent.Drift.{finite_or}
use xrpl.Watch.Alerts.{Alert, get_alerts, send_all}
use xrpl.Watch.Alerts.Latest.{get_alerts-send_all}
use xrpl.Watch.Loop.{WatchAct}
use xrpl.Watch.Health.{Ward, watch_position, alert_if_risk}
use xrpl.Watch.Health.Alerts.{HasAlerted, line_of, watch_position-alerts}

abbrev drifted : Alert
drifted = record {
  kind = lit "drift";
  lead = some (lit "0xa");
  follower = none;
  message = lit "drift";
  meta = none;
  at_time = lit "now";
}

get_alerts-send_all_example :
    get_alerts (send_all (drifted ∷ drifted ∷ []) (record { alerts = []; file = some [] }))
    ≡ drop (length (drifted ∷ drifted ∷ []) - 50) (drifted ∷ drifted ∷ [])
get_alerts-send_all_example = get_alerts-send_all drifted (drifted ∷ []) (some [])

abbrev ward : Ward ℕ
ward = record {
  env = λ name. none;
  collateral_ratio_bps = λ w. (ok 12000, w);
  liquidation_threshold_bps = λ w. (ok 15000, w);
  send_alert = λ kind lead text w. (ok tt, w);
  sleep = λ ms w. (ok tt, w);
}

abbrev start : Run ℕ WatchAct
start = record { world = 0; acts = [] }

cycle_returns : (watch_position ward (lit "0xa") 0 start).0 ≡ ok tt
unfolding watch_position alert_if_risk assess_health ◌>>=◌ pure perform number_of suggested lt le
    liquidation_alert_bps finite_or status_of
cycle_returns = refl

watch_position-alerts_example :
    (cr : ℕ) × ((ward.collateral_ratio_bps 0).0 ≡ ok cr)
    × HasAlerted ward
        (lit "0xa")
        cr
        (line_of none)
        []
        (watch_position ward (lit "0xa") 0 start).1.acts
watch_position-alerts_example =
    watch_position-alerts ward (lit "0xa") 0 start (watch_position ward (lit "0xa") 0 start).1
      (Returns-of (watch_position ward (lit "0xa") 0) start tt cycle_returns)
