-- ===== src/Watch/Alerts/Latest.antt =====
-- alert-webhook.ts: the alerts that the recorder lists.
use xrpl.Prelude.{
  ◌-◌, ◌≡◌, refl, sym, ◌∙◌, List, [], ◌∷◌, ◌++◌, Option, some, length, drop, append_assoc,
  append-nil,
}
use xrpl.Watch.Alerts.{Alert, Recorder, last_fifty, send_alert, get_alerts, send_all}

alerts-send_all : (sent : List Alert) (r : Recorder) → (send_all sent r).alerts ≡ r.alerts ++ sent
unfolding send_all send_alert
alerts-send_all [] r = sym (append-nil r.alerts)
alerts-send_all (a ∷ sent) r =
    alerts-send_all sent (send_alert a r) ∙ append_assoc r.alerts (a ∷ []) sent

file-send_all :
    (sent : List Alert) (r : Recorder)
    → r.file ≡ some (last_fifty r.alerts)
    → (send_all sent r).file ≡ some (last_fifty (send_all sent r).alerts)
unfolding send_all send_alert
file-send_all [] r h = h
file-send_all (a ∷ sent) r h = file-send_all sent (send_alert a r) refl

-- Once a process has sent an alert, whatever file it found, the recorder lists the last fifty of the
-- alerts that it has sent, in the order in which it sent them, or all if they are fewer.
pub get_alerts-send_all :
    (a : Alert) (sent : List Alert) (old : Option (List Alert))
    → let all_sent = a ∷ sent in
      get_alerts (send_all all_sent (record { alerts = []; file = old }))
      ≡ drop (length all_sent - 50) all_sent
unfolding get_alerts last_fifty send_all send_alert
get_alerts-send_all a sent old =
    let first : Recorder = send_alert a (record { alerts = []; file = old }) in
    let kept = file-send_all sent first refl in
    let listed = alerts-send_all sent first in rw (kept, listed) refl
