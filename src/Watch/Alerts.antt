-- ===== src/Watch/Alerts.antt =====
-- scripts/ai-agent/alert-webhook.ts: the alerts of the process and the file of the latest ones
-- (sendAlert, getAlerts, the recorder's routes). What the webhook answers changes nothing.
pub mod Latest
use xrpl.Prelude.{
  ℕ, ◌-◌, Bool, true, false, ◌&&◌, List, [], ◌∷◌, ◌++◌, Option, none, some, length, drop,
  if◌then◌else◌,
}
use xrpl.Js.Text.{Text, lit, same, is_empty}
use xrpl.Js.Json.{Json, obj, end}
use xrpl.Js.Json.Parse.{parse}
use xrpl.Js.Outcome.{Outcome, ok, throw, Thrown, bad_json}

-- The properties that a caller gives, with the time that `sendAlert` sets where it gives none.
pub record Alert : Type 0 where
  pub kind : Text
  pub lead : Option Text
  pub follower : Option Text
  pub message : Text
  pub meta : Option Json
  pub at_time : Text

-- The alerts of the process, and what the file holds; `none` is that there is no file.
pub record Recorder : Type 0 where
  pub alerts : List Alert
  pub file : Option (List Alert)

-- `as.slice(-50)`
unfoldable pub last_fifty : List Alert → List Alert
last_fifty as_list = drop (length as_list - 50) as_list

-- `sendAlert`
unfoldable pub send_alert : Alert → Recorder → Recorder
unfolding last_fifty
send_alert a r =
    let alerts = r.alerts ++ a ∷ [] in record { alerts = alerts; file = some (last_fifty alerts) }

-- `getAlerts`
unfoldable pub get_alerts : Recorder → List Alert
get_alerts r = elim r.file [ some kept ↦ kept | none ↦ r.alerts ]

unfoldable pub send_all : List Alert → Recorder → Recorder
send_all [] r = r
send_all (a ∷ as_list) r = send_all as_list (send_alert a r)

-- The answers of the recorder.
pub data Answer : Type 0 where
  no_content : Answer
  listed : List Alert → Answer
  recorded : Alert → Answer
  not_found : Answer

abbrev json_or_throw : Option Json → Outcome Json
json_or_throw none = throw bad_json
json_or_throw (some v) = ok v

abbrev recorded_with : (Json → Outcome Alert) → Outcome Json → Recorder → Outcome Answer × Recorder
recorded_with alert_of (throw e) r = (throw e, r)
recorded_with alert_of (ok v) r = elim (alert_of v) [
  | throw e ↦ (throw e, r)
  | ok a ↦ (ok (recorded a), send_alert a r)
]

-- The routes of the recorder; a body that is no JSON throws. `alert_of` reads the properties of an
-- alert from what a client sends, at the time of the request.
unfoldable pub recorder_route :
    (Json → Outcome Alert) → Text → Text → Text → Recorder → Outcome Answer × Recorder
recorder_route alert_of method path body r =
    if same method (lit "OPTIONS")
    then (ok no_content, r)
    else if same path (lit "/alerts")
    then (ok (listed (get_alerts r)), r)
    else if same path (lit "/alert") && same method (lit "POST")
    then recorded_with alert_of (if is_empty body then ok (obj end) else json_or_throw (parse body))
        r
    else (ok not_found, r)
