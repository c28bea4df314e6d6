-- ===== src/Relayer/Tests/Reports.antt =====
-- The listener of the monitor on a reported payment, and the script that pauses the stale machine.
use xrpl.Prelude.{◌≡◌, refl, ◌∷◌, ◌++◌, List, [], some, All}
use xrpl.Js.Text.{Text, lit, same, is_empty, to_lower_case, lower}
use xrpl.Js.Json.{Json, str, obj, end, field, property, lookup}
use xrpl.Js.Json.Parse.{parse}
use xrpl.Js.Outcome.{ok}
use xrpl.Js.Task.{Run, ◌>>=◌, pure, raise, perform}
use xrpl.Js.Task.Returns.{Returns-of}
use xrpl.Relayer.Monitor.{Monitor, requesting, mem, get_status, get, cached_for}
use xrpl.Relayer.StatusServer.{json, status_json, status_route, process_route}
use xrpl.Relayer.StatusServer.Routes.{IsReport, IsPlain, process_route-status_route}
use xrpl.Relayer.Pause.{
  Machines, PauseAct, live_tee, stale_tee, has_machine, list_machines, check_after, pause_now,
  pause_if_stale, pause_stale,
}
use xrpl.Relayer.Pause.Safe.{HowPaused, pause_stale-HowPaused}

abbrev idle : Monitor
idle = record { statuses = []; files = []; inflight = [] }

abbrev body : Text
body = lit "{\"xrplAddress\":\"rA\",\"txHash\":\"AB\"}"

abbrev report : Json
report =
    obj (field (lit "xrplAddress") (str (lit "rA")) (field (lit "txHash") (str (lit "AB")) end))

body_reports : IsReport (lit "rA") (lit "AB") (lit "now") body report idle
unfolding parse property lookup same is_empty mem cached_for get_status get
body_reports = record {
  parsed = refl;
  address_at = refl;
  hash_at = refl;
  address_given = refl;
  hash_given = refl;
  idle = refl;
  fresh = refl;
}

address-IsPlain : All IsPlain (lit "rA")
address-IsPlain = (refl, (refl, tt))

process_route-status_route_example :
    let (reply, m') = process_route body (lit "now") idle in
    (reply ≡ json 202 (status_json (requesting (lit "rA") (lit "AB") (lit "now"))))
    × (status_route (lit "/status/" ++ lit "rA") m'
        ≡ ok (json 200 (status_json (requesting (lit "rA") (lit "AB") (lit "now")))))
process_route-status_route_example =
    process_route-status_route (lit "rA") (lit "AB") (lit "now") body report idle body_reports
      address-IsPlain

-- A registry whose world is the list of the machines that are active.
abbrev machines : Machines (List Text)
machines = record {
  env = λ name. some (lit "k");
  active_machines = λ w. (ok w, w);
  pause = λ id w. (ok (lit "0xh"), live_tee ∷ []);
  receipt_status = λ hash w. (ok (lit "success"), w);
}

abbrev both : Run (List Text) PauseAct
both = record { world = stale_tee ∷ live_tee ∷ []; acts = [] }

paused_stale : (pause_stale machines both).0 ≡ ok tt
unfolding pause_stale list_machines pause_if_stale pause_now check_after has_machine ◌>>=◌ pure
    raise perform same to_lower_case lower is_empty
paused_stale = refl

pause_stale-HowPaused_example : HowPaused [] (pause_stale machines both).1.acts
pause_stale-HowPaused_example =
    pause_stale-HowPaused machines both (pause_stale machines both).1
      (Returns-of (pause_stale machines) both tt paused_stale)
