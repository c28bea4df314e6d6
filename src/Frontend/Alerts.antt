-- ===== src/Frontend/Alerts.antt =====
-- frontend/src/app/api/alerts/route.ts: the store of alerts of the web interface.
pub mod Kept
use xrpl.Prelude.{ℕ, ◌-◌, true, false, List, [], ◌∷◌, ◌++◌, Option, none, some, length, drop}
use xrpl.Js.Text.{Text, lit}
use xrpl.Js.Json.{Json, str, obj, end, property, is_null, or_else}
use xrpl.Js.Outcome.{Outcome, ok, throw, bad_access}

-- The properties are whatever values a client sends.
pub record Alert : Type 0 where
  pub kind : Json
  pub lead : Option Json
  pub follower : Option Json
  pub message : Json
  pub meta : Option Json
  pub at_time : Json

abbrev value_or : Option Json → Text → Json
value_or none t = str t
value_or (some v) t = v

-- `body.key ?? t`
abbrev member_or : Text → Json → Text → Json
member_or key body t = value_or (or_else (property key body) none) t

-- The alert of a body, at some time; `null` has no properties.
unfoldable pub alert_of : Json → Text → Outcome Alert
alert_of body now = elim (is_null body) [
  | true ↦ throw bad_access
  | false ↦ ok (record {
    kind = member_or (lit "type") body (lit "info");
    lead = property (lit "lead") body;
    follower = property (lit "follower") body;
    message = member_or (lit "message") body [];
    meta = property (lit "meta") body;
    at_time = member_or (lit "at") body now;
  })
]

-- `req.json().catch(() => ({}))`
abbrev pub body_or_empty : Option Json → Json
body_or_empty none = obj end
body_or_empty (some v) = v

abbrev pub stored : Outcome Alert → List Alert → Outcome Alert × List Alert
stored (throw e) alerts = (throw e, alerts)
stored (ok a) alerts = let pushed = alerts ++ a ∷ [] in (ok a, drop (length pushed - 50) pushed)

-- `POST`, with the body where it is JSON
unfoldable pub post : Option Json → Text → List Alert → Outcome Alert × List Alert
unfolding alert_of
post body now alerts = stored (alert_of (body_or_empty body) now) alerts

-- `GET`
abbrev pub get : List Alert → List Alert
get alerts = alerts

-- Requests with their times, one after the other.
unfoldable pub post_all : List (Option Json × Text) → List Alert → List Alert
post_all [] alerts = alerts
post_all ((body, now) ∷ requests) alerts = post_all requests (post body now alerts).1
