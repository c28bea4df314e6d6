-- ===== src/Frontend/Alerts/Kept.antt =====
-- route.ts: the alerts that the store holds.
use xrpl.Prelude.{
  ◌-◌, ◌≡◌, sym, ap, ◌∙◌, List, [], ◌∷◌, ◌++◌, Option, length, drop, append_assoc, append-nil,
  latest-push,
}
use xrpl.Js.Text.{Text}
use xrpl.Js.Json.{Json}
use xrpl.Js.Outcome.{Outcome, ok, throw}
use xrpl.Frontend.Alerts.{Alert, body_or_empty, alert_of, stored, post, get, post_all}

abbrev accepted_of : Outcome Alert → List Alert
accepted_of (throw e) = []
accepted_of (ok a) = a ∷ []

-- The alerts of the requests that were accepted.
unfoldable pub accepted : List (Option Json × Text) → List Alert
accepted [] = []
accepted ((body, now) ∷ requests) =
    accepted_of (alert_of (body_or_empty body) now) ++ accepted requests

-- The last fifty of the alerts so far.
abbrev pub last_fifty : List Alert → List Alert
last_fifty history = drop (length history - 50) history

stored-last_fifty :
    (o : Outcome Alert) (history : List Alert)
    → (stored o (last_fifty history)).1 ≡ last_fifty (history ++ accepted_of o)
stored-last_fifty (throw e) history = ap last_fifty (sym (append-nil history))
stored-last_fifty (ok a) history = latest-push 50 a history

post_all-last_fifty :
    (requests : List (Option Json × Text)) (history : List Alert)
    → post_all requests (last_fifty history) ≡ last_fifty (history ++ accepted requests)
unfolding post_all post accepted
post_all-last_fifty [] history = ap last_fifty (sym (append-nil history))
post_all-last_fifty ((body, now) ∷ requests) history =
    let o = alert_of (body_or_empty body) now in
    ap (post_all requests) (stored-last_fifty o history)
    ∙ post_all-last_fifty requests (history ++ accepted_of o)
    ∙ ap last_fifty (append_assoc history (accepted_of o) (accepted requests))

-- However many requests have come since the start, the store lists the last fifty of the alerts that it
-- has accepted, in their order, and all of them while there are no more.
pub get-post_all :
    (requests : List (Option Json × Text))
    → get (post_all requests []) ≡ last_fifty (accepted requests)
get-post_all requests = post_all-last_fifty requests []
