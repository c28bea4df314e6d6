-- ===== src/Relayer/StatusServer/Routes.antt =====
-- xrpl-monitor.ts: what the routes change, and what a client reads after it has reported a payment.
use xrpl.Prelude.{
  ℕ, zero, suc, ◌+◌, ◌<◌, ◌≡◌, refl, ap, ◌∙◌, true, false, ◌&&◌, [], ◌∷◌, ◌++◌, none, some, arith,
  All, length, ◌==◌,
}
use xrpl.Js.Text.{Text, lit, same, same_self, is_empty, starts_with, to_lower_case}
use xrpl.Js.Uri.{decode_uri_component, decode_from, flush}
use xrpl.Js.Utf8.{encode, decode}
use xrpl.Js.Json.{Json, str, property, is_null, as_text}
use xrpl.Js.Json.Parse.{parse}
use xrpl.Js.Outcome.{ok}
use xrpl.Base.Server.{truthy}
use xrpl.Relayer.Monitor.{
  Monitor, get_status, process_payment, started, requesting, mem, payment_key, cached_for, persist,
  get,
}
use xrpl.Relayer.StatusServer.{
  Request, json, status_json, status_route, process_route, process_json, process_body, object_of,
  json_of, serve,
}

-- The listener changes the monitor only for POST /process.
pub serve-keeps :
    (q : Request) (now : Text) (m : Monitor)
    → (same q.pathname (lit "/process") && same q.method (lit "POST")) ≡ false
    → (serve q now m).1 ≡ m
unfolding serve
serve-keeps q now m other = ground arith

abbrev pub IsPlain : ℕ → Type 0
IsPlain c = (c == b'%') ≡ false

flush-nil : flush [] ≡ some []
unfolding flush same encode decode
flush-nil = refl

decode_from-plain : (s : Text) (n : ℕ) → All IsPlain s → length s < n → decode_from n [] s ≡ some s
unfolding decode_from
decode_from-plain s zero h fuel = absurd (omega arith)
decode_from-plain [] (suc n) h fuel = flush-nil
decode_from-plain (c ∷ s) (suc n) (hc, h) fuel =
    rw (decode_from, hc, flush-nil, decode_from-plain s n h (omega arith)) refl

decode_uri_component-plain : (s : Text) → All IsPlain s → decode_uri_component s ≡ ok s
unfolding decode_uri_component
decode_uri_component-plain s h =
    rw (decode_uri_component, decode_from-plain s (length s + 1) h (omega arith)) refl

-- The monitor once a run of the payment has been admitted.
abbrev admitted : Text → Text → Text → Monitor → Monitor
admitted address tx now m =
    let m' = persist (requesting address tx now) m in
    record m' { inflight = payment_key tx ∷ m.inflight }

process_payment-admitted :
    (address tx now : Text) (m : Monitor)
    → mem (payment_key tx) m.inflight ≡ false
    → cached_for (payment_key tx) (get_status address m) ≡ none
    → process_payment address tx now m ≡ (started, admitted address tx now m)
unfolding process_payment
process_payment-admitted address tx now m idle fresh = rw (process_payment, idle, fresh) refl

get_status-admitted :
    (address tx now : Text) (m : Monitor)
    → get_status address (admitted address tx now m) ≡ some (requesting address tx now)
unfolding get_status persist get requesting
get_status-admitted address tx now m = rw (same_self (to_lower_case address)) refl

truthy-text : (s : Text) → is_empty s ≡ false → truthy (some (str s)) ≡ true
unfolding truthy
truthy-text s h = rw (truthy, h) refl

not_null : (j : Json) (v : Json) → property (lit "txHash") j ≡ some v → is_null j ≡ false
unfolding property
not_null j v h = ground arith

starts_with_self : (p s : Text) → starts_with p (p ++ s) ≡ true
unfolding starts_with
starts_with_self [] s = refl
starts_with_self (c ∷ p) s = ground (arith, starts_with_self p s)

module _ (address tx now body : Text) (j : Json) (m : Monitor) where
  -- A body that reports a payment that is neither under way nor done.
  pub record IsReport : Type 0 where
    pub parsed : parse body ≡ some j
    pub address_at : property (lit "xrplAddress") j ≡ some (str address)
    pub hash_at : property (lit "txHash") j ≡ some (str tx)
    pub address_given : is_empty address ≡ false
    pub hash_given : is_empty tx ≡ false
    pub idle : mem (payment_key tx) m.inflight ≡ false
    pub fresh : cached_for (payment_key tx) (get_status address m) ≡ none

  process_json-report :
      (v : Json)
      → IsReport
      → process_json (some address) (some tx) v now m
        ≡ (json 202 (status_json (requesting address tx now)), admitted address tx now m)
  unfolding process_json
  process_json-report v h =
      rw
        (
          process_json,
          process_payment-admitted address tx now m h.idle h.fresh,
          get_status-admitted address tx now m,
        )
        refl

  process_route-report :
      IsReport
      → process_route body now m
        ≡ (json 202 (status_json (requesting address tx now)), admitted address tx now m)
  unfolding process_route process_body
  process_route-report h =
      let is_object : object_of (parse body) ≡ ok j =
        rw (h.parsed, object_of, not_null j (str tx) h.hash_at) refl in
      let has_address : truthy (property (lit "xrplAddress") j) ≡ true =
        ap truthy h.address_at ∙ truthy-text address h.address_given in
      let has_hash : truthy (property (lit "txHash") j) ≡ true =
        ap truthy h.hash_at ∙ truthy-text tx h.hash_given in
      ap (λ o. process_body o now m) is_object
      ∙ rw (process_body, has_address, has_hash) refl
      ∙ ap
          (λ a.
            process_json a (as_text (property (lit "txHash") j))
              (json_of (property (lit "txHash") j)) now m)
          (ap as_text h.address_at)
      ∙ ap (λ t. process_json (some address) t (json_of (property (lit "txHash") j)) now m)
          (ap as_text h.hash_at)
      ∙ process_json-report (json_of (property (lit "txHash") j)) h

  -- A client that reports such a payment is answered 202 with its status, and then reads the same status
  -- at /status/ and the address, if the address has no `%`.
  pub process_route-status_route :
      IsReport
      → All IsPlain address
      → let (reply, m') = process_route body now m in
        (reply ≡ json 202 (status_json (requesting address tx now)))
        × (status_route (lit "/status/" ++ address) m'
            ≡ ok (json 200 (status_json (requesting address tx now))))
  unfolding status_route
  process_route-status_route h plain_address =
      let reported = process_route-report h in
      (
        ap (λ x. x.0) reported,
        ap (λ x. status_route (lit "/status/" ++ address) x.1) reported
            ∙ rw
                (
                  status_route,
                  decode_uri_component-plain address plain_address,
                  get_status-admitted address tx now m,
                )
                refl,
      )
