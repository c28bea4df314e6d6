-- ===== src/Relayer/StatusServer.antt =====
-- scripts/relayer/xrpl-monitor.ts: the HTTP interface of the monitor, and what the subscription makes of
-- a transaction (startStatusServer, the handler of watch, loadOperatorAddress).
pub mod Routes
use xrpl.Prelude.{
  ℕ, Bool, true, false, not, ◌&&◌, ◌||◌, List, [], ◌∷◌, ◌++◌, Option, none, some, drop, length,
  if◌then◌else◌,
}
use xrpl.Js.Text.{Text, lit, same, is_empty, starts_with}
use xrpl.Js.Uri.{decode_uri_component}
use xrpl.Js.Json.{
  Json, null, str, bool, obj, Fields, end, field, property, is_null, as_text, or_else,
}
use xrpl.Js.Json.Parse.{parse}
use xrpl.Js.Outcome.{Outcome, ok, throw, Thrown, message, bad_json, bad_access, or_throw}
use xrpl.Base.Server.{truthy}
use xrpl.Relayer.Monitor.{
  StepperState, waiting_xrpl, requesting_fdc, minting_fxrp, sub_account_active, failed,
  PaymentStatus, Monitor, get_status, process_payment, on_payment, Admission, requesting,
}

-- A request, with the path that `new URL` reads from its address.
pub record Request : Type 0 where
  pub method : Text
  pub pathname : Text
  pub body : Text

-- What is sent back.
pub data Reply : Type 0 where
  no_content : Reply
  json : ℕ → Json → Reply
  error : ℕ → Thrown → Reply
  plain : ℕ → Text → Reply

unfoldable pub state_name : StepperState → Text
state_name waiting_xrpl = lit "waiting_xrpl"
state_name requesting_fdc = lit "requesting_fdc"
state_name minting_fxrp = lit "minting_fxrp"
state_name sub_account_active = lit "sub_account_active"
state_name failed = lit "failed"

-- A property that `JSON.stringify` leaves out where it is `undefined`.
abbrev optional_field : Text → Option Text → Fields → Fields
optional_field key none rest = rest
optional_field key (some t) rest = field key (str t) rest

-- A status as it is sent, its properties in the order in which a run sets them.
unfoldable pub status_json : PaymentStatus → Json
unfolding state_name
status_json s = obj (
    field (lit "xrplAddress") (str s.xrpl_address) (
      optional_field (lit "txHash") s.tx_hash (
        field (lit "state") (str (state_name s.state)) (
          field (lit "updatedAt") (str s.updated_at) (
            optional_field (lit "message") s.message (
              optional_field (lit "personalAccount") s.personal_account
                (optional_field (lit "vaultBalance") s.vault_balance end)))))))

abbrev not_found : Json
not_found = obj (field (lit "error") (str (lit "not found")) end)

abbrev found_or_not : Option PaymentStatus → Reply
found_or_not none = json 404 not_found
found_or_not (some s) = json 200 (status_json s)

-- GET /status/…: an address that is badly escaped throws out of the listener.
unfoldable pub status_route : Text → Monitor → Outcome Reply
unfolding decode_uri_component get_status
status_route pathname m = elim (decode_uri_component (drop (length (lit "/status/")) pathname)) [
  | throw e ↦ throw e
  | ok address ↦ ok (found_or_not (get_status address m))
]

-- What POST /process answers where the monitor has no status.
abbrev assumed : Text → Json → Text → Json
assumed address tx now = obj (
    field (lit "xrplAddress") (str address) (
      field (lit "txHash") tx (
        field (lit "state") (str (lit "requesting_fdc")) (
          field (lit "message")
            (str (
              lit "Requesting FDC Payment attestation (one round, typically 1"
              ++ 0x2013 ∷ lit "3 min)"))
            (field (lit "updatedAt") (str now) end)))))

abbrev status_or : Option PaymentStatus → Json → Json
status_or none other = other
status_or (some s) other = status_json s

-- The run is admitted only for a hash that is a text: on another value `processPayment` rejects, which
-- is logged. An address that is no text is refused by `getStatus`.
unfoldable pub process_json : Option Text → Option Text → Json → Text → Monitor → Reply × Monitor
unfolding process_payment get_status
process_json none tx tx_value now m = (error 400 bad_access, m)
process_json (some address) none tx_value now m =
    (json 202 (status_or (get_status address m) (assumed address tx_value now)), m)
process_json (some address) (some tx) tx_value now m =
    let m' = (process_payment address tx now m).1 in
    (json 202 (status_or (get_status address m') (assumed address tx_value now)), m')

abbrev required : Thrown
required = message (lit "xrplAddress and txHash required")

abbrev pub json_of : Option Json → Json
json_of none = null
json_of (some v) = v

unfoldable pub process_body : Outcome Json → Text → Monitor → Reply × Monitor
unfolding process_json
process_body (throw e) now m = (error 400 e, m)
process_body (ok j) now m =
    elim (truthy (property (lit "xrplAddress") j) && truthy (property (lit "txHash") j)) [
      | false ↦ (error 400 required, m)
      | true ↦
          process_json (as_text (property (lit "xrplAddress") j))
            (as_text (property (lit "txHash") j)) (json_of (property (lit "txHash") j)) now m
    ]

unfoldable pub object_of : Option Json → Outcome Json
object_of none = throw bad_json
object_of (some j) = elim (is_null j) [ true ↦ throw bad_access | false ↦ ok j ]

-- POST /process, at some time
unfoldable pub process_route : Text → Text → Monitor → Reply × Monitor
unfolding process_body object_of
process_route body now m = process_body (object_of (parse body)) now m

abbrev kept : Outcome Reply → Monitor → Outcome Reply × Monitor
kept r m = (r, m)

abbrev replied : Reply × Monitor → Outcome Reply × Monitor
replied (r, m) = (ok r, m)

-- The listener of `startStatusServer`
unfoldable pub serve : Request → Text → Monitor → Outcome Reply × Monitor
unfolding status_route process_route
serve q now m =
    if same q.method (lit "OPTIONS")
    then kept (ok no_content) m
    else if same q.pathname (lit "/health")
    then kept (ok (json 200 (obj (field (lit "ok") (bool true) end)))) m
    else if starts_with (lit "/status/") q.pathname
    then kept (status_route q.pathname m) m
    else if same q.pathname (lit "/process") && same q.method (lit "POST")
    then replied (process_route q.body now m)
    else kept (ok (plain 404 (lit "not found"))) m

-- A transaction of the subscription: `tx_json` or `transaction`, and the hash.
pub record Seen : Type 0 where
  pub tx : Option Json
  pub hash : Option Text

abbrev is_value : Option Json → Text → Bool
is_value none t = false
is_value (some (str s)) t = same s t
is_value (some _) t = false

-- A payment to the operator: the account that pays.
unfoldable pub payer : Text → Json → Option Text
payer operator tr =
    if is_value (property (lit "TransactionType") tr) (lit "Payment")
      && is_value (property (lit "Destination") tr) operator
    then as_text (property (lit "Account") tr)
    else none

abbrev on_hash : Option Text → Option Text → Text → Monitor → Option Admission × Monitor
on_hash none hash now m = (none, m)
on_hash (some account) none now m = (none, m)
on_hash (some account) (some hash) now m =
    if is_empty account || is_empty hash
    then (none, m)
    else let out = on_payment account hash now m in (some out.0, out.1)

abbrev payer_of : Text → Option Json → Option Text
payer_of operator none = none
payer_of operator (some tr) = payer operator tr

-- The handler of a transaction in `watch`; `none` is that it is passed over.
unfoldable pub on_transaction : Text → Seen → Text → Monitor → Option Admission × Monitor
unfolding payer on_payment
on_transaction operator t now m = on_hash (payer_of operator t.tx) t.hash now m
