-- ===== src/Relayer/Monitor/Once.antt =====
-- xrpl-monitor.ts: which calls start a run of a payment.
use xrpl.Prelude.{◌≡◌, refl, true, false, not, List, [], ◌∷◌, none, some, arith, filter}
use xrpl.Js.Text.{Text, same, same_self, to_lower_case}
use xrpl.Relayer.Monitor.{
  PaymentStatus, Monitor, cached, started, get, get_status, persist, payment_key, mem, cached_for,
  has_key, is_under_way, process_payment, end_run, seen, on_payment,
}

-- What was persisted last for an address is its status.
get_status-persist :
    (s : PaymentStatus) (m : Monitor) → get_status s.xrpl_address (persist s m) ≡ some s
unfolding get_status persist get
get_status-persist s m = rw (same_self (to_lower_case s.xrpl_address)) refl

get_status-end_run :
    (tx : Text) (s : PaymentStatus) (m : Monitor)
    → get_status s.xrpl_address (end_run tx s m) ≡ some s
unfolding get_status end_run persist get
get_status-end_run tx s m = rw (same_self (to_lower_case s.xrpl_address)) refl

mem-filter : (k : Text) (ks : List Text) → mem k (filter (λ l. not (same l k)) ks) ≡ false
unfolding mem
mem-filter k [] = refl
mem-filter k (l ∷ ls) = ground (arith, mem-filter k ls)

mem-end_run :
    (tx : Text) (s : PaymentStatus) (m : Monitor)
    → mem (payment_key tx) (end_run tx s m).inflight ≡ false
unfolding end_run
mem-end_run tx s m = mem-filter (payment_key tx) m.inflight

inflight-persist : (s : PaymentStatus) (m : Monitor) → (persist s m).inflight ≡ m.inflight
unfolding persist
inflight-persist s m = refl

status_seen :
    (address tx now : Text) (m : Monitor)
    → get_status address (persist (seen address tx now) m) ≡ some (seen address tx now)
unfolding get_status persist get seen
status_seen address tx now m = rw (same_self (to_lower_case address)) refl

cached_for-seen : (key address tx now : Text) → cached_for key (some (seen address tx now)) ≡ none
unfolding cached_for seen
cached_for-seen key address tx now = ground arith

cached_for-kept :
    (key : Text) (s : PaymentStatus)
    → has_key s.tx_hash key ≡ true
    → is_under_way s.state ≡ true
    → cached_for key (some s) ≡ some s
unfolding cached_for
cached_for-kept key s h k = rw (h, k) refl

-- After a run has ended with a status of its own payment that is minting or active, a call for the
-- payment from its address is answered with that status and changes nothing.
pub process_payment-cached :
    (tx now : Text) (s : PaymentStatus) (m : Monitor)
    → has_key s.tx_hash (payment_key tx) ≡ true
    → is_under_way s.state ≡ true
    → let m' = end_run tx s m in process_payment s.xrpl_address tx now m' ≡ (cached s, m')
unfolding process_payment
process_payment-cached tx now s m h k =
    let idle = mem-end_run tx s m in
    let status = get_status-end_run tx s m in
    let kept : cached_for (payment_key tx) (some s) ≡ some s =
      cached_for-kept (payment_key tx) s h k in
    grind (arith, idle, status, kept)

-- A payment that the subscription reports starts a run unless one is under way, even where an earlier
-- run of it has ended with an active account: the report itself overwrites that status.
pub on_payment-started :
    (address tx now : Text) (m : Monitor)
    → mem (payment_key tx) m.inflight ≡ false
    → (on_payment address tx now m).0 ≡ started
unfolding on_payment process_payment
on_payment-started address tx now m h =
    let idle : mem (payment_key tx) (persist (seen address tx now) m).inflight ≡ false =
      rw (inflight-persist (seen address tx now) m) h in
    let status : get_status address (persist (seen address tx now) m) ≡ some (seen address tx now) =
      status_seen address tx now m in
    let not_cached = cached_for-seen (payment_key tx) address tx now in
    grind (arith, idle, status, not_cached)
