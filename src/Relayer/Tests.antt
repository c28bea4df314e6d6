-- ===== src/Relayer/Tests.antt =====
-- The payment monitor on concrete payments, and the other services on concrete worlds.
mod World
mod Attestation
mod Execution
mod Proxy
mod Reports
mod Onboarded
use xrpl.Prelude.{◌≡◌, ◌≢◌, refl, true, false, List, [], ◌∷◌, some, none, inl, inr, arith}
use xrpl.Js.Text.{lit, same, to_lower_case, lower, is_empty, starts_with}
use xrpl.Relayer.Monitor.{
  PaymentStatus, sub_account_active, Monitor, joined, cached, started, get, get_status, strip_0x,
  payment_key, mem, has_key, cached_for, process_payment, end_run, on_payment,
}
use xrpl.Relayer.Monitor.Joined.{
  MonitorEvent, called, reported, saved, ended, happen, SameHash, process_payment-joined,
}
use xrpl.Relayer.Monitor.Once.{process_payment-cached, on_payment-started}

abbrev idle : Monitor
idle = record { statuses = []; files = []; inflight = [] }

first_starts : (process_payment (lit "rA") (lit "0xAB") (lit "now") idle).0 ≡ started
unfolding process_payment mem cached_for get_status get
first_starts = refl

abbrev active : PaymentStatus
active = record {
  xrpl_address = lit "rA";
  tx_hash = some (lit "ab");
  state = sub_account_active;
  message = none;
  personal_account = none;
  vault_balance = none;
  updated_at = lit "now";
}

-- A call for another payment, a report of this one, a status of it that is saved, and the end of the other run.
abbrev between : List MonitorEvent
between =
    called (lit "rB") (lit "CD") (lit "t1")
    ∷ reported (lit "rA") (lit "AB") (lit "t2")
    ∷ saved active
    ∷ ended (lit "0xcd") active
    ∷ []

other_key : payment_key (lit "0xcd") ≢ payment_key (lit "0xAB")
unfolding payment_key strip_0x to_lower_case lower starts_with same
other_key = ground arith

same_hash : SameHash (lit "0xAB") (lit "ab")
unfolding to_lower_case lower starts_with same
same_hash = record {
  digits = lit "AB";
  other_digits = lit "ab";
  written = (refl, inr (inl refl));
  other_written = (refl, inl refl);
  alike = refl;
}

process_payment-joined_example :
    let m' = happen between (process_payment (lit "rA") (lit "0xAB") (lit "now") idle).1 in
    process_payment (lit "rB") (lit "ab") (lit "later") m' ≡ (joined, m')
process_payment-joined_example =
    process_payment-joined (lit "rA") (lit "0xAB") (lit "now") idle between (lit "rB") (lit "ab")
      (lit "later") first_starts (tt, (tt, (tt, (other_key, tt)))) same_hash

abbrev finished : Monitor
finished = end_run (lit "0xAB") active idle

not_inflight : mem (payment_key (lit "0xAB")) finished.inflight ≡ false
unfolding mem end_run
not_inflight = refl

on_payment-started_example : (on_payment (lit "rA") (lit "0xAB") (lit "later") finished).0 ≡ started
on_payment-started_example =
    on_payment-started (lit "rA") (lit "0xAB") (lit "later") finished not_inflight
