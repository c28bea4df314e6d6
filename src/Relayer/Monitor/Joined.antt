-- ===== src/Relayer/Monitor/Joined.antt =====
-- xrpl-monitor.ts: while a run of a payment is under way, further calls for it join it.
use xrpl.Prelude.{
  ◌≡◌, ◌≢◌, refl, sym, ap, ◌∙◌, true, false, not, List, [], ◌∷◌, ◌++◌, arith, filter, All, ◌⊎◌, inl,
  inr,
}
use xrpl.Js.Text.{Text, lit, same, same_iff, same_self, to_lower_case, starts_with, lower}
use xrpl.Relayer.Monitor.{
  PaymentStatus, Monitor, joined, started, persist, payment_key, strip_0x, mem, process_payment,
  end_run, seen, on_payment,
}

-- What happens to the monitor: a call of processPayment, a payment that the ledger reports, a status that
-- a run persists, and the end of a run.
pub data MonitorEvent : Type 0 where
  called : Text → Text → Text → MonitorEvent
  reported : Text → Text → Text → MonitorEvent
  saved : PaymentStatus → MonitorEvent
  ended : Text → PaymentStatus → MonitorEvent

unfoldable pub happens : MonitorEvent → Monitor → Monitor
happens (called address tx now) m = (process_payment address tx now m).1
happens (reported address tx now) m = (on_payment address tx now m).1
happens (saved s) m = persist s m
happens (ended tx s) m = end_run tx s m

unfoldable pub happen : List MonitorEvent → Monitor → Monitor
happen [] m = m
happen (e ∷ es) m = happen es (happens e m)

-- A way to write the hash of these digits: with a prefix or without.
abbrev pub Writes : Text → Text → Type 0
Writes tx digits =
    (starts_with (lit "0x") (to_lower_case digits) ≡ false)
    × ((tx ≡ digits) ⊎ (tx ≡ lit "0x" ++ digits) ⊎ (tx ≡ lit "0X" ++ digits))

-- Two texts of one hash: their digits are the same but for the case of the letters.
pub record SameHash (tx other : Text) : Type 0 where
  pub digits : Text
  pub other_digits : Text
  pub written : Writes tx digits
  pub other_written : Writes other other_digits
  pub alike : to_lower_case digits ≡ to_lower_case other_digits

-- The event does not end the run of this hash.
abbrev pub GoesOn : Text → MonitorEvent → Type 0
GoesOn tx (called _ _ _) = Unit
GoesOn tx (reported _ _ _) = Unit
GoesOn tx (saved _) = Unit
GoesOn tx (ended other s) = payment_key other ≢ payment_key tx

strip_0x-bare : (t : Text) → starts_with (lit "0x") (to_lower_case t) ≡ false → strip_0x t ≡ t
unfolding strip_0x starts_with to_lower_case lower same
strip_0x-bare [] h = refl
strip_0x-bare (a ∷ []) h = refl
strip_0x-bare (a ∷ b ∷ t) h = ground arith

payment_key-Writes : (tx digits : Text) → Writes tx digits → payment_key tx ≡ to_lower_case digits
unfolding payment_key strip_0x
payment_key-Writes tx digits (bare, inl e) =
    ap payment_key e ∙ ap to_lower_case (strip_0x-bare digits bare)
payment_key-Writes tx digits (bare, inr (inl e)) = ap payment_key e
payment_key-Writes tx digits (bare, inr (inr e)) = ap payment_key e

payment_key-SameHash : (tx other : Text) → SameHash tx other → payment_key other ≡ payment_key tx
payment_key-SameHash tx other h =
    payment_key-Writes other h.other_digits h.other_written
    ∙ sym h.alike
    ∙ sym (payment_key-Writes tx h.digits h.written)

mem_more : (k l : Text) (ks : List Text) → mem k ks ≡ true → mem k (l ∷ ks) ≡ true
unfolding mem
mem_more k l ks h = ground arith

mem-filter_other :
    (k l : Text) (ks : List Text)
    → l ≢ k
    → mem k ks ≡ true
    → mem k (filter (λ x. not (same x l)) ks) ≡ true
unfolding mem
mem-filter_other k l [] other h = h
mem-filter_other k l (x ∷ ks) other h =
    ground (arith, mem-filter_other k l ks other, same_iff x l, same_iff x k)

module _ (k : Text) where
  abbrev IsUnderWay : Monitor → Type 0
  IsUnderWay m = mem k m.inflight ≡ true

  process_payment-IsUnderWay :
      (address tx now : Text) (m : Monitor)
      → IsUnderWay m
      → IsUnderWay (process_payment address tx now m).1
  unfolding process_payment persist
  process_payment-IsUnderWay address tx now m h =
      grind (arith, mem_more k (payment_key tx) m.inflight h)

  on_payment-IsUnderWay :
      (address tx now : Text) (m : Monitor)
      → IsUnderWay m
      → IsUnderWay (on_payment address tx now m).1
  unfolding on_payment persist
  on_payment-IsUnderWay address tx now m h =
      process_payment-IsUnderWay address tx now (persist (seen address tx now) m) h

module _ (tx : Text) where
  happens-IsUnderWay :
      (e : MonitorEvent) (m : Monitor)
      → GoesOn tx e
      → IsUnderWay (payment_key tx) m
      → IsUnderWay (payment_key tx) (happens e m)
  unfolding happens persist end_run
  happens-IsUnderWay (called address other now) m on h =
      process_payment-IsUnderWay (payment_key tx) address other now m h
  happens-IsUnderWay (reported address other now) m on h =
      on_payment-IsUnderWay (payment_key tx) address other now m h
  happens-IsUnderWay (saved s) m on h = h
  happens-IsUnderWay (ended other s) m on h =
      mem-filter_other (payment_key tx) (payment_key other) m.inflight on h

  happen-IsUnderWay :
      (es : List MonitorEvent) (m : Monitor)
      → All (GoesOn tx) es
      → IsUnderWay (payment_key tx) m
      → IsUnderWay (payment_key tx) (happen es m)
  unfolding happen
  happen-IsUnderWay [] m on h = h
  happen-IsUnderWay (e ∷ es) m (on, ons) h =
      happen-IsUnderWay es (happens e m) ons (happens-IsUnderWay e m on h)

process_payment-starts :
    (address tx now : Text) (m : Monitor)
    → (process_payment address tx now m).0 ≡ started
    → IsUnderWay (payment_key tx) (process_payment address tx now m).1
unfolding process_payment mem
process_payment-starts address tx now m h = grind (arith, same_self (payment_key tx))

process_payment-under_way :
    (address tx now : Text) (m : Monitor)
    → IsUnderWay (payment_key tx) m
    → process_payment address tx now m ≡ (joined, m)
unfolding process_payment
process_payment-under_way address tx now m h = ground arith

-- Once a call has started a run of a payment, whatever calls, reports and persisted statuses follow, and
-- whatever other runs end, a further call for the payment joins that run and changes nothing as long as
-- the run itself has not ended: from whatever address, and with the hash written in whatever case, with
-- the prefix or without.
pub process_payment-joined :
    (address tx now : Text) (m : Monitor) (es : List MonitorEvent) (other again later : Text)
    → (process_payment address tx now m).0 ≡ started
    → All (GoesOn tx) es
    → SameHash tx again
    → let m' = happen es (process_payment address tx now m).1 in
      process_payment other again later m' ≡ (joined, m')
process_payment-joined address tx now m es other again later starts on hash =
    let m' = happen es (process_payment address tx now m).1 in
    let under_way =
      happen-IsUnderWay tx es (process_payment address tx now m).1 on
        (process_payment-starts address tx now m starts) in
    process_payment-under_way other again later m'
      (ap (λ k. mem k m'.inflight) (payment_key-SameHash tx again hash) ∙ under_way)
