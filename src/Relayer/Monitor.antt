-- ===== src/Relayer/Monitor.antt =====
-- scripts/relayer/xrpl-monitor.ts: the status of payments, and which payments start a run. A status is
-- taken as it is when it is persisted; that a run goes on to change the object is not modelled.
pub mod Once
pub mod Joined
pub mod Run
use xrpl.Prelude.{
  Bool, true, false, ◌&&◌, ◌||◌, not, List, [], ◌∷◌, ◌++◌, Option, none, some, filter,
  if◌then◌else◌, ◌==◌,
}
use xrpl.Js.Text.{Text, lit, same, is_empty, to_lower_case}

pub data StepperState : Type 0 where
  waiting_xrpl requesting_fdc minting_fxrp sub_account_active failed : StepperState

pub record PaymentStatus : Type 0 where
  pub xrpl_address : Text
  pub tx_hash : Option Text
  pub state : StepperState
  pub message : Option Text
  pub personal_account : Option Text
  pub vault_balance : Option Text
  pub updated_at : Text

abbrev pub Table : Type 0
Table = List (Text × PaymentStatus)

-- `Map.get` and `Map.set`: the latest entry of a key counts.
unfoldable pub get : Text → Table → Option PaymentStatus
get k [] = none
get k ((l, s) ∷ t) = if same l k then some s else get k t

abbrev pub set : Text → PaymentStatus → Table → Table
set k s t = (k, s) ∷ t

-- The statuses, the files of the status directory, and the keys of the runs that have not ended.
pub record Monitor : Type 0 where
  pub statuses : Table
  pub files : Table
  pub inflight : List Text

abbrev tx_or_pending : Option Text → Text
tx_or_pending none = lit "pending"
tx_or_pending (some t) = t

-- `statusKey`
unfoldable pub status_key : Text → Option Text → Text
status_key xrpl tx = to_lower_case (xrpl ++ lit ":" ++ tx_or_pending tx)

-- `persist`
unfoldable pub persist : PaymentStatus → Monitor → Monitor
persist s m = record m {
  statuses =
      set (to_lower_case s.xrpl_address) s (set (status_key s.xrpl_address s.tx_hash) s m.statuses);
  files = set s.xrpl_address s m.files;
}

abbrev or_file : Option PaymentStatus → Option PaymentStatus → Option PaymentStatus
or_file (some s) file = some s
or_file none file = file

-- `getStatus`
unfoldable pub get_status : Text → Monitor → Option PaymentStatus
get_status k m = or_file (get (to_lower_case k) m.statuses) (get k m.files)

-- `txHash.replace(/^0x/i, "")`
unfoldable pub strip_0x : Text → Text
strip_0x [] = []
strip_0x (a ∷ []) = a ∷ []
strip_0x (a ∷ b ∷ s) = if (a == b'0') && ((b == b'x') || (b == b'X')) then s else a ∷ b ∷ s

-- `paymentKey`
unfoldable pub payment_key : Text → Text
payment_key tx = to_lower_case (strip_0x tx)

unfoldable pub mem : Text → List Text → Bool
mem k [] = false
mem k (l ∷ ls) = same l k || mem k ls

abbrev pub is_under_way : StepperState → Bool
is_under_way minting_fxrp = true
is_under_way sub_account_active = true
is_under_way waiting_xrpl = false
is_under_way requesting_fdc = false
is_under_way failed = false

abbrev pub has_key : Option Text → Text → Bool
has_key none key = false
has_key (some tx) key = not (is_empty tx) && same (payment_key tx) key

-- A status of this payment that is minting or done.
unfoldable pub cached_for : Text → Option PaymentStatus → Option PaymentStatus
cached_for key none = none
cached_for key (some s) = if has_key s.tx_hash key && is_under_way s.state then some s else none

-- What a call is answered with: the run that is under way, a status, or a new run.
pub data Admission : Type 0 where
  joined : Admission
  cached : PaymentStatus → Admission
  started : Admission

-- The status that a run begins with, at some time.
unfoldable pub requesting : Text → Text → Text → PaymentStatus
requesting address tx now = record {
  xrpl_address = address;
  tx_hash = some tx;
  state = requesting_fdc;
  message =
      some
        (lit "Requesting FDC Payment attestation (one round, typically 1" ++ 0x2013 ∷ lit "3 min)");
  personal_account = none;
  vault_balance = none;
  updated_at = now;
}

-- `processPayment` up to the first wait of the run that it may start
unfoldable pub process_payment : Text → Text → Text → Monitor → Admission × Monitor
process_payment address tx now m = elim (mem (payment_key tx) m.inflight) [
  | true ↦ (joined, m)
  | false ↦ elim (cached_for (payment_key tx) (get_status address m)) [
    | some s ↦ (cached s, m)
    | none ↦
        let m' = persist (requesting address tx now) m in
        (started, record m' { inflight = payment_key tx ∷ m.inflight })
  ]
]

-- The end of a run: its last status is kept, and its key is removed.
unfoldable pub end_run : Text → PaymentStatus → Monitor → Monitor
end_run tx s m =
    let m' = persist s m in
    record m' { inflight = filter (λ k. not (same k (payment_key tx))) m.inflight }

-- The status of a payment that the ledger reports.
unfoldable pub seen : Text → Text → Text → PaymentStatus
seen address tx now = record {
  xrpl_address = address;
  tx_hash = some tx;
  state = waiting_xrpl;
  message = none;
  personal_account = none;
  vault_balance = none;
  updated_at = now;
}

-- A payment to the operator that the subscription reports
unfoldable pub on_payment : Text → Text → Text → Monitor → Admission × Monitor
on_payment address tx now m = process_payment address tx now (persist (seen address tx now) m)
