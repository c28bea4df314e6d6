-- ===== src/Relayer/Monitor/Run.antt =====
-- xrpl-monitor.ts: the run of a payment (runProcessPayment). The attestation and the execution are
-- services here; Relayer.Onboarding puts theirs in. A status is a value: that the code changes the
-- object that it has persisted before it persists it again is not modelled.
pub mod Statuses
use xrpl.Prelude.{ℕ, Bool, true, false, List, [], ◌∷◌, ◌++◌, Option, none, some, ◌==◌}
use xrpl.Js.Text.{Text, lit}
use xrpl.Js.Number.{Number}
use xrpl.Js.Number.Show.{number_text, decimal}
use xrpl.Js.Json.{Json, property, is_null}
use xrpl.Js.Outcome.{Outcome, ok, throw, Thrown, bad_access}
use xrpl.Js.Task.{Run, Task, ◌>>=◌, ◌>>◌, pure, raise, perform, lift, outcome}
use xrpl.Relayer.Monitor.{
  PaymentStatus, StepperState, requesting_fdc, minting_fxrp, sub_account_active, failed, requesting,
}
use xrpl.Relayer.Attest.{PaymentProof}
use xrpl.Relayer.Operator.{Executed}

-- What a run calls: `attestXrplPayment`, `executeInstructionOnMac`, the configuration file, viem's
-- `getAddress` of a value, and `getBalance` of the vault.
pub record Services (W : Type 0) : Type 0 where
  pub attest : Text → W → Outcome PaymentProof × W
  pub execute : PaymentProof → Text → W → Outcome Executed × W
  pub read_config : W → Outcome Json × W
  pub get_address : Option Json → Outcome Text
  pub address_of_text : Text → Outcome Text
  pub vault_balance : Text → Text → Text → W → Outcome ℕ × W
  -- the message of an error
  pub wording : Thrown → Text

pub data RunAct : Type 0 where
  persisted : PaymentStatus → RunAct
  attested : Outcome PaymentProof → RunAct
  executed_on_mac : Outcome Executed → RunAct
  read_config_file : RunAct
  read_balance : Outcome ℕ → RunAct

abbrev pub minting : PaymentStatus → Number → PaymentStatus
minting st round_id = record st {
  state = minting_fxrp;
  message = some (lit "FDC round " ++ number_text round_id);
}

abbrev pub has_executed : PaymentStatus → Executed → PaymentStatus
has_executed st x = record st {
  personal_account = some x.personal_account;
  message = some (lit "executeInstruction " ++ x.hash);
}

abbrev pub message_of_active : Bool → Executed → Text
message_of_active false x = lit "executeInstruction " ++ x.hash
message_of_active true x =
    lit "executeInstruction "
    ++ x.hash
    ++ lit " "
    ++ 0x2014 ∷ lit " PersonalAccount "
    ++ x.personal_account
    ++ lit " is active. Mirror vault follow still needs onboard()."

abbrev pub active_message : Executed → ℕ → Text
active_message x balance = message_of_active (balance == 0) x

abbrev pub active : PaymentStatus → Executed → ℕ → PaymentStatus
active st x balance = record st {
  state = sub_account_active;
  message = some (active_message x balance);
  personal_account = some x.personal_account;
  vault_balance = some (decimal balance);
}

abbrev pub failing : PaymentStatus → Text → PaymentStatus
failing st error = record st { state = failed; message = some error }

-- A property of a value; `null` and `undefined` have none.
abbrev member_or_throw : Option Json → Text → Outcome (Option Json)
member_or_throw none key = throw bad_access
member_or_throw (some v) key = elim (is_null v) [
  | true ↦ throw bad_access
  | false ↦ ok (property key v)
]

-- `v?.key`
abbrev optional_member : Option Json → Text → Option Json
optional_member none key = none
optional_member (some v) key = property key v

module _ {W : Type 0} (h : Services W) where
  unfoldable pub persist_status : PaymentStatus → Task W RunAct (Unit {0})
  persist_status s = perform (λ _. persisted s) λ w. (ok tt, w)

  unfoldable pub fail_run : PaymentStatus → Thrown → Task W RunAct PaymentStatus
  fail_run st e = persist_status (failing st (h.wording e)) >> raise e

  -- `getAddress(cfg.fsa?.defaultLead ?? personalAccount)`, where no lead is given
  abbrev lead_of : Option Text → Json → Text → Outcome Text
  lead_of (some lead) config account = ok lead
  lead_of none config account =
      elim (optional_member (property (lit "fsa") config) (lit "defaultLead")) [
        | none ↦ h.address_of_text account
        | some v ↦ elim (is_null v) [
          | true ↦ h.address_of_text account
          | false ↦ h.get_address (some v)
        ]
      ]

  -- The balance in the vault of a personal account.
  unfoldable pub check_vault : Option Text → Text → Task W RunAct ℕ
  check_vault lead account = do
    config ← perform (λ _. read_config_file) h.read_config
    contracts ← lift (member_or_throw (some config) (lit "contracts"))
    vault_text ← lift (member_or_throw contracts (lit "mirrorVault"))
    vault ← lift (h.get_address vault_text)
    the_lead ← lift (lead_of lead config account)
    perform read_balance (h.vault_balance vault account the_lead)

  abbrev pub on_checked : PaymentStatus → Executed → Outcome ℕ → Task W RunAct PaymentStatus
  on_checked st x (throw e) = fail_run (has_executed st x) e
  on_checked st x (ok balance) = persist_status (active st x balance) >> pure (active st x balance)

  abbrev pub on_executed :
      Option Text → PaymentStatus → Outcome Executed → Task W RunAct PaymentStatus
  on_executed lead st (throw e) = fail_run st e
  on_executed lead st (ok x) = do
    checked ← outcome (check_vault lead x.personal_account)
    on_checked st x checked

  abbrev pub on_attested :
      Option Text → PaymentStatus → Outcome PaymentProof → Task W RunAct PaymentStatus
  on_attested lead st (throw e) = fail_run st e
  on_attested lead st (ok proof) = do
    persist_status (minting st proof.round_id)
    done ← outcome (perform executed_on_mac (h.execute proof st.xrpl_address))
    on_executed lead (minting st proof.round_id) done

  -- `runProcessPayment`, at some time
  unfoldable pub run_process_payment :
      Text → Text → Option Text → Text → Task W RunAct PaymentStatus
  run_process_payment address tx lead now = do
    persist_status (requesting address tx now)
    proof ← outcome (perform attested (h.attest tx))
    on_attested lead (requesting address tx now) proof
