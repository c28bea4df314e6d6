-- ===== src/Relayer/Onboarding.antt =====
-- scripts/relayer/xrpl-monitor.ts and fdc-payment.ts: a run of a payment with the attestation client and
-- the executor that it calls, on one chain.
pub mod Active
use xrpl.Prelude.{ℕ, List, Option, none, some}
use xrpl.Js.Text.{Text, lit}
use xrpl.Js.Json.{Json}
use xrpl.Js.Outcome.{Outcome, ok, throw, Thrown, external}
use xrpl.Js.Task.{Run, Task, ◌>>=◌, perform}
use xrpl.Relayer.Chain.{Chain, Act}
use xrpl.Relayer.Abi.{Value}
use xrpl.Relayer.Attest.{PaymentProof, attest_xrpl_payment}
use xrpl.Relayer.Operator.{Mac, Executed, execute_instruction_on_mac}
use xrpl.Relayer.Monitor.{PaymentStatus}
use xrpl.Relayer.Monitor.Run.{Services, RunAct, run_process_payment}

-- The configuration file, `getAddress` of viem and the vault.
pub record Vault (W : Type 0) : Type 0 where
  pub read_config : W → Outcome Json × W
  pub get_address : Option Json → Outcome Text
  pub address_of_text : Text → Outcome Text
  pub balance : Text → Text → Text → W → Outcome ℕ × W
  pub wording : Thrown → Text
  -- the ABI decoder of a payment
  pub decode : Text → Outcome Value

abbrev pub attested_or_throw : Outcome (Option PaymentProof) → Outcome PaymentProof
attested_or_throw (throw e) = throw e
attested_or_throw (ok none) = throw (external (lit "the looks at the round ran out"))
attested_or_throw (ok (some proof)) = ok proof

module _ {W : Type 0} (c : Chain W) (mac : Mac W) (v : Vault W) where
  -- A call that the acts of the chain do not record.
  abbrev beside : {A : Type 0} → (W → Outcome A × W) → Run W Act → Outcome A × Run W Act
  beside f r = let out = f r.world in (out.0, record r { world = out.1 })

  -- The services of a run, on the world of the chain and its acts so far, with fifty looks at the round.
  unfoldable pub services : Services (Run W Act)
  services = record {
    attest = λ tx r.
        let out = attest_xrpl_payment c v.decode 50 tx r in (attested_or_throw out.0, out.1);
    execute = λ proof address r. execute_instruction_on_mac c mac proof address r;
    read_config = beside v.read_config;
    get_address = v.get_address;
    address_of_text = v.address_of_text;
    vault_balance = λ vault account lead. beside (v.balance vault account lead);
    wording = v.wording;
  }

  -- `runProcessPayment`
  unfoldable pub onboard : Text → Text → Option Text → Text → Task (Run W Act) RunAct PaymentStatus
  onboard address tx lead now = run_process_payment services address tx lead now
