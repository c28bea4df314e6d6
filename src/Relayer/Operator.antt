-- ===== src/Relayer/Operator.antt =====
-- scripts/relayer/xrpl-monitor.ts: an attested payment is executed on the master account controller
-- (revertDataOf, decodeMacRevert, executeInstructionOnMac).
pub mod Executes
use xrpl.Prelude.{
  ℕ, zero, suc, ◌^◌, Bool, true, false, not, ◌&&◌, ◌||◌, List, [], ◌∷◌, ◌++◌, Option, none, some,
  take, ltb, leb, length, if◌then◌else◌,
}
use xrpl.Js.Text.{Text, lit, same, is_empty, starts_with, includes, to_lower_case}
use xrpl.Js.Json.{Json}
use xrpl.Js.Outcome.{Outcome, ok, throw, message}
use xrpl.Js.Task.{Run, Task, ◌>>=◌, ◌>>◌, pure, raise, perform, catch, lift}
use xrpl.Relayer.Chain.{
  Chain, Act, Arg, text_arg, Failure, Receipt, Execution, read, awaited, simulated, executed,
}
use xrpl.Relayer.Payment.{PaymentData, to_payment_proof_arg}
use xrpl.Relayer.Attest.{PaymentProof, required, first_set, resolve_master_account_controller}

-- The calls of the controller: a simulation, which fails or not, the transaction, and
-- `decodeErrorResult` with the errors of the controller.
pub record Mac (W : Type 0) : Type 0 where
  pub simulate : Execution → W → Outcome (Option Failure) × W
  pub execute : Execution → W → Outcome Text × W
  pub decode_error : Text → Outcome Text

abbrev is_revert : Text → Bool
is_revert t = starts_with (lit "0x") t && leb 10 (length t)

unfoldable pub first_revert : ℕ → List (Option Text) → Option Text
first_revert zero causes = none
first_revert (suc n) [] = none
first_revert (suc n) (none ∷ causes) = first_revert n causes
first_revert (suc n) (some t ∷ causes) =
    let rest = first_revert n causes in if is_revert t then some t else rest

-- `revertDataOf`
unfoldable pub revert_data_of : Failure → Option Text
unfolding first_revert
revert_data_of f = first_revert 6 f.data_of_causes

abbrev balance_too_low : Text
balance_too_low =
    lit
      "FAssetBalanceTooLow: the PersonalAccount has 0 FXRP. executeInstruction(transfer) cannot mint; it only moves "

abbrev of_name : Text → Text
of_name name =
    if same name (lit "FAssetBalanceTooLow")
    then balance_too_low
      ++ lit
          "FXRP already minted via FAssets Core Vault. Coston2 Core Vault mint liquidity is often empty."
    else lit "executeInstruction reverted: " ++ name

abbrev of_selector : Text → Text
of_selector t =
    if same (to_lower_case (take 10 t)) (lit "0xdb7b48e3")
    then balance_too_low ++ lit "already-minted FXRP."
    else lit "executeInstruction reverted " ++ take 10 t

abbrev first_of : Option Text → Option Text → Text
first_of (some s) other = s
first_of none (some s) = s
first_of none none = lit "executeInstruction simulation failed"

-- `decodeMacRevert`
unfoldable pub decode_mac_revert : (Text → Outcome Text) → Failure → Text
decode_mac_revert decode_error f = elim (revert_data_of f) [
  | none ↦ first_of f.short_message f.long_message
  | some t ↦ elim (decode_error t) [ ok name ↦ of_name name | throw e ↦ of_selector t ]
]

-- What is paid with the call.
unfoldable pub value_for : ℕ → ℕ
value_for fee = if ltb 0 fee && ltb fee (10 ^ 18) then fee else 0

pub record Executed : Type 0 where
  pub hash : Text
  pub personal_account : Text

abbrev pub is_nil : List Json → Bool
is_nil [] = true
is_nil (_ ∷ _) = false

module _ {W : Type 0} (c : Chain W) (mac : Mac W) where
  -- The key of the relayer
  unfoldable pub operator_key : Outcome Text
  operator_key = required (lit "Missing operator/deployer private key for executeInstruction") (
      first_set (c.env (lit "PERSONA_OPERATOR_RELAYER_PRIVATE_KEY")) (
        first_set (c.env (lit "DEPLOYER_PRIVATE_KEY"))
          (c.env (lit "PERSONA_DEPLOYER_PRIVATE_KEY"))))

  unfoldable pub instruction_fee : Text → Task W Act ℕ
  instruction_fee controller =
      catch
        (perform (λ _. read controller (lit "getDefaultInstructionFee"))
          (c.read_uint controller (lit "getDefaultInstructionFee") []))
        λ _. pure 0

  unfoldable pub personal_account_of : Text → Text → Task W Act Text
  personal_account_of controller xrpl_address =
      perform (λ _. read controller (lit "getPersonalAccount"))
        (c.read_text controller (lit "getPersonalAccount") (text_arg xrpl_address ∷ []))

  -- The transaction, once its simulation has passed.
  unfoldable pub execute_now : Execution → Task W Act Executed
  execute_now x = do
    hash ← perform (executed x) (mac.execute x)
    receipt ← perform (awaited hash) (c.receipt_of hash)
    elim (same receipt.status (lit "success")) [
      | false ↦ raise (message (lit "executeInstruction reverted on-chain " ++ hash))
      | true ↦ do
        account ← personal_account_of x.address x.xrpl_address
        pure (record { hash = hash; personal_account = account })
    ]

  -- A simulation that has failed.
  unfoldable pub refused : Execution → Failure → Task W Act Executed
  refused x f = do
    let decoded = decode_mac_revert mac.decode_error f
    elim (includes (lit "transactionalreadyexecuted") (to_lower_case decoded)) [
      | false ↦ raise (message decoded)
      | true ↦ do
        account ← personal_account_of x.address x.xrpl_address
        pure (record { hash = lit "already-executed"; personal_account = account })
    ]

  unfoldable pub execution_of : PaymentProof → Text → Task W Act Execution
  execution_of proof xrpl_address = do
    lift operator_key
    controller ← resolve_master_account_controller c
    payment ← lift (to_payment_proof_arg proof.payment)
    elim (is_nil proof.merkle_proof) [
      | true ↦ raise (
          message
            (lit "FDC DA proof missing merkleProof " ++ 0x2014 ∷ lit " cannot executeInstruction"))
      | false ↦ do
        fee ← instruction_fee controller
        pure (record {
          address = controller;
          payment = payment;
          merkle_proof = proof.merkle_proof;
          xrpl_address = xrpl_address;
          value = value_for fee;
          gas = 2000000;
        })
    ]

  abbrev passed_or : Execution → Option Failure → Task W Act Executed
  passed_or x none = execute_now x
  passed_or x (some f) = refused x f

  -- `executeInstructionOnMac`
  unfoldable pub execute_instruction_on_mac : PaymentProof → Text → Task W Act Executed
  execute_instruction_on_mac proof xrpl_address = do
    x ← execution_of proof xrpl_address
    failed ← perform (simulated x) (mac.simulate x)
    passed_or x failed
