-- ===== src/Relayer/Attest.antt =====
-- scripts/relayer/fdc.ts and fdc-payment.ts: the whole path of an attestation, from the prepared
-- request to the decoded proof (clientsFromEnv, retrieveProof, relaySwapProof, attestXrplPayment,
-- resolveMasterAccountController). `none` is that the looks at the round ran out.
pub mod Ends
use xrpl.Prelude.{
  ℕ, zero, suc, Bool, true, false, List, [], ◌∷◌, ◌++◌, Option, none, some, drop, if◌then◌else◌,
}
use xrpl.Js.Text.{Text, lit, is_empty}
use xrpl.Js.Number.{Number}
use xrpl.Js.Json.{Json, str, property, is_null}
use xrpl.Js.Json.Print.{stringify}
use xrpl.Js.Outcome.{Outcome, ok, throw, message, external, bad_access}
use xrpl.Js.Task.{Run, Task, ◌>>=◌, ◌>>◌, pure, raise, perform, catch, lift}
use xrpl.Base.Server.{truthy}
use xrpl.Relayer.Chain.{Chain, Act}
use xrpl.Relayer.Abi.{Value}
use xrpl.Relayer.Wire.{with_0x, prepare_payment_request, prepare_evm_tx_request}
use xrpl.Relayer.Fdc.{registry_address, pause, request_attestation, Submitted}
use xrpl.Relayer.DaProof.{DaProof, wait_for_da_proof, object_or_throw}
use xrpl.Relayer.EvmTx.{EvmTx, decode_response, decode_evm_tx_response}

pub record PaymentProof : Type 0 where
  pub merkle_proof : List Json
  pub payment : Value
  pub response_hex : Text
  pub round_id : Number
  pub abi_encoded_request : Text

pub record SwapProof : Type 0 where
  pub merkle_proof : List Json
  pub evm_tx : EvmTx
  pub round_id : Number

-- A text method of whatever the JSON holds.
abbrev text_or_throw : Json → Outcome Text
text_or_throw (str s) = ok s
text_or_throw _ = throw bad_access

-- The encoded request of an answer of the verifier; viem refuses one that is no text.
abbrev pub encoded : Option Json → Outcome Text
encoded (some (str s)) = ok s
encoded _ = throw (external (lit "the request is not a text"))

abbrev pub first_set : Option Text → Option Text → Option Text
first_set (some s) t = some s
first_set none t = t

abbrev pub required : Text → Option Text → Outcome Text
required error none = throw (message error)
required error (some s) = elim (is_empty s) [ true ↦ throw (message error) | false ↦ ok s ]

module _ {W : Type 0} (c : Chain W) where
  -- The key of `clientsFromEnv`
  unfoldable pub clients_from_env : Outcome Text
  clients_from_env =
      required (lit "Missing DEPLOYER_PRIVATE_KEY") (
        first_set (c.env (lit "DEPLOYER_PRIVATE_KEY")) (c.env (lit "PERSONA_DEPLOYER_PRIVATE_KEY")))

  -- The loop of `attestXrplPayment`, with the number of rounds that are left and the last answer.
  unfoldable pub prepare_until : Text → ℕ → Text → Task W Act Text
  prepare_until transaction_id zero last_error =
      raise (message (lit "Payment prepare missing abiEncodedRequest: " ++ last_error))
  prepare_until transaction_id (suc n) last_error = do
    p ← prepare_payment_request c transaction_id
    prepared ← lift (object_or_throw p)
    elim (truthy (property (lit "abiEncodedRequest") prepared)) [
      | true ↦ lift (encoded (property (lit "abiEncodedRequest") prepared))
      | false ↦ pause c 10000 >> prepare_until transaction_id n (stringify prepared)
    ]

  unfoldable pub finish_payment :
      (Text → Outcome Value) → Submitted → Text → Option DaProof → Task W Act (Option PaymentProof)
  finish_payment decode submitted request none = pure none
  finish_payment decode submitted request (some raw) = do
    response_hex ← lift (text_or_throw raw.response_hex)
    payment ← lift (decode_response decode response_hex)
    pure (
        some (record {
          merkle_proof = raw.proof;
          payment = payment;
          response_hex = with_0x response_hex;
          round_id = submitted.round_id;
          abi_encoded_request = request;
        }))

  -- `attestXrplPayment`, with the ABI decoder of payments
  unfoldable pub attest_xrpl_payment :
      (Text → Outcome Value) → ℕ → Text → Task W Act (Option PaymentProof)
  attest_xrpl_payment decode fuel transaction_id = do
    lift clients_from_env
    request ← prepare_until transaction_id 12 []
    submitted ← request_attestation c request
    raw ← wait_for_da_proof c fuel request submitted.round_id
    finish_payment decode submitted request raw

  unfoldable pub finish_swap :
      (Text → Outcome Value) → Submitted → Option DaProof → Task W Act (Option SwapProof)
  finish_swap decode submitted none = pure none
  finish_swap decode submitted (some raw) = do
    response_hex ← lift (text_or_throw raw.response_hex)
    tx ← lift (decode_evm_tx_response decode response_hex)
    pure (some (record { merkle_proof = raw.proof; evm_tx = tx; round_id = submitted.round_id }))

  -- `relaySwapProof`, with `retrieveProof` and the ABI decoder of transactions
  unfoldable pub relay_swap_proof :
      (Text → Outcome Value) → ℕ → Text → Task W Act (Option SwapProof)
  relay_swap_proof decode fuel tx_hash = do
    lift clients_from_env
    p ← prepare_evm_tx_request c tx_hash
    prepared ← lift (object_or_throw p)
    request ← lift (encoded (property (lit "abiEncodedRequest") prepared))
    submitted ← request_attestation c request
    raw ← wait_for_da_proof c fuel request submitted.round_id
    finish_swap decode submitted raw

  abbrev pub given : Option Text → Task W Act Text → Task W Act Text
  given none m = m
  given (some s) m = elim (is_empty s) [ true ↦ m | false ↦ pure s ]

  -- `resolveMasterAccountController`
  unfoldable pub resolve_master_account_controller : Task W Act Text
  resolve_master_account_controller =
      given (c.env (lit "MASTER_ACCOUNT_CONTROLLER"))
        (registry_address c (lit "MasterAccountController"))
