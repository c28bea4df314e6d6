-- ===== src/Relayer/Wire.antt =====
-- scripts/relayer/fdc.ts and fdc-payment.ts: the requests that the verifier prepares (toUtf8Bytes32,
-- prepareEvmTxRequest, preparePaymentRequest).
pub mod Bytes32
use xrpl.Prelude.{
  ℕ, zero, suc, ◌+◌, ◌-◌, ◌*◌, ◌/◌, ◌%◌, Bool, true, false, List, [], ◌∷◌, ◌++◌, Option, none, some,
  ltb, ◌==◌, if◌then◌else◌, length, replicate,
}
use xrpl.Js.Text.{Text, lit, is_empty, starts_with}
use xrpl.Js.Number.Show.{decimal}
use xrpl.Js.Json.{Json, null, bool, num, str, arr, obj, nil, cons, end, field}
use xrpl.Js.Json.Parse.{parse}
use xrpl.Js.Outcome.{Outcome, ok, throw, message, bad_json, or_throw}
use xrpl.Js.Task.{Run, Task, ◌>>=◌, ◌>>◌, pure, raise, perform, catch, lift}
use xrpl.Base.Encoding.{hex_digit}
use xrpl.Relayer.Chain.{Chain, Act, Response, posted}

-- `c.toString(16).padStart(2, "0")` of a code unit
unfoldable pub hex_unit : ℕ → Text
unfolding hex_digit
hex_unit c =
    let low = hex_digit (c / 16 % 16) ∷ hex_digit (c % 16) ∷ [] in
    if ltb c 256
    then low
    else if ltb c 4096
    then hex_digit (c / 256) ∷ low
    else hex_digit (c / 4096) ∷ hex_digit (c / 256 % 16) ∷ low

unfoldable pub hex_units : Text → Text
hex_units [] = []
hex_units (c ∷ s) = hex_unit c ++ hex_units s

-- `toUtf8Bytes32`
unfoldable pub to_utf8_bytes32 : Text → Text
unfolding hex_units
to_utf8_bytes32 s = let hex = hex_units s in lit "0x" ++ hex ++ replicate (64 - length hex) b'0'

-- `url.replace(/\/$/, "")`
unfoldable pub without_slash : Text → Text
without_slash [] = []
without_slash (c ∷ []) = if c == b'/' then [] else c ∷ []
without_slash (c ∷ d ∷ s) = c ∷ without_slash (d ∷ s)

-- `t.startsWith("0x") ? t : "0x" + t`
unfoldable pub with_0x : Text → Text
with_0x t = if starts_with (lit "0x") t then t else lit "0x" ++ t

abbrev pub or_default : Option Text → Text → Text
or_default none t = t
or_default (some s) t = s

-- `s || t`
abbrev pub or_if_empty : Option Text → Text → Text
or_if_empty none t = t
or_if_empty (some s) t = if is_empty s then t else s

-- The body of a request for an attestation of a transaction.
unfoldable pub evm_tx_body : Text → Json
unfolding to_utf8_bytes32
evm_tx_body transaction_hash = obj (
    field (lit "attestationType") (str (to_utf8_bytes32 (lit "EVMTransaction"))) (
      field (lit "sourceId") (str (to_utf8_bytes32 (lit "testFLR"))) (
        field (lit "requestBody")
          (obj (
            field (lit "transactionHash") (str transaction_hash) (
              field (lit "requiredConfirmations") (str (lit "1")) (
                field (lit "provideInput") (bool true) (
                  field (lit "listEvents") (bool true) (field (lit "logIndices") (arr nil) end))))))
          end)))

-- The body of a request for an attestation of a payment; the indices of outputs are not given.
unfoldable pub payment_body : Text → Json
unfolding to_utf8_bytes32 with_0x
payment_body transaction_id = obj (
    field (lit "attestationType") (str (to_utf8_bytes32 (lit "Payment"))) (
      field (lit "sourceId") (str (to_utf8_bytes32 (lit "testXRP"))) (
        field (lit "requestBody")
          (obj (
            field (lit "transactionId") (str (with_0x transaction_id))
              (field (lit "inUtxo") (str (lit "0")) (field (lit "utxo") (str (lit "0")) end))))
          end)))

module _ {W : Type 0} (c : Chain W) where
  abbrev pub verifier_base : Text
  verifier_base = without_slash (
      or_default (c.env (lit "FDC_VERIFIER_URL"))
        (lit "https://fdc-verifiers-testnet.flare.network"))

  abbrev pub api_key : Text
  api_key =
      or_if_empty (c.env (lit "FDC_VERIFIER_API_KEY")) (lit "00000000-0000-0000-0000-000000000000")

  abbrev pub post : Text → Option Text → Json → Task W Act Response
  post url key body = perform (λ _. posted url body) (c.post url key body)

  -- `prepareEvmTxRequest`
  unfoldable pub prepare_evm_tx_request : Text → Task W Act Json
  prepare_evm_tx_request transaction_hash = do
    res ←
        post (verifier_base ++ lit "/verifier/flr/EVMTransaction/prepareRequest") (some api_key)
          (evm_tx_body transaction_hash)
    elim res.is_ok [
      | true ↦ lift (or_throw bad_json (parse res.body))
      | false ↦ raise (
          message (
            lit "prepareRequest failed "
            ++ decimal res.status
            ++ lit " "
            ++ res.status_text
            ++ lit ": "
            ++ res.body))
    ]

  -- `preparePaymentRequest` of a transaction
  unfoldable pub prepare_payment_request : Text → Task W Act Json
  prepare_payment_request transaction_id = do
    res ←
        post (verifier_base ++ lit "/verifier/xrp/Payment/prepareRequest") (some api_key)
          (payment_body transaction_id)
    elim res.is_ok [
      | true ↦ lift (or_throw bad_json (parse res.body))
      | false ↦ raise (
          message
            (lit "Payment prepareRequest failed " ++ decimal res.status ++ lit ": " ++ res.body))
    ]
