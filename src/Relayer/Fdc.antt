-- ===== src/Relayer/Fdc.antt =====
-- scripts/relayer/fdc.ts: an attestation request is sent to the hub of the chain (registryAddress,
-- isNonceRace, waitForPendingNonce, requestAttestation).
pub mod Bounds
pub mod Bids
pub mod Settled
pub mod Gate
use xrpl.Prelude.{
  ℕ, zero, suc, ◌+◌, ◌-◌, ◌*◌, ◌/◌, Bool, true, false, not, ◌&&◌, ◌||◌, List, [], ◌∷◌, ◌++◌, Option,
  none, some, ltb, leb, ◌==◌, if◌then◌else◌,
}
use xrpl.Js.Text.{Text, lit, same, is_empty, includes, to_lower_case}
use xrpl.Js.Number.{Number, of_ℕ}
use xrpl.Js.BigInt.{ℤ, pos, minus, over, number_of}
use xrpl.Js.Outcome.{Outcome, ok, throw, Thrown, message, external, bad_integer}
use xrpl.Js.Task.{Run, Task, ◌>>=◌, ◌>>◌, pure, raise, perform, catch, lift}
use xrpl.Relayer.Chain.{
  Chain, Act, Arg, text_arg, Fees, Transaction, Receipt, read, counted, estimated, wrote, awaited,
  asked_block, slept,
}

abbrev flare_registry : Text
flare_registry = lit "0xaD67FE66660Fb8dFE9d6b1b4240d8650e30F6019"

-- `${err.message} ${err.cause ?? ""}`; the text of an external error has its cause in it.
abbrev said : Thrown → Text
said (message t) = t ++ lit " "
said (external t) = t
said _ = []

-- `isNonceRace`
unfoldable pub is_nonce_race : Thrown → Bool
is_nonce_race e =
    let text = to_lower_case (said e) in
    includes (lit "replacement transaction underpriced") text
    || includes (lit "nonce too low") text
    || includes (lit "already known") text
    || includes (lit "replacement underpriced") text

abbrev or_value : Option ℕ → ℕ → ℕ
or_value none n = n
or_value (some m) n = m

-- What a transaction offers for its gas.
pub record Bid : Type 0 where
  pub fee : ℕ
  pub priority : ℕ

-- The bid of the first attempt: twice the estimate.
unfoldable pub first_bid : Fees → Bid
first_bid fees =
    let priority = or_value fees.max_priority_fee_per_gas 2000000000 * 2 in
    let fee = or_value fees.max_fee_per_gas 50000000000 * 2 in
    record { fee = if ltb fee priority then priority * 2 else fee; priority = priority }

-- The bid of the next attempt.
unfoldable pub bump : Bid → Bid
bump b = record { fee = b.fee * 15 / 10; priority = b.priority * 15 / 10 }

pub record Submitted : Type 0 where
  pub hash : Text
  pub round_id : Number
  pub fee : ℕ

-- The transaction that asks for an attestation.
unfoldable pub request_of : Text → Text → ℕ → Bid → ℕ → Transaction
request_of hub request fee bid nonce = record {
  address = hub;
  function_name = lit "requestAttestation";
  args = text_arg request ∷ [];
  value = fee;
  gas = 1000000;
  nonce = nonce;
  max_fee_per_gas = bid.fee;
  max_priority_fee_per_gas = bid.priority;
}

-- `(timestamp - first) / duration`, with the RangeError of a division by zero
unfoldable pub round_of : ℕ → ℕ → ℕ → Outcome Number
round_of timestamp first duration =
    if duration == 0
    then throw bad_integer
    else ok (number_of (over (minus (pos timestamp) (pos first)) duration))

module _ {W : Type 0} (c : Chain W) where
  -- `registryAddress`
  unfoldable pub registry_address : Text → Task W Act Text
  registry_address name =
      perform (λ _. read flare_registry name)
        (c.read_text flare_registry (lit "getContractAddressByName") (text_arg name ∷ []))

  unfoldable pub count_transactions : Text → Task W Act ℕ
  count_transactions tag = perform (counted tag) (c.transaction_count c.account tag)

  unfoldable pub pause : ℕ → Task W Act (Unit {0})
  pause ms = perform (λ _. slept ms) (c.sleep ms)

  -- The loop of `waitForPendingNonce`, with the number of rounds that are left.
  unfoldable pub wait_for_nonce : ℕ → Task W Act (Unit {0})
  wait_for_nonce zero = raise (
      message (
        lit "deployer "
        ++ c.account
        ++ lit " still has pending txs after 2m "
        ++ 0x2014 ∷ lit " not sending a replacement"))
  wait_for_nonce (suc n) = do
    latest ← count_transactions (lit "latest")
    pending ← count_transactions (lit "pending")
    elim (leb pending latest) [ true ↦ pure tt | false ↦ pause 3000 >> wait_for_nonce n ]

  abbrev pub wait_for_pending_nonce : Task W Act (Unit {0})
  wait_for_pending_nonce = wait_for_nonce 40

  -- One attempt: the body of `try`.
  unfoldable pub attempt : Text → Text → ℕ → Bid → Task W Act (Option Text)
  attempt hub request fee bid = do
    nonce ← count_transactions (lit "pending")
    let tx = request_of hub request fee bid nonce
    hash ← perform (wrote tx) (c.write_contract tx)
    pure (some hash)

  -- The loop of attempts, with the number that is left.
  unfoldable pub submit : Text → Text → ℕ → ℕ → Bid → Task W Act (Option Text)
  submit hub request fee zero bid = pure none
  submit hub request fee (suc n) bid = catch (attempt hub request fee bid) λ e.
      elim (not (is_nonce_race e) || (n == 0)) [
        | true ↦ raise e
        | false ↦ wait_for_pending_nonce >> submit hub request fee n (bump bid)
      ]

  abbrev default_fees : Fees
  default_fees = record {
    max_fee_per_gas = some 50000000000;
    max_priority_fee_per_gas = some 2000000000;
  }

  unfoldable pub estimate : Task W Act Fees
  estimate = catch (perform estimated c.estimate_fees) λ _. pure default_fees

  abbrev pub hash_or_raise : Option Text → Task W Act Text
  hash_or_raise none = raise (message (lit "requestAttestation did not submit"))
  hash_or_raise (some hash) = elim (is_empty hash) [
    | true ↦ raise (message (lit "requestAttestation did not submit"))
    | false ↦ pure hash
  ]

  unfoldable pub send_request : Text → Task W Act (Text × ℕ)
  send_request request = do
    hub ← registry_address (lit "FdcHub")
    fee_cfg ← registry_address (lit "FdcRequestFeeConfigurations")
    fee ←
        perform (λ _. read fee_cfg (lit "getRequestFee"))
          (c.read_uint fee_cfg (lit "getRequestFee") (text_arg request ∷ []))
    wait_for_pending_nonce
    fees ← estimate
    sent ← submit hub request fee 5 (first_bid fees)
    hash ← hash_or_raise sent
    pure (hash, fee)

  unfoldable pub system_uint : Text → Text → Task W Act ℕ
  system_uint systems name = perform (λ _. read systems name) (c.read_uint systems name [])

  -- The round of a transaction, once its receipt is there.
  unfoldable pub settle_round : Text → Task W Act Number
  settle_round hash = do
    receipt ← perform (awaited hash) (c.receipt_of hash)
    elim (same receipt.status (lit "success")) [
      | false ↦ raise (message (lit "requestAttestation reverted tx=" ++ hash))
      | true ↦ do
        timestamp ←
            perform (λ _. asked_block receipt.block_number) (c.block_timestamp receipt.block_number)
        systems ← registry_address (lit "FlareSystemsManager")
        first ← system_uint systems (lit "firstVotingRoundStartTs")
        duration ← system_uint systems (lit "votingEpochDurationSeconds")
        lift (round_of timestamp first duration)
    ]

  -- `run` of `requestAttestation`
  unfoldable pub request_attestation : Text → Task W Act Submitted
  request_attestation request = do
    sent ← send_request request
    round_id ← settle_round sent.0
    pure (record { hash = sent.0; round_id = round_id; fee = sent.1 })
