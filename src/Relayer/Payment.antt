-- ===== src/Relayer/Payment.antt =====
-- scripts/relayer/fdc-payment.ts: an XRPL payment is attested (decodePaymentResponse,
-- attestXrplPayment, resolveMasterAccountController), and its proof brought to the shape that the
-- contract takes (toPaymentProofArg).
pub mod Shapes
use xrpl.Prelude.{
  ℕ, zero, suc, Bool, true, false, List, [], ◌∷◌, ◌++◌, Option, none, some, drop, if◌then◌else◌,
}
use xrpl.Js.Text.{Text, lit, is_empty}
use xrpl.Js.Number.{Number, of_ℕ}
use xrpl.Js.BigInt.{ℤ}
use xrpl.Js.Json.{Json, str, property, is_null}
use xrpl.Js.Json.Print.{stringify}
use xrpl.Js.Outcome.{Outcome, ok, throw, message, external, bad_access, ◌>>=◌}
use xrpl.Base.Server.{truthy}
use xrpl.Relayer.Abi.{Value, word, number, struct, done, pick, or_value, to_big, to_num, to_bool}

-- `data` of a payment proof, as the contract takes it; `none` is `undefined`.
pub record RequestBody : Type 0 where
  pub transaction_id : Option Value
  pub in_utxo : ℤ
  pub utxo : ℤ

pub record ResponseBody : Type 0 where
  pub block_number : ℤ
  pub block_timestamp : ℤ
  pub source_address_hash : Option Value
  pub source_addresses_root : Option Value
  pub receiving_address_hash : Option Value
  pub intended_receiving_address_hash : Option Value
  pub spent_amount : ℤ
  pub intended_spent_amount : ℤ
  pub received_amount : ℤ
  pub intended_received_amount : ℤ
  pub standard_payment_reference : Option Value
  pub one_to_one : Bool
  pub status : Number

pub record PaymentData : Type 0 where
  pub attestation_type : Option Value
  pub source_id : Option Value
  pub voting_round : ℤ
  pub lowest_used_timestamp : ℤ
  pub request_body : RequestBody
  pub response_body : ResponseBody

abbrev zero_number : Value
zero_number = number (of_ℕ 0)

-- `BigInt(pick(v, key, i) ?? 0)`
abbrev big_at : Value → Text → ℕ → Outcome ℤ
big_at v key i = to_big (or_value (pick (some v) key i) zero_number)

unfoldable pub request_body_of : Value → Outcome RequestBody
request_body_of rb = do
  in_utxo ← big_at rb (lit "inUtxo") 1
  utxo ← big_at rb (lit "utxo") 2
  ok (record {
    transaction_id = pick (some rb) (lit "transactionId") 0;
    in_utxo = in_utxo;
    utxo = utxo;
  })

unfoldable pub response_body_of : Value → Outcome ResponseBody
response_body_of body = do
  block_number ← big_at body (lit "blockNumber") 0
  block_timestamp ← big_at body (lit "blockTimestamp") 1
  spent ← big_at body (lit "spentAmount") 6
  intended_spent ← big_at body (lit "intendedSpentAmount") 7
  received ← big_at body (lit "receivedAmount") 8
  intended_received ← big_at body (lit "intendedReceivedAmount") 9
  ok (record {
    block_number = block_number;
    block_timestamp = block_timestamp;
    source_address_hash = pick (some body) (lit "sourceAddressHash") 2;
    source_addresses_root = pick (some body) (lit "sourceAddressesRoot") 3;
    receiving_address_hash = pick (some body) (lit "receivingAddressHash") 4;
    intended_receiving_address_hash = pick (some body) (lit "intendedReceivingAddressHash") 5;
    spent_amount = spent;
    intended_spent_amount = intended_spent;
    received_amount = received;
    intended_received_amount = intended_received;
    standard_payment_reference = pick (some body) (lit "standardPaymentReference") 10;
    one_to_one = to_bool (pick (some body) (lit "oneToOne") 11);
    status = to_num (some (or_value (pick (some body) (lit "status") 12) zero_number));
  })

-- `toPaymentProofArg`, of the decoded data; the Merkle proof is passed on as it is.
unfoldable pub to_payment_proof_arg : Value → Outcome PaymentData
unfolding request_body_of response_body_of
to_payment_proof_arg v = do
  let rb = or_value (pick (some v) (lit "requestBody") 4) (struct false done)
  let body = or_value (pick (some v) (lit "responseBody") 5) (struct false done)
  voting_round ← big_at v (lit "votingRound") 2
  lowest ← big_at v (lit "lowestUsedTimestamp") 3
  request_body ← request_body_of rb
  response_body ← response_body_of body
  ok (record {
    attestation_type = pick (some v) (lit "attestationType") 0;
    source_id = pick (some v) (lit "sourceId") 1;
    voting_round = voting_round;
    lowest_used_timestamp = lowest;
    request_body = request_body;
    response_body = response_body;
  })
