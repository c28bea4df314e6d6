-- ===== src/Relayer/Payment/Shapes.antt =====
-- fdc-payment.ts: `toPaymentProofArg` on each shape in which a decoder may give the data.
use xrpl.Prelude.{◌≡◌, refl, Bool, some}
use xrpl.Js.Text.{Text, lit, same}
use xrpl.Js.Number.{Number}
use xrpl.Js.BigInt.{ℤ}
use xrpl.Js.Outcome.{ok}
use xrpl.Relayer.Abi.{
  Value, text, word, number, flag, struct, done, member, pick, named, position, by_name,
  by_position, Shape, names, positions, both, name_in, has_positions, to_big, to_num, to_bool,
}
use xrpl.Relayer.Payment.{PaymentData, request_body_of, response_body_of, to_payment_proof_arg}

-- The values of an attested payment.
pub record Payment : Type 0 where
  pub attestation_type : Text
  pub source_id : Text
  pub voting_round : ℤ
  pub lowest_used_timestamp : ℤ
  pub transaction_id : Text
  pub in_utxo : ℤ
  pub utxo : ℤ
  pub block_number : ℤ
  pub block_timestamp : ℤ
  pub source_address_hash : Text
  pub source_addresses_root : Text
  pub receiving_address_hash : Text
  pub intended_receiving_address_hash : Text
  pub spent_amount : ℤ
  pub intended_spent_amount : ℤ
  pub received_amount : ℤ
  pub intended_received_amount : ℤ
  pub standard_payment_reference : Text
  pub one_to_one : Bool
  pub status : Number

abbrev request_in : Shape → Payment → Value
request_in s p = struct (has_positions s) (
    member (name_in s (lit "transactionId")) (text p.transaction_id) (
      member (name_in s (lit "inUtxo")) (word p.in_utxo)
        (member (name_in s (lit "utxo")) (word p.utxo) done)))

abbrev response_in : Shape → Payment → Value
response_in s p = struct (has_positions s) (
    member (name_in s (lit "blockNumber")) (word p.block_number) (
      member (name_in s (lit "blockTimestamp")) (word p.block_timestamp) (
        member (name_in s (lit "sourceAddressHash")) (text p.source_address_hash) (
          member (name_in s (lit "sourceAddressesRoot")) (text p.source_addresses_root) (
            member (name_in s (lit "receivingAddressHash")) (text p.receiving_address_hash) (
              member (name_in s (lit "intendedReceivingAddressHash"))
                (text p.intended_receiving_address_hash)
                (member (name_in s (lit "spentAmount")) (word p.spent_amount) (
                  member (name_in s (lit "intendedSpentAmount")) (word p.intended_spent_amount) (
                    member (name_in s (lit "receivedAmount")) (word p.received_amount) (
                      member (name_in s (lit "intendedReceivedAmount"))
                        (word p.intended_received_amount)
                        (member (name_in s (lit "standardPaymentReference"))
                          (text p.standard_payment_reference)
                          (member (name_in s (lit "oneToOne")) (flag p.one_to_one)
                            (member (name_in s (lit "status")) (number p.status) done)))))))))))))

-- The data of a payment as a decoder gives it.
unfoldable pub decoded : Shape → Payment → Value
decoded s p = struct (has_positions s) (
    member (name_in s (lit "attestationType")) (text p.attestation_type) (
      member (name_in s (lit "sourceId")) (text p.source_id) (
        member (name_in s (lit "votingRound")) (word p.voting_round) (
          member (name_in s (lit "lowestUsedTimestamp")) (word p.lowest_used_timestamp) (
            member (name_in s (lit "requestBody")) (request_in s p)
              (member (name_in s (lit "responseBody")) (response_in s p) done))))))

-- The argument of the contract for a payment.
unfoldable pub argument_of : Payment → PaymentData
argument_of p = record {
  attestation_type = some (text p.attestation_type);
  source_id = some (text p.source_id);
  voting_round = p.voting_round;
  lowest_used_timestamp = p.lowest_used_timestamp;
  request_body = record {
    transaction_id = some (text p.transaction_id);
    in_utxo = p.in_utxo;
    utxo = p.utxo;
  };
  response_body = record {
    block_number = p.block_number;
    block_timestamp = p.block_timestamp;
    source_address_hash = some (text p.source_address_hash);
    source_addresses_root = some (text p.source_addresses_root);
    receiving_address_hash = some (text p.receiving_address_hash);
    intended_receiving_address_hash = some (text p.intended_receiving_address_hash);
    spent_amount = p.spent_amount;
    intended_spent_amount = p.intended_spent_amount;
    received_amount = p.received_amount;
    intended_received_amount = p.intended_received_amount;
    standard_payment_reference = some (text p.standard_payment_reference);
    one_to_one = p.one_to_one;
    status = p.status;
  };
}

-- Whether a decoder gives the tuples of a payment with names, with positions or with both, the proof is
-- brought to the same argument, which has every value of the payment in its place.
pub to_payment_proof_arg-decoded :
    (s : Shape) (p : Payment) → to_payment_proof_arg (decoded s p) ≡ ok (argument_of p)
unfolding to_payment_proof_arg request_body_of response_body_of decoded argument_of pick named
    position by_name by_position same to_big to_num to_bool
to_payment_proof_arg-decoded names p = refl
to_payment_proof_arg-decoded positions p = refl
to_payment_proof_arg-decoded both p = refl
