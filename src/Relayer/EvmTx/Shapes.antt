-- ===== src/Relayer/EvmTx/Shapes.antt =====
-- fdc.ts: `decodeEvmTxResponse` on each shape that the ABI decoder may give.
use xrpl.Prelude.{
  ◌≡◌, refl, ap, ◌⊎◌, inl, inr, Bool, true, List, [], ◌∷◌, ◌++◌, map, none, some, drop,
}
use xrpl.Js.Text.{Text, lit, same, starts_with}
use xrpl.Js.BigInt.{ℤ, number_of}
use xrpl.Js.Outcome.{Outcome, ok, throw, Thrown}
use xrpl.Relayer.Abi.{
  Value, text, word, flag, struct, Members, done, member, named, position, by_name, by_position,
  Shape, names, positions, both, name_in, has_positions, to_num, to_bool, as_hex, as_big,
}
use xrpl.Relayer.Wire.{with_0x}
use xrpl.Relayer.EvmTx.{
  decode_response, member_of, readable, spread, Event, EvmTx, event_of, events_of, evm_request_of,
  evm_body_of, evm_tx_of, decode_evm_tx_response, values,
}

-- A log as it stands on the chain; texts are hex with their `0x`.
pub record Log : Type 0 where
  pub log_index : ℤ
  pub emitter : Text
  pub topics : List Text
  pub log_data : Text
  pub removed : Bool

-- A transaction as it stands on the chain.
pub record Tx : Type 0 where
  pub attestation_type : Text
  pub source_id : Text
  pub voting_round : ℤ
  pub lowest_used_timestamp : ℤ
  pub transaction_hash : Text
  pub required_confirmations : ℤ
  pub provide_input : Bool
  pub list_events : Bool
  pub log_indices : List ℤ
  pub block_number : ℤ
  pub timestamp : ℤ
  pub source_address : Text
  pub is_deployment : Bool
  pub receiving_address : Text
  pub value : ℤ
  pub input : Text
  pub status : ℤ
  pub logs : List Log

-- A list has positions in every shape.
abbrev listed : List Value → Members
listed [] = done
listed (v ∷ vs) = member none v (listed vs)

abbrev log_in : Shape → Log → Value
log_in s l = struct (has_positions s) (
    member (name_in s (lit "logIndex")) (word l.log_index) (
      member (name_in s (lit "emitterAddress")) (text (lit "0x" ++ l.emitter)) (
        member (name_in s (lit "topics")) (struct true (listed (map text l.topics))) (
          member (name_in s (lit "data")) (text (lit "0x" ++ l.log_data))
            (member (name_in s (lit "removed")) (flag l.removed) done)))))

abbrev tx_request_in : Shape → Tx → Value
tx_request_in s t = struct (has_positions s) (
    member (name_in s (lit "transactionHash")) (text (lit "0x" ++ t.transaction_hash)) (
      member (name_in s (lit "requiredConfirmations")) (word t.required_confirmations) (
        member (name_in s (lit "provideInput")) (flag t.provide_input) (
          member (name_in s (lit "listEvents")) (flag t.list_events) (
            member (name_in s (lit "logIndices")) (struct true (listed (map word t.log_indices)))
              done)))))

abbrev tx_body_in : Shape → Tx → Value
tx_body_in s t = struct (has_positions s) (
    member (name_in s (lit "blockNumber")) (word t.block_number) (
      member (name_in s (lit "timestamp")) (word t.timestamp) (
        member (name_in s (lit "sourceAddress")) (text t.source_address) (
          member (name_in s (lit "isDeployment")) (flag t.is_deployment) (
            member (name_in s (lit "receivingAddress")) (text t.receiving_address) (
              member (name_in s (lit "value")) (word t.value) (
                member (name_in s (lit "input")) (text (lit "0x" ++ t.input)) (
                  member (name_in s (lit "status")) (word t.status) (
                    member (name_in s (lit "events")) (struct true (listed (map (log_in s) t.logs)))
                      done)))))))))

unfoldable pub tx_in : Shape → Tx → Value
tx_in s t = struct (has_positions s) (
    member (name_in s (lit "attestationType")) (text (lit "0x" ++ t.attestation_type)) (
      member (name_in s (lit "sourceId")) (text (lit "0x" ++ t.source_id)) (
        member (name_in s (lit "votingRound")) (word t.voting_round) (
          member (name_in s (lit "lowestUsedTimestamp")) (word t.lowest_used_timestamp) (
            member (name_in s (lit "requestBody")) (tx_request_in s t)
              (member (name_in s (lit "responseBody")) (tx_body_in s t) done))))))

abbrev event_for : Log → Event
event_for l = record {
  log_index = number_of l.log_index;
  emitter_address = some (text (lit "0x" ++ l.emitter));
  topics = map text l.topics;
  event_data = lit "0x" ++ l.log_data;
  removed = l.removed;
}

-- What the relayer passes on of a transaction.
unfoldable pub passed_on : Tx → EvmTx
passed_on t = record {
  attestation_type = lit "0x" ++ t.attestation_type;
  source_id = lit "0x" ++ t.source_id;
  voting_round = t.voting_round;
  lowest_used_timestamp = t.lowest_used_timestamp;
  request_body = record {
    transaction_hash = lit "0x" ++ t.transaction_hash;
    required_confirmations = number_of t.required_confirmations;
    provide_input = t.provide_input;
    list_events = t.list_events;
    log_indices = map number_of t.log_indices;
  };
  response_body = record {
    block_number = t.block_number;
    timestamp = t.timestamp;
    source_address = some (text t.source_address);
    is_deployment = t.is_deployment;
    receiving_address = some (text t.receiving_address);
    value = t.value;
    input = lit "0x" ++ t.input;
    status = number_of t.status;
    events = map event_for t.logs;
  };
}

values-listed : (vs : List Value) → values (listed vs) ≡ vs
values-listed [] = refl
values-listed (v ∷ vs) = ap (λ ws. v ∷ ws) (values-listed vs)

numbers-words : (ns : List ℤ) → map (λ n. to_num (some n)) (map word ns) ≡ map number_of ns
unfolding to_num
numbers-words [] = refl
numbers-words (n ∷ ns) = ap (λ ms. number_of n ∷ ms) (numbers-words ns)

event_of-log : (s : Shape) (l : Log) → event_of (log_in s l) ≡ ok (event_for l)
unfolding event_of readable member_of named position by_name by_position same spread as_hex to_num
    to_bool starts_with
event_of-log names l = rw (values-listed (map text l.topics)) refl
event_of-log positions l = rw (values-listed (map text l.topics)) refl
event_of-log both l = rw (values-listed (map text l.topics)) refl

events_of-logs : (s : Shape) (ls : List Log) → events_of (map (log_in s) ls) ≡ ok (map event_for ls)
unfolding events_of
events_of-logs s [] = refl
events_of-logs s (l ∷ ls) = rw (event_of-log s l, events_of-logs s ls) refl

evm_tx_of-tx : (s : Shape) (t : Tx) → evm_tx_of (tx_in s t) ≡ ok (passed_on t)
unfolding evm_tx_of evm_request_of evm_body_of tx_in passed_on readable member_of named position
    by_name by_position same spread as_hex as_big to_num to_bool starts_with
evm_tx_of-tx names t =
    rw
      (
        values-listed (map (log_in names) t.logs),
        events_of-logs names t.logs,
        values-listed (map word t.log_indices),
        numbers-words t.log_indices,
      )
      refl
evm_tx_of-tx positions t =
    rw
      (
        values-listed (map (log_in positions) t.logs),
        events_of-logs positions t.logs,
        values-listed (map word t.log_indices),
        numbers-words t.log_indices,
      )
      refl
evm_tx_of-tx both t =
    rw
      (
        values-listed (map (log_in both) t.logs),
        events_of-logs both t.logs,
        values-listed (map word t.log_indices),
        numbers-words t.log_indices,
      )
      refl

-- Where the decoder reads the response as a transaction, in any shape, or throws on it and reads it
-- so without its first word, the relayer passes on every value of the transaction.
pub decode_evm_tx_response-tx :
    (decode : Text → Outcome Value) (hex : Text) (s : Shape) (t : Tx)
    → (decode (with_0x hex) ≡ ok (tx_in s t))
      ⊎ ((e : Thrown) × (decode (with_0x hex) ≡ throw e)
          × (decode (lit "0x" ++ drop 66 (with_0x hex)) ≡ ok (tx_in s t)))
    → decode_evm_tx_response decode hex ≡ ok (passed_on t)
unfolding decode_evm_tx_response decode_response
decode_evm_tx_response-tx decode hex s t (inl whole) = rw whole (evm_tx_of-tx s t)
decode_evm_tx_response-tx decode hex s t (inr (e, thrown, rest)) =
    rw (thrown, rest) (evm_tx_of-tx s t)
