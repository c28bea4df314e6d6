-- ===== src/Relayer/EvmTx.antt =====
-- scripts/relayer/fdc.ts: the response of an attested transaction (decodeEvmTxResponse), and the
-- decoding of both kinds of responses, with the retry past a leading word.
pub mod Shapes
use xrpl.Prelude.{
  ℕ, zero, suc, Bool, true, false, List, [], ◌∷◌, ◌++◌, Option, none, some, drop, if◌then◌else◌,
  map,
}
use xrpl.Js.Text.{Text, lit}
use xrpl.Js.Number.{Number, of_ℕ}
use xrpl.Js.BigInt.{ℤ}
use xrpl.Js.Outcome.{Outcome, ok, throw, Thrown, bad_access, ◌>>=◌}
use xrpl.Relayer.Abi.{
  Value, null, text, word, number, flag, struct, Members, done, member, named, position, to_num,
  to_bool, as_hex, as_big,
}
use xrpl.Relayer.Wire.{with_0x}

abbrev retry : Outcome Value → Outcome Value → Outcome Value
retry (ok v) other = ok v
retry (throw e) other = other

-- `decode(hex)`, and where that throws, `decode` without the first word; `decode` is the ABI decoder
-- with the type of the response.
unfoldable pub decode_response : (Text → Outcome Value) → Text → Outcome Value
decode_response decode response_hex =
    let hex = with_0x response_hex in retry (decode hex) (decode (lit "0x" ++ drop 66 hex))

-- `a ?? b`
abbrev pub coalesce : Option Value → Option Value → Option Value
coalesce none other = other
coalesce (some null) other = other
coalesce (some v) other = some v

-- `v.key ?? v[i]`
unfoldable pub member_of : Value → Text → ℕ → Option Value
member_of v key i = coalesce (named key v) (position i v)

-- A value whose members can be read.
unfoldable pub readable : Option Value → Outcome Value
readable none = throw bad_access
readable (some null) = throw bad_access
readable (some v) = ok v

abbrev values : Members → List Value
values done = []
values (member name v ms) = v ∷ values ms

-- `[...(v ?? [])]`; a text is spread by code units.
unfoldable pub spread : Option Value → Outcome (List Value)
spread none = ok []
spread (some null) = ok []
spread (some (struct true ms)) = ok (values ms)
spread (some (struct false ms)) = throw bad_access
spread (some (text s)) = ok (map (λ c. text (c ∷ [])) s)
spread (some (word _)) = throw bad_access
spread (some (number _)) = throw bad_access
spread (some (flag _)) = throw bad_access

-- `Number(v ?? d)`
abbrev number_or : Option Value → ℕ → Number
number_or v d = to_num (coalesce v (some (number (of_ℕ d))))

pub record Event : Type 0 where
  pub log_index : Number
  pub emitter_address : Option Value
  pub topics : List Value
  pub event_data : Text
  pub removed : Bool

pub record Request : Type 0 where
  pub transaction_hash : Text
  pub required_confirmations : Number
  pub provide_input : Bool
  pub list_events : Bool
  pub log_indices : List Number

pub record Body : Type 0 where
  pub block_number : ℤ
  pub timestamp : ℤ
  pub source_address : Option Value
  pub is_deployment : Bool
  pub receiving_address : Option Value
  pub value : ℤ
  pub input : Text
  pub status : Number
  pub events : List Event

pub record EvmTx : Type 0 where
  pub attestation_type : Text
  pub source_id : Text
  pub voting_round : ℤ
  pub lowest_used_timestamp : ℤ
  pub request_body : Request
  pub response_body : Body

unfoldable pub event_of : Value → Outcome Event
event_of v = do
  ev ← readable (some v)
  topics ← spread (member_of ev (lit "topics") 2)
  ok (record {
    log_index = number_or (member_of ev (lit "logIndex") 0) 0;
    emitter_address = member_of ev (lit "emitterAddress") 1;
    topics = topics;
    event_data = as_hex (member_of ev (lit "data") 3);
    removed = to_bool (member_of ev (lit "removed") 4);
  })

unfoldable pub events_of : List Value → Outcome (List Event)
unfolding event_of
events_of [] = ok []
events_of (v ∷ vs) = do ev ← event_of v; evs ← events_of vs; ok (ev ∷ evs)

unfoldable pub evm_request_of : Value → Outcome Request
evm_request_of rb = do
  indices ← spread (member_of rb (lit "logIndices") 4)
  ok (record {
    transaction_hash = as_hex (member_of rb (lit "transactionHash") 0);
    required_confirmations = number_or (member_of rb (lit "requiredConfirmations") 1) 1;
    provide_input = to_bool (member_of rb (lit "provideInput") 2);
    list_events = to_bool (member_of rb (lit "listEvents") 3);
    log_indices = map (λ n. to_num (some n)) indices;
  })

unfoldable pub evm_body_of : Value → List Event → Outcome Body
evm_body_of body events = do
  block_number ← as_big (member_of body (lit "blockNumber") 0)
  timestamp ← as_big (member_of body (lit "timestamp") 1)
  value ← as_big (member_of body (lit "value") 5)
  ok (record {
    block_number = block_number;
    timestamp = timestamp;
    source_address = member_of body (lit "sourceAddress") 2;
    is_deployment = to_bool (member_of body (lit "isDeployment") 3);
    receiving_address = member_of body (lit "receivingAddress") 4;
    value = value;
    input = as_hex (member_of body (lit "input") 6);
    status = number_or (member_of body (lit "status") 7) 0;
    events = events;
  })

-- `decodeEvmTxResponse`, behind the decoder
unfoldable pub evm_tx_of : Value → Outcome EvmTx
unfolding evm_request_of evm_body_of events_of
evm_tx_of v = do
  raw ← readable (some v)
  body ← readable (member_of raw (lit "responseBody") 5)
  listed ← spread (member_of body (lit "events") 8)
  events ← events_of listed
  voting_round ← as_big (member_of raw (lit "votingRound") 2)
  lowest ← as_big (member_of raw (lit "lowestUsedTimestamp") 3)
  rb ← readable (member_of raw (lit "requestBody") 4)
  request_body ← evm_request_of rb
  response_body ← evm_body_of body events
  ok (record {
    attestation_type = as_hex (member_of raw (lit "attestationType") 0);
    source_id = as_hex (member_of raw (lit "sourceId") 1);
    voting_round = voting_round;
    lowest_used_timestamp = lowest;
    request_body = request_body;
    response_body = response_body;
  })

unfoldable pub decode_evm_tx_response : (Text → Outcome Value) → Text → Outcome EvmTx
decode_evm_tx_response decode response_hex = do
  raw ← decode_response decode response_hex
  evm_tx_of raw
