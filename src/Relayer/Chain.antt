-- ===== src/Relayer/Chain.antt =====
-- scripts/relayer: the client of the chain (viem) and the services that the relayers post to, as
-- parameters, with what is recorded of each call.
use xrpl.Prelude.{ℕ, Bool, List, Option}
use xrpl.Js.Text.{Text}
use xrpl.Js.Json.{Json}
use xrpl.Js.BigInt.{ℤ}
use xrpl.Js.Outcome.{Outcome}
use xrpl.Relayer.Payment.{PaymentData}

-- An argument of a contract function.
pub data Arg : Type 0 where
  text_arg : Text → Arg
  big_arg : ℤ → Arg

-- `none` is `undefined`.
pub record Fees : Type 0 where
  pub max_fee_per_gas : Option ℕ
  pub max_priority_fee_per_gas : Option ℕ

pub record Transaction : Type 0 where
  pub address : Text
  pub function_name : Text
  pub args : List Arg
  pub value : ℕ
  pub gas : ℕ
  pub nonce : ℕ
  pub max_fee_per_gas : ℕ
  pub max_priority_fee_per_gas : ℕ

pub record Receipt : Type 0 where
  pub status : Text
  pub block_number : ℕ

pub record Response : Type 0 where
  pub is_ok : Bool
  pub status : ℕ
  pub status_text : Text
  pub body : Text

-- The account that signs and its clients, on a world of the type `W`.
pub record Chain (W : Type 0) : Type 0 where
  pub account : Text
  -- `readContract`, by the type of what the function returns
  pub read_text : Text → Text → List Arg → W → Outcome Text × W
  pub read_uint : Text → Text → List Arg → W → Outcome ℕ × W
  pub read_bool : Text → Text → List Arg → W → Outcome Bool × W
  -- `getTransactionCount`, of an address at a block tag
  pub transaction_count : Text → Text → W → Outcome ℕ × W
  pub estimate_fees : W → Outcome Fees × W
  -- `writeContract`
  pub write_contract : Transaction → W → Outcome Text × W
  -- `waitForTransactionReceipt`
  pub receipt_of : Text → W → Outcome Receipt × W
  -- the timestamp of `getBlock`
  pub block_timestamp : ℕ → W → Outcome ℕ × W
  -- `fetch` with POST, JSON headers and the API key, if one is sent
  pub post : Text → Option Text → Json → W → Outcome Response × W
  -- `fetch` with GET and the key of CoinGecko, if one is sent
  pub get : Text → Option Text → W → Outcome Response × W
  -- `Date.now()`
  pub now : W → Outcome ℕ × W
  -- a `setTimeout` of so many milliseconds
  pub sleep : ℕ → W → Outcome (Unit {0}) × W
  pub env : Text → Option Text

-- A call of `executeInstruction`: the data and the Merkle proof of a payment, and who it pays for.
pub record Execution : Type 0 where
  pub address : Text
  pub payment : PaymentData
  pub merkle_proof : List Json
  pub xrpl_address : Text
  pub value : ℕ
  pub gas : ℕ

-- An error of a simulation: the `data` of it and of its causes, outermost first, where that is a text,
-- and its messages.
pub record Failure : Type 0 where
  pub data_of_causes : List (Option Text)
  pub short_message : Option Text
  pub long_message : Option Text

-- What was called, and what came of it.
pub data Act : Type 0 where
  read : Text → Text → Act
  counted : Text → Outcome ℕ → Act
  estimated : Outcome Fees → Act
  wrote : Transaction → Outcome Text → Act
  awaited : Text → Outcome Receipt → Act
  asked_block : ℕ → Act
  posted : Text → Json → Act
  fetched : Text → Act
  looked_at_clock : Act
  slept : ℕ → Act
  -- a simulation, with the error that it failed with, if it failed
  simulated : Execution → Outcome (Option Failure) → Act
  executed : Execution → Outcome Text → Act
