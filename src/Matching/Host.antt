-- ===== src/Matching/Host.antt =====
-- What the handlers call outside the repository: the environment, the clock, the package `viem` with
-- the chain behind it, and the tee-node. Each is an argument of the handlers that call it.
use xrpl.Prelude.{ℕ, Option, List}
use xrpl.Js.Text.{Text}
use xrpl.Js.Utf8.{Bytes}
use xrpl.Js.BigInt.{ℤ}
use xrpl.Js.Outcome.{Outcome}
use xrpl.Js.Json.{Json}

-- The contract calls that the handlers encode, with their arguments.
pub data Call : Type 0 where
  swap_exact_tokens_for_tokens :
      (amount_in amount_out_min : ℤ) → (path : List Text) → (to : Text) → (deadline : ℕ) → Call
  exact_input_single :
      (token_in token_out : Text)
      → (fee : ℕ) → (recipient : Text) → (deadline : ℕ) → (amount_in amount_out_minimum : ℤ)
      → (sqrt_price_limit : ℕ) → Call
  open_cdp : (collateral_amount mint_amount : ℤ) → Call
  deposit : (assets : ℤ) → Call
  supply : (amount : ℤ) → Call

-- The view calls that the swap handler makes through a client of one RPC URL.
pub record Chain : Type 0 where
  -- `getContractAddressByName(name)` of the registry at an address
  pub contract_address : Text → Text → Outcome Text
  -- `getFeedByIdInWei(id)` of the oracle at an address: the value and its time
  pub feed : Text → Text → Outcome (ℕ × ℕ)
  -- `fAsset()` of the asset manager at an address
  pub f_asset : Text → Outcome Text

pub record Host : Type 0 where
  -- `process.env[name]`
  pub env : Text → Option Text
  -- `Math.floor(Date.now() / 1000)`
  pub now : ℕ
  -- `getAddress`: the checksummed address, or an error
  pub get_address : Text → Outcome Text
  -- `getAddress` of a value that nothing has checked to be a text; `none` is `undefined`
  pub get_address_of : Option Json → Outcome Text
  -- `encodeFunctionData`: an error if an argument does not fit its type
  pub encode_call : Call → Outcome Text
  -- `decodeSayGoodbye` in abi.ts, over `decodeAbiParameters`: the name and the reason
  pub decode_goodbye : Text → Outcome (Text × Text)
  -- `new NodeClient(port).decrypt(ciphertext)`
  pub decrypt : Text → Bytes → Outcome Bytes
  -- `new URLSearchParams(query).get("lead")`
  pub query_lead : Text → Option Text
  -- the client of an RPC URL
  pub chain : Text → Chain
