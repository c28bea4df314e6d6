-- ===== src/Agent/Host.antt =====
-- What the handlers of the agent call outside the repository: the environment, the clock, the ABI decoder
-- and the matching engine's outcome log over HTTP.
use xrpl.Prelude.{ℕ, Bool, List, Option}
use xrpl.Js.Text.{Text}
use xrpl.Js.Number.{Number}
use xrpl.Js.Json.{Json}
use xrpl.Js.Outcome.{Outcome}

-- An answer: whether its status is one of success, the status, and the events of its JSON body.
pub record Response : Type 0 where
  pub is_ok : Bool
  pub status : ℕ
  pub events : Outcome (Option (List Json))

pub record AgentHost : Type 0 where
  -- `process.env[name]`
  pub env : Text → Option Text
  -- `Math.floor(Date.now() / 1000)`
  pub now : Number
  -- `decodeSayGoodbye` in abi.ts, over `decodeAbiParameters`
  pub decode_goodbye : Text → Outcome (Text × Text)
  -- `fetch` of the outcome log of a lead: the base URL, the token and the lead
  pub get_log : Text → Text → Text → Outcome Response
