-- ===== src/Matching/TopUp.antt =====
-- fce-matching-engine/typescript/src/app/handlers.ts, `handleMirrorTopUpV1`.
pub mod Answers
pub mod Ends
use xrpl.Prelude.{Bool, true, false, ◌&&◌, ◌||◌, not, [], Option, none, some}
use xrpl.Js.Text.{Text, lit, starts_with}
use xrpl.Js.Utf8.{decode}
use xrpl.Js.BigInt.{ℤ, sign, big_int_of_text, is_zero, big_text}
use xrpl.Js.Outcome.{Outcome, ok, throw, or_throw, bad_access, bad_json}
use xrpl.Js.Json.{Json, str, obj, Fields, end, field, property, is_null, as_text, or_else}
use xrpl.Js.Json.Parse.{parse}
use xrpl.Base.Framework.{HandlerResult, refuse, refuse_with, respond}
use xrpl.Base.Flow.{Flow, next, stop, fail, ◌>>=◌, ◌>>◌, require, return_if, call, attempt, settle}
use xrpl.Base.Server.{hex_of_json}
use xrpl.Base.Greeting.{hex_json}
use xrpl.Matching.Host.{Host, supply}
use xrpl.Matching.Signal.{text_or, text_of}

-- What a message asks for.
pub record TopUp : Type 0 where
  pub follower : Text
  pub lead : Text
  pub kinetic_pool : Text
  pub amount_wei : ℤ

-- The object of the message; `null` has no properties.
unfoldable pub read_top_up : Json → Flow HandlerResult Json
read_top_up msg = do
  raw ← attempt (hex_of_json (some msg)) (refuse_with (lit "decoding request: invalid hex: "))
  parsed ← attempt (or_throw bad_json (parse (decode raw))) (refuse_with (lit "decoding request: "))
  elim (is_null parsed) [ true ↦ fail bad_access | false ↦ next parsed ]

module _ (h : Host) where
  -- `String(parsed.amountWei ?? "0")`
  unfoldable pub amount_text : Json → Text
  amount_text parsed =
      text_of h (or_else (property (lit "amountWei") parsed) (some (str (lit "0"))))

  unfoldable pub top_up_of : Json → ℤ → TopUp
  top_up_of parsed amount_wei = record {
    follower = text_or (as_text (property (lit "follower") parsed)) [];
    lead = text_or (as_text (property (lit "lead") parsed)) [];
    kinetic_pool =
        text_or (as_text (property (lit "kineticPool") parsed))
          (text_or (h.env (lit "MOCK_KINETIC_POOL_ADDRESS")) []);
    amount_wei = amount_wei;
  }

  -- The fields, with their defaults.
  unfoldable pub top_up_fields : Json → Flow HandlerResult TopUp
  top_up_fields parsed = do
    amount_wei ← call (big_int_of_text (amount_text parsed))
    next (top_up_of parsed amount_wei)

-- `!(…)` of the test that refuses
unfoldable pub is_valid : TopUp → Bool
is_valid t =
    starts_with (lit "0x") t.follower
    && (starts_with (lit "0x") t.kinetic_pool && not (sign t.amount_wei || is_zero t.amount_wei))

unfoldable pub top_up_payload : TopUp → Text → Json
top_up_payload t calldata = obj (
    field (lit "to") (str t.kinetic_pool) (
      field (lit "data") (str calldata) (
        field (lit "venue") (str (lit "mock-kinetic")) (
          field (lit "follower") (str t.follower) (
            field (lit "lead") (str t.lead) (
              field (lit "amountWei") (str (big_text t.amount_wei))
                (field (lit "op") (str (lit "TOPUP_V1")) end)))))))

module _ (h : Host) where
  unfoldable pub execute_top_up : TopUp → Flow HandlerResult HandlerResult
  execute_top_up t = do
    require (is_valid t) (refuse (lit "invalid top-up payload"))
    calldata ← call (h.encode_call (supply t.amount_wei))
    next (respond (hex_json (top_up_payload t calldata)))

  unfoldable pub top_up : Json → Outcome HandlerResult
  top_up msg = settle (read_top_up msg >>= top_up_fields h >>= execute_top_up)
