-- ===== src/Matching/MockVenue.antt =====
-- fce-matching-engine/typescript/src/app/handlers.ts, `buildMockVenueStageB`.
pub mod Orders
use xrpl.Prelude.{ℕ, ◌*◌, ◌^◌, true, false, List, [], ◌∷◌, map, Option, none, some}
use xrpl.Js.Text.{Text, lit}
use xrpl.Js.Number.{Number, of_ℕ, trunc}
use xrpl.Js.BigInt.{ℤ, big_int, over, is_zero, big_text}
use xrpl.Js.Outcome.{bad_access}
use xrpl.Js.Json.{
  Json, bool, num, str, arr, obj, end, field, property, is_null, as_text, as_list, from_list,
}
use xrpl.Js.Json.Coerce.{number_of}
use xrpl.Base.Framework.{HandlerResult, refuse}
use xrpl.Base.Flow.{Flow, next, stop, fail, ◌>>=◌, or_return, call}
use xrpl.Matching.Host.{Host, open_cdp, deposit}
use xrpl.Matching.OutcomeLog.{buy}
use xrpl.Matching.Signal.{MockVenue, enosys_cdp, firelight_strategy, if_address, check_size}
use xrpl.Matching.Swap.{if_not_empty, share_of, base_notional_of, push, lead_of, Matched}

abbrev pub venue_name : MockVenue → Text
venue_name enosys_cdp = lit "enosys-cdp"
venue_name firelight_strategy = lit "firelight-strategy"

pub record MockBuild : Type 0 where
  pub to : Text
  pub calldata : Text
  pub recipient : Text
  pub amount_in : Text

-- The cap on a position: a million units of 6 decimals.
unfoldable pub mock_notional_cap : ℕ
mock_notional_cap = 1000000 * 10 ^ 6

-- The followers as they came, or the recipient with all of the position.
unfoldable pub mock_targets : Json → Flow HandlerResult (List Json)
mock_targets parsed = elim (as_list (property (lit "followers") parsed)) [
  | some (f ∷ fs) ↦ next (f ∷ fs)
  | _ ↦ do
    recipient ←
        or_return (if_address (as_text (property (lit "recipient") parsed)))
          (refuse (lit "signal.recipient or followers required for mock venue"))
    next (
        obj (
          field (lit "address") (str recipient)
            (field (lit "allocationBps") (num (of_ℕ 10000)) end))
        ∷ [])
]

module _ (h : Host) where
  -- The venue's contract and the encoded call.
  unfoldable pub mock_call : MockVenue → ℤ → Flow HandlerResult (Text × Text)
  mock_call enosys_cdp notional = do
    cdp ←
        or_return (if_not_empty (h.env (lit "MOCK_ENOSYS_CDP_ADDRESS")))
          (refuse (lit "missing MOCK_ENOSYS_CDP_ADDRESS"))
    to ← call (h.get_address cdp)
    calldata ← call (h.encode_call (open_cdp notional (over notional 2)))
    next (to, calldata)
  mock_call firelight_strategy notional = do
    strat ←
        or_return (if_not_empty (h.env (lit "MOCK_FIRELIGHT_STRATEGY_ADDRESS")))
          (refuse (lit "missing MOCK_FIRELIGHT_STRATEGY_ADDRESS"))
    to ← call (h.get_address strat)
    calldata ← call (h.encode_call (deposit notional))
    next (to, calldata)

  -- One round of the loop over the targets, whose fields nothing has checked.
  unfoldable pub build_mock : MockVenue → ℤ → Json → Flow HandlerResult (Option MockBuild)
  build_mock venue base f = elim (is_null f) [
    | true ↦ fail bad_access
    | false ↦ do
      bps ← call (big_int (trunc (number_of (property (lit "allocationBps") f))))
      let notional = share_of base bps
      elim (is_zero notional) [
        | true ↦ next none
        | false ↦ do
          recipient ← call (h.get_address_of (property (lit "address") f))
          target ← mock_call venue notional
          next (
              some (record {
                to = target.0;
                calldata = target.1;
                recipient = recipient;
                amount_in = big_text notional;
              }))
      ]
  ]

  unfoldable pub build_mocks : MockVenue → ℤ → List Json → Flow HandlerResult (List MockBuild)
  build_mocks venue base [] = next []
  build_mocks venue base (f ∷ fs) =
      build_mock venue base f >>= λ b. build_mocks venue base fs >>= λ bs. next (push b bs)

unfoldable pub mock_instruction : MockVenue → MockBuild → Json
mock_instruction venue b = obj (
    field (lit "to") (str b.to) (
      field (lit "data") (str b.calldata) (
        field (lit "venue") (str (venue_name venue)) (
          field (lit "recipient") (str b.recipient)
            (field (lit "amountIn") (str b.amount_in) end)))))

unfoldable pub mock_payload : MockVenue → MockBuild → List MockBuild → Json
mock_payload venue b [] = obj (
    field (lit "to") (str b.to) (
      field (lit "data") (str b.calldata)
        (field (lit "venue") (str (venue_name venue)) (field (lit "fee") (num (of_ℕ 0)) end))))
mock_payload venue b (c ∷ cs) = obj (
    field (lit "fanOut") (bool true) (
      field (lit "instructions") (arr (from_list (map (mock_instruction venue) (b ∷ c ∷ cs))))
        (field (lit "venue") (str (venue_name venue)) end)))

unfoldable pub mock_matched :
    Host → Json → MockVenue → Number → List MockBuild → Flow HandlerResult Matched
mock_matched h parsed venue size [] =
    stop (refuse (lit "mock venue fan-out produced zero instructions"))
mock_matched h parsed venue size (b ∷ bs) = next (record {
  payload = mock_payload venue b bs;
  outcome = record {
    lead = lead_of parsed b.recipient;
    timestamp = h.now;
    pnl_bps = of_ℕ 0;
    direction = buy;
    size_pct = trunc size;
  };
})

unfoldable pub match_mock : Host → Json → MockVenue → Flow HandlerResult Matched
match_mock h parsed venue = do
  size ← check_size parsed
  targets ← mock_targets parsed
  base ← base_notional_of mock_notional_cap size
  builds ← build_mocks h venue base targets
  mock_matched h parsed venue size builds
