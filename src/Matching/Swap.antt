-- ===== src/Matching/Swap.antt =====
-- fce-matching-engine/typescript/src/app/handlers.ts, `handleMirrorMatchStageB`: what is read of the
-- market, and the swap instructions of a signal.
pub mod Sizing
pub mod Orders
pub mod Quoted
pub mod Routed
pub mod Slippage
pub use xrpl.Matching.Trade.{Market, Trade, Build}
unfoldable pub use xrpl.Matching.Trade.{
  if_not_empty, if_hex, registry, fxrp_usd_feed_id, usdt0_usd_feed_id, mock_sparkdex, notional_cap,
  share_of, base_notional_of, size_position, expected_out, amount_out_minimum, trade_of,
}
use xrpl.Prelude.{
  ℕ, ◌+◌, ◌*◌, ◌^◌, Bool, true, false, ◌||◌, List, [], ◌∷◌, map, Option, none, some, ◌==◌,
}
use xrpl.Js.Text.{Text, lit, same, starts_with, to_lower_case, is_empty}
use xrpl.Js.Number.{Number, of_ℕ, trunc}
use xrpl.Js.BigInt.{ℤ, pos, big_int, times, over, is_zero, big_text}
use xrpl.Js.Outcome.{Outcome, ok, throw}
use xrpl.Js.Json.{Json, bool, num, str, arr, obj, Fields, end, field, property, as_text, from_list}
use xrpl.Base.Framework.{HandlerResult, refuse}
use xrpl.Base.Flow.{Flow, next, stop, fail, ◌>>=◌, ◌>>◌, return_if, or_return, call}
use xrpl.Matching.Host.{Host, Chain, Call, swap_exact_tokens_for_tokens, exact_input_single}
use xrpl.Matching.OutcomeLog.{OutcomeRecord, Direction, buy, sell}
use xrpl.Matching.Signal.{FollowerAlloc, Signal, text_or}

module _ (h : Host) where
  unfoldable pub read_prices : Chain → Flow HandlerResult (ℕ × ℕ)
  read_prices c = do
    address ← call (h.get_address registry)
    ftso_v2 ← call (c.contract_address address (lit "FtsoV2"))
    fxrp ← call (c.feed ftso_v2 fxrp_usd_feed_id)
    usdt0 ← call (c.feed ftso_v2 usdt0_usd_feed_id)
    return_if ((fxrp.0 == 0) || (usdt0.0 == 0)) (refuse (lit "ftso returned zero price"))
    next (fxrp.0, usdt0.0)

  -- A token from the environment, or from its asset manager.
  unfoldable pub resolve_token : Chain → Text → Text → Flow HandlerResult Text
  resolve_token c variable manager = elim (if_hex (h.env variable)) [
    | some address ↦ call (h.get_address address)
    | none ↦ do
      address ← call (h.get_address registry)
      asset_manager ← call (c.contract_address address manager)
      call (c.f_asset asset_manager)
  ]

  unfoldable pub read_market : Flow HandlerResult Market
  read_market = do
    rpc_url ←
        or_return (if_not_empty (h.env (lit "FLARE_RPC_URL")))
          (refuse (lit "missing FLARE_RPC_URL"))
    prices ← read_prices (h.chain rpc_url)
    fxrp ← resolve_token (h.chain rpc_url) (lit "C2_FXRP_ADDRESS") (lit "AssetManagerFXRP")
    usdt0 ← resolve_token (h.chain rpc_url) (lit "C2_USDT0_ADDRESS") (lit "AssetManagerUSDT0")
    next (record {
      fxrp_usd = prices.0;
      usdt0_usd = prices.1;
      fxrp_token = fxrp;
      usdt0_token = usdt0;
    })

  -- The router and the encoded call of one order.
  unfoldable pub encode_order :
      Trade → (venue recipient : Text) → (notional minimum : ℤ) → Flow HandlerResult Build
  encode_order t venue recipient notional minimum = elim (same venue (lit "blazeswap-v2")) [
    | true ↦ do
      router ←
          or_return (if_not_empty (h.env (lit "BLAZESWAP_ROUTER_ADDRESS")))
            (refuse (lit "missing BLAZESWAP_ROUTER_ADDRESS"))
      to ← call (h.get_address router)
      calldata ← call (
          h.encode_call (
            swap_exact_tokens_for_tokens notional minimum (t.token_in ∷ t.token_out ∷ []) recipient
              (h.now + 300)))
      next (record {
        to = to;
        calldata = calldata;
        venue = venue;
        fee = 0;
        recipient = recipient;
        amount_in = big_text notional;
      })
    | false ↦ do
      router ←
          or_return (if_not_empty (h.env (lit "MOCK_SPARKDEX_ROUTER_ADDRESS")))
            (refuse (lit "missing MOCK_SPARKDEX_ROUTER_ADDRESS"))
      to ← call (h.get_address router)
      calldata ← call (
          h.encode_call (
            exact_input_single t.token_in t.token_out 500 recipient (h.now + 300) notional minimum
              0))
      next (record {
        to = to;
        calldata = calldata;
        venue = venue;
        fee = 500;
        recipient = recipient;
        amount_in = big_text notional;
      })
  ]

  -- One round of the loop over the targets; a share that rounds to nothing is skipped.
  unfoldable pub build_order : Trade → FollowerAlloc → Flow HandlerResult (Option Build)
  build_order t f = do
    bps ← call (big_int (trunc f.allocation_bps))
    let notional = share_of t.base_notional bps
    elim (is_zero notional) [
      | true ↦ next none
      | false ↦ do
        let minimum = amount_out_minimum t notional
        return_if (is_zero minimum) (refuse (lit "sizing produced zero minOut"))
        recipient ← call (h.get_address f.address)
        build ←
            encode_order t (to_lower_case (text_or (h.env (lit "EXECUTION_VENUE")) mock_sparkdex))
              recipient notional minimum
        next (some build)
    ]

abbrev pub push : {A : Type 0} → Option A → List A → List A
push none bs = bs
push (some b) bs = b ∷ bs

-- The loop over the targets, with one round of it.
unfoldable pub build_each :
    {B : Type 0}
    → (FollowerAlloc → Flow HandlerResult (Option B))
    → List FollowerAlloc
    → Flow HandlerResult (List B)
build_each round [] = next []
build_each round (f ∷ fs) = round f >>= λ b. build_each round fs >>= λ bs. next (push b bs)

-- The instruction as an element of a fan-out.
unfoldable pub instruction_json : Build → Json
instruction_json b = obj (
    field (lit "to") (str b.to) (
      field (lit "data") (str b.calldata) (
        field (lit "venue") (str b.venue) (
          field (lit "fee") (num (of_ℕ b.fee)) (
            field (lit "recipient") (str b.recipient)
              (field (lit "amountIn") (str b.amount_in) end))))))

-- One instruction, or a fan-out of all of them.
unfoldable pub swap_payload : Build → List Build → Json
swap_payload b [] = obj (
    field (lit "to") (str b.to) (
      field (lit "data") (str b.calldata)
        (field (lit "venue") (str b.venue) (field (lit "fee") (num (of_ℕ b.fee)) end))))
swap_payload b (c ∷ cs) = obj (
    field (lit "fanOut") (bool true) (
      field (lit "instructions") (arr (from_list (map instruction_json (b ∷ c ∷ cs))))
        (field (lit "venue") (str b.venue) end)))

-- The lead that the signal names, or the first recipient.
unfoldable pub lead_of : Json → Text → Text
lead_of parsed recipient = text_or (if_hex (as_text (property (lit "lead") parsed))) recipient

-- What a handler is about to answer, and to append to the log.
pub record Matched : Type 0 where
  pub payload : Json
  pub outcome : OutcomeRecord

unfoldable pub swap_matched : Host → Json → Signal → List Build → Flow HandlerResult Matched
swap_matched h parsed s [] = stop (refuse (lit "fan-out produced zero instructions"))
swap_matched h parsed s (b ∷ bs) = next (record {
  payload = swap_payload b bs;
  outcome = record {
    lead = lead_of parsed b.recipient;
    timestamp = h.now;
    pnl_bps = of_ℕ 0;
    direction = s.direction;
    size_pct = trunc s.size_pct;
  };
})

-- A checked signal, turned into its instructions.
unfoldable pub match_swap : Host → Json → Signal → Flow HandlerResult Matched
match_swap h parsed s = do
  market ← read_market h
  base ← size_position s.size_pct
  builds ← build_each (build_order h (trade_of market s.direction base)) s.targets
  swap_matched h parsed s builds
