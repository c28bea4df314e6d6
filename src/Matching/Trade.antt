-- ===== src/Matching/Trade.antt =====
-- fce-matching-engine/typescript/src/app/handlers.ts, `handleMirrorMatchStageB`: the constants, the
-- prices and tokens of a trade, and its sizing.
use xrpl.Prelude.{ℕ, ◌*◌, ◌^◌, true, false, Option, none, some}
use xrpl.Js.Text.{Text, lit, starts_with, is_empty}
use xrpl.Js.Number.{Number, trunc}
use xrpl.Js.BigInt.{ℤ, pos, big_int, times, over, is_zero}
use xrpl.Base.Framework.{HandlerResult, refuse}
use xrpl.Base.Flow.{Flow, next, ◌>>=◌, ◌>>◌, return_if, call}
use xrpl.Matching.OutcomeLog.{Direction, buy, sell}

-- `value` where it is neither `undefined` nor the empty text
abbrev pub if_not_empty : Option Text → Option Text
if_not_empty none = none
if_not_empty (some t) = elim (is_empty t) [ true ↦ none | false ↦ some t ]

-- A text that starts with `0x`
abbrev pub if_hex : Option Text → Option Text
if_hex none = none
if_hex (some t) = elim (starts_with (lit "0x") t) [ true ↦ some t | false ↦ none ]

unfoldable pub registry : Text
registry = lit "0xaD67FE66660Fb8dFE9d6b1b4240d8650e30F6019"

unfoldable pub fxrp_usd_feed_id : Text
fxrp_usd_feed_id = lit "0x015852502f55534400000000000000000000000000"

unfoldable pub usdt0_usd_feed_id : Text
usdt0_usd_feed_id = lit "0x01555344542f555344000000000000000000000000"

unfoldable pub mock_sparkdex : Text
mock_sparkdex = lit "mock-sparkdex"

pub record Market : Type 0 where
  pub fxrp_usd : ℕ
  pub usdt0_usd : ℕ
  pub fxrp_token : Text
  pub usdt0_token : Text

-- What the orders of one signal share.
pub record Trade : Type 0 where
  pub token_in : Text
  pub token_out : Text
  pub price_in : ℕ
  pub price_out : ℕ
  pub base_notional : ℤ

pub record Build : Type 0 where
  pub to : Text
  pub calldata : Text
  pub venue : Text
  pub fee : ℕ
  pub recipient : Text
  pub amount_in : Text

-- The cap on a position: a million units of 18 decimals.
unfoldable pub notional_cap : ℕ
notional_cap = 1000000 * 10 ^ 18

-- `(a * bps) / 10_000n`
unfoldable pub share_of : ℤ → ℤ → ℤ
share_of a bps = over (times a bps) 10000

unfoldable pub base_notional_of : ℕ → Number → Flow HandlerResult ℤ
base_notional_of cap size = do bps ← call (big_int (trunc size)); next (share_of (pos cap) bps)

unfoldable pub size_position : Number → Flow HandlerResult ℤ
size_position size = do
  base ← base_notional_of notional_cap size
  return_if (is_zero base) (refuse (lit "sizing produced zero notional"))
  next base

-- What the trade is worth at the prices of the feeds.
unfoldable pub expected_out : Trade → ℤ → ℤ
expected_out t notional = over (times notional (pos t.price_in)) t.price_out

-- 99% of that.
unfoldable pub amount_out_minimum : Trade → ℤ → ℤ
amount_out_minimum t notional = over (times (expected_out t notional) (pos 9900)) 10000

unfoldable pub trade_of : Market → Direction → ℤ → Trade
trade_of m buy base = record {
  token_in = m.usdt0_token;
  token_out = m.fxrp_token;
  price_in = m.usdt0_usd;
  price_out = m.fxrp_usd;
  base_notional = base;
}
trade_of m sell base = record {
  token_in = m.fxrp_token;
  token_out = m.usdt0_token;
  price_in = m.fxrp_usd;
  price_out = m.usdt0_usd;
  base_notional = base;
}
