-- ===== src/Agent/Classify.antt =====
-- fce-ai-agent/typescript/src/app/classify.ts: the strategy of a lead.
pub mod Confidence
use xrpl.Prelude.{
  ℕ, ◌+◌, Bool, true, false, not, ◌&&◌, List, [], ◌∷◌, map, Option, none, some, length, filter, all,
  ltb, leb, ◌==◌, if◌then◌else◌,
}
use xrpl.Js.Number.{Number, of_ℕ, finite, round, lt, le, eq, neg, abs, add, sub, mul, div, sqrt}
use xrpl.Agent.Series.{OutcomeEvent, sort_by, sum, squares, mean_of, clamp01}
use xrpl.Matching.OutcomeLog.{Direction, buy, sell}

pub data StrategyClass : Type 0 where
  momentum mean_reversion yield_arb : StrategyClass

pub record Classification : Type 0 where
  pub strategy : StrategyClass
  pub confidence : Number
  pub direction_autocorr : Number
  pub size_cv : Number
  pub mean_abs_pnl_bps : Number

-- -1 for a sale, 1 for anything else
abbrev pub signed : Option Direction → Number
signed (some sell) = finite true 1 0
signed (some buy) = of_ℕ 1
signed none = of_ℕ 1

unfoldable pub direction_series : List OutcomeEvent → List Number
direction_series events = map (λ e. signed e.direction) events

-- The sum over neighbours of `(d[i] - mean) * (d[i - 1] - mean)`
unfoldable pub products_from : Number → Number → List Number → Number
products_from mean acc [] = acc
products_from mean acc (x ∷ []) = acc
products_from mean acc (x ∷ y ∷ ys) =
    products_from mean (add acc (mul (sub y mean) (sub x mean))) (y ∷ ys)

-- `directionAutocorr`
unfoldable pub direction_autocorr : List OutcomeEvent → Number
direction_autocorr events =
    let d = direction_series events in
    if ltb (length d) 3
    then of_ℕ 0
    else let mean = mean_of d in
      let den = squares mean d in
      if eq den (of_ℕ 0) then of_ℕ 0 else div (products_from mean (of_ℕ 0) d) den

-- `length > 0 && every(d => d === directions[0])`
unfoldable pub all_same : List Number → Bool
all_same [] = false
all_same (d ∷ ds) = all (λ x. eq x d) (d ∷ ds)

abbrev size_or_zero : Option Number → Number
size_or_zero none = of_ℕ 0
size_or_zero (some x) = x

unfoldable pub sizes_of : List OutcomeEvent → List Number
sizes_of events = filter (λ s. lt (of_ℕ 0) s) (map (λ e. size_or_zero e.size_pct) events)

-- The coefficient of variation of the sizes, 1 where there are none.
unfoldable pub size_cv_of : List Number → Number
size_cv_of sizes =
    let mean = if length sizes == 0 then of_ℕ 0 else mean_of sizes in
    let variance =
      if ltb 1 (length sizes) then div (squares mean sizes) (of_ℕ (length sizes)) else of_ℕ 0 in
    if lt (of_ℕ 0) mean then div (sqrt variance) mean else of_ℕ 1

unfoldable pub mean_abs_pnl : List OutcomeEvent → Number
mean_abs_pnl events =
    if length events == 0 then of_ℕ 0 else mean_of (map (λ e. abs e.pnl_bps) events)

-- The branches: the count of events, whether all go one way, and the three features.
unfoldable pub decide : ℕ → Bool → Number → Number → Number → StrategyClass × Number
decide count one_way autocorr size_cv mean_abs =
    if one_way && leb 3 count
    then (momentum, round false 9 10)
    else if le (round false 25 100) autocorr
    then (momentum, clamp01 autocorr)
    else if le autocorr (round true 15 100)
    then (mean_reversion, clamp01 (neg autocorr))
    else if lt size_cv (round false 25 100) && (lt mean_abs (of_ℕ 80) && leb 5 count)
    then (yield_arb, clamp01 (sub (of_ℕ 1) size_cv))
    else (if le (of_ℕ 100) mean_abs then momentum else mean_reversion, round false 35 100)

-- `classifyLead`
unfoldable pub classify_lead : List OutcomeEvent → Classification
classify_lead events =
    let sorted = sort_by (λ e. e.timestamp) events in
    let autocorr = direction_autocorr sorted in
    let cv = size_cv_of (sizes_of sorted) in
    let mean_abs = mean_abs_pnl sorted in
    let decided =
      decide (length sorted) (all_same (direction_series sorted)) autocorr cv mean_abs in
    record {
      strategy = decided.0;
      confidence = decided.1;
      direction_autocorr = autocorr;
      size_cv = cv;
      mean_abs_pnl_bps = mean_abs;
    }

-- `strategyTypeCode`
unfoldable pub strategy_type_code : StrategyClass → ℕ
strategy_type_code momentum = 0
strategy_type_code mean_reversion = 1
strategy_type_code yield_arb = 2
