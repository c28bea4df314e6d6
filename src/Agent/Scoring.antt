-- ===== src/Agent/Scoring.antt =====
-- fce-ai-agent/typescript/src/app/scoring.ts: the score of a lead.
pub mod Range
use xrpl.Js.Text.{lit}
use xrpl.Prelude.{
  zero, suc, ◌+◌, Option, none, some, get_elem?, ℕ, ◌*◌, ◌-◌, Bool, true, false, not, List, [], ◌∷◌,
  map, length, filter, ltb, ◌==◌, if◌then◌else◌,
}
use xrpl.Js.Number.{
  Number, of_ℕ, round, lt, le, eq, add, sub, mul, div, sqrt, max_of, min_of, round_half_up,
}
use xrpl.Agent.Series.{OutcomeEvent, sort_by, sum, squares, mean_of, clamp01}

pub record ScoreBreakdown : Type 0 where
  pub sharpe : Number
  pub max_drawdown : Number
  pub consistency : Number
  pub data_completeness : Number
  pub ai_score : Number

-- The weights 0.4, 0.25, 0.2 and 0.15.
unfoldable pub weight_sharpe : Number
weight_sharpe = round false 4 10

unfoldable pub weight_drawdown : Number
weight_drawdown = round false 25 100

unfoldable pub weight_consistency : Number
weight_consistency = round false 2 10

unfoldable pub weight_completeness : Number
weight_completeness = round false 15 100

unfoldable pub sharpe_of : List Number → Number → Number → Number
sharpe_of returns mean stdev =
    if eq stdev (of_ℕ 0)
    then if lt (of_ℕ 0) mean then of_ℕ 10 else of_ℕ 0
    else mul (div mean stdev) (sqrt (of_ℕ 365))

-- `sharpeEquivalent` with its default of 365 periods
unfoldable pub sharpe_equivalent : List Number → Number
sharpe_equivalent returns =
    if ltb (length returns) 2
    then of_ℕ 0
    else let mean = mean_of returns in
      sharpe_of returns mean (sqrt (div (squares mean returns) (of_ℕ (length returns - 1))))

-- What the loop of `maxDrawdown` keeps.
pub record Curve : Type 0 where
  pub equity : Number
  pub peak : Number
  pub mdd : Number

-- One round of the loop.
unfoldable pub step : Number → Curve → Curve
step r c =
    let equity = mul c.equity (add (of_ℕ 1) r) in
    let peak = if lt c.peak equity then equity else c.peak in
    let dd = if lt (of_ℕ 0) peak then div (sub peak equity) peak else of_ℕ 0 in
    record { equity = equity; peak = peak; mdd = if lt c.mdd dd then dd else c.mdd }

unfoldable pub drawdown_from : Curve → List Number → Curve
drawdown_from c [] = c
drawdown_from c (r ∷ rs) = drawdown_from (step r c) rs

abbrev pub start : Curve
start = record { equity = of_ℕ 1; peak = of_ℕ 1; mdd = of_ℕ 0 }

unfoldable pub max_drawdown : List Number → Number
max_drawdown returns = (drawdown_from start returns).mdd

-- The positive differences of neighbours.
unfoldable pub gaps : List Number → List Number
gaps [] = []
gaps (x ∷ []) = []
gaps (x ∷ y ∷ ys) =
    let rest = gaps (y ∷ ys) in if lt (of_ℕ 0) (sub y x) then sub y x ∷ rest else rest

unfoldable pub regularity : List Number → Number
regularity [] = of_ℕ 0
regularity (g ∷ gs) =
    let mean = mean_of (g ∷ gs) in
    if eq mean (of_ℕ 0)
    then of_ℕ 0
    else clamp01
        (sub (of_ℕ 1) (div (sqrt (div (squares mean (g ∷ gs)) (of_ℕ (length (g ∷ gs))))) mean))

-- `consistencyScore`
unfoldable pub consistency_score : List Number → Number
consistency_score timestamps =
    if ltb (length timestamps) 3
    then if length timestamps == 0 then of_ℕ 0 else round false 3 10
    else regularity (gaps (sort_by (λ t. t) timestamps))

-- `30 * 24 * 3600`
abbrev pub window : ℕ
window = 30 * 24 * 3600

unfoldable pub in_window : Number → List OutcomeEvent → List OutcomeEvent
in_window now events = filter (λ e. le (sub now (of_ℕ window)) e.timestamp) events

-- `dataCompleteness`
unfoldable pub data_completeness : Number → List OutcomeEvent → Number
data_completeness now events =
    if length events == 0
    then of_ℕ 0
    else clamp01 (div (of_ℕ (length (in_window now events))) (of_ℕ 30))

unfoldable pub normalize_sharpe : Number → Number
normalize_sharpe s = clamp01 (div s (of_ℕ 2))

unfoldable pub normalize_drawdown : Number → Number
normalize_drawdown mdd = clamp01 (sub (of_ℕ 1) mdd)

-- The weighted sum, as a whole number of hundredths from 0 to 100.
unfoldable pub composite : (sharpe mdd consistency completeness : Number) → Number
composite sharpe mdd consistency completeness = max_of (of_ℕ 0) (
    min_of (of_ℕ 100) (
      round_half_up (
        mul (of_ℕ 100) (
          add
            (add
              (add (mul weight_sharpe (normalize_sharpe sharpe))
                (mul weight_drawdown (normalize_drawdown mdd)))
              (mul weight_consistency consistency))
            (mul weight_completeness completeness)))))

unfoldable pub returns_of : List OutcomeEvent → List Number
returns_of events = map (λ e. div e.pnl_bps (of_ℕ 10000)) events

unfoldable pub breakdown_of : (sharpe mdd consistency completeness : Number) → ScoreBreakdown
breakdown_of sharpe mdd consistency completeness = record {
  sharpe = sharpe;
  max_drawdown = mdd;
  consistency = consistency;
  data_completeness = completeness;
  ai_score = composite sharpe mdd consistency completeness;
}

-- `scoreLead`, with the time that it reads where it is given none
unfoldable pub score_lead : Number → List OutcomeEvent → ScoreBreakdown
score_lead now events =
    let sorted = sort_by (λ e. e.timestamp) events in
    breakdown_of (sharpe_equivalent (returns_of sorted)) (max_drawdown (returns_of sorted))
      (consistency_score (map (λ e. e.timestamp) sorted)) (data_completeness now sorted)

-- `timestamps[i] ?? timestamps[0] ?? nowSec ?? 0`
unfoldable pub time_at : List Number → Option Number → ℕ → Number
time_at [] none i = of_ℕ 0
time_at [] (some now) i = now
time_at (t ∷ ts) now i = elim (get_elem? (t ∷ ts) i) [ some u ↦ u | none ↦ t ]

-- The events that `scoreFromReturns` makes up, from index `i` on, `n` of them: one for each count, a day
-- further back each.
unfoldable pub faux_events : List Number → Option Number → ℕ → ℕ → List OutcomeEvent
faux_events timestamps now i zero = []
faux_events timestamps now i (suc n) =
    record {
      lead = lit "0x0";
      timestamp = sub (time_at timestamps now i) (of_ℕ (i * 86400));
      pnl_bps = of_ℕ 0;
      direction = none;
      size_pct = none;
    }
    ∷ faux_events timestamps now (i + 1) n

abbrev pub now_or : Option Number → Number → Number
now_or none clock = clock
now_or (some now) clock = now

-- `scoreFromReturns`, with the time that is read where `nowSec` is missing
unfoldable pub score_from_returns :
    (returns timestamps : List Number) → ℕ → Option Number → Number → ScoreBreakdown
score_from_returns returns timestamps count now clock =
    breakdown_of (sharpe_equivalent returns) (max_drawdown returns) (consistency_score timestamps)
      (data_completeness (now_or now clock) (faux_events timestamps now 0 count))
