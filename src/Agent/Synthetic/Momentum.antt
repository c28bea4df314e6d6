-- ===== src/Agent/Synthetic/Momentum.antt =====
-- synthetic.ts: how the synthetic leads are classified.
use xrpl.Prelude.{
  false, ℕ, zero, suc, ◌+◌, ◌≤◌, ◌≡◌, refl, ap, ◌∙◌, List, [], ◌∷◌, map, some, length, arith, All,
  length-map,
}
use xrpl.Js.Text.{Text}
use xrpl.Js.Number.{Number, round}
use xrpl.Matching.OutcomeLog.{buy}
use xrpl.Agent.Series.{OutcomeEvent}
use xrpl.Agent.Classify.{momentum, signed, classify_lead}
use xrpl.Agent.Classify.Confidence.{classify_lead-one_way}
use xrpl.Agent.Synthetic.{
  indices, momentum_event, synthetic_momentum_lead, known_sharpe_event,
  synthetic_known_sharpe_series,
}

length-indices : (i n : ℕ) → length (indices i n) ≡ n
unfolding indices
length-indices i zero = refl
length-indices i (suc n) = ap suc (length-indices (i + 1) n)

buys_only :
    (make : ℕ → OutcomeEvent) (is : List ℕ)
    → ((i : ℕ) → (make i).direction ≡ some buy)
    → All (λ e. signed e.direction ≡ signed (some buy)) (map make is)
buys_only make [] h = tt
buys_only make (i ∷ is) h = (ap signed (h i), buys_only make is h)

-- A synthetic series of known returns over at least three days is classified as momentum with
-- confidence 0.9, whatever the returns, the noise and the time.
pub classify_lead-synthetic_known_sharpe_series :
    (lead : Text) (daily_return daily_noise : Number) (days : ℕ) (now : Number)
    → 3 ≤ days
    → let c =
        classify_lead (synthetic_known_sharpe_series lead daily_return daily_noise days now) in
      (c.strategy ≡ momentum) × (c.confidence ≡ round false 9 10)
unfolding synthetic_known_sharpe_series known_sharpe_event
classify_lead-synthetic_known_sharpe_series lead daily_return daily_noise days now h =
    let make = known_sharpe_event lead daily_return daily_noise days now in
    let count = length-map make (indices 0 days) ∙ length-indices 0 days in
    classify_lead-one_way buy (map make (indices 0 days)) (omega (arith, count))
      (buys_only make (indices 0 days) (λ i. refl))

-- The synthetic momentum lead is classified as momentum with confidence 0.9, whatever its address and
-- the time.
pub classify_lead-synthetic_momentum_lead :
    (lead : Text) (now : Number)
    → let c = classify_lead (synthetic_momentum_lead lead now) in
      (c.strategy ≡ momentum) × (c.confidence ≡ round false 9 10)
unfolding synthetic_momentum_lead momentum_event
classify_lead-synthetic_momentum_lead lead now =
    let make = momentum_event lead now in
    let count = length-map make (indices 0 30) ∙ length-indices 0 30 in
    classify_lead-one_way buy (map make (indices 0 30)) (omega (arith, count))
      (buys_only make (indices 0 30) (λ i. refl))
