-- ===== src/Agent/Synthetic.antt =====
-- fce-ai-agent/typescript/src/app/synthetic.ts: the synthetic leads.
pub mod Momentum
use xrpl.Prelude.{
  ℕ, zero, suc, ◌+◌, ◌-◌, ◌*◌, ◌%◌, Bool, true, false, List, [], ◌∷◌, map, some, ◌==◌, leb,
  if◌then◌else◌,
}
use xrpl.Js.Text.{Text}
use xrpl.Js.Number.{Number, of_ℕ, finite, neg, add, sub}
use xrpl.Matching.OutcomeLog.{Direction, buy, sell}
use xrpl.Agent.Series.{OutcomeEvent}

-- The indices of a loop from `i` on, `n` of them.
unfoldable pub indices : ℕ → ℕ → List ℕ
indices i zero = []
indices i (suc n) = i ∷ indices (i + 1) n

-- `((i % 5) - 2) * 2`
unfoldable pub noise_at : ℕ → Number
noise_at i = sub (of_ℕ (i % 5 * 2)) (of_ℕ 4)

unfoldable pub momentum_event : Text → Number → ℕ → OutcomeEvent
momentum_event lead now i = record {
  lead = lead;
  timestamp = sub now (of_ℕ ((29 - i) * 86400));
  pnl_bps = add (of_ℕ 40) (noise_at i);
  direction = some buy;
  size_pct = some (of_ℕ 1000);
}

-- `syntheticMomentumLead`
unfoldable pub synthetic_momentum_lead : Text → Number → List OutcomeEvent
synthetic_momentum_lead lead now = map (momentum_event lead now) (indices 0 30)

unfoldable pub mean_rev_event : Text → Number → ℕ → OutcomeEvent
mean_rev_event lead now i = record {
  lead = lead;
  timestamp = add (sub now (of_ℕ ((29 - i) * 86400))) (of_ℕ (i % 5 * 12000));
  pnl_bps = if i % 2 == 0 then of_ℕ 200 else finite true 180 0;
  direction = some (if i % 2 == 0 then buy else sell);
  size_pct = some (of_ℕ (300 + i % 11 * 250));
}

-- `syntheticMeanRevLead`
unfoldable pub synthetic_mean_rev_lead : Text → Number → List OutcomeEvent
synthetic_mean_rev_lead lead now = map (mean_rev_event lead now) (indices 0 30)

unfoldable pub known_sharpe_event : Text → Number → Number → ℕ → Number → ℕ → OutcomeEvent
known_sharpe_event lead daily_return daily_noise days now i = record {
  lead = lead;
  timestamp = sub now (of_ℕ ((days - 1 - i) * 86400));
  pnl_bps = add daily_return (if i % 2 == 0 then daily_noise else neg daily_noise);
  direction = some buy;
  size_pct = some (of_ℕ 800);
}

-- `syntheticKnownSharpeSeries`
unfoldable pub synthetic_known_sharpe_series :
    Text → Number → Number → ℕ → Number → List OutcomeEvent
synthetic_known_sharpe_series lead daily_return daily_noise days now =
    map (known_sharpe_event lead daily_return daily_noise days now) (indices 0 days)
