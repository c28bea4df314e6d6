-- ===== src/Agent/Health/Restore.antt =====
-- health.ts: what the suggested top-up restores.
use xrpl.Prelude.{ℕ, ◌+◌, ◌-◌, ◌*◌, ◌/◌, ◌≤◌, ◌<◌, ◌≡◌, refl, ◌⊎◌, Bool, true, Option, some, arith}
use xrpl.Js.Text.{Text}
use xrpl.Js.Number.{Number, of_ℕ, lt, le}
use xrpl.Js.BigInt.{pos, big_int, times, over, less, minus}
use xrpl.Js.Outcome.{ok}
use xrpl.Agent.Health.{
  HealthSnapshot, liquidation_risk, assess_health, excess, suggested, positive_or_none, status_of,
}

big_int-of_ℕ : (a : ℕ) → big_int (of_ℕ a) ≡ ok (pos a)
unfolding big_int
big_int-of_ℕ a = ground arith

-- The supply that a borrower of `b` is brought to.
abbrev pub target : ℕ → ℕ → ℕ
target b a = b * a / 10000

over-times : (b a : ℕ) → over (times (pos b) (pos a)) 10000 ≡ pos (target b a)
unfolding over times
over-times b a = refl

excess-pos : (t s : ℕ) → excess (pos t) (pos s) ≡ pos (t - s)
unfolding excess less minus
excess-pos t s = ground arith

positive-pos : (b : ℕ) → 0 < b → positive_or_none (some (pos b)) ≡ some (pos b)
unfolding less
positive-pos b h = ground arith

suggested-pos :
    (b a s : ℕ) → suggested true (some (pos b)) (of_ℕ a) (pos s) ≡ ok (pos (target b a - s))
unfolding suggested
suggested-pos b a s = rw (big_int-of_ℕ a, over-times b a, excess-pos (target b a) s) refl

-- A position below a whole alert line and not below its liquidation line is at risk and in need of a
-- top-up. For a positive loan the top-up that is suggested is the least that brings the supply to the
-- alert line rounded down: with it ten thousand times the supply is less than ten thousand short of
-- the loan times the line, and it is nothing where the supply is there already.
pub assess_health-restores :
    (value : Option Text) (cr liquidate : Number) (a b s : ℕ) (drift : Bool)
    → lt cr (of_ℕ a) ≡ true
    → le liquidate cr ≡ true
    → 0 < b
    → (h : HealthSnapshot) × (t : ℕ) × (assess_health value (record {
      collateral_ratio_bps = cr;
      liquidate_bps = some liquidate;
      alert_bps = some (of_ℕ a);
      drift = drift;
      borrow_balance = some (pos b);
      supply_balance = some (pos s);
    })
        ≡ ok h)
      × (h.status ≡ liquidation_risk)
      × (h.needs_top_up ≡ true)
      × (h.suggested_top_up ≡ pos t)
      × (b * a < (s + t) * 10000 + 10000)
      × ((t ≡ 0) ⊎ ((s + t) * 10000 ≤ b * a))
unfolding assess_health status_of
assess_health-restores value cr liquidate a b s drift low above loan = (
  record {
    collateral_ratio_bps = cr;
    alert_bps = of_ℕ a;
    liquidate_bps = liquidate;
    status = liquidation_risk;
    needs_top_up = true;
    suggested_top_up = pos (target b a - s);
  },
  target b a - s,
  rw (low, above, positive-pos b loan, suggested-pos b a s),
  refl,
  refl,
  refl,
  omega arith,
  ground arith,
)
