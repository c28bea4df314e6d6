-- ===== src/Agent/Health.antt =====
-- fce-ai-agent/typescript/src/app/health.ts: the health of a position and the top-up it needs.
pub mod Restore
use xrpl.Prelude.{
  ℕ, ◌-◌, Bool, true, false, not, ◌&&◌, ◌||◌, Option, none, some, ltb, if◌then◌else◌,
}
use xrpl.Js.Text.{Text}
use xrpl.Js.Number.{Number, of_ℕ, lt, le}
use xrpl.Js.BigInt.{ℤ, pos, times, over, big_int, less, minus}
use xrpl.Js.Outcome.{Outcome, ok, throw, ◌>>=◌}
use xrpl.Agent.Drift.{finite_or}

pub data HealthStatus : Type 0 where
  healthy drift_detected liquidation_risk : HealthStatus

pub record HealthSnapshot : Type 0 where
  pub collateral_ratio_bps : Number
  pub alert_bps : Number
  pub liquidate_bps : Number
  pub status : HealthStatus
  pub needs_top_up : Bool
  pub suggested_top_up : ℤ

-- What a caller says of a position; `none` is a missing option.
pub record Position : Type 0 where
  pub collateral_ratio_bps : Number
  pub liquidate_bps : Option Number
  pub alert_bps : Option Number
  pub drift : Bool
  pub borrow_balance : Option ℤ
  pub supply_balance : Option ℤ

-- `liquidationAlertBps`, of the value of the environment
unfoldable pub liquidation_alert_bps : Option Text → Number
liquidation_alert_bps value = finite_or value (of_ℕ 13000)

abbrev pub number_or : Option Number → Number → Number
number_or none x = x
number_or (some y) _ = y

abbrev pub or_zero : Option ℤ → ℤ
or_zero none = pos 0
or_zero (some z) = z

-- `a > b ? a - b : 0n`
unfoldable pub excess : ℤ → ℤ → ℤ
excess a b = if less b a then minus a b else pos 0

unfoldable pub status_of : Position → Number → HealthStatus
status_of p alert =
    if lt p.collateral_ratio_bps alert
    then liquidation_risk
    else if p.drift
    then drift_detected
    else healthy

abbrev pub needs_top_up_at : Number → Number → Number → Bool
needs_top_up_at cr alert liquidate = lt cr alert && le liquidate cr

-- `opts.borrowBalance && opts.borrowBalance > 0n`
abbrev pub positive_or_none : Option ℤ → Option ℤ
positive_or_none none = none
positive_or_none (some z) = if less (pos 0) z then some z else none

-- The supply at which the ratio is the alert line, less what there is. `BigInt` throws where the alert
-- line is no whole number.
unfoldable pub suggested : Bool → Option ℤ → Number → ℤ → Outcome ℤ
suggested false borrow alert current = ok (pos 0)
suggested true none alert current = ok (pos 0)
suggested true (some borrow) alert current = do
  bps ← big_int alert
  ok (excess (over (times borrow bps) 10000) current)

-- `assessHealth`, with the value of the environment
unfoldable pub assess_health : Option Text → Position → Outcome HealthSnapshot
assess_health value p =
    let alert = number_or p.alert_bps (liquidation_alert_bps value) in
    let liquidate = number_or p.liquidate_bps (of_ℕ 11000) in
    let needs = needs_top_up_at p.collateral_ratio_bps alert liquidate in
    suggested needs (positive_or_none p.borrow_balance) alert (or_zero p.supply_balance)
    >>= λ top_up. ok (record {
      collateral_ratio_bps = p.collateral_ratio_bps;
      alert_bps = alert;
      liquidate_bps = liquidate;
      status = status_of p alert;
      needs_top_up = needs;
      suggested_top_up = top_up;
    })
