-- ===== src/Watch/Health/Alerts.antt =====
-- health-monitor.ts: when a cycle sends an alert, and how the monitor ends.
use xrpl.Prelude.{
  ◌++◌, some, ℕ, ◌≡◌, refl, sym, ap, ◌∙◌, Bool, true, false, List, ◌∷◌, Option, none, arith,
  if◌then◌else◌, inl, inr, Bool-cases, subst,
}
use xrpl.Js.Text.{Text, lit}
use xrpl.Js.Number.{of_ℕ, is_finite, Number, lt}
use xrpl.Js.BigInt.{ℤ, pos, number_of}
use xrpl.Js.Outcome.{ok}
use xrpl.Js.Task.{Run}
use xrpl.Js.Task.Returns.{
  Returns, Returns-pure, Returns-bind, Returns-test, Returns-lift, Returns-perform, Returns-world,
}
use xrpl.Agent.Health.{
  HealthSnapshot, assess_health, liquidation_alert_bps, suggested, status_of, needs_top_up_at,
}
use xrpl.Agent.Drift.{finite_or}
use xrpl.Js.Number.Read.{to_number}
use xrpl.Js.Number.Show.{decimal, number_text}
use xrpl.Watch.Loop.{WatchAct, alerted, asked_pool}
use xrpl.Watch.Health.{Ward, position_of, is_risk, risk_message, alert_if_risk, watch_position}

suggested-none :
    (b : Bool) (alert : Number) (current : ℤ) → suggested b none alert current ≡ ok (pos 0)
unfolding suggested
suggested-none true alert current = refl
suggested-none false alert current = refl

is_risk-status_of :
    (cr liq : ℕ) (alert : Number)
    → is_risk (status_of (position_of cr liq) alert) ≡ lt (number_of (pos cr)) alert
unfolding status_of
is_risk-status_of cr liq alert = elim (Bool-cases (lt (number_of (pos cr)) alert)) [
  | inl below ↦ rw below refl
  | inr above ↦ rw above refl
]

ok_inj : {A : Type 0} {a b : A} → ok a ≡ ok b → a ≡ b
ok_inj {a} {b} h = ground arith

-- What the monitor assesses, with an alert line.
abbrev pub snapshot : ℕ → ℕ → Number → HealthSnapshot
snapshot cr liq alert = record {
  collateral_ratio_bps = number_of (pos cr);
  alert_bps = alert;
  liquidate_bps = number_of (pos liq);
  status = status_of (position_of cr liq) alert;
  needs_top_up = needs_top_up_at (number_of (pos cr)) alert (number_of (pos liq));
  suggested_top_up = pos 0;
}

assess_health-position :
    (value : Option Text) (cr liq : ℕ)
    → assess_health value (position_of cr liq) ≡ ok (snapshot cr liq (liquidation_alert_bps value))
unfolding assess_health
assess_health-position value cr liq =
    let alert = liquidation_alert_bps value in
    let nothing =
      suggested-none (needs_top_up_at (number_of (pos cr)) alert (number_of (pos liq))) alert
        (pos 0) in
    rw (assess_health, nothing) refl

-- A finite number that the environment gives, or 13000.
abbrev pub line_of : Option Text → Number
line_of none = of_ℕ 13000
line_of (some t) = if is_finite (to_number t) then to_number t else of_ℕ 13000

line_of-eq : (value : Option Text) → line_of value ≡ liquidation_alert_bps value
unfolding liquidation_alert_bps finite_or
line_of-eq none = refl
line_of-eq (some t) = refl

module _ {W : Type 0} (h : Ward W) where
  abbrev alert_line : Number
  alert_line = liquidation_alert_bps (h.env (lit "LIQUIDATION_ALERT_BPS"))

  -- The two reads of a cycle, and what is alerted.
  abbrev pub reads : List WatchAct → List WatchAct
  reads before =
      asked_pool (lit "liquidationThresholdBps") ∷ asked_pool (lit "getCollateralRatioBps") ∷ before

  -- What a cycle has done that found this ratio, with this alert line.
  abbrev pub HasAlerted : Text → ℕ → Number → List WatchAct → List WatchAct → Type 0
  HasAlerted lead cr line before acts = acts ≡ (
      if lt (number_of (pos cr)) line
      then alerted (lit "liquidation_risk") lead
          (lit "CR " ++ decimal cr ++ lit " below alert " ++ number_text line)
        ∷ reads before
      else reads before)

  watch_position-at_line :
      (lead : Text) (i : ℕ) (r s : Run W WatchAct)
      → Returns (watch_position h lead i) r tt s
      → (cr : ℕ) × ((h.collateral_ratio_bps r.world).0 ≡ ok cr)
        × HasAlerted lead cr alert_line r.acts s.acts
  unfolding watch_position alert_if_risk
  watch_position-at_line lead i r s h₀ = Returns-bind h₀ λ cr r₁ read₁ h₁.
      Returns-bind h₁ λ liq r₂ read₂ h₂. Returns-bind h₂ λ health r₃ assessed h₃.
        let (is_health, same_run) =
          Returns-lift (assess_health (h.env (lit "LIQUIDATION_ALERT_BPS")) (position_of cr liq))
            assessed in
        let health_is : snapshot cr liq alert_line ≡ health =
          ok_inj (
            sym (assess_health-position (h.env (lit "LIQUIDATION_ALERT_BPS")) cr liq)
            ∙ is_health) in
        let acts₁ = Returns-perform _ _ read₁ in
        let acts₂ = Returns-perform _ _ read₂ in
        let acts₃ : r₃.acts ≡ reads r.acts = cc (same_run, acts₁, acts₂) in
        let again : Returns (alert_if_risk h lead cr (snapshot cr liq alert_line)) r₃ tt s =
          subst (λ x. Returns (alert_if_risk h lead cr x) r₃ tt s) (sym health_is) h₃ in
        let alert : WatchAct =
          alerted (lit "liquidation_risk") lead (risk_message cr (snapshot cr liq alert_line)) in
        let risk = is_risk-status_of cr liq alert_line in
        (
          cr,
          ap (λ x. x.0) (Returns-world _ _ read₁),
          elim (Returns-test (is_risk (status_of (position_of cr liq) alert_line)) again) [
            | inl (yes_risk, sent) ↦
                rw (sym risk ∙ yes_risk) (Returns-perform _ _ sent ∙ ap (λ l. alert ∷ l) acts₃)
            | inr (no_risk, quiet) ↦
                rw (sym risk ∙ no_risk) (ap (λ x. x.acts) (sym (Returns-pure quiet).1) ∙ acts₃)
          ],
        )

  alert_line-eq : line_of (h.env (lit "LIQUIDATION_ALERT_BPS")) ≡ alert_line
  alert_line-eq = line_of-eq (h.env (lit "LIQUIDATION_ALERT_BPS"))

  -- A cycle that returns has asked the pool for the ratio and then for the threshold, and has sent an
  -- alert exactly where the ratio that the pool answered is below the alert line, which is the number
  -- that the environment gives or 13000, with that ratio and the line in its message.
  pub watch_position-alerts :
      (lead : Text) (i : ℕ) (r s : Run W WatchAct)
      → Returns (watch_position h lead i) r tt s
      → (cr : ℕ) × ((h.collateral_ratio_bps r.world).0 ≡ ok cr)
        × HasAlerted lead cr (line_of (h.env (lit "LIQUIDATION_ALERT_BPS"))) r.acts s.acts
  watch_position-alerts lead i r s h₀ =
      let (cr, is_cr, acts) = watch_position-at_line lead i r s h₀ in
      (cr, is_cr, subst (λ x. HasAlerted lead cr x r.acts s.acts) (sym alert_line-eq) acts)
