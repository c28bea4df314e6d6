-- ===== src/Agent/Scoring/Range.antt =====
-- scoring.ts: the ranges of the parts of a score.
use xrpl.Prelude.{
  ℕ, zero, suc, ◌*◌, ◌^◌, ◌≤◌, ◌<◌, ◌≡◌, refl, ◌∙◌, ◌⊎◌, inl, inr, Bool, true, false, List, [], ◌∷◌,
  length, Option, arith, ltb, ◌==◌, if◌then◌else◌, Bool-cases,
}
use xrpl.Js.Number.{
  Number, nan, infinite, finite, of_ℕ, round, lt, is_nan, div, max_of, min_of, round_half_up, eq,
}
use xrpl.Agent.Series.{OutcomeEvent, clamp01, mean_of}
use xrpl.Agent.Scoring.{
  Curve, step, drawdown_from, start, max_drawdown, regularity, consistency_score, data_completeness,
  in_window, composite, score_lead, score_from_returns, breakdown_of,
}

-- A number from 0 to 1.
abbrev pub InUnit : Number → Type 0
InUnit x = (a : ℕ) × (s : ℕ) × (x ≡ finite false a s) × (a ≤ 2 ^ s)

pub pow_pos : (s : ℕ) → 1 ≤ 2 ^ s
pow_pos zero = omega arith
pow_pos (suc s) = omega (arith, pow_pos s)

zero_lt : (t : ℕ) → 0 < t → lt (of_ℕ 0) (of_ℕ t) ≡ true
unfolding lt
zero_lt t h = ground arith

-- `Math.max(0, Math.min(t, x))` is one of its ends or lies strictly between them.
clamp-cases :
    (t : ℕ) (x : Number)
    → 0 < t
    → is_nan x ≡ false
    → let z = max_of (of_ℕ 0) (min_of (of_ℕ t) x) in
      (z ≡ of_ℕ 0) ⊎ (z ≡ of_ℕ t) ⊎ ((z ≡ x) × (lt (of_ℕ 0) x ≡ true) × (lt x (of_ℕ t) ≡ true))
unfolding max_of min_of is_nan
clamp-cases t x positive h = elim (Bool-cases (lt x (of_ℕ t))) [
  | inl below ↦ elim (Bool-cases (lt (of_ℕ 0) x)) [
    | inl above ↦ inr (inr (grind (arith, below, above), above, below))
    | inr not_above ↦ inl (grind (arith, below, not_above))
  ]
  | inr not_below ↦ inr (inl (grind (arith, not_below, zero_lt t positive)))
]

-- What lies strictly between 0 and t.
between :
    (t : ℕ) (x : Number)
    → lt (of_ℕ 0) x ≡ true
    → lt x (of_ℕ t) ≡ true
    → (a : ℕ) × (s : ℕ) × (x ≡ finite false a s) × (a < t * 2 ^ s)
unfolding lt
between t nan p q = absurd (ground arith)
between t (infinite true) p q = absurd (ground arith)
between t (infinite false) p q = absurd (ground arith)
between t (finite true a s) p q = absurd (ground arith)
between t (finite false a s) p q = (a, s, refl, ground arith)

pub clamp01-InUnit : (x : Number) → is_nan x ≡ false → InUnit (clamp01 x)
unfolding clamp01
clamp01-InUnit x h = elim (clamp-cases 1 x (omega arith) h) [
  | inl e ↦ (0, 0, e, omega arith)
  | inr (inl e) ↦ (1, 0, e, omega arith)
  | inr (inr (e, p, q)) ↦
      let (a, s, is_x, le) = between 1 x p q in (a, s, e ∙ is_x, omega (arith, le))
]

clamp01-nan : (x : Number) → is_nan x ≡ true → clamp01 x ≡ nan
unfolding clamp01 max_of min_of is_nan
clamp01-nan x h = ground arith

-- A number that is not below zero.
abbrev pub IsNonneg : Number → Type 0
IsNonneg x = (x ≡ infinite false) ⊎ ((a : ℕ) × (s : ℕ) × (x ≡ finite false a s))

above-IsNonneg : (x y : Number) → IsNonneg x → lt x y ≡ true → IsNonneg y
unfolding lt
above-IsNonneg x (infinite false) h p = inl refl
above-IsNonneg x (finite false b t) h p = inr (b, t, refl)
above-IsNonneg x (finite true b t) (inl e) p = absurd (let q = rw e at p in ground arith)
above-IsNonneg x (finite true b t) (inr (a, s, e)) p = absurd (let q = rw e at p in ground arith)
above-IsNonneg x (infinite true) (inl e) p = absurd (let q = rw e at p in ground arith)
above-IsNonneg x (infinite true) (inr (a, s, e)) p = absurd (let q = rw e at p in ground arith)
above-IsNonneg x nan (inl e) p = absurd (let q = rw e at p in ground arith)
above-IsNonneg x nan (inr (a, s, e)) p = absurd (let q = rw e at p in ground arith)

greater-IsNonneg : (x y : Number) → IsNonneg x → IsNonneg (if lt x y then y else x)
greater-IsNonneg x y h = elim (Bool-cases (lt x y)) [
  | inl above ↦ rw above (above-IsNonneg x y h above)
  | inr not_above ↦ rw not_above h
]

step-IsNonneg : (r : Number) (c : Curve) → IsNonneg c.mdd → IsNonneg (step r c).mdd
unfolding step
step-IsNonneg r c h = greater-IsNonneg c.mdd _ h

drawdown_from-IsNonneg :
    (c : Curve) (rs : List Number) → IsNonneg c.mdd → IsNonneg (drawdown_from c rs).mdd
unfolding drawdown_from
drawdown_from-IsNonneg c [] h = h
drawdown_from-IsNonneg c (r ∷ rs) h = drawdown_from-IsNonneg (step r c) rs (step-IsNonneg r c h)

max_drawdown-IsNonneg : (rs : List Number) → IsNonneg (max_drawdown rs)
unfolding max_drawdown
max_drawdown-IsNonneg rs = drawdown_from-IsNonneg start rs (inr (0, 0, refl))

-- A whole number from 0 to 100, or no number.
abbrev pub IsScore : Number → Type 0
IsScore x = (x ≡ nan) ⊎ ((n : ℕ) × (n ≤ 100) × (x ≡ of_ℕ n))

whole_between :
    (minus : Bool) (n : ℕ)
    → lt (of_ℕ 0) (finite minus n 0) ≡ true
    → lt (finite minus n 0) (of_ℕ 100) ≡ true
    → (finite minus n 0 ≡ of_ℕ n) × (n ≤ 100)
unfolding lt
whole_between true n p q = absurd (ground arith)
whole_between false n p q = (refl, ground arith)

-- A rounded number between 0 and 100 is whole.
rounded_between :
    (y : Number)
    → lt (of_ℕ 0) (round_half_up y) ≡ true
    → lt (round_half_up y) (of_ℕ 100) ≡ true
    → (n : ℕ) × (n ≤ 100) × (round_half_up y ≡ of_ℕ n)
unfolding round_half_up
rounded_between nan p q = let (a, s, e, _) = between 100 nan p q in absurd (ground arith)
rounded_between (infinite b) p q =
    let (a, s, e, _) = between 100 (infinite b) p q in absurd (ground arith)
rounded_between (finite true a s) p q = let (e, le) = whole_between true _ p q in (_, le, e)
rounded_between (finite false a s) p q = let (e, le) = whole_between false _ p q in (_, le, e)

max_of-min_of-nan :
    (t : ℕ) (x : Number) → is_nan x ≡ true → max_of (of_ℕ 0) (min_of (of_ℕ t) x) ≡ nan
unfolding max_of min_of is_nan
max_of-min_of-nan t x h = ground arith

score_lem : (y : Number) → IsScore (max_of (of_ℕ 0) (min_of (of_ℕ 100) (round_half_up y)))
score_lem y = elim (Bool-cases (is_nan (round_half_up y))) [
  | inl no_number ↦ inl (max_of-min_of-nan 100 (round_half_up y) no_number)
  | inr number ↦ elim (clamp-cases 100 (round_half_up y) (omega arith) number) [
    | inl e ↦ inr (0, omega arith, e)
    | inr (inl e) ↦ inr (100, omega arith, e)
    | inr (inr (e, p, q)) ↦ let (n, le, is_n) = rounded_between y p q in inr (n, le, e ∙ is_n)
  ]
]

composite-IsScore : (a b c d : Number) → IsScore (composite a b c d)
unfolding composite
composite-IsScore a b c d = score_lem _

-- A quotient of whole numbers by one that is not zero is a number.
div-number : (n d : ℕ) → 0 < d → is_nan (div (of_ℕ n) (of_ℕ d)) ≡ false
unfolding div is_nan round
div-number n d h = ground arith

data_completeness-InUnit :
    (now : Number) (events : List OutcomeEvent) → InUnit (data_completeness now events)
unfolding data_completeness
data_completeness-InUnit now events = elim (Bool-cases (length events == 0)) [
  | inl none_there ↦ rw none_there (0, 0, refl, omega arith)
  | inr some_there ↦
      rw some_there (clamp01-InUnit _ (div-number (length (in_window now events)) 30 (omega arith)))
]

clamp01-cases : (x : Number) → (clamp01 x ≡ nan) ⊎ InUnit (clamp01 x)
clamp01-cases x = elim (Bool-cases (is_nan x)) [
  | inl no_number ↦ inl (clamp01-nan x no_number)
  | inr number ↦ inr (clamp01-InUnit x number)
]

regularity-cases : (gs : List Number) → (regularity gs ≡ nan) ⊎ InUnit (regularity gs)
unfolding regularity
regularity-cases [] = inr (0, 0, refl, omega arith)
regularity-cases (g ∷ gs) = elim (Bool-cases (eq (mean_of (g ∷ gs)) (of_ℕ 0))) [
  | inl zero_mean ↦ rw zero_mean (inr (0, 0, refl, omega arith))
  | inr other ↦ rw other (clamp01-cases _)
]

three_tenths : InUnit (round false 3 10)
unfolding round
three_tenths = (_, _, refl, omega arith)

consistency_score-cases :
    (ts : List Number) → (consistency_score ts ≡ nan) ⊎ InUnit (consistency_score ts)
unfolding consistency_score
consistency_score-cases ts = elim (Bool-cases (ltb (length ts) 3)) [
  | inr many ↦ rw many (regularity-cases _)
  | inl few ↦ elim (Bool-cases (length ts == 0)) [
    | inl none_there ↦ rw (few, none_there) (inr (0, 0, refl, omega arith))
    | inr some_there ↦ rw (few, some_there) (inr three_tenths)
  ]
]

-- Whatever the events, the score is a whole number from 0 to 100 or no number; the drawdown is a
-- number that is not below zero; the completeness is a number from 0 to 1; and the consistency is a
-- number from 0 to 1 or no number.
pub score_lead-range :
    (now : Number) (events : List OutcomeEvent)
    → let b = score_lead now events in
      IsScore b.ai_score
      × IsNonneg b.max_drawdown
      × InUnit b.data_completeness
      × ((b.consistency ≡ nan) ⊎ InUnit b.consistency)
unfolding score_lead breakdown_of
score_lead-range now events = (
  composite-IsScore _ _ _ _,
  max_drawdown-IsNonneg _,
  data_completeness-InUnit now _,
  consistency_score-cases _,
)

-- The same holds of a score that is made from returns and times: the score is a whole number from 0 to
-- 100 or no number, the drawdown is not below zero, the completeness is a number from 0 to 1, and the
-- consistency is a number from 0 to 1 or no number.
pub score_from_returns-range :
    (returns timestamps : List Number) (count : ℕ) (now : Option Number) (clock : Number)
    → let b = score_from_returns returns timestamps count now clock in
      IsScore b.ai_score
      × IsNonneg b.max_drawdown
      × InUnit b.data_completeness
      × ((b.consistency ≡ nan) ⊎ InUnit b.consistency)
unfolding score_from_returns breakdown_of
score_from_returns-range returns timestamps count now clock = (
  composite-IsScore _ _ _ _,
  max_drawdown-IsNonneg _,
  data_completeness-InUnit _ _,
  consistency_score-cases _,
)
