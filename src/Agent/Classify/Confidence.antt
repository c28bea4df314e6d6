-- ===== src/Agent/Classify/Confidence.antt =====
-- classify.ts: the confidence of a classification, and the leads that only buy or only sell.
use xrpl.Prelude.{
  ℕ, suc, ◌≤◌, ◌≡◌, refl, ap, ◌∙◌, inl, inr, Bool, true, false, ◌&&◌, List, [], ◌∷◌, some, length,
  all, leb, arith, All, Bool-cases,
}
use xrpl.Js.Number.{Number, of_ℕ, round, lt, le, eq, is_nan, neg, add, sub}
use xrpl.Agent.Series.{OutcomeEvent, insert_by, sort_by}
use xrpl.Agent.Scoring.Range.{InUnit, clamp01-InUnit}
use xrpl.Agent.Classify.{momentum, signed, direction_series, all_same, decide, classify_lead}
use xrpl.Matching.OutcomeLog.{Direction, buy, sell}

le-number_right : (x y : Number) → le x y ≡ true → is_nan y ≡ false
unfolding le
le-number_right x y h = ground arith

le-number_left : (x y : Number) → le x y ≡ true → is_nan x ≡ false
unfolding le
le-number_left x y h = ground arith

lt-number_left : (x y : Number) → lt x y ≡ true → is_nan x ≡ false
unfolding lt is_nan
lt-number_left x y h = ground arith

neg-number : (x : Number) → is_nan x ≡ false → is_nan (neg x) ≡ false
unfolding neg is_nan
neg-number x h = ground arith

sub-number : (x : Number) → is_nan x ≡ false → is_nan (sub (of_ℕ 1) x) ≡ false
unfolding sub add neg is_nan round
sub-number x h = ground arith

nine_tenths : InUnit (round false 9 10)
unfolding round
nine_tenths = (_, _, refl, omega arith)

thirty_five : InUnit (round false 35 100)
unfolding round
thirty_five = (_, _, refl, omega arith)

decide-InUnit :
    (count : ℕ) (one_way : Bool) (autocorr size_cv mean_abs : Number)
    → InUnit (decide count one_way autocorr size_cv mean_abs).1
unfolding decide
decide-InUnit count one_way autocorr size_cv mean_abs = elim (Bool-cases (one_way && leb 3 count)) [
  | inl same ↦ rw same nine_tenths
  | inr mixed ↦ elim (Bool-cases (le (round false 25 100) autocorr)) [
    | inl high ↦ rw (mixed, high) (clamp01-InUnit autocorr (le-number_right _ autocorr high))
    | inr not_high ↦ elim (Bool-cases (le autocorr (round true 15 100))) [
      | inl low ↦
          rw (mixed, not_high, low)
            (clamp01-InUnit (neg autocorr) (neg-number autocorr (le-number_left autocorr _ low)))
      | inr not_low ↦ elim (Bool-cases (lt size_cv (round false 25 100))) [
        | inr wide ↦ rw (mixed, not_high, not_low, wide) thirty_five
        | inl narrow ↦
            let steady =
              clamp01-InUnit (sub (of_ℕ 1) size_cv)
                (sub-number size_cv (lt-number_left size_cv _ narrow)) in
            elim (Bool-cases (lt mean_abs (of_ℕ 80) && leb 5 count)) [
              | inl small ↦ rw (mixed, not_high, not_low, narrow, small) steady
              | inr large ↦ rw (mixed, not_high, not_low, narrow, large) thirty_five
            ]
      ]
    ]
  ]
]

-- The confidence of a classification is a number from 0 to 1, whatever the events.
pub classify_lead-InUnit : (events : List OutcomeEvent) → InUnit (classify_lead events).confidence
unfolding classify_lead
classify_lead-InUnit events = decide-InUnit _ _ _ _ _

module _ {A : Type 0} (key : A → Number) (P : A → Type 0) where
  insert_by-All : (x : A) (xs : List A) → P x → All P xs → All P (insert_by key x xs)
  unfolding insert_by
  insert_by-All x [] p h = (p, tt)
  insert_by-All x (y ∷ ys) p h = elim (Bool-cases (lt (key y) (key x))) [
    | inl before ↦ rw before (h.0, insert_by-All x ys p h.1)
    | inr after ↦ rw after (p, h)
  ]

  sort_by-All : (xs : List A) → All P xs → All P (sort_by key xs)
  unfolding sort_by
  sort_by-All [] h = tt
  sort_by-All (x ∷ xs) h = insert_by-All x (sort_by key xs) h.0 (sort_by-All xs h.1)

module _ {A : Type 0} (key : A → Number) where
  length-insert_by : (x : A) (xs : List A) → length (insert_by key x xs) ≡ suc (length xs)
  unfolding insert_by
  length-insert_by x [] = refl
  length-insert_by x (y ∷ ys) = ground (arith, length-insert_by x ys)

  length-sort_by : (xs : List A) → length (sort_by key xs) ≡ length xs
  unfolding sort_by
  length-sort_by [] = refl
  length-sort_by (x ∷ xs) = length-insert_by x (sort_by key xs) ∙ ap suc (length-sort_by xs)

abbrev Goes : Direction → OutcomeEvent → Type 0
Goes d e = signed e.direction ≡ signed (some d)

eq-signed : (d : Direction) → eq (signed (some d)) (signed (some d)) ≡ true
unfolding eq le lt is_nan
eq-signed buy = refl
eq-signed sell = refl

all_same_from :
    (d : Direction) (x : Number) (es : List OutcomeEvent)
    → x ≡ signed (some d)
    → All (Goes d) es
    → all (λ y. eq y x) (direction_series es) ≡ true
unfolding direction_series
all_same_from d x [] p h = refl
all_same_from d x (e ∷ es) p h =
    let first : eq (signed e.direction) x ≡ true = rw (p, h.0) (eq-signed d) in
    grind (arith, first, all_same_from d x es p h.1)

all_same-series :
    (d : Direction) (es : List OutcomeEvent)
    → 3 ≤ length es
    → All (Goes d) es
    → all_same (direction_series es) ≡ true
unfolding all_same direction_series
all_same-series d [] n h = absurd (omega arith)
all_same-series d (e ∷ es) n h = all_same_from d (signed e.direction) (e ∷ es) h.0 h

-- A lead with at least three events that all go one way, in whatever order they come, is classified
-- as momentum with confidence 0.9.
pub classify_lead-one_way :
    (d : Direction) (events : List OutcomeEvent)
    → 3 ≤ length events
    → All (λ e. signed e.direction ≡ signed (some d)) events
    → ((classify_lead events).strategy ≡ momentum)
      × ((classify_lead events).confidence ≡ round false 9 10)
unfolding classify_lead decide
classify_lead-one_way d events n h =
    let sorted = sort_by (λ e. e.timestamp) events in
    let count = length-sort_by (λ e. e.timestamp) events in
    let one_way =
      all_same-series d sorted (omega (arith, count))
        (sort_by-All (λ e. e.timestamp) (Goes d) events h) in
    let many : leb 3 (length sorted) ≡ true = ground (arith, count) in
    (rw (one_way, many) refl, rw (one_way, many) refl)
