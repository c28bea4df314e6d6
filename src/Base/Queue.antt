-- ===== src/Base/Queue.antt =====
-- fce-matching-engine/typescript/src/base/server.ts, and the same file of fce-ai-agent: `serialize`,
-- which chains the jobs of the server by promises.
pub mod Order
pub mod Drain
use xrpl.Prelude.{ℕ, zero, suc, Bool, true, false, List, [], ◌∷◌, ◌++◌, Option, none, some}

-- A job runs on the state and settles, with what it returns or throws, which `R` holds both ways.
abbrev pub Job : Type 0 → Type 0 → Type 0
Job S R = S → R × S

-- A call of `serialize`: its job waits for the promise of the call before, runs, or has settled.
pub data Call (S R : Type 0) : Type 0 where
  waiting : Job S R → Call S R
  running : Job S R → Call S R
  settled : Job S R → R → Call S R

-- What happens: a call, the start of the job of the i-th call, or its end.
pub data Event (S R : Type 0) : Type 0 where
  called : Job S R → Event S R
  started : ℕ → Event S R
  ended : ℕ → Event S R

pub record Queue (S R : Type 0) : Type 0 where
  pub calls : List (Call S R)
  pub state : S

module _ {S R : Type 0} where
  abbrev pub is_settled : Call S R → Bool
  is_settled (waiting _) = false
  is_settled (running _) = false
  is_settled (settled _ _) = true

  abbrev behind : Call S R → Option (List (Call S R)) → Option (List (Call S R))
  behind c none = none
  behind c (some cs) = some (c ∷ cs)

  -- The i-th job starts: its promise is chained to the one before, which must have settled, with
  -- either outcome. `none` where the event cannot happen.
  unfoldable pub start_at : ℕ → Bool → List (Call S R) → Option (List (Call S R))
  start_at i before [] = none
  start_at zero true (waiting j ∷ cs) = some (running j ∷ cs)
  start_at zero false (waiting j ∷ cs) = none
  start_at zero before (running j ∷ cs) = none
  start_at zero before (settled j r ∷ cs) = none
  start_at (suc i) before (c ∷ cs) = behind c (start_at i (is_settled c) cs)

  abbrev behind_end : Call S R → Option (List (Call S R) × S) → Option (List (Call S R) × S)
  behind_end c none = none
  behind_end c (some (cs, s)) = some (c ∷ cs, s)

  -- The i-th job ends, and leaves its state.
  unfoldable pub end_at : ℕ → S → List (Call S R) → Option (List (Call S R) × S)
  end_at i s [] = none
  end_at zero s (waiting j ∷ cs) = none
  end_at zero s (running j ∷ cs) = some (settled j (j s).0 ∷ cs, (j s).1)
  end_at zero s (settled j r ∷ cs) = none
  end_at (suc i) s (c ∷ cs) = behind_end c (end_at i s cs)

  abbrev with_calls : S → Option (List (Call S R)) → Option (Queue S R)
  with_calls s none = none
  with_calls s (some cs) = some (record { calls = cs; state = s })

  abbrev with_end : Option (List (Call S R) × S) → Option (Queue S R)
  with_end none = none
  with_end (some (cs, s)) = some (record { calls = cs; state = s })

  unfoldable pub step : Event S R → Queue S R → Option (Queue S R)
  step (called j) q = some (record { calls = q.calls ++ waiting j ∷ []; state = q.state })
  step (started i) q = with_calls q.state (start_at i true q.calls)
  step (ended i) q = with_end (end_at i q.state q.calls)

  -- The queue after a sequence of events, if they can happen in this order.
  unfoldable pub steps : List (Event S R) → Queue S R → Option (Queue S R)
  steps [] q = some q
  steps (e ∷ es) q = elim (step e q) [ none ↦ none | some q' ↦ steps es q' ]
