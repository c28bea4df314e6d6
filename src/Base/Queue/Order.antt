-- ===== src/Base/Queue/Order.antt =====
-- server.ts: jobs of `serialize` never overlap, and settle in the order of the calls.
use xrpl.Prelude.{
  ℕ, zero, suc, ◌≡◌, refl, ap, sym, Bool, true, false, List, [], ◌∷◌, ◌++◌, none, some, arith,
  Option-cases, inl, inr,
}
use xrpl.Base.Queue.{
  Job, Call, waiting, running, settled, Event, called, started, ended, Queue, start_at, end_at,
  step, steps,
}

module _ {S R : Type 0} where
  abbrev pub AllWaiting : List (Call S R) → Type 0
  AllWaiting [] = Unit
  AllWaiting (waiting j ∷ cs) = AllWaiting cs
  AllWaiting (running j ∷ cs) = ⊥
  AllWaiting (settled j r ∷ cs) = ⊥

  -- From the state `s`: calls that have settled, each with what its job gives on the state that the
  -- one before left; then at most one that runs; then calls that wait. The state is that of the jobs
  -- that have settled.
  abbrev pub InOrder : S → List (Call S R) → S → Type 0
  InOrder s [] s' = s ≡ s'
  InOrder s (waiting j ∷ cs) s' = AllWaiting cs × (s ≡ s')
  InOrder s (running j ∷ cs) s' = AllWaiting cs × (s ≡ s')
  InOrder s (settled j r ∷ cs) s' = (r ≡ (j s).0) × InOrder (j s).1 cs s'

  InOrder-AllWaiting : (s s' : S) (cs : List (Call S R)) → AllWaiting cs → s ≡ s' → InOrder s cs s'
  InOrder-AllWaiting s s' [] w e = e
  InOrder-AllWaiting s s' (waiting j ∷ cs) w e = (w, e)
  InOrder-AllWaiting s s' (running j ∷ cs) w e = absurd w
  InOrder-AllWaiting s s' (settled j r ∷ cs) w e = absurd w

  AllWaiting-append :
      (j : Job S R) (cs : List (Call S R)) → AllWaiting cs → AllWaiting (cs ++ waiting j ∷ [])
  AllWaiting-append j [] w = tt
  AllWaiting-append j (waiting k ∷ cs) w = AllWaiting-append j cs w
  AllWaiting-append j (running k ∷ cs) w = absurd w
  AllWaiting-append j (settled k r ∷ cs) w = absurd w

  InOrder-append :
      (j : Job S R) (s s' : S) (cs : List (Call S R))
      → InOrder s cs s'
      → InOrder s (cs ++ waiting j ∷ []) s'
  InOrder-append j s s' [] h = (tt, h)
  InOrder-append j s s' (waiting k ∷ cs) (w, e) = (AllWaiting-append j cs w, e)
  InOrder-append j s s' (running k ∷ cs) (w, e) = (AllWaiting-append j cs w, e)
  InOrder-append j s s' (settled k r ∷ cs) (p, h) = (p, InOrder-append j (k s).1 s' cs h)

  -- Where nothing has settled, nothing starts and nothing ends.
  start_at-AllWaiting : (i : ℕ) (cs : List (Call S R)) → AllWaiting cs → start_at i false cs ≡ none
  unfolding start_at
  start_at-AllWaiting i [] w = refl
  start_at-AllWaiting zero (waiting j ∷ cs) w = refl
  start_at-AllWaiting (suc i) (waiting j ∷ cs) w = rw (start_at-AllWaiting i cs w) refl
  start_at-AllWaiting i (running j ∷ cs) w = absurd w
  start_at-AllWaiting i (settled j r ∷ cs) w = absurd w

  end_at-AllWaiting : (i : ℕ) (s : S) (cs : List (Call S R)) → AllWaiting cs → end_at i s cs ≡ none
  unfolding end_at
  end_at-AllWaiting i s [] w = refl
  end_at-AllWaiting zero s (waiting j ∷ cs) w = refl
  end_at-AllWaiting (suc i) s (waiting j ∷ cs) w = rw (end_at-AllWaiting i s cs w) refl
  end_at-AllWaiting i s (running j ∷ cs) w = absurd w
  end_at-AllWaiting i s (settled j r ∷ cs) w = absurd w

  start_at-InOrder :
      (i : ℕ) (before : Bool) (s s' : S) (cs ds : List (Call S R))
      → InOrder s cs s'
      → start_at i before cs ≡ some ds
      → InOrder s ds s'
  unfolding start_at
  start_at-InOrder i before s s' [] ds h e = absurd (ground arith)
  start_at-InOrder zero true s s' (waiting j ∷ cs) ds h e =
      let is_ds : ds ≡ running j ∷ cs = ground arith in rw is_ds h
  start_at-InOrder zero false s s' (waiting j ∷ cs) ds h e = absurd (ground arith)
  start_at-InOrder zero before s s' (running j ∷ cs) ds h e = absurd (ground arith)
  start_at-InOrder zero before s s' (settled j r ∷ cs) ds h e = absurd (ground arith)
  start_at-InOrder (suc i) before s s' (waiting j ∷ cs) ds h e =
      let stuck = start_at-AllWaiting i cs h.0 in absurd (ground arith)
  start_at-InOrder (suc i) before s s' (running j ∷ cs) ds h e =
      let stuck = start_at-AllWaiting i cs h.0 in absurd (ground arith)
  start_at-InOrder (suc i) before s s' (settled j r ∷ cs) ds h e =
      elim (Option-cases (start_at i true cs)) [
        | inl stuck ↦ absurd (ground arith)
        | inr (rest, found) ↦
            let is_ds : ds ≡ settled j r ∷ rest = ground arith in
            rw is_ds (h.0, start_at-InOrder i true (j s).1 s' cs rest h.1 found)
      ]

  end_at-InOrder :
      (i : ℕ) (s s' : S) (cs : List (Call S R)) (out : List (Call S R) × S)
      → InOrder s cs s'
      → end_at i s' cs ≡ some out
      → InOrder s out.0 out.1
  unfolding end_at
  end_at-InOrder i s s' [] out h e = absurd (ground arith)
  end_at-InOrder zero s s' (waiting j ∷ cs) out h e = absurd (ground arith)
  end_at-InOrder zero s s' (running j ∷ cs) out h e =
      let is_out : out ≡ (settled j (j s').0 ∷ cs, (j s').1) = ground arith in
      rw is_out (
        ap (λ t. (j t).0) (sym h.1),
        InOrder-AllWaiting (j s).1 (j s').1 cs h.0 (ap (λ t. (j t).1) h.1),
      )
  end_at-InOrder zero s s' (settled j r ∷ cs) out h e = absurd (ground arith)
  end_at-InOrder (suc i) s s' (waiting j ∷ cs) out h e =
      let stuck = end_at-AllWaiting i s' cs h.0 in absurd (ground arith)
  end_at-InOrder (suc i) s s' (running j ∷ cs) out h e =
      let stuck = end_at-AllWaiting i s' cs h.0 in absurd (ground arith)
  end_at-InOrder (suc i) s s' (settled j r ∷ cs) out h e = elim (Option-cases (end_at i s' cs)) [
    | inl stuck ↦ absurd (ground arith)
    | inr (rest, found) ↦
        let is_out : out ≡ (settled j r ∷ rest.0, rest.1) = ground arith in
        rw is_out (h.0, end_at-InOrder i (j s).1 s' cs rest h.1 found)
  ]

  pub step-InOrder :
      (e : Event S R) (s : S) (q q' : Queue S R)
      → InOrder s q.calls q.state
      → step e q ≡ some q'
      → InOrder s q'.calls q'.state
  unfolding step
  step-InOrder (called j) s q q' h p =
      let is_q : q' ≡ record { calls = q.calls ++ waiting j ∷ []; state = q.state } =
        ground arith in
      rw is_q (InOrder-append j s q.state q.calls h)
  step-InOrder (started i) s q q' h p = elim (Option-cases (start_at i true q.calls)) [
    | inl stuck ↦ absurd (ground arith)
    | inr (cs, found) ↦
        let is_q : q' ≡ record { calls = cs; state = q.state } = ground arith in
        rw is_q (start_at-InOrder i true s q.state q.calls cs h found)
  ]
  step-InOrder (ended i) s q q' h p = elim (Option-cases (end_at i q.state q.calls)) [
    | inl stuck ↦ absurd (ground arith)
    | inr (out, found) ↦
        let is_q : q' ≡ record { calls = out.0; state = out.1 } = ground arith in
        rw is_q (end_at-InOrder i s q.state q.calls out h found)
  ]

  pub steps-from :
      (es : List (Event S R)) (s : S) (q q' : Queue S R)
      → InOrder s q.calls q.state
      → steps es q ≡ some q'
      → InOrder s q'.calls q'.state
  unfolding steps
  steps-from [] s q q' h p = let is_q : q' ≡ q = ground arith in rw is_q h
  steps-from (e ∷ es) s q q' h p = elim (Option-cases (step e q)) [
    | inl stuck ↦ absurd (ground arith)
    | inr (next, found) ↦
        let rest : steps es next ≡ some q' = grind (arith, found) in
        steps-from es s next q' (step-InOrder e s q next h found) rest
  ]

  -- However calls, starts and ends of jobs interleave, from an empty queue: the calls that have settled
  -- come first, in the order of the calls, each with what its job gives on the state that the one
  -- before left, whether it returned or threw; behind them at most one job runs; the others wait; and
  -- the state is the one that the last settled job left.
  pub steps-InOrder :
      (es : List (Event S R)) (s : S) (q : Queue S R)
      → steps es (record { calls = []; state = s }) ≡ some q
      → InOrder s q.calls q.state
  steps-InOrder es s q p = steps-from es s (record { calls = []; state = s }) q refl p
