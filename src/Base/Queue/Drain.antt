-- ===== src/Base/Queue/Drain.antt =====
-- server.ts: a queue of `serialize` can always finish, and has then run its jobs one after the other.
use xrpl.Prelude.{
  ℕ, zero, suc, ◌+◌, ◌≤◌, ◌<◌, ◌≡◌, refl, ap, sym, subst, ◌⊎◌, inl, inr, true, List, [], ◌∷◌,
  Option, none, some, arith,
}
use xrpl.Base.Queue.{
  Job, Call, waiting, running, settled, Event, started, ended, Queue, start_at, end_at, step, steps,
}
use xrpl.Base.Queue.Order.{InOrder, step-InOrder, steps-InOrder}

module _ {S R : Type 0} where
  abbrev job_of : Call S R → Job S R
  job_of (waiting j) = j
  job_of (running j) = j
  job_of (settled j r) = j

  -- The jobs of the calls.
  unfoldable pub jobs : List (Call S R) → List (Job S R)
  jobs [] = []
  jobs (c ∷ cs) = job_of c ∷ jobs cs

  -- The specification: the jobs, run one after the other, with what each gives.
  unfoldable pub in_sequence : List (Job S R) → S → List R × S
  in_sequence [] s = ([], s)
  in_sequence (j ∷ js) s = let out = in_sequence js (j s).1 in ((j s).0 ∷ out.0, out.1)

  -- What the calls have settled with, if they all have.
  unfoldable pub results : List (Call S R) → Option (List R)
  results [] = some []
  results (waiting j ∷ cs) = none
  results (running j ∷ cs) = none
  results (settled j r ∷ cs) = elim (results cs) [ none ↦ none | some rs ↦ some (r ∷ rs) ]

  abbrev AllSettled : List (Call S R) → Type 0
  AllSettled [] = Unit
  AllSettled (waiting j ∷ cs) = ⊥
  AllSettled (running j ∷ cs) = ⊥
  AllSettled (settled j r ∷ cs) = AllSettled cs

  -- How many starts and ends are left.
  unfoldable left : List (Call S R) → ℕ
  left [] = 0
  left (waiting j ∷ cs) = 2 + left cs
  left (running j ∷ cs) = 1 + left cs
  left (settled j r ∷ cs) = left cs

  -- Nothing is left, or a start or an end can happen, after which less is left.
  abbrev Progress : List (Call S R) → S → Type 0
  Progress cs t =
      AllSettled cs
      ⊎ ((i : ℕ) × (ds : List (Call S R)) × (start_at i true cs ≡ some ds)
          × (jobs ds ≡ jobs cs)
          × (left ds < left cs))
      ⊎ ((i : ℕ) × (out : List (Call S R) × S) × (end_at i t cs ≡ some out)
          × (jobs out.0 ≡ jobs cs)
          × (left out.0 < left cs))

  progress : (s t : S) (cs : List (Call S R)) → InOrder s cs t → Progress cs t
  unfolding start_at end_at jobs left
  progress s t [] h = inl tt
  progress s t (waiting j ∷ cs) h = inr (inl (0, running j ∷ cs, refl, refl, omega arith))
  progress s t (running j ∷ cs) h =
      inr (inr (0, (settled j (j t).0 ∷ cs, (j t).1), refl, refl, omega arith))
  progress s t (settled j r ∷ cs) (e, h) = elim (progress (j s).1 t cs h) [
    | inl done ↦ inl done
    | inr (inl (i, ds, found, same_jobs, less)) ↦
        inr (inl (suc i, settled j r ∷ ds, rw found refl, ap (λ js. j ∷ js) same_jobs, less))
    | inr (inr (i, out, found, same_jobs, less)) ↦ inr (
        inr (suc i, (settled j r ∷ out.0, out.1), rw found refl, ap (λ js. j ∷ js) same_jobs, less))
  ]

  -- Where all have settled in order, the calls are the jobs in sequence.
  settled-in_sequence :
      (s t : S) (cs : List (Call S R))
      → InOrder s cs t
      → AllSettled cs
      → (results cs ≡ some (in_sequence (jobs cs) s).0) × (t ≡ (in_sequence (jobs cs) s).1)
  unfolding results in_sequence jobs
  settled-in_sequence s t [] h done = (refl, sym h)
  settled-in_sequence s t (waiting j ∷ cs) h done = absurd done
  settled-in_sequence s t (running j ∷ cs) h done = absurd done
  settled-in_sequence s t (settled j r ∷ cs) (e, h) done =
      let (rest, last) = settled-in_sequence (j s).1 t cs h done in (rw (rest, e) refl, last)

  -- A sequence of starts and ends after which all calls have settled as the specification says.
  abbrev pub Drains : S → Queue S R → Type 0
  Drains s q =
      (es : List (Event S R)) × (q' : Queue S R) × (steps es q ≡ some q')
      × (results q'.calls ≡ some (in_sequence (jobs q.calls) s).0)
      × (q'.state ≡ (in_sequence (jobs q.calls) s).1)

  one_more :
      (s : S) (e : Event S R) (q q' : Queue S R)
      → step e q ≡ some q'
      → jobs q'.calls ≡ jobs q.calls
      → Drains s q'
      → Drains s q
  unfolding steps
  one_more s e q q' happens same_jobs (es, last, run, all_results, state) = (
    e ∷ es,
    last,
    rw (happens, steps) run,
    subst (λ js. results last.calls ≡ some (in_sequence js s).0) same_jobs all_results,
    subst (λ js. last.state ≡ (in_sequence js s).1) same_jobs state,
  )

  drained : (s : S) (q : Queue S R) → InOrder s q.calls q.state → AllSettled q.calls → Drains s q
  unfolding steps
  drained s q h done =
      let (all_results, state) = settled-in_sequence s q.state q.calls h done in
      ([], q, refl, all_results, state)

  drain_from :
      (n : ℕ) (s : S) (q : Queue S R) → InOrder s q.calls q.state → left q.calls ≤ n → Drains s q
  unfolding step
  drain_from zero s q h bound = elim (progress s q.state q.calls h) [
    | inl done ↦ drained s q h done
    | inr (inl (_, _, _, _, less)) ↦ absurd (omega (arith, less))
    | inr (inr (_, _, _, _, less)) ↦ absurd (omega (arith, less))
  ]
  drain_from (suc n) s q h bound = elim (progress s q.state q.calls h) [
    | inl done ↦ drained s q h done
    | inr (inl (i, ds, found, same_jobs, less)) ↦
        let q' : Queue S R = record { calls = ds; state = q.state } in
        let happens : step (started i) q ≡ some q' = rw found refl in
        one_more s (started i) q q' happens same_jobs
          (drain_from n s q' (step-InOrder (started i) s q q' h happens) (omega (arith, less)))
    | inr (inr (i, out, found, same_jobs, less)) ↦
        let q' : Queue S R = record { calls = out.0; state = out.1 } in
        let happens : step (ended i) q ≡ some q' = rw found refl in
        one_more s (ended i) q q' happens same_jobs
          (drain_from n s q' (step-InOrder (ended i) s q q' h happens) (omega (arith, less)))
  ]

  -- From whatever queue the interleaving of calls, starts and ends has led to, starts and ends can follow
  -- after which every call has settled; the results and the state are then those of the jobs run one
  -- after the other in the order of the calls.
  pub steps-drain :
      (es : List (Event S R)) (s : S) (q : Queue S R)
      → steps es (record { calls = []; state = s }) ≡ some q
      → Drains s q
  steps-drain es s q h = drain_from (left q.calls) s q (steps-InOrder es s q h) (omega arith)
