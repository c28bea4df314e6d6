-- ===== src/Matching/OutcomeLog/Bound.antt =====
-- outcomeLog.ts: the log holds the latest records, up to its bound, and answers for one lead.
use xrpl.Prelude.{
  ◌-◌, ◌≡◌, refl, List, [], ◌∷◌, ◌++◌, arith, length, drop, false, length-append, append-nil,
  append_assoc, ◌<◌, ◌∙◌, ltb, if◌then◌else◌, Bool-cases, inl, inr, latest-push,
}
use xrpl.Js.Text.{Text, same, to_lower_case}
use xrpl.Matching.OutcomeLog.{
  OutcomeRecord, Log, max_entries, append_outcome, get_outcomes_for_lead, get_all_outcomes,
  clear_outcome_log,
}

-- The log after a sequence of appends.
unfoldable pub append_all : List OutcomeRecord → Log → Log
append_all [] log = log
append_all (r ∷ rs) log = append_all rs (append_outcome r log)

-- The last `max_entries` records of a history.
abbrev pub latest : List OutcomeRecord → Log
latest history = drop (length history - max_entries) history

-- The test before `splice` saves only a call that would remove nothing.
append_outcome_lem : (r : OutcomeRecord) (log : Log) → append_outcome r log ≡ latest (log ++ r ∷ [])
unfolding append_outcome
append_outcome_lem r log = elim (Bool-cases (ltb max_entries (length (log ++ r ∷ [])))) [
  | inl over ↦ rw over
  | inr fits ↦
      let none_over : length (log ++ r ∷ []) - max_entries ≡ 0 = ground arith in
      rw (fits, none_over)
]

append_outcome-latest :
    (r : OutcomeRecord) (history : List OutcomeRecord)
    → append_outcome r (latest history) ≡ latest (history ++ r ∷ [])
append_outcome-latest r history =
    append_outcome_lem r (latest history) ∙ latest-push max_entries r history

append_all-latest :
    (rs history : List OutcomeRecord) → append_all rs (latest history) ≡ latest (history ++ rs)
unfolding append_all
append_all-latest [] history = rw append-nil
append_all-latest (r ∷ rs) history =
    rw (append_outcome-latest r history)
      (rw (append_all-latest rs (history ++ r ∷ [])) (rw append_assoc refl))

-- However many outcomes are appended to a cleared log, it holds exactly the last ten thousand of
-- them, in order, and all of them while there are no more.
pub append_all-eq-latest :
    (log : Log) (rs : List OutcomeRecord)
    → get_all_outcomes (append_all rs (clear_outcome_log log)) ≡ latest rs
unfolding get_all_outcomes clear_outcome_log
append_all-eq-latest log rs = append_all-latest rs []

get_outcomes_for_lead-append :
    (lead : Text) (xs ys : Log)
    → get_outcomes_for_lead lead (xs ++ ys)
      ≡ get_outcomes_for_lead lead xs ++ get_outcomes_for_lead lead ys
unfolding get_outcomes_for_lead
get_outcomes_for_lead-append lead [] ys = refl
get_outcomes_for_lead-append lead (x ∷ xs) ys =
    ground (arith, get_outcomes_for_lead-append lead xs ys)

-- While the log has room, an append adds the record behind the outcomes of its own lead, whatever
-- the case of the letters of the address that is asked for, and changes no other lead's outcomes.
pub get_outcomes_for_lead-append_outcome :
    (lead : Text) (r : OutcomeRecord) (log : Log)
    → length log < max_entries
    → get_outcomes_for_lead lead (append_outcome r log) ≡ (
        if same (to_lower_case r.lead) (to_lower_case lead)
        then get_outcomes_for_lead lead log ++ r ∷ []
        else get_outcomes_for_lead lead log)
unfolding append_outcome get_outcomes_for_lead
get_outcomes_for_lead-append_outcome lead r log room =
    let short : ltb max_entries (length (log ++ r ∷ [])) ≡ false =
      ground (arith, length-append log (r ∷ [])) in
    let split = get_outcomes_for_lead-append lead log (r ∷ []) in
    rw short (ground (arith, append-nil (get_outcomes_for_lead lead log)))
