-- ===== src/Agent/Drift/History.antt =====
-- drift.ts: what the history holds, and what counts as drift.
use xrpl.Prelude.{◌≡◌, refl, List, [], ◌∷◌, ◌++◌, map, append-nil, append_assoc}
use xrpl.Js.Text.{Text}
use xrpl.Js.Number.{Number}
use xrpl.Agent.Series.{OutcomeEvent}
use xrpl.Agent.Drift.{
  DriftResult, History, drift_of, detect_drift, get_drift_history, reset_drift_history,
}

-- The arguments of one detection.
pub record Detection : Type 0 where
  pub lead : Text
  pub baseline : Number
  pub events : List OutcomeEvent
  pub cycle : Number
  pub threshold : Number

-- The history after a sequence of detections.
unfoldable pub detect_all : List Detection → History → History
detect_all [] h = h
detect_all (d ∷ ds) h =
    detect_all ds (detect_drift d.lead d.baseline d.events d.cycle d.threshold h).1

abbrev pub result_of : Detection → DriftResult
result_of d = drift_of d.lead d.baseline d.events d.cycle d.threshold

detect_all-append : (ds : List Detection) (h : History) → detect_all ds h ≡ h ++ map result_of ds
unfolding detect_all detect_drift
detect_all-append [] h = rw append-nil
detect_all-append (d ∷ ds) h =
    rw (detect_all-append ds (h ++ result_of d ∷ [])) (rw append_assoc refl)

-- After a reset and a sequence of detections the history holds exactly their results, in order; each
-- result depends on its own arguments alone, not on what was detected before.
pub get_drift_history-detect_all :
    (ds : List Detection) (h : History)
    → get_drift_history (detect_all ds (reset_drift_history h)) ≡ map result_of ds
unfolding get_drift_history reset_drift_history
get_drift_history-detect_all ds h = detect_all-append ds []
