-- ===== src/Agent/Handlers/Scores.antt =====
-- handlers.ts of the agent: how SCORE_V1 ends, and what it leaves of the state.
use xrpl.Prelude.{◌≡◌, refl, ap, ◌∙◌, ℕ, length, none, some, List, [], ◌∷◌, ◌++◌, arith}
use xrpl.Js.Text.{Text, lit}
use xrpl.Js.Outcome.{Outcome, ok, throw, Thrown}
use xrpl.Js.Json.{Json, bool, num, str, obj, end, field}
use xrpl.Js.Json.Print.{stringify}
use xrpl.Js.Utf8.{encode}
use xrpl.Js.Number.{of_ℕ}
use xrpl.Base.Encoding.{bytes_to_hex}
use xrpl.Base.Framework.{HandlerResult, respond}
use xrpl.Base.Flow.{Flow, next, stop, fail}
use xrpl.Base.Flow.Ends.{Ends}
use xrpl.Base.Greeting.{hex_json, run}
use xrpl.Agent.Host.{AgentHost}
use xrpl.Agent.Scoring.{ScoreBreakdown, score_lead}
use xrpl.Agent.Classify.{
  StrategyClass, momentum, mean_reversion, yield_arb, Classification, classify_lead,
}
use xrpl.Agent.Drift.{DriftResult, drift_of, detect_drift, drift_confidence_threshold}
use xrpl.Agent.Report.{
  ScoreRequest, score_json, run_json, strategy_name, breakdown_json, classification_json,
  drift_json,
}
use xrpl.Agent.Handlers.Requests.{AsksScore, request_of, read_score-AsksScore, AsksScore-read_score}
use xrpl.Agent.Handlers.{
  AgentState, read_events, find_events, read_score, execute_score, handle_score,
}

abbrev IsRefused : HandlerResult → Type 0
IsRefused r = r.status ≡ 0

abbrev Refuses : {A : Type 0} → Flow HandlerResult A → Type 0
Refuses m = Ends IsRefused (λ _. Unit) m

read_events-Refuses : (vs : List Json) → Refuses (read_events vs)
unfolding read_events
read_events-Refuses [] = tt
read_events-Refuses (v ∷ vs) = grind (arith, read_events-Refuses vs)

find_events-Refuses :
    (h : AgentHost) (parsed : Json) (lead : Text) → Refuses (find_events h parsed lead)
unfolding find_events
find_events-Refuses h parsed lead = grind (arith, read_events-Refuses)

read_score-Refuses : (h : AgentHost) (msg : Json) → Refuses (read_score h msg)
unfolding read_score
read_score-Refuses h msg = grind (arith, find_events-Refuses h)

-- The name of a strategy on the wire.
abbrev pub wire_name : StrategyClass → Text
wire_name momentum = lit "momentum"
wire_name mean_reversion = lit "mean-reversion"
wire_name yield_arb = lit "yield-arb"

module _ (lead : Text) (c : Classification) where
  -- The answer, and the summary that is kept, as they are read on the wire.
  abbrev pub answer_text : ScoreBreakdown → DriftResult → (attestation_id : Text) → ℕ → Text
  answer_text b d attestation_id count = bytes_to_hex (
      encode (
        stringify (
          obj (
            field (lit "lead") (str lead) (
              field (lit "score") (num b.ai_score) (
                field (lit "breakdown")
                  (obj (
                    field (lit "sharpe") (num b.sharpe) (
                      field (lit "maxDrawdown") (num b.max_drawdown) (
                        field (lit "consistency") (num b.consistency) (
                          field (lit "dataCompleteness") (num b.data_completeness)
                            (field (lit "aiScore") (num b.ai_score) end))))))
                  (field (lit "classification")
                    (obj (
                      field (lit "strategy") (str (wire_name c.strategy)) (
                        field (lit "confidence") (num c.confidence) (
                          field (lit "features")
                            (obj (
                              field (lit "directionAutocorr") (num c.direction_autocorr) (
                                field (lit "sizeCv") (num c.size_cv)
                                  (field (lit "meanAbsPnlBps") (num c.mean_abs_pnl_bps) end))))
                            end))))
                    (field (lit "drift")
                      (obj (
                        field (lit "lead") (str d.lead) (
                          field (lit "baseline") (num d.baseline) (
                            field (lit "live") (str (wire_name d.live)) (
                              field (lit "liveCode") (num (of_ℕ d.live_code)) (
                                field (lit "confidence") (num d.confidence) (
                                  field (lit "drifted") (bool d.drifted) (
                                    field (lit "cycle") (num d.cycle)
                                      (field (lit "threshold") (num d.threshold) end)))))))))
                      (field (lit "attestationId") (str attestation_id)
                        (field (lit "eventCount") (num (of_ℕ count)) end))))))))))

  abbrev pub summary : ScoreBreakdown → DriftResult → Json
  summary b d = obj (
      field (lit "lead") (str lead) (
        field (lit "score") (num b.ai_score) (
          field (lit "strategy") (str (wire_name c.strategy))
            (field (lit "drifted") (bool d.drifted) end))))

strategy_name_lem : (k : StrategyClass) → strategy_name k ≡ wire_name k
unfolding strategy_name
strategy_name_lem momentum = refl
strategy_name_lem mean_reversion = refl
strategy_name_lem yield_arb = refl

hex_json-answer_text :
    (q : ScoreRequest) (b : ScoreBreakdown) (c : Classification) (d : DriftResult)
    → hex_json (score_json q b c d) ≡ answer_text q.lead c b d q.attestation_id (length q.events)
unfolding hex_json score_json breakdown_json classification_json drift_json
hex_json-answer_text q b c d = rw (strategy_name_lem c.strategy, strategy_name_lem d.live)

run_json-summary :
    (q : ScoreRequest) (b : ScoreBreakdown) (c : Classification) (d : DriftResult)
    → run_json q b c d ≡ summary q.lead c b d
unfolding run_json
run_json-summary q b c d = rw (strategy_name_lem c.strategy)

-- How SCORE_V1 ends on a message, and the state that it leaves.
pub data ScoreEnds (h : AgentHost) (msg : Json) (s : AgentState)
    (out : Outcome HandlerResult × AgentState) : Type 0 where
  scored :
      (a : AsksScore h msg)
      → (let b = score_lead h.now a.events in
          let c = classify_lead a.events in
          let q = request_of h a in
          let threshold = drift_confidence_threshold (h.env (lit "DRIFT_CONFIDENCE_THRESHOLD")) in
          let d = drift_of a.lead q.baseline a.events q.cycle threshold in
          out ≡ (
            ok (record {
              payload = some (answer_text a.lead c b d q.attestation_id (length a.events));
              status = 1;
              error = none;
            }),
            record {
              counters = s.counters;
              last_score_run = summary a.lead c b d;
              history = s.history ++ d ∷ [];
            },
          ))
      → ScoreEnds h msg s out
  refused :
      ¬ AsksScore h msg
      → (r : HandlerResult) → out ≡ (ok r, s)
      → r.status ≡ 0
      → ScoreEnds h msg s out
  thrown : ¬ AsksScore h msg → (e : Thrown) → out ≡ (throw e, s) → ScoreEnds h msg s out

module _ (h : AgentHost) (msg : Json) (s : AgentState) where
  next-ScoreEnds :
      (q : ScoreRequest)
      → read_score h msg ≡ next q
      → ScoreEnds h msg s (run (next q) (execute_score h) s)
  unfolding execute_score detect_drift
  next-ScoreEnds q e =
      let (a, is_a) = read_score-AsksScore h msg q e in
      let r = request_of h a in
      let b = score_lead h.now r.events in
      let c = classify_lead r.events in
      let threshold = drift_confidence_threshold (h.env (lit "DRIFT_CONFIDENCE_THRESHOLD")) in
      let d = drift_of r.lead r.baseline r.events r.cycle threshold in
      scored a (
        ap (λ p. run (next p) (execute_score h) s) is_a
        ∙ ap
            (λ t. (
              ok (respond t),
              record s { last_score_run = run_json r b c d; history = s.history ++ d ∷ [] },
            ))
            (hex_json-answer_text r b c d)
        ∙ ap
            (λ j. (
              ok (respond (answer_text a.lead c b d r.attestation_id (length a.events))),
              record s { last_score_run = j; history = s.history ++ d ∷ [] },
            ))
            (run_json-summary r b c d))

  -- SCORE_V1 ends in one of three ways. A message that is a JSON object with the address of a lead for
  -- whom there are events (of a fixture, of the message or of the matching engine) is answered with
  -- status 1 and, as hex of a JSON text, the lead, the score with its breakdown, the classification with
  -- its features, the drift, the attestation id and the number of events, all of exactly these events; a
  -- summary of them is kept as the last run, and exactly that drift is added to the history. Any
  -- other message is refused with status 0, or the handler throws; both leave the state as it was. None
  -- of the three touches the counters.
  pub handle_score_lem : ScoreEnds h msg s (handle_score h msg s)
  unfolding handle_score
  handle_score_lem = go (read_score h msg) refl (read_score-Refuses h msg)
    where
      go :
          (f : Flow HandlerResult ScoreRequest)
          → read_score h msg ≡ f
          → Refuses f
          → ScoreEnds h msg s (run f (execute_score h) s)
      go (next q) e p = next-ScoreEnds q e
      go (stop r) e p =
          refused (λ a. let is_a = AsksScore-read_score h msg a in ground arith) r refl p
      go (fail x) e p = thrown (λ a. let is_a = AsksScore-read_score h msg a in ground arith) x refl
