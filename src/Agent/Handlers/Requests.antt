-- ===== src/Agent/Handlers/Requests.antt =====
-- handlers.ts of the agent: what a SCORE_V1 message asks for, read off its JSON.
use xrpl.Prelude.{
  ◌∷◌, ◌==◌, ◌≡◌, ◌≢◌, refl, ap, Bool, true, false, ◌||◌, List, [], ◌++◌, Option, none, some,
  length, arith, replicate, inl, inr, ◌⊎◌, Bool-cases, Option-cases,
}
use xrpl.Js.Text.{Text, lit, same, same_iff, starts_with}
use xrpl.Js.Number.{of_ℕ}
use xrpl.Js.Utf8.{Bytes, decode}
use xrpl.Js.Outcome.{ok, Outcome-cases}
use xrpl.Js.Json.{
  Json, null, bool, num, str, arr, obj, property, is_null, is_object, as_text, as_number, as_list,
}
use xrpl.Js.Json.Parse.{parse}
use xrpl.Base.Flow.{next}
use xrpl.Base.Flow.Ends.{Flow-cases}
use xrpl.Base.Server.{hex_of_json, truthy}
use xrpl.Matching.Signal.{is_text, is_address, if_address, text_or}
use xrpl.Matching.Swap.{if_hex}
use xrpl.Agent.Host.{AgentHost}
use xrpl.Agent.Series.{OutcomeEvent}
use xrpl.Agent.Report.{ScoreRequest}
use xrpl.Agent.Synthetic.{synthetic_momentum_lead, synthetic_mean_rev_lead}
use xrpl.Agent.Handlers.Events.{ReadAs, read_events-ReadAs, ReadAs-read_events}
use xrpl.Agent.Handlers.{find_events, read_score, fetch_outcome_log, number_or_zero}

module _ (h : AgentHost) where
  -- A fixture is asked for, by the environment or by the message.
  abbrev pub wants_fixture : Json → Bool
  wants_fixture parsed =
      is_text (h.env (lit "SYNTHETIC_OUTCOME_FIXTURE")) (lit "1")
      || truthy (property (lit "fixture") parsed)

  -- Where the events come from: a fixture, the message, or the matching engine.
  pub data EventsOf (parsed : Json) (lead : Text) (events : List OutcomeEvent) : Type 0 where
    mean_reverting :
        wants_fixture parsed ≡ true
        → property (lit "fixture") parsed ≡ some (str (lit "mean-reversion"))
        → events ≡ synthetic_mean_rev_lead lead (of_ℕ 1700000000)
        → EventsOf parsed lead events
    trending :
        wants_fixture parsed ≡ true
        → property (lit "fixture") parsed ≢ some (str (lit "mean-reversion"))
        → events ≡ synthetic_momentum_lead lead (of_ℕ 1700000000)
        → EventsOf parsed lead events
    listed :
        (vs : List Json)
        → wants_fixture parsed ≡ false
        → as_list (property (lit "events") parsed) ≡ some vs
        → ReadAs vs events
        → EventsOf parsed lead events
    fetched :
        (vs : List Json)
        → wants_fixture parsed ≡ false
        → as_list (property (lit "events") parsed) ≡ none
        → fetch_outcome_log h lead ≡ ok vs
        → ReadAs vs events
        → EventsOf parsed lead events

  -- The message asks for the score of a lead with events.
  pub record AsksScore (msg : Json) : Type 0 where
    pub bytes : Bytes
    pub parsed : Json
    pub lead : Text
    pub events : List OutcomeEvent
    pub hex : hex_of_json (some msg) ≡ ok bytes
    pub read : parse (decode bytes) ≡ some parsed
    pub not_null : is_null parsed ≡ false
    pub is_object : is_object parsed ≡ true
    pub named : property (lit "lead") parsed ≡ some (str lead)
    pub address : (starts_with (lit "0x") lead ≡ true) × (length lead ≡ 42)
    pub found : EventsOf parsed lead events
    pub some_events : events ≢ []

  -- The request of such a message, with its defaults.
  abbrev pub request_of : {msg : Json} → AsksScore msg → ScoreRequest
  request_of a = record {
    lead = a.lead;
    events = a.events;
    baseline = number_or_zero (as_number (property (lit "baselineStrategyType") a.parsed));
    cycle = number_or_zero (as_number (property (lit "cycle") a.parsed));
    attestation_id =
        text_or (if_hex (as_text (property (lit "attestationId") a.parsed)))
          (lit "0x" ++ replicate 64 b'0');
  }

is_text_iff :
    (v : Option Json) (t : Text)
    → ((is_text (as_text v) t ≡ true) × (v ≡ some (str t)))
      ⊎ ((is_text (as_text v) t ≡ false) × (v ≢ some (str t)))
is_text_iff none t = inr (refl, λ e. ground arith)
is_text_iff (some (str s)) t = elim (Bool-cases (same s t)) [
  | inl p ↦ inl (p, ap (λ x. some (str x)) ((same_iff s t).0 p))
  | inr p ↦ inr (p, λ e. ground (arith, same_iff s t))
]
is_text_iff (some null) t = inr (refl, λ e. ground arith)
is_text_iff (some (bool b)) t = inr (refl, λ e. ground arith)
is_text_iff (some (num x)) t = inr (refl, λ e. ground arith)
is_text_iff (some (arr vs)) t = inr (refl, λ e. ground arith)
is_text_iff (some (obj fs)) t = inr (refl, λ e. ground arith)

if_address-inv :
    (v : Option Json) (t : Text)
    → if_address (as_text v) ≡ some t
    → (v ≡ some (str t)) × (starts_with (lit "0x") t ≡ true) × (length t ≡ 42)
unfolding is_address
if_address-inv v t e = ground arith

module _ (h : AgentHost) (parsed : Json) (lead : Text) where
  find_events-inv :
      (events : List OutcomeEvent)
      → find_events h parsed lead ≡ next events
      → EventsOf h parsed lead events
  unfolding find_events
  find_events-inv events e = elim (Bool-cases (wants_fixture h parsed)) [
    | inl wanted ↦ elim (is_text_iff (property (lit "fixture") parsed) (lit "mean-reversion")) [
      | inl (is_it, at) ↦ mean_reverting wanted at (ground arith)
      | inr (not_it, off) ↦ trending wanted off (ground arith)
    ]
    | inr not_wanted ↦ elim (Option-cases (as_list (property (lit "events") parsed))) [
      | inr (vs, is_list) ↦
          listed vs not_wanted is_list (read_events-ReadAs vs events (ground arith))
      | inl no_list ↦ elim (Outcome-cases (fetch_outcome_log h lead)) [
        | inr (x, bad) ↦ absurd (ground arith)
        | inl (vs, is_log) ↦
            fetched vs not_wanted no_list is_log (read_events-ReadAs vs events (ground arith))
      ]
    ]
  ]

module _ (h : AgentHost) (msg : Json) where
  pub read_score-AsksScore :
      (q : ScoreRequest) → read_score h msg ≡ next q → (a : AsksScore h msg) × (q ≡ request_of h a)
  unfolding read_score
  read_score-AsksScore q e = elim (Outcome-cases (hex_of_json (some msg))) [
    | inr (x, bad) ↦ absurd (ground arith)
    | inl (bytes, hex) ↦ elim (Option-cases (parse (decode bytes))) [
      | inl no_json ↦ absurd (ground arith)
      | inr (parsed, read) ↦
          elim (Option-cases (if_address (as_text (property (lit "lead") parsed)))) [
            | inl no_lead ↦ absurd (ground arith)
            | inr (lead, is_lead) ↦ elim (Flow-cases (find_events h parsed lead)) [
              | inr no_events ↦ absurd (grind (arith, no_events))
              | inl (events, is_events) ↦
                  let (named, prefixed, sized) =
                    if_address-inv (property (lit "lead") parsed) lead is_lead in
                  let a : AsksScore h msg = record {
                    bytes = bytes;
                    parsed = parsed;
                    lead = lead;
                    events = events;
                    hex = hex;
                    read = read;
                    not_null = ground arith;
                    is_object = ground arith;
                    named = named;
                    address = (prefixed, sized);
                    found = find_events-inv h parsed lead events is_events;
                    some_events = λ p. ground arith;
                  } in
                  (a, ground arith)
            ]
          ]
    ]
  ]

if_address-eq :
    (v : Option Json) (t : Text)
    → v ≡ some (str t)
    → (starts_with (lit "0x") t ≡ true) × (length t ≡ 42)
    → if_address (as_text v) ≡ some t
unfolding is_address
if_address-eq v t e (prefixed, sized) = ground arith

some_is_set : (es : List OutcomeEvent) → es ≢ [] → (length es == 0) ≡ false
some_is_set [] some_events = absurd (some_events refl)
some_is_set (e ∷ es) some_events = ground arith

module _ (h : AgentHost) where
  EventsOf-find_events :
      (parsed : Json) (lead : Text) (events : List OutcomeEvent)
      → EventsOf h parsed lead events
      → find_events h parsed lead ≡ next events
  unfolding find_events
  EventsOf-find_events parsed lead events (mean_reverting wanted at is) =
      elim (is_text_iff (property (lit "fixture") parsed) (lit "mean-reversion")) [
        | inl (p, same_at) ↦ ground arith
        | inr (p, other) ↦ absurd (other at)
      ]
  EventsOf-find_events parsed lead events (trending wanted off is) =
      elim (is_text_iff (property (lit "fixture") parsed) (lit "mean-reversion")) [
        | inl (p, at) ↦ absurd (off at)
        | inr (p, other) ↦ ground arith
      ]
  EventsOf-find_events parsed lead events (listed vs not_wanted is_list read) =
      let is = ReadAs-read_events vs events read in ground arith
  EventsOf-find_events parsed lead events (fetched vs not_wanted no_list is_log read) =
      let is = ReadAs-read_events vs events read in ground arith

  pub AsksScore-read_score :
      (msg : Json) (a : AsksScore h msg) → read_score h msg ≡ next (request_of h a)
  unfolding read_score is_address
  AsksScore-read_score msg a =
      let events = EventsOf-find_events a.parsed a.lead a.events a.found in
      let lead = if_address-eq (property (lit "lead") a.parsed) a.lead a.named a.address in
      let set : (length a.events == 0) ≡ false = some_is_set a.events a.some_events in
      rw (a.hex, a.read, a.not_null, a.is_object, lead, events, set) refl
