-- ===== src/Agent/Handlers/Events.antt =====
-- handlers.ts of the agent: the events of a message or of the matching engine's log, read off their JSON.
use xrpl.Prelude.{
  ◌≡◌, refl, false, List, [], ◌∷◌, Option, none, some, arith, inl, inr, if◌then◌else◌,
}
use xrpl.Js.Text.{lit}
use xrpl.Js.Number.{Number}
use xrpl.Js.Json.{Json, null, bool, num, str, arr, obj, property, is_null, as_text}
use xrpl.Js.Json.Coerce.{number_of}
use xrpl.Js.Outcome.{ok, Outcome-cases}
use xrpl.Base.Flow.{next}
use xrpl.Base.Flow.Ends.{Flow-cases}
use xrpl.Matching.OutcomeLog.{buy, sell}
use xrpl.Matching.Signal.{is_text, text_or}
use xrpl.Agent.Series.{OutcomeEvent}
use xrpl.Agent.Handlers.{size_of, read_event, read_events}

-- The size of an event: none where the field is missing or `null`.
abbrev pub size_in : Option Json → Option Number
size_in none = none
size_in (some null) = none
size_in (some (bool b)) = some (number_of (some (bool b)))
size_in (some (num x)) = some (number_of (some (num x)))
size_in (some (str s)) = some (number_of (some (str s)))
size_in (some (arr vs)) = some (number_of (some (arr vs)))
size_in (some (obj fs)) = some (number_of (some (obj fs)))

-- The events are these values, in their order and with their fields; a missing lead is the empty text,
-- and what is no SELL is a BUY. None of the values is `null`.
pub data ReadAs : List Json → List OutcomeEvent → Type 0 where
  no_more : ReadAs [] []
  one_more :
      (v : Json) (vs : List Json) (es : List OutcomeEvent)
      → is_null v ≡ false
      → ReadAs vs es
      → ReadAs (v ∷ vs) (
          record {
            lead = text_or (as_text (property (lit "lead") v)) [];
            timestamp = number_of (property (lit "timestamp") v);
            pnl_bps = number_of (property (lit "pnlBps") v);
            direction = some (
                if is_text (as_text (property (lit "direction") v)) (lit "SELL")
                then sell
                else buy);
            size_pct = size_in (property (lit "sizePct") v);
          }
          ∷ es)

size_of_lem : (v : Option Json) → size_of v ≡ size_in v
size_of_lem none = refl
size_of_lem (some null) = refl
size_of_lem (some (bool b)) = refl
size_of_lem (some (num x)) = refl
size_of_lem (some (str s)) = refl
size_of_lem (some (arr vs)) = refl
size_of_lem (some (obj fs)) = refl

abbrev event_in : Json → OutcomeEvent
event_in v = record {
  lead = text_or (as_text (property (lit "lead") v)) [];
  timestamp = number_of (property (lit "timestamp") v);
  pnl_bps = number_of (property (lit "pnlBps") v);
  direction =
      some (if is_text (as_text (property (lit "direction") v)) (lit "SELL") then sell else buy);
  size_pct = size_in (property (lit "sizePct") v);
}

read_event-in : (v : Json) → is_null v ≡ false → read_event v ≡ ok (event_in v)
unfolding read_event
read_event-in v p = ground (arith, size_of_lem (property (lit "sizePct") v))

read_event-not_null : (v : Json) (e : OutcomeEvent) → read_event v ≡ ok e → is_null v ≡ false
unfolding read_event
read_event-not_null v e p = ground arith

pub read_events-ReadAs :
    (vs : List Json) (es : List OutcomeEvent) → read_events vs ≡ next es → ReadAs vs es
unfolding read_events
read_events-ReadAs [] es p = let is_nil : [] ≡ es = ground arith in rw⁻¹ is_nil no_more
read_events-ReadAs (v ∷ vs) es p = elim (Outcome-cases (read_event v)) [
  | inr (x, bad) ↦ absurd (ground arith)
  | inl (e, is_e) ↦ elim (Flow-cases (read_events vs)) [
    | inr none_next ↦ absurd (grind (arith, none_next))
    | inl (rest, is_rest) ↦
        let not_null = read_event-not_null v e is_e in
        let same_e = read_event-in v not_null in
        let made : (event_in v ∷ rest) ≡ es = ground arith in
        rw⁻¹ made (one_more v vs rest not_null (read_events-ReadAs vs rest is_rest))
  ]
]

pub ReadAs-read_events :
    (vs : List Json) (es : List OutcomeEvent) → ReadAs vs es → read_events vs ≡ next es
unfolding read_events
ReadAs-read_events [] [] no_more = refl
ReadAs-read_events [] (e ∷ es) r = elim r [ ]
ReadAs-read_events (v ∷ vs) [] r = elim r [ ]
ReadAs-read_events (v ∷ vs) (e ∷ es) (one_more _ _ _ not_null rest) =
    let read = ReadAs-read_events vs es rest in rw (read_event-in v not_null, read) refl
