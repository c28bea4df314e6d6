-- ===== src/Matching/Match.antt =====
-- fce-matching-engine/typescript/src/app/handlers.ts, `handleMirrorMatchStageB`: from the message to
-- what is answered.
pub use xrpl.Matching.Swap.{Matched}
use xrpl.Prelude.{true, false, Option, none, some}
use xrpl.Js.Text.{lit}
use xrpl.Js.Json.{Json}
use xrpl.Base.Framework.{HandlerResult}
use xrpl.Base.Flow.{Flow, ◌>>=◌}
use xrpl.Matching.Host.{Host}
use xrpl.Matching.Signal.{MockVenue, is_text, read_signal, venue_hint, mock_venue, check_signal}
use xrpl.Matching.Swap.{match_swap}
use xrpl.Matching.MockVenue.{match_mock}

module _ (h : Host) where
  -- A mock venue, where the environment allows it, or the swap path.
  unfoldable pub match_venue : Json → Option MockVenue → Flow HandlerResult Matched
  match_venue parsed (some venue) = match_mock h parsed venue
  match_venue parsed none = do signal ← check_signal parsed; match_swap h parsed signal

  abbrev pub mock_venue_in : Json → Option MockVenue
  mock_venue_in parsed = elim (is_text (h.env (lit "MIRROR_MOCK_VENUES")) (lit "true")) [
    | true ↦ mock_venue (venue_hint h parsed)
    | false ↦ none
  ]

  -- `handleMirrorMatchStageB` up to what it appends and answers
  unfoldable pub match_signal : Json → Flow HandlerResult Matched
  match_signal msg = do parsed ← read_signal h msg; match_venue parsed (mock_venue_in parsed)
