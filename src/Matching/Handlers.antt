-- ===== src/Matching/Handlers.antt =====
-- fce-matching-engine/typescript/src/app/handlers.ts and config.ts: the state, the registration and
-- the handlers over the whole state.
pub mod Effects
pub mod Registered
use xrpl.Prelude.{ℕ, List, [], ◌∷◌, Option, none, some}
use xrpl.Js.Text.{Text, lit}
use xrpl.Js.Number.{of_ℕ}
use xrpl.Js.Outcome.{Outcome, ok, throw, ◌>>=◌}
use xrpl.Js.Json.{Json, num, str, obj, Fields, end, field}
use xrpl.Base.Framework.{HandlerResult, Entry, respond, handle}
use xrpl.Base.Server.{Handler}
use xrpl.Base.Greeting.{Counters, no_greetings, hex_json, run, say_hello, say_goodbye}
use xrpl.Matching.Host.{Host}
use xrpl.Matching.OutcomeLog.{Log, append_outcome}
use xrpl.Matching.Match.{Matched, match_signal}
use xrpl.Matching.TopUp.{top_up}

-- What the process keeps between requests.
pub record State : Type 0 where
  pub counters : Counters
  pub log : Log

-- `resetState`: the counters, not the log.
unfoldable pub reset_state : State → State
reset_state s = record s { counters = no_greetings }

-- `reportState`
unfoldable pub report_state : State → Json
report_state s = obj (
    field (lit "greetingCount") (num (of_ℕ s.counters.greeting_count)) (
      field (lit "lastGreeting") (str s.counters.last_greeting) (
        field (lit "farewellCount") (num (of_ℕ s.counters.farewell_count))
          (field (lit "lastFarewell") (str s.counters.last_farewell) end))))

abbrev pub version : Text
version = lit "0.1.0"

unfoldable pub op_type_greeting : Text
op_type_greeting = lit "GREETING"

unfoldable pub op_command_say_hello : Text
op_command_say_hello = lit "SAY_HELLO"

unfoldable pub op_command_say_goodbye : Text
op_command_say_goodbye = lit "SAY_GOODBYE"

unfoldable pub op_type_mirror : Text
op_type_mirror = lit "MIRROR"

unfoldable pub op_command_match_v1 : Text
op_command_match_v1 = lit "MATCH_V1"

unfoldable pub op_command_topup_v1 : Text
op_command_topup_v1 = lit "TOPUP_V1"

abbrev with_counters : Outcome HandlerResult × Counters → State → Outcome HandlerResult × State
with_counters (r, c) s = (r, record s { counters = c })

abbrev pub with_log : Outcome HandlerResult × Log → State → Outcome HandlerResult × State
with_log (r, l) s = (r, record s { log = l })

-- What a matched signal answers, and appends.
unfoldable pub record_match : Matched → Log → HandlerResult × Log
record_match m log = (respond (hex_json m.payload), append_outcome m.outcome log)

module _ (h : Host) where
  unfoldable pub handle_say_hello : Handler State
  handle_say_hello msg s =
      with_counters (say_hello (lit "! Welcome to Flare Confidential Compute.") msg s.counters) s

  unfoldable pub handle_say_goodbye : Handler State
  handle_say_goodbye msg s = with_counters (say_goodbye h.decode_goodbye msg s.counters) s

  -- `handleMirrorMatchStageB`
  unfoldable pub handle_mirror_match : Handler State
  handle_mirror_match msg s = with_log (run (match_signal h msg) record_match s.log) s

  -- `handleMirrorTopUpV1`
  unfoldable pub handle_mirror_top_up : Handler State
  handle_mirror_top_up msg s = (top_up h msg, s)

  -- `register`
  unfoldable pub register : List (Entry (Handler State)) → Outcome (List (Entry (Handler State)))
  register entries =
      handle op_type_greeting op_command_say_hello handle_say_hello entries
      >>= handle op_type_greeting op_command_say_goodbye handle_say_goodbye
      >>= handle op_type_mirror op_command_match_v1 handle_mirror_match
      >>= handle op_type_mirror op_command_topup_v1 handle_mirror_top_up
