-- ===== src/Matching/Tests.antt =====
-- The matching engine on concrete hosts and messages.
use xrpl.Prelude.{
  ℕ, ◌+◌, ◌*◌, ◌/◌, ◌≤◌, ◌<◌, ◌≡◌, ◌≢◌, refl, ◌⊎◌, true, List, [], ◌∷◌, ◌++◌, Option, none, some,
  arith, filter, if◌then◌else◌,
}
use xrpl.Js.Text.{Text, lit, same, to_lower_case, before, starts_with, is_empty, lower}
use xrpl.Js.Number.{of_ℕ, trunc, le, lt, is_nan, is_finite}
use xrpl.Js.Number.Show.{decimal}
use xrpl.Js.BigInt.{pos, times, over, big_int, big_text}
use xrpl.Js.Outcome.{ok, throw, Thrown}
use xrpl.Js.Json.{Json, num, str, obj, end, field, property, lookup as field_of}
use xrpl.Base.Framework.{HandlerResult, Entry, respond, lookup, normalize}
use xrpl.Base.Flow.{next}
use xrpl.Base.Server.{Handler, reply, error}
use xrpl.Base.Greeting.{no_greetings, hex_json}
use xrpl.Matching.Host.{Host, Chain}
use xrpl.Matching.OutcomeLog.{
  OutcomeRecord, buy, sell, append_outcome, get_all_outcomes, clear_outcome_log,
}
use xrpl.Matching.OutcomeLog.Bound.{append_all, latest, append_all-eq-latest}
use xrpl.Matching.Signal.{
  enosys_cdp, FollowerAlloc, Signal, is_positive, is_address, check_signal, check_size,
  check_targets,
}
use xrpl.Matching.Signal.Checks.{IsChecked, check_signal-IsChecked}
use xrpl.Matching.Swap.{
  Build, Trade, Market, Matched, match_swap, swap_payload, build_order, notional_cap, read_market,
  read_prices, resolve_token, size_position, base_notional_of, build_each, encode_order,
  swap_matched, lead_of, amount_out_minimum, expected_out, share_of, trade_of, registry,
  fxrp_usd_feed_id, usdt0_usd_feed_id, mock_sparkdex, if_not_empty,
}
use xrpl.Matching.Swap.Sizing.{AllPositive, whole_part, nonzero, total, shares, allotted, position}
use xrpl.Matching.Swap.Quoted.{IsQuoted}
use xrpl.Matching.Swap.Orders.{traded, Orders, instructed, match_swap-Orders}
use xrpl.Matching.Swap.Slippage.{order_call, build_order-call}
use xrpl.Matching.MockVenue.{MockBuild, mock_call, build_mock}
use xrpl.Matching.MockVenue.Orders.{venue_call, build_mock-call}
use xrpl.Js.Json.Coerce.{number_of}
use xrpl.Matching.TopUp.{top_up}
use xrpl.Matching.TopUp.Ends.{TopUpEnds}
use xrpl.Matching.TopUp.Answers.{top_up_lem}
use xrpl.Matching.Match.{match_signal}
use xrpl.Matching.Handlers.{State, handle_mirror_match, register}
use xrpl.Matching.Handlers.Effects.{handle_mirror_match_lem}
use xrpl.Matching.Handlers.Registered.{answered_by, register-lookup}
use xrpl.Matching.Server.{Server, Incoming, serve}
use xrpl.Matching.Server.Routes.{serve-keeps, serve-unauthorized}

abbrev variables : List (Text × Text)
variables =
    (lit "FCE_PLAINTEXT_DECRYPT_FALLBACK", lit "1")
    ∷ (lit "FLARE_RPC_URL", lit "http://localhost")
    ∷ (lit "MOCK_SPARKDEX_ROUTER_ADDRESS", lit "0x01")
    ∷ (lit "TEE_INTERNAL_TOKEN", lit "secret")
    ∷ (lit "MOCK_ENOSYS_CDP_ADDRESS", lit "0x02")
    ∷ []

abbrev look_up : List (Text × Text) → Text → Option Text
look_up [] name = none
look_up ((n, v) ∷ rest) name = if same n name then some v else look_up rest name

-- XRP at half a dollar, the dollar token at one.
abbrev chain_example : Chain
chain_example = record {
  contract_address = λ registry name. ok (lit "0x" ++ name);
  feed = λ oracle id.
      ok (if same id (lit "0x015852502f55534400000000000000000000000000") then 5 else 10, 0);
  f_asset = λ manager. ok manager;
}

abbrev alice : Text
alice = lit "0x00000000000000000000000000000000000000a1"

abbrev host : Host
host = record {
  env = look_up variables;
  now = 1000;
  get_address = ok;
  get_address_of = λ v. ok alice;
  encode_call = λ c. ok (lit "0xab");
  decode_goodbye = λ t. ok (t, t);
  decrypt = λ port bytes. ok bytes;
  query_lead = λ q. none;
  chain = λ url. chain_example;
}

abbrev bob : Text
bob = lit "0x00000000000000000000000000000000000000b2"

abbrev target_of : Text → ℕ → FollowerAlloc
target_of address bps = record { address = address; allocation_bps = of_ℕ bps }

-- Ten basis points of the cap, for two followers.
abbrev signal : Signal
signal = record {
  direction = buy;
  size_pct = of_ℕ 10;
  targets = target_of alice 6000 ∷ target_of bob 4000 ∷ [];
}

abbrev build_for : Text → ℕ → Build
build_for address amount = record {
  to = lit "0x01";
  calldata = lit "0xab";
  venue = lit "mock-sparkdex";
  fee = 500;
  recipient = address;
  amount_in = decimal amount;
}

abbrev outcome : OutcomeRecord
outcome = record {
  lead = alice;
  timestamp = 1000;
  pnl_bps = of_ℕ 0;
  direction = buy;
  size_pct = of_ℕ 10;
}

abbrev matched : Matched
matched = record {
  payload =
      swap_payload (build_for alice (600 * 1000000000000000000))
        (build_for bob (400 * 1000000000000000000) ∷ []);
  outcome = outcome;
}

signal_run : match_swap host (obj end) signal ≡ next matched
unfolding match_swap read_market read_prices resolve_token size_position base_notional_of build_each
    build_order encode_order swap_matched lead_of amount_out_minimum expected_out share_of
    notional_cap trade_of times over big_int trunc same starts_with is_empty registry
    fxrp_usd_feed_id usdt0_usd_feed_id mock_sparkdex to_lower_case lower property field_of big_text
signal_run = refl

signal_whole : is_positive signal.size_pct ≡ true
unfolding le lt is_nan
signal_whole = refl

targets_positive : AllPositive signal.targets
unfolding le lt is_nan
targets_positive = (refl, (refl, tt))

match_swap-Orders_example :
    ((market : Market) × (b : Build) × (bs : List Build) × IsQuoted host market
      × Orders host
          (traded market buy (position signal.size_pct))
          (position signal.size_pct)
          signal.targets
          (b ∷ bs)
      × (matched.payload ≡ instructed b bs))
    × (total (filter nonzero (shares (position signal.size_pct) signal.targets))
        ≤ position signal.size_pct * allotted signal.targets / 10000)
match_swap-Orders_example =
    match_swap-Orders host (obj end) signal matched signal_whole targets_positive signal_run

abbrev trade : Trade
trade = record {
  token_in = lit "0xAssetManagerUSDT0";
  token_out = lit "0xAssetManagerFXRP";
  price_in = 10;
  price_out = 5;
  base_notional = pos 1000000;
}

order_built : build_order host trade (target_of alice 6000) ≡ next (some (build_for alice 600000))
unfolding build_order encode_order amount_out_minimum expected_out share_of times over big_int trunc
    same is_empty mock_sparkdex to_lower_case lower big_text
order_built = refl

build_order-call_example :
    let v = 1000000 * whole_part (of_ℕ 6000) / 10000 in
    (m : ℕ) × (0 < m)
    × (host.get_address alice ≡ ok alice)
    × (host.encode_call (order_call trade (lit "mock-sparkdex") alice (host.now + 300) v m)
        ≡ ok (lit "0xab"))
    × (m * 10000 * 5 ≤ v * 10 * 9900)
    × (v * 10 * 9900 < (m * 10000 + 19900) * 5)
build_order-call_example =
    build_order-call host trade 1000000 (target_of alice 6000) (build_for alice 600000) refl
      (omega arith) targets_positive.0 order_built

abbrev empty_state : State
empty_state = record { counters = no_greetings; log = [] }

handle_mirror_match_lem_example :
    ((m : Matched) × (match_signal host (str (lit "0x")) ≡ next m)
      × (handle_mirror_match host (str (lit "0x")) empty_state ≡ (
        ok (respond (hex_json m.payload)),
        record empty_state { log = append_outcome m.outcome [] },
      )))
    ⊎ ((r : HandlerResult) × (handle_mirror_match host (str (lit "0x")) empty_state
          ≡ (ok r, empty_state))
        × (r.status ≡ 0))
    ⊎ ((e : Thrown) × (handle_mirror_match host (str (lit "0x")) empty_state
          ≡ (throw e, empty_state)))
handle_mirror_match_lem_example = handle_mirror_match_lem host (str (lit "0x")) empty_state

abbrev signal_json : Json
signal_json = obj (
    field (lit "asset") (str (lit "FXRP")) (
      field (lit "direction") (str (lit "SELL"))
        (field (lit "sizePct") (num (of_ℕ 10)) (field (lit "recipient") (str alice) end))))

abbrev checked : Signal
checked = record { direction = sell; size_pct = of_ℕ 10; targets = target_of alice 10000 ∷ [] }

is_checked : check_signal signal_json ≡ next checked
unfolding check_signal check_size check_targets property field_of same starts_with is_address
    is_finite le lt is_nan
is_checked = refl

check_signal-IsChecked_example : IsChecked signal_json checked
check_signal-IsChecked_example = check_signal-IsChecked signal_json checked is_checked

append_all-eq-latest_example :
    get_all_outcomes (append_all (outcome ∷ []) (clear_outcome_log [])) ≡ latest (outcome ∷ [])
append_all-eq-latest_example = append_all-eq-latest [] (outcome ∷ [])

register-lookup_example :
    (entries : List (Entry (Handler State))) × (register host [] ≡ ok entries)
    × ((t c : Text) → lookup t c entries ≡ answered_by host (normalize t) (normalize c))
register-lookup_example = register-lookup host

abbrev server : Server
server = record { state_version_hex = lit "0x"; handlers = [] }

abbrev get_log : Text → Incoming
get_log given = record {
  method = lit "GET";
  url = lit "/internal/outcome-log";
  authorization = given;
  body = some [];
}

log_route : before b'?' (get_log []).url ≡ lit "/internal/outcome-log"
unfolding before
log_route = refl

-- A POST of an action whose body could not be read.
abbrev unread_action : Incoming
unread_action = record { method = lit "POST"; url = lit "/action"; authorization = []; body = none }

not_read :
    (body : Text)
    → unread_action.body ≡ some body
    → ¬ ((before b'?' unread_action.url ≡ lit "/action") × (unread_action.method ≡ lit "POST"))
not_read body is_read = ground arith

serve-keeps_example : (serve host server unread_action empty_state).1 ≡ empty_state
serve-keeps_example = serve-keeps host server unread_action empty_state not_read

not_token :
    (token : Text)
    → if_not_empty (host.env (lit "TEE_INTERNAL_TOKEN")) ≡ some token
    → [] ≢ lit "Bearer " ++ token
not_token token found is_nil = ground arith

serve-unauthorized_example :
    serve host server (get_log []) empty_state
    ≡ (ok (reply 401 (error (lit "unauthorized") none)), empty_state)
serve-unauthorized_example =
    serve-unauthorized host server (get_log []) empty_state log_route not_token

-- {"follower":"0xa1","kineticPool":"0xb2","amountWei":"5"}
abbrev top_up_message : Json
top_up_message = str (
    lit
      "0x7b22666f6c6c6f776572223a2230786131222c226b696e65746963506f6f6c223a2230786232222c22616d6f756e74576569223a2235227d")

top_up_lem_example : TopUpEnds host top_up_message (top_up host top_up_message)
top_up_lem_example = top_up_lem host top_up_message

abbrev mock_target : Json
mock_target = obj (field (lit "allocationBps") (num (of_ℕ 5000)) end)

abbrev mock_build : MockBuild
mock_build = record {
  to = lit "0x02";
  calldata = lit "0xab";
  recipient = alice;
  amount_in = decimal 50;
}

mock_run : build_mock host enosys_cdp (pos 100) mock_target ≡ next (some mock_build)
unfolding build_mock mock_call share_of times over big_int trunc property field_of same is_empty
    number_of big_text
mock_run = refl

mock_whole : is_positive (number_of (property (lit "allocationBps") mock_target)) ≡ true
unfolding property field_of same number_of le lt is_nan
mock_whole = refl

build_mock-call_example :
    let v = 100 * whole_part (number_of (property (lit "allocationBps") mock_target)) / 10000 in
    (v ≢ 0)
    × (decimal 50 ≡ decimal v)
    × (host.get_address_of (property (lit "address") mock_target) ≡ ok alice)
    × (host.encode_call (venue_call enosys_cdp v) ≡ ok (lit "0xab"))
build_mock-call_example =
    build_mock-call host enosys_cdp 100 mock_target mock_build mock_whole mock_run
