-- ===== src/Matching/Handlers/Effects.antt =====
-- handlers.ts: how MATCH_V1 ends, and what it leaves of the state.
use xrpl.Prelude.{ℕ, ◌≡◌, refl, ◌⊎◌, inl, inr, List, [], ◌∷◌, Option, none, some, arith}
use xrpl.Js.Text.{Text}
use xrpl.Js.Number.{Number}
use xrpl.Js.BigInt.{ℤ}
use xrpl.Js.Outcome.{ok, throw, Thrown}
use xrpl.Js.Json.{Json}
use xrpl.Base.Framework.{HandlerResult, respond}
use xrpl.Base.Flow.{Flow, next, stop, fail, ◌>>=◌}
use xrpl.Base.Flow.Ends.{Ends, Ends-bind}
use xrpl.Base.Greeting.{hex_json, run}
use xrpl.Matching.Host.{Host, Chain}
use xrpl.Matching.OutcomeLog.{append_outcome}
use xrpl.Matching.Signal.{
  FollowerAlloc, MockVenue, Signal, decrypt_signal, read_signal, check_follower, check_followers,
  check_targets, check_size, check_signal,
}
use xrpl.Matching.Swap.{
  Trade, build_each, build_order, encode_order, match_swap, swap_matched, read_market, read_prices,
  resolve_token, size_position, base_notional_of, Matched, trade_of,
}
use xrpl.Matching.MockVenue.{
  build_mock, build_mocks, match_mock, mock_call, mock_matched, mock_targets, mock_notional_cap,
}
use xrpl.Matching.Match.{match_signal, match_venue, mock_venue_in}
use xrpl.Matching.Handlers.{State, handle_mirror_match, record_match, with_log}

abbrev IsRefused : HandlerResult → Type 0
IsRefused r = r.status ≡ 0

-- A flow whose early results are all refusals.
abbrev Refuses : {A : Type 0} → Flow HandlerResult A → Type 0
Refuses m = Ends IsRefused (λ _. Unit) m

Refuses-bind :
    {A B : Type 0} (m : Flow HandlerResult A) (f : A → Flow HandlerResult B)
    → Refuses m
    → ((a : A) → Refuses (f a))
    → Refuses (m >>= f)
Refuses-bind m f p h = Ends-bind IsRefused (λ _. Unit) m f p λ a _. h a

check_follower-Refuses : (f : Json) → Refuses (check_follower f)
unfolding check_follower
check_follower-Refuses f = ground arith

check_followers-Refuses : (fs : List Json) → Refuses (check_followers fs)
unfolding check_followers
check_followers-Refuses [] = tt
check_followers-Refuses (f ∷ fs) =
    Refuses-bind _ _ (check_follower-Refuses f)
      λ a. Refuses-bind _ _ (check_followers-Refuses fs) λ rest. tt

check_targets-Refuses : (parsed : Json) → Refuses (check_targets parsed)
unfolding check_targets
check_targets-Refuses parsed = grind (arith, check_followers-Refuses)

check_size-Refuses : (parsed : Json) → Refuses (check_size parsed)
unfolding check_size
check_size-Refuses parsed = ground arith

check_signal-Refuses : (parsed : Json) → Refuses (check_signal parsed)
unfolding check_signal
check_signal-Refuses parsed = grind (arith, check_size-Refuses parsed, check_targets-Refuses parsed)

mock_targets-Refuses : (parsed : Json) → Refuses (mock_targets parsed)
unfolding mock_targets
mock_targets-Refuses parsed = ground arith

base_notional_of-Refuses : (cap : ℕ) (x : Number) → Refuses (base_notional_of cap x)
unfolding base_notional_of
base_notional_of-Refuses cap x = ground arith

module _ (h : Host) where
  read_signal-Refuses : (msg : Json) → Refuses (read_signal h msg)
  unfolding read_signal decrypt_signal
  read_signal-Refuses msg = ground arith

  encode_order-Refuses :
      (t : Trade) (venue recipient : Text) (notional minimum : ℤ)
      → Refuses (encode_order h t venue recipient notional minimum)
  unfolding encode_order
  encode_order-Refuses t venue recipient notional minimum = ground arith

  build_order-Refuses : (t : Trade) (f : FollowerAlloc) → Refuses (build_order h t f)
  unfolding build_order
  build_order-Refuses t f = grind (arith, encode_order-Refuses)

  build_each-Refuses :
      (t : Trade) (fs : List FollowerAlloc) → Refuses (build_each (build_order h t) fs)
  unfolding build_each
  build_each-Refuses t [] = tt
  build_each-Refuses t (f ∷ fs) =
      Refuses-bind _ _ (build_order-Refuses t f)
        λ a. Refuses-bind _ _ (build_each-Refuses t fs) λ rest. tt

  read_prices-Refuses : (c : Chain) → Refuses (read_prices h c)
  unfolding read_prices
  read_prices-Refuses c = ground arith

  resolve_token-Refuses : (c : Chain) (v m : Text) → Refuses (resolve_token h c v m)
  unfolding resolve_token
  resolve_token-Refuses c v m = ground arith

  read_market-Refuses : Refuses (read_market h)
  unfolding read_market
  read_market-Refuses = Refuses-bind _ _ (ground arith) λ url.
      Refuses-bind _ _ (read_prices-Refuses (h.chain url)) λ p.
        Refuses-bind _ _ (resolve_token-Refuses (h.chain url) _ _)
          λ a. Refuses-bind _ _ (resolve_token-Refuses (h.chain url) _ _) λ b. tt

  match_swap-Refuses : (parsed : Json) (s : Signal) → Refuses (match_swap h parsed s)
  unfolding match_swap size_position base_notional_of swap_matched
  match_swap-Refuses parsed s = Refuses-bind _ _ read_market-Refuses λ m.
      Refuses-bind _ _ (ground arith) λ base.
        Refuses-bind _ _ (build_each-Refuses (trade_of m s.direction base) s.targets)
          λ bs. ground arith

  build_mock-Refuses : (v : MockVenue) (base : ℤ) (f : Json) → Refuses (build_mock h v base f)
  unfolding build_mock mock_call
  build_mock-Refuses v base f = ground arith

  build_mocks-Refuses :
      (v : MockVenue) (base : ℤ) (fs : List Json) → Refuses (build_mocks h v base fs)
  unfolding build_mocks
  build_mocks-Refuses v base [] = tt
  build_mocks-Refuses v base (f ∷ fs) =
      Refuses-bind _ _ (build_mock-Refuses v base f)
        λ a. Refuses-bind _ _ (build_mocks-Refuses v base fs) λ rest. tt

  match_mock-Refuses : (parsed : Json) (v : MockVenue) → Refuses (match_mock h parsed v)
  unfolding match_mock mock_matched
  match_mock-Refuses parsed v = Refuses-bind _ _ (check_size-Refuses parsed) λ size.
      Refuses-bind _ _ (mock_targets-Refuses parsed) λ targets.
        Refuses-bind _ _ (base_notional_of-Refuses mock_notional_cap size)
          λ base. Refuses-bind _ _ (build_mocks-Refuses v base targets) λ bs. ground arith

  match_signal-Refuses : (msg : Json) → Refuses (match_signal h msg)
  unfolding match_signal match_venue
  match_signal-Refuses msg =
      Refuses-bind _ _ (read_signal-Refuses msg) λ parsed. go parsed (mock_venue_in h parsed)
    where
      go : (parsed : Json) (v : Option MockVenue) → Refuses (match_venue h parsed v)
      go parsed none =
          Refuses-bind _ _ (check_signal-Refuses parsed) λ s. match_swap-Refuses parsed s
      go parsed (some v) = match_mock-Refuses parsed v

  -- MATCH_V1 ends in one of three ways. It answers a matched signal with status 1 and its payload,
  -- and appends exactly the outcome of that signal to the log; or it refuses with status 0; or it
  -- throws. The last two leave the state as it was, and none of them touches the counters.
  pub handle_mirror_match_lem :
      (msg : Json) (s : State)
      → ((m : Matched) × (match_signal h msg ≡ next m)
          × (handle_mirror_match h msg s ≡ (
            ok (respond (hex_json m.payload)),
            record s { log = append_outcome m.outcome s.log },
          )))
        ⊎ ((r : HandlerResult) × (handle_mirror_match h msg s ≡ (ok r, s)) × (r.status ≡ 0))
        ⊎ ((e : Thrown) × (handle_mirror_match h msg s ≡ (throw e, s)))
  unfolding handle_mirror_match record_match
  handle_mirror_match_lem msg s = go (match_signal h msg) refl (match_signal-Refuses msg)
    where
      go :
          (f : Flow HandlerResult Matched)
          → match_signal h msg ≡ f
          → Refuses f
          → ((m : Matched) × (match_signal h msg ≡ next m)
              × (with_log (run f record_match s.log) s ≡ (
                ok (respond (hex_json m.payload)),
                record s { log = append_outcome m.outcome s.log },
              )))
            ⊎ ((r : HandlerResult) × (with_log (run f record_match s.log) s ≡ (ok r, s))
                × (r.status ≡ 0))
            ⊎ ((e : Thrown) × (with_log (run f record_match s.log) s ≡ (throw e, s)))
      go (next m) e p = inl (m, e, refl)
      go (stop r) e p = inr (inl (r, refl, p))
      go (fail x) e p = inr (inr (x, refl))
