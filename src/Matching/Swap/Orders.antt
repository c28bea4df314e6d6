-- ===== src/Matching/Swap/Orders.antt =====
-- handlers.ts: the orders that a signal is turned into.
use xrpl.Prelude.{
  ℕ, ◌+◌, ◌*◌, ◌/◌, ◌≤◌, ◌<◌, ◌≡◌, ◌≢◌, refl, ap, ◌∙◌, true, List, [], ◌∷◌, map, Option, none, some,
  arith, filter, inl, inr,
}
use xrpl.Js.Text.{to_lower_case, lit}
use xrpl.Js.Number.{of_ℕ}
use xrpl.Js.Number.Show.{decimal}
use xrpl.Js.BigInt.{pos}
use xrpl.Js.Outcome.{ok}
use xrpl.Js.Json.{Json, bool, num, str, arr, obj, end, field, from_list}
use xrpl.Base.Flow.{next}
use xrpl.Base.Flow.Ends.{Flow-cases}
use xrpl.Matching.Host.{Host}
use xrpl.Matching.OutcomeLog.{Direction, buy, sell}
use xrpl.Matching.Signal.{text_or, FollowerAlloc, Signal, is_positive}
use xrpl.Matching.Swap.{
  Build, Trade, Market, build_order, build_each, push, Matched, match_swap, swap_payload,
  instruction_json, trade_of,
}
use xrpl.Matching.Swap.Sizing.{
  whole_part, nonzero, total, shares, allotted, position, AllPositive, shares-le, build_order-Round,
  Round, size_position_lem, match_swap-inv, swap_matched-inv,
}
use xrpl.Matching.Swap.Slippage.{order_call, build_order-call}
use xrpl.Matching.Swap.Quoted.{IsQuoted, read_market-IsQuoted}
use xrpl.Matching.Swap.Routed.{Routed, build_order-Routed}

-- The trade of a position: a BUY pays the dollar token for FXRP, a SELL pays FXRP for it.
abbrev pub traded : Market → Direction → ℕ → Trade
traded m buy n = record {
  token_in = m.usdt0_token;
  token_out = m.fxrp_token;
  price_in = m.usdt0_usd;
  price_out = m.fxrp_usd;
  base_notional = pos n;
}
traded m sell n = record {
  token_in = m.fxrp_token;
  token_out = m.usdt0_token;
  price_in = m.fxrp_usd;
  price_out = m.usdt0_usd;
  base_notional = pos n;
}

-- This build orders this amount for this target: the call is for exactly it, to the target's own address,
-- expires 300 seconds later, and accepts no less than 99% of what the prices give, but for rounding.
pub record IsOrder (h : Host) (t : Trade) (v : ℕ) (f : FollowerAlloc) (b : Build) : Type 0 where
  pub minimum : ℕ
  pub something : 0 < minimum
  pub own : h.get_address f.address ≡ ok b.recipient
  pub calldata :
      h.encode_call (order_call t b.venue b.recipient (h.now + 300) v minimum) ≡ ok b.calldata
  pub at_most : minimum * 10000 * t.price_out ≤ v * t.price_in * 9900
  pub at_least : v * t.price_in * 9900 < (minimum * 10000 + 19900) * t.price_out
  pub amount : b.amount_in ≡ decimal v
  pub venue :
      b.venue ≡ to_lower_case (text_or (h.env (lit "EXECUTION_VENUE")) (lit "mock-sparkdex"))
  pub routed : Routed h b

-- The builds are the orders of the targets, in their order, each for its share of the position of
-- `n`; a target whose share rounds to nothing has none.
pub data Orders (h : Host) (t : Trade) (n : ℕ) : List FollowerAlloc → List Build → Type 0 where
  no_more : Orders h t n [] []
  skipped :
      (f : FollowerAlloc) (fs : List FollowerAlloc) (bs : List Build)
      → n * whole_part f.allocation_bps / 10000 ≡ 0
      → Orders h t n fs bs
      → Orders h t n (f ∷ fs) bs
  ordered :
      (f : FollowerAlloc) (fs : List FollowerAlloc) (b : Build) (bs : List Build)
      → n * whole_part f.allocation_bps / 10000 ≢ 0
      → IsOrder h t (n * whole_part f.allocation_bps / 10000) f b
      → Orders h t n fs bs
      → Orders h t n (f ∷ fs) (b ∷ bs)

-- What is answered: the one instruction, or a fan-out of all of them.
abbrev pub instruction : Build → Json
instruction b = obj (
    field (lit "to") (str b.to) (
      field (lit "data") (str b.calldata) (
        field (lit "venue") (str b.venue) (
          field (lit "fee") (num (of_ℕ b.fee)) (
            field (lit "recipient") (str b.recipient)
              (field (lit "amountIn") (str b.amount_in) end))))))

abbrev pub instructed : Build → List Build → Json
instructed b [] = obj (
    field (lit "to") (str b.to) (
      field (lit "data") (str b.calldata)
        (field (lit "venue") (str b.venue) (field (lit "fee") (num (of_ℕ b.fee)) end))))
instructed b (c ∷ cs) = obj (
    field (lit "fanOut") (bool true) (
      field (lit "instructions") (arr (from_list (map instruction (b ∷ c ∷ cs))))
        (field (lit "venue") (str b.venue) end)))

swap_payload-instructed : (b : Build) (bs : List Build) → swap_payload b bs ≡ instructed b bs
unfolding swap_payload instruction_json
swap_payload-instructed b [] = refl
swap_payload-instructed b (c ∷ cs) = refl

trade_of-traded : (m : Market) (d : Direction) (n : ℕ) → trade_of m d (pos n) ≡ traded m d n
unfolding trade_of
trade_of-traded m buy n = refl
trade_of-traded m sell n = refl

module _ (h : Host) (t : Trade) (n : ℕ) (is_base : t.base_notional ≡ pos n) where
  build_order-IsOrder :
      (f : FollowerAlloc) (b : Build)
      → 0 < t.price_out
      → is_positive f.allocation_bps ≡ true
      → build_order h t f ≡ next (some b)
      → IsOrder h t (n * whole_part f.allocation_bps / 10000) f b
  unfolding Round
  build_order-IsOrder f b price p e =
      let (m, something, own, calldata, at_most, at_least) =
        build_order-call h t n f b is_base price p e in
      record {
        minimum = m;
        something = something;
        own = own;
        calldata = calldata;
        at_most = at_most;
        at_least = at_least;
        amount = (build_order-Round h t n is_base f (some b) p e).1;
        venue = (build_order-Routed h t f b e).0;
        routed = (build_order-Routed h t f b e).1;
      }

  build_each-Orders :
      (fs : List FollowerAlloc) (bs : List Build)
      → 0 < t.price_out
      → AllPositive fs
      → build_each (build_order h t) fs ≡ next bs
      → Orders h t n fs bs
  unfolding build_each Round
  build_each-Orders [] bs price p e = let is_empty : [] ≡ bs = ground arith in rw⁻¹ is_empty no_more
  build_each-Orders (f ∷ fs) bs price (p, ps) e = elim (Flow-cases (build_order h t f)) [
    | inr none_next ↦ absurd (grind (arith, none_next))
    | inl (b, is_b) ↦ elim (Flow-cases (build_each (build_order h t) fs)) [
      | inr none_next ↦ absurd (grind (arith, none_next))
      | inl (rest, is_rest) ↦
          let pushed : bs ≡ push b rest = ground arith in
          rw pushed (add b rest is_b (build_each-Orders fs rest price ps is_rest))
    ]
  ]
    where
      add :
          (b : Option Build) (rest : List Build)
          → build_order h t f ≡ next b
          → Orders h t n fs rest
          → Orders h t n (f ∷ fs) (push b rest)
      add none rest is_b orders =
          skipped f fs rest (build_order-Round h t n is_base f none p is_b) orders
      add (some b) rest is_b orders =
          ordered f fs b rest (build_order-Round h t n is_base f (some b) p is_b).0
            (build_order-IsOrder f b price p is_b) orders

traded-base : (m : Market) (d : Direction) (n : ℕ) → (traded m d n).base_notional ≡ pos n
traded-base m buy n = refl
traded-base m sell n = refl

traded-priced :
    (h : Host) (m : Market) (d : Direction) (n : ℕ) → IsQuoted h m → 0 < (traded m d n).price_out
traded-priced h m buy n q = q.priced.0
traded-priced h m sell n q = q.priced.1

-- A signal with positive numbers that is matched is turned into orders in the market that the chain
-- quotes: the prices of FXRP and of the dollar token are those that the oracle answers and not zero, and
-- the tokens are those of the environment or of the asset managers. A BUY pays the dollar token for
-- FXRP, a SELL pays FXRP for it. Each target gets, in order, one order for exactly its share of the
-- position, to its own address, that expires 300 seconds later and accepts no less than a minimum that is
-- not zero and 99% of what the prices give, but for rounding; a target whose share rounds to nothing
-- gets none. The orders go to the router of EXECUTION_VENUE (`mock-sparkdex` where it is not set), with
-- the fee 0 on `blazeswap-v2` and 500 elsewhere. The answer is the one order's instruction, or a fan-out of all of them with the recipients
-- and the amounts. The shares are together at most the part of the position that is allotted, in basis
-- points.
pub match_swap-Orders :
    (h : Host) (parsed : Json) (s : Signal) (m : Matched)
    → is_positive s.size_pct ≡ true
    → AllPositive s.targets
    → match_swap h parsed s ≡ next m
    → ((market : Market) × (b : Build) × (bs : List Build) × IsQuoted h market
        × Orders h
            (traded market s.direction (position s.size_pct))
            (position s.size_pct)
            s.targets
            (b ∷ bs)
        × (m.payload ≡ instructed b bs))
      × (total (filter nonzero (shares (position s.size_pct) s.targets))
          ≤ position s.size_pct * allotted s.targets / 10000)
match_swap-Orders h parsed s m size_positive positive e =
    let (market, z, bs, is_market, is_z, is_bs, is_m) = match_swap-inv h parsed s m e in
    let (b, cs, is_cons, is_payload) = swap_matched-inv h parsed s bs m is_m in
    let n = position s.size_pct in
    let t = traded market s.direction n in
    let quoted = read_market-IsQuoted h market is_market in
    let is_t : trade_of market s.direction z ≡ t =
      ap (trade_of market s.direction) (size_position_lem s.size_pct z size_positive is_z)
      ∙ trade_of-traded market s.direction n in
    let built = rw is_t at is_bs in
    let base : t.base_notional ≡ pos n = traded-base market s.direction n in
    (
      (
        market,
        b,
        cs,
        quoted,
        rw is_cons at (
            build_each-Orders h t n base s.targets bs (traded-priced h market s.direction n quoted)
              positive built),
        is_payload ∙ swap_payload-instructed b cs,
      ),
      shares-le n s.targets,
    )
