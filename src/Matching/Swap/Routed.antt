-- ===== src/Matching/Swap/Routed.antt =====
-- handlers.ts: the router that an order goes to.
use xrpl.Prelude.{◌≡◌, ◌≢◌, sym, ap, ◌∙◌, some, arith, inl, inr, Option-cases, Bool-cases}
use xrpl.Js.Text.{same_iff, same, to_lower_case, Text, lit}
use xrpl.Js.Number.{trunc}
use xrpl.Js.BigInt.{big_int, ℤ}
use xrpl.Js.Outcome.{ok, Outcome-cases}
use xrpl.Base.Flow.{next}
use xrpl.Matching.Host.{Host}
use xrpl.Matching.Signal.{text_or, FollowerAlloc}
use xrpl.Matching.Swap.{
  amount_out_minimum, share_of, mock_sparkdex, encode_order, Build, Trade, build_order,
  if_not_empty,
}

-- Where an order goes: the venue of EXECUTION_VENUE in lower case, with the router and the fee of its kind.
pub data Routed (h : Host) (b : Build) : Type 0 where
  blazeswap :
      (router : Text)
      → b.venue ≡ lit "blazeswap-v2"
      → h.env (lit "BLAZESWAP_ROUTER_ADDRESS") ≡ some router
      → h.get_address router ≡ ok b.to
      → b.fee ≡ 0
      → Routed h b
  sparkdex :
      (router : Text)
      → b.venue ≢ lit "blazeswap-v2"
      → h.env (lit "MOCK_SPARKDEX_ROUTER_ADDRESS") ≡ some router
      → h.get_address router ≡ ok b.to
      → b.fee ≡ 500
      → Routed h b

module _ (h : Host) (t : Trade) where
  encode_order-Routed :
      (venue recipient : Text) (notional minimum : ℤ) (b : Build)
      → encode_order h t venue recipient notional minimum ≡ next b
      → (b.venue ≡ venue) × Routed h b
  unfolding encode_order
  encode_order-Routed venue recipient notional minimum b e =
      let blaze = lit "BLAZESWAP_ROUTER_ADDRESS" in
      let mock = lit "MOCK_SPARKDEX_ROUTER_ADDRESS" in
      elim (Bool-cases (same venue (lit "blazeswap-v2"))) [
        | inl is_blaze ↦ elim (Option-cases (if_not_empty (h.env blaze))) [
          | inl missing ↦ absurd (ground arith)
          | inr (router, set) ↦ elim (Outcome-cases (h.get_address router)) [
            | inr (x, bad) ↦ absurd (ground arith)
            | inl (to, is_to) ↦
                let own : b.venue ≡ venue = ground arith in
                let named = (same_iff venue (lit "blazeswap-v2")).0 is_blaze in
                let to_own : b.to ≡ to = ground arith in
                (
                  own,
                  blazeswap router (own ∙ named) (ground arith) (is_to ∙ ap ok (sym to_own))
                      (ground arith),
                )
          ]
        ]
        | inr not_blaze ↦ elim (Option-cases (if_not_empty (h.env mock))) [
          | inl missing ↦ absurd (ground arith)
          | inr (router, set) ↦ elim (Outcome-cases (h.get_address router)) [
            | inr (x, bad) ↦ absurd (ground arith)
            | inl (to, is_to) ↦
                let own : b.venue ≡ venue = ground arith in
                let other : b.venue ≢ lit "blazeswap-v2" =
                  λ p. ground (arith, same_iff venue (lit "blazeswap-v2")) in
                let to_own : b.to ≡ to = ground arith in
                (
                  own,
                  sparkdex router other (ground arith) (is_to ∙ ap ok (sym to_own)) (ground arith),
                )
          ]
        ]
      ]

  pub build_order-Routed :
      (f : FollowerAlloc) (b : Build)
      → build_order h t f ≡ next (some b)
      → (b.venue ≡ to_lower_case (text_or (h.env (lit "EXECUTION_VENUE")) (lit "mock-sparkdex")))
        × Routed h b
  unfolding build_order mock_sparkdex
  build_order-Routed f b e = elim (Outcome-cases (big_int (trunc f.allocation_bps))) [
    | inr (x, bad) ↦ absurd (ground arith)
    | inl (bps, is_bps) ↦ elim (Outcome-cases (h.get_address f.address)) [
      | inr (x, bad) ↦ absurd (grind (arith, is_bps, bad))
      | inl (recipient, own) ↦
          let venue = to_lower_case (text_or (h.env (lit "EXECUTION_VENUE")) mock_sparkdex) in
          let notional = share_of t.base_notional bps in
          let minimum = amount_out_minimum t notional in
          let encoded : encode_order h t venue recipient notional minimum ≡ next b =
            grind (arith, is_bps, own) in
          encode_order-Routed venue recipient notional minimum b encoded
    ]
  ]
