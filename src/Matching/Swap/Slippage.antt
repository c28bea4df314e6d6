-- ===== src/Matching/Swap/Slippage.antt =====
-- handlers.ts: what an order of a signal encodes, and the least that it accepts in return.
use native.Mathlib.Nat.{mul-le-mul_right, div-mul-le_self, lt-div-mul-add}
use xrpl.Prelude.{
  ℕ, ◌+◌, ◌*◌, ◌/◌, ◌≤◌, ◌<◌, ◌≡◌, refl, sym, ap, ◌∙◌, true, [], ◌∷◌, some, arith, inl, inr,
  if◌then◌else◌,
}
use xrpl.Js.Text.{Text, lit, same, to_lower_case}
use xrpl.Js.Number.{trunc}
use xrpl.Js.BigInt.{pos, big_int, times, over}
use xrpl.Js.Outcome.{ok, Outcome-cases}
use xrpl.Base.Flow.{next}
use xrpl.Matching.Host.{Host, Call, swap_exact_tokens_for_tokens, exact_input_single}
use xrpl.Matching.Signal.{FollowerAlloc, is_positive, text_or}
use xrpl.Matching.Swap.{
  Build, Trade, share_of, build_order, encode_order, expected_out, amount_out_minimum,
  mock_sparkdex,
}
use xrpl.Matching.Swap.Sizing.{whole_part, big_int-trunc, share_of_lem}

-- The least amount that a trade accepts, in natural numbers.
abbrev pub floor_99 : ℕ → ℕ
floor_99 q = q * 9900 / 10000

amount_out_minimum_lem :
    (t : Trade) (v : ℕ)
    → amount_out_minimum t (pos v) ≡ pos (floor_99 (v * t.price_in / t.price_out))
unfolding amount_out_minimum expected_out times over
amount_out_minimum_lem t v = refl

floor_99-le : (x d : ℕ) → floor_99 (x / d) * 10000 * d ≤ x * 9900
floor_99-le x d =
    let q = x / d in
    let scaled : floor_99 q * 10000 * d ≤ q * 9900 * d = mul-le-mul_right d (omega arith) in
    omega (arith, scaled, div-mul-le_self x d)

lt-floor_99 : (x d : ℕ) → 0 < d → x * 9900 < (floor_99 (x / d) * 10000 + 19900) * d
lt-floor_99 x d h =
    let q = x / d in
    let scaled : (q * 9900 + 1) * d ≤ (floor_99 q * 10000 + 10000) * d =
      mul-le-mul_right d (omega arith) in
    omega (arith, scaled, lt-div-mul-add {a = x} h)

-- The call of an order on the venue that it names.
unfoldable pub order_call :
    Trade → (venue recipient : Text) → (deadline notional minimum : ℕ) → Call
order_call t venue recipient deadline notional minimum =
    if same venue (lit "blazeswap-v2")
    then swap_exact_tokens_for_tokens (pos notional) (pos minimum) (t.token_in ∷ t.token_out ∷ [])
        recipient deadline
    else exact_input_single t.token_in t.token_out 500 recipient deadline (pos notional)
        (pos minimum) 0

module _ (h : Host) (t : Trade) where
  encode_order-call :
      (venue recipient : Text) (v m : ℕ) (b : Build)
      → encode_order h t venue recipient (pos v) (pos m) ≡ next b
      → (b.recipient ≡ recipient)
        × (h.encode_call (order_call t b.venue recipient (h.now + 300) v m) ≡ ok b.calldata)
  unfolding encode_order order_call
  encode_order-call venue recipient v m b e = ground arith

  -- An order of a target with a positive allocation, in a trade where the price of the token that is
  -- bought is not zero, encodes a call for exactly its share of the position, to the target's own
  -- address, that expires 300 seconds later. The call accepts no less than some minimum, which is
  -- not zero, is at most 99% of what the prices give, and is less than that by under two units of the
  -- token.
  pub build_order-call :
      (n : ℕ) (f : FollowerAlloc) (b : Build)
      → t.base_notional ≡ pos n
      → 0 < t.price_out
      → is_positive f.allocation_bps ≡ true
      → build_order h t f ≡ next (some b)
      → let v = n * whole_part f.allocation_bps / 10000 in
        (m : ℕ) × (0 < m)
        × (h.get_address f.address ≡ ok b.recipient)
        × (h.encode_call (order_call t b.venue b.recipient (h.now + 300) v m) ≡ ok b.calldata)
        × (m * 10000 * t.price_out ≤ v * t.price_in * 9900)
        × (v * t.price_in * 9900 < (m * 10000 + 19900) * t.price_out)
  unfolding build_order
  build_order-call n f b is_base price p e =
      elim (Outcome-cases (big_int (trunc f.allocation_bps))) [
        | inr (x, bad) ↦ absurd (ground arith)
        | inl (z, ok_z) ↦
            let a = whole_part f.allocation_bps in
            let v = n * a / 10000 in
            let m = floor_99 (v * t.price_in / t.price_out) in
            let is_z : z ≡ pos a = big_int-trunc f.allocation_bps z p ok_z in
            let share : share_of t.base_notional z ≡ pos v =
              rw (is_base, is_z) (share_of_lem n a) in
            let least = amount_out_minimum_lem t v in
            elim (Outcome-cases (h.get_address f.address)) [
              | inr (x, bad) ↦ absurd (grind (arith, ok_z, share, least, bad))
              | inl (recipient, ok_recipient) ↦
                  let venue =
                    to_lower_case (text_or (h.env (lit "EXECUTION_VENUE")) mock_sparkdex) in
                  let encoded : encode_order h t venue recipient (pos v) (pos m) ≡ next b =
                    grind (arith, ok_z, share, least, ok_recipient) in
                  let (own, calldata) = encode_order-call venue recipient v m b encoded in
                  let at_own : h.get_address f.address ≡ ok b.recipient =
                    ok_recipient ∙ ap ok (sym own) in
                  (
                    m,
                    grind (arith, ok_z, share, least),
                    at_own,
                    rw own calldata,
                    floor_99-le (v * t.price_in) t.price_out,
                    lt-floor_99 (v * t.price_in) t.price_out price,
                  )
            ]
      ]
