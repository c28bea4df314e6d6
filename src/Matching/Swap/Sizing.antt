-- ===== src/Matching/Swap/Sizing.antt =====
-- handlers.ts: what the orders of a signal amount to.
use xrpl.Prelude.{
  ℕ, ◌+◌, ◌*◌, ◌/◌, ◌^◌, ◌≤◌, ◌≡◌, ◌≢◌, refl, Bool, true, false, not, List, [], ◌∷◌, map, Option,
  none, some, arith, ◌==◌, filter, All, inl, inr,
}
use xrpl.Js.Text.{Text}
use xrpl.Js.Number.{Number, nan, infinite, finite, trunc, le, lt, is_nan}
use xrpl.Js.Number.Show.{decimal}
use xrpl.Js.BigInt.{ℤ, pos, big_int, times, over, big_text}
use xrpl.Js.Outcome.{ok, Outcome-cases}
use xrpl.Js.Json.{Json}
use xrpl.Base.Flow.{next}
use xrpl.Base.Flow.Ends.{Flow-cases}
use xrpl.Matching.Host.{Host}
use xrpl.Matching.Signal.{FollowerAlloc, Signal, is_positive}
use xrpl.Matching.Swap.{
  Build, Trade, share_of, base_notional_of, size_position, notional_cap, build_order, build_each,
  encode_order, Matched, match_swap, swap_matched, swap_payload, read_market, trade_of, Market,
}

-- The whole part of a number of basis points.
unfoldable pub whole_part : Number → ℕ
whole_part nan = 0
whole_part (infinite _) = 0
whole_part (finite _ a s) = a / 2 ^ s

abbrev pub nonzero : ℕ → Bool
nonzero n = not (n == 0)

unfoldable pub total : List ℕ → ℕ
total [] = 0
total (n ∷ ns) = n + total ns

-- The shares of a position that the targets are allotted.
unfoldable pub shares : ℕ → List FollowerAlloc → List ℕ
unfolding whole_part
shares n fs = map (λ f. n * whole_part f.allocation_bps / 10000) fs

-- The basis points that the targets are allotted together.
unfoldable pub allotted : List FollowerAlloc → ℕ
unfolding whole_part total
allotted fs = total (map (λ f. whole_part f.allocation_bps) fs)

abbrev pub AllPositive : List FollowerAlloc → Type 0
AllPositive fs = All (λ f. is_positive f.allocation_bps ≡ true) fs

div_sum : (n a b : ℕ) → n * a / 10000 + n * b / 10000 ≤ n * (a + b) / 10000
div_sum n a b = omega arith

total-shares : (n : ℕ) (fs : List FollowerAlloc) → total (shares n fs) ≤ n * allotted fs / 10000
unfolding shares allotted total
total-shares n [] = omega arith
total-shares n (f ∷ fs) =
    omega (arith, total-shares n fs, div_sum n (whole_part f.allocation_bps) (allotted fs))

total-filter : (ns : List ℕ) → total (filter nonzero ns) ≡ total ns
unfolding total
total-filter [] = refl
total-filter (n ∷ ns) = ground (arith, total-filter ns)

pub shares-le :
    (n : ℕ) (fs : List FollowerAlloc)
    → total (filter nonzero (shares n fs)) ≤ n * allotted fs / 10000
shares-le n fs = omega (arith, total-filter (shares n fs), total-shares n fs)

-- A positive number that `BigInt(Math.trunc(x))` takes is its whole part.
pub big_int-trunc :
    (x : Number) (z : ℤ) → is_positive x ≡ true → big_int (trunc x) ≡ ok z → z ≡ pos (whole_part x)
unfolding big_int trunc whole_part le lt is_nan
big_int-trunc nan z p e = ground arith
big_int-trunc (infinite n) z p e = ground arith
big_int-trunc (finite true a s) z p e = ground arith
big_int-trunc (finite false a s) z p e = ground arith

pub share_of_lem : (n a : ℕ) → share_of (pos n) (pos a) ≡ pos (n * a / 10000)
unfolding share_of times over
share_of_lem n a = refl

big_text_pos : (v : ℕ) → big_text (pos v) ≡ decimal v
unfolding big_text
big_text_pos v = refl

encode_order-amount_in :
    (h : Host) (t : Trade) (venue recipient : Text) (notional minimum : ℤ) (b : Build)
    → encode_order h t venue recipient notional minimum ≡ next b
    → b.amount_in ≡ big_text notional
unfolding encode_order
encode_order-amount_in h t venue recipient notional minimum b e = ground arith

module _ (h : Host) (t : Trade) (n : ℕ) (is_base : t.base_notional ≡ pos n) where
  -- What one round of the loop makes of a share.
  unfoldable pub Round : ℕ → Option Build → Type 0
  Round v none = v ≡ 0
  Round v (some b) = (v ≢ 0) × (b.amount_in ≡ decimal v)

  pub build_order-Round :
      (f : FollowerAlloc) (b : Option Build)
      → is_positive f.allocation_bps ≡ true
      → build_order h t f ≡ next b
      → Round (n * whole_part f.allocation_bps / 10000) b
  unfolding build_order Round
  build_order-Round f b p e = elim (Outcome-cases (big_int (trunc f.allocation_bps))) [
    | inr (x, bad) ↦ absurd (ground arith)
    | inl (z, ok_z) ↦
        let a = whole_part f.allocation_bps in
        let v = n * a / 10000 in
        let is_z : z ≡ pos a = big_int-trunc f.allocation_bps z p ok_z in
        let share : share_of t.base_notional z ≡ pos v = rw (is_base, is_z) (share_of_lem n a) in
        grind (arith, ok_z, share, encode_order-amount_in h t, big_text_pos v)
  ]

-- The position of a signal: its share of the cap.
unfoldable pub position : Number → ℕ
unfolding whole_part
position size = notional_cap * whole_part size / 10000

pub size_position_lem :
    (size : Number) (z : ℤ)
    → is_positive size ≡ true
    → size_position size ≡ next z
    → z ≡ pos (position size)
unfolding size_position base_notional_of position
size_position_lem size z p e = elim (Outcome-cases (big_int (trunc size))) [
  | inr (x, bad) ↦ absurd (ground arith)
  | inl (w, is_w) ↦
      let value : w ≡ pos (whole_part size) = big_int-trunc size w p is_w in
      let share = share_of_lem notional_cap (whole_part size) in grind (arith, is_w, value, share)
]

pub swap_matched-inv :
    (h : Host) (parsed : Json) (s : Signal) (bs : List Build) (m : Matched)
    → swap_matched h parsed s bs ≡ next m
    → (b : Build) × (cs : List Build) × (bs ≡ b ∷ cs) × (m.payload ≡ swap_payload b cs)
unfolding swap_matched
swap_matched-inv h parsed s [] m e = absurd (ground arith)
swap_matched-inv h parsed s (b ∷ cs) m e = (b, cs, refl, ground arith)

-- What a matched signal went through.
pub match_swap-inv :
    (h : Host) (parsed : Json) (s : Signal) (m : Matched)
    → match_swap h parsed s ≡ next m
    → (market : Market) × (z : ℤ) × (bs : List Build) × (read_market h ≡ next market)
      × (size_position s.size_pct ≡ next z)
      × (build_each (build_order h (trade_of market s.direction z)) s.targets ≡ next bs)
      × (swap_matched h parsed s bs ≡ next m)
unfolding match_swap
match_swap-inv h parsed s m e = elim (Flow-cases (read_market h)) [
  | inr none_next ↦ absurd (grind (arith, none_next))
  | inl (market, is_market) ↦ elim (Flow-cases (size_position s.size_pct)) [
    | inr none_next ↦ absurd (grind (arith, none_next))
    | inl (z, is_z) ↦
        elim (Flow-cases (build_each (build_order h (trade_of market s.direction z)) s.targets)) [
          | inr none_next ↦ absurd (grind (arith, none_next))
          | inl (bs, is_bs) ↦
              (market, z, bs, is_market, is_z, is_bs, grind (arith, is_market, is_z, is_bs))
        ]
  ]
]
