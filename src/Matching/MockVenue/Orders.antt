-- ===== src/Matching/MockVenue/Orders.antt =====
-- handlers.ts, `buildMockVenueStageB`: what an order of a mock venue encodes.
use xrpl.Prelude.{ℕ, ◌*◌, ◌/◌, ◌≡◌, ◌≢◌, ◌∙◌, ap, true, some, arith, inl, inr}
use xrpl.Js.Text.{Text, lit}
use xrpl.Js.Number.{trunc}
use xrpl.Js.Number.Show.{decimal}
use xrpl.Js.BigInt.{pos, big_int, over, big_text}
use xrpl.Js.Outcome.{ok, Outcome-cases}
use xrpl.Js.Json.{Json, property}
use xrpl.Js.Json.Coerce.{number_of}
use xrpl.Base.Flow.{next}
use xrpl.Base.Flow.Ends.{Flow-cases}
use xrpl.Matching.Host.{Host, Call, open_cdp, deposit}
use xrpl.Matching.Signal.{MockVenue, enosys_cdp, firelight_strategy, is_positive}
use xrpl.Matching.Swap.{share_of}
use xrpl.Matching.Swap.Sizing.{whole_part, big_int-trunc, share_of_lem}
use xrpl.Matching.MockVenue.{MockBuild, mock_call, build_mock}

-- The call of an order of `v` units.
unfoldable pub venue_call : MockVenue → ℕ → Call
venue_call enosys_cdp v = open_cdp (pos v) (pos (v / 2))
venue_call firelight_strategy v = deposit (pos v)

module _ (h : Host) where
  mock_call-next :
      (venue : MockVenue) (v : ℕ) (out : Text × Text)
      → mock_call h venue (pos v) ≡ next out
      → h.encode_call (venue_call venue v) ≡ ok out.1
  unfolding mock_call venue_call over
  mock_call-next enosys_cdp v out e = ground arith
  mock_call-next firelight_strategy v out e = ground arith

  -- An order of a mock venue for a target whose allocation reads as a positive number opens a position
  -- with exactly the target's share of the position, which is not zero, as collateral and half of it
  -- minted, or deposits exactly that share, according to the venue; the recipient is the target's
  -- own address.
  pub build_mock-call :
      (venue : MockVenue) (n : ℕ) (f : Json) (b : MockBuild)
      → is_positive (number_of (property (lit "allocationBps") f)) ≡ true
      → build_mock h venue (pos n) f ≡ next (some b)
      → let v = n * whole_part (number_of (property (lit "allocationBps") f)) / 10000 in
        (v ≢ 0)
        × (b.amount_in ≡ decimal v)
        × (h.get_address_of (property (lit "address") f) ≡ ok b.recipient)
        × (h.encode_call (venue_call venue v) ≡ ok b.calldata)
  unfolding build_mock big_text
  build_mock-call venue n f b p e =
      let x = number_of (property (lit "allocationBps") f) in
      let v = n * whole_part x / 10000 in
      elim (Outcome-cases (big_int (trunc x))) [
        | inr (t, bad) ↦ absurd (grind (arith, bad))
        | inl (z, ok_z) ↦
            let is_z : z ≡ pos (whole_part x) = big_int-trunc x z p ok_z in
            let share : share_of (pos n) z ≡ pos v =
              ap (share_of (pos n)) is_z ∙ share_of_lem n (whole_part x) in
            elim (Outcome-cases (h.get_address_of (property (lit "address") f))) [
              | inr (t, bad) ↦ absurd (grind (arith, ok_z, share, bad))
              | inl (recipient, ok_recipient) ↦ elim (Flow-cases (mock_call h venue (pos v))) [
                | inr none_next ↦ absurd (grind (arith, ok_z, share, ok_recipient, none_next))
                | inl (out, is_out) ↦
                    let encoded = mock_call-next venue v out is_out in
                    (
                      grind (arith, ok_z, share),
                      grind (arith, ok_z, share, ok_recipient, is_out),
                      grind (arith, ok_z, share, ok_recipient, is_out),
                      grind (arith, ok_z, share, ok_recipient, is_out, encoded),
                    )
              ]
            ]
      ]
