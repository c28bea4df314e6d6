-- ===== src/Relayer/Tests/Attestation.antt =====
-- A request for an attestation, and the attestation of a payment, on the chain of World.
use xrpl.Prelude.{false, ◌+◌, ◌≤◌, ◌≡◌, ◌≢◌, refl, [], none, arith}
use xrpl.Js.Text.{lit, same, is_empty}
use xrpl.Js.Outcome.{ok}
use xrpl.Js.Task.{◌>>=◌, pure, raise, perform, catch}
use xrpl.Js.Task.Acts.{count, EachAct}
use xrpl.Js.Task.Returns.{Returns-of}
use xrpl.Js.Number.{round}
use xrpl.Js.BigInt.{number_of, minus, over}
use xrpl.Relayer.Abi.{text}
use xrpl.Relayer.Fdc.{
  request_attestation, send_request, settle_round, registry_address, count_transactions,
  wait_for_nonce, attempt, submit, estimate, system_uint, round_of, first_bid, request_of,
  Submitted,
}
use xrpl.Relayer.Fdc.Bounds.{is_sent, is_pause, request_attestation-bounds}
use xrpl.Relayer.Fdc.Bids.{Asks, request_attestation-Asks}
use xrpl.Relayer.Fdc.Settled.{IsSettled, request_attestation-IsSettled}
use xrpl.Relayer.Attest.{attest_xrpl_payment}
use xrpl.Relayer.Attest.Ends.{attest_xrpl_payment-ends}
use xrpl.Relayer.Tests.World.{chain, chain-IsTimed, fresh}

abbrev out : Submitted
out = record { hash = lit "0xh"; round_id = round false 10 1; fee = 90 }

returned : (request_attestation chain (lit "0x02") fresh).0 ≡ ok out
unfolding request_attestation send_request settle_round registry_address count_transactions
    wait_for_nonce attempt submit estimate system_uint round_of first_bid request_of ◌>>=◌ pure
    raise perform catch same is_empty number_of minus over
returned = refl

request_attestation-IsSettled_example :
    IsSettled chain out
      (request_attestation chain (lit "0x02") fresh).1.acts
      (request_attestation chain (lit "0x02") fresh).1.world
request_attestation-IsSettled_example =
    request_attestation-IsSettled chain (lit "0x02") fresh out
      (request_attestation chain (lit "0x02") fresh).1
      (Returns-of (request_attestation chain (lit "0x02")) fresh out returned)

request_attestation-bounds_example :
    (count is_sent (request_attestation chain (lit "0x02") fresh).1.acts ≤ 5 + count is_sent [])
    × (count is_pause (request_attestation chain (lit "0x02") fresh).1.acts
        ≤ 200 + count is_pause [])
request_attestation-bounds_example = request_attestation-bounds chain (lit "0x02") fresh

request_attestation-Asks_example :
    EachAct (Asks (lit "0x02")) (request_attestation chain (lit "0x02"))
request_attestation-Asks_example = request_attestation-Asks chain (lit "0x02")

attest_xrpl_payment-ends_example :
    (attest_xrpl_payment chain (λ hex. ok (text hex)) 50 (lit "ab") fresh).0 ≢ ok none
attest_xrpl_payment-ends_example =
    attest_xrpl_payment-ends chain (λ hex. ok (text hex)) (λ w. w) chain-IsTimed 50 (lit "ab") fresh
      (omega arith)
