-- ===== src/Relayer/Fdc/Bounds.antt =====
-- fdc.ts: how often a request for an attestation is sent and waits, and what it sends.
use xrpl.Prelude.{
  ℕ, zero, suc, ◌+◌, ◌-◌, ◌*◌, ◌≤◌, ◌≡◌, refl, Bool, true, false, not, ◌||◌, Option, none, some,
  arith, leb, ◌==◌,
}
use xrpl.Js.Text.{Text, lit, same, is_empty}
use xrpl.Js.Outcome.{Outcome}
use xrpl.Js.Task.{Run, ◌>>◌}
use xrpl.Js.Task.Acts.{
  AtMost, count, AtMost-pure, AtMost-raise, AtMost-bind, AtMost-catch, AtMost-perform, AtMost-other,
  AtMost-more, AtMost-lift, AtMost-skip, AtMost-next, AtMost-test,
}
use xrpl.Relayer.Chain.{Chain, Act, Receipt, read, counted, wrote, awaited, asked_block, slept}
use xrpl.Relayer.Fdc.{
  Bid, bump, is_nonce_race, registry_address, count_transactions, pause, wait_for_nonce,
  wait_for_pending_nonce, attempt, submit, estimate, hash_or_raise, send_request, system_uint,
  settle_round, request_attestation, first_bid,
}

abbrev pub is_sent : Act → Bool
is_sent (wrote _ _) = true
is_sent _ = false

abbrev pub is_pause : Act → Bool
is_pause (slept _) = true
is_pause _ = false

or-true : (b : Bool) → (b || true) ≡ true
or-true true = refl
or-true false = refl

module _ {W : Type 0} (c : Chain W) where
  count_transactions-AtMost :
      (is : Act → Bool) (tag : Text)
      → ((o : Outcome ℕ) → is (counted tag o) ≡ false)
      → AtMost is 0 (count_transactions c tag)
  unfolding count_transactions
  count_transactions-AtMost is tag h = AtMost-other _ _ h

  registry_address-AtMost :
      (is : Act → Bool) (name : Text)
      → ((address function : Text) → is (read address function) ≡ false)
      → AtMost is 0 (registry_address c name)
  unfolding registry_address
  registry_address-AtMost is name h = AtMost-other _ _ λ o. h _ _

  wait_for_nonce-pauses : (n : ℕ) → AtMost is_pause n (wait_for_nonce c n)
  unfolding wait_for_nonce pause
  wait_for_nonce-pauses zero = AtMost-raise _ 0
  wait_for_nonce-pauses (suc n) =
      AtMost-skip _ _ (suc n) (count_transactions-AtMost is_pause _ λ o. refl) λ latest.
        AtMost-skip _ _ (suc n) (count_transactions-AtMost is_pause _ λ o. refl) λ pending.
          AtMost-test (leb pending latest) _ _ (suc n) (AtMost-pure tt (suc n))
            (AtMost-next _ _ n (AtMost-perform _ _) λ _. wait_for_nonce-pauses n)

  wait_for_nonce-sends : (n : ℕ) → AtMost is_sent 0 (wait_for_nonce c n)
  unfolding wait_for_nonce pause
  wait_for_nonce-sends zero = AtMost-raise _ 0
  wait_for_nonce-sends (suc n) =
      AtMost-skip _ _ 0 (count_transactions-AtMost is_sent _ λ o. refl) λ latest.
        AtMost-skip _ _ 0 (count_transactions-AtMost is_sent _ λ o. refl) λ pending.
          AtMost-test (leb pending latest) _ _ 0 (AtMost-pure tt 0)
            (AtMost-skip _ _ 0 (AtMost-other _ _ λ o. refl) λ _. wait_for_nonce-sends n)

  attempt-pauses :
      (hub request : Text) (fee : ℕ) (bid : Bid) → AtMost is_pause 0 (attempt c hub request fee bid)
  unfolding attempt
  attempt-pauses hub request fee bid =
      AtMost-skip _ _ 0 (count_transactions-AtMost is_pause _ λ o. refl)
        λ nonce. AtMost-skip _ _ 0 (AtMost-other _ _ λ o. refl) λ hash. AtMost-pure (some hash) 0

  attempt-sends :
      (hub request : Text) (fee : ℕ) (bid : Bid) → AtMost is_sent 1 (attempt c hub request fee bid)
  unfolding attempt
  attempt-sends hub request fee bid =
      AtMost-skip _ _ 1 (count_transactions-AtMost is_sent _ λ o. refl)
        λ nonce. AtMost-next _ _ 0 (AtMost-perform _ _) λ hash. AtMost-pure (some hash) 0

  submit-sends :
      (hub request : Text) (fee n : ℕ) (bid : Bid)
      → AtMost is_sent n (submit c hub request fee n bid)
  unfolding submit
  submit-sends hub request fee zero bid = AtMost-pure none 0
  submit-sends hub request fee (suc n) bid =
      let again : AtMost is_sent n
          (wait_for_pending_nonce c >> submit c hub request fee n (bump bid)) =
        AtMost-skip _ _ n (wait_for_nonce-sends 40)
          λ _. submit-sends hub request fee n (bump bid) in
      AtMost-more {n = 1 + n} {k = suc n}
        (AtMost-catch _ _ 1 n (attempt-sends hub request fee bid)
          λ e. AtMost-test (not (is_nonce_race e) || (n == 0)) _ _ n (AtMost-raise e n) again)
        (omega arith)

  submit-pauses :
      (hub request : Text) (fee n : ℕ) (bid : Bid)
      → AtMost is_pause (40 * (n - 1)) (submit c hub request fee n bid)
  unfolding submit
  submit-pauses hub request fee zero bid = AtMost-pure none _
  submit-pauses hub request fee (suc zero) bid =
      AtMost-catch _ _ 0 0 (attempt-pauses hub request fee bid)
        λ e. rw (or-true (not (is_nonce_race e))) (AtMost-raise e 0)
  submit-pauses hub request fee (suc (suc n)) bid =
      let again : AtMost is_pause (40 + 40 * n)
          (wait_for_pending_nonce c >> submit c hub request fee (suc n) (bump bid)) =
        AtMost-bind _ _ 40 (40 * n) (wait_for_nonce-pauses 40)
          λ _. AtMost-more (submit-pauses hub request fee (suc n) (bump bid)) (omega arith) in
      AtMost-more {n = 0 + (40 + 40 * n)}
        (AtMost-catch _ _ 0 (40 + 40 * n) (attempt-pauses hub request fee bid)
          λ e. AtMost-test (not (is_nonce_race e) || (suc n == 0)) _ _ _ (AtMost-raise e _) again)
        (omega arith)

  hash_or_raise-AtMost :
      (is : Act → Bool) (o : Option Text) → AtMost {W = W} is 0 (hash_or_raise c o)
  hash_or_raise-AtMost is none = AtMost-raise _ 0
  hash_or_raise-AtMost is (some hash) =
      AtMost-test (is_empty hash) _ _ 0 (AtMost-raise _ 0) (AtMost-pure hash 0)

  send_request-bounds :
      (request : Text)
      → AtMost is_sent 5 (send_request c request) × AtMost is_pause 200 (send_request c request)
  unfolding send_request estimate
  send_request-bounds request = (
    AtMost-skip _ _ 5 (registry_address-AtMost is_sent _ λ a f. refl) λ hub.
        AtMost-skip _ _ 5 (registry_address-AtMost is_sent _ λ a f. refl) λ fee_cfg.
          AtMost-skip _ _ 5 (AtMost-other _ _ λ o. refl) λ fee.
            AtMost-skip _ _ 5 (wait_for_nonce-sends 40) λ _.
              AtMost-skip _ _ 5
                (AtMost-catch _ _ 0 0 (AtMost-other _ _ λ o. refl) λ e. AtMost-pure _ 0)
                λ fees.
                  AtMost-bind _ _ 5 0 (submit-sends hub request fee 5 (first_bid fees)) λ sent.
                    AtMost-skip _ _ 0 (hash_or_raise-AtMost is_sent sent) λ hash. AtMost-pure _ 0,
    AtMost-skip _ _ 200 (registry_address-AtMost is_pause _ λ a f. refl) λ hub.
        AtMost-skip _ _ 200 (registry_address-AtMost is_pause _ λ a f. refl) λ fee_cfg.
          AtMost-skip _ _ 200 (AtMost-other _ _ λ o. refl) λ fee.
            AtMost-bind _ _ 40 160 (wait_for_nonce-pauses 40) λ _.
              AtMost-skip _ _ 160
                (AtMost-catch _ _ 0 0 (AtMost-other _ _ λ o. refl) λ e. AtMost-pure _ 0)
                λ fees.
                  AtMost-bind _ _ 160 0 (submit-pauses hub request fee 5 (first_bid fees)) λ sent.
                    AtMost-skip _ _ 0 (hash_or_raise-AtMost is_pause sent) λ hash. AtMost-pure _ 0,
  )

  settle_round-AtMost :
      (is : Act → Bool) (hash : Text)
      → ((o : Outcome Receipt) → is (awaited hash o) ≡ false)
      → ((n : ℕ) → is (asked_block n) ≡ false)
      → ((address function : Text) → is (read address function) ≡ false)
      → AtMost is 0 (settle_round c hash)
  unfolding settle_round system_uint
  settle_round-AtMost is hash on_receipt on_block on_read =
      AtMost-skip _ _ 0 (AtMost-other _ _ on_receipt) λ receipt.
        AtMost-test (same receipt.status (lit "success")) _ _ 0
          (AtMost-skip _ _ 0 (AtMost-other _ _ λ o. on_block _) λ timestamp.
            AtMost-skip _ _ 0 (registry_address-AtMost is _ on_read) λ systems.
              AtMost-skip _ _ 0 (AtMost-other _ _ λ o. on_read _ _) λ first.
                AtMost-skip _ _ 0 (AtMost-other _ _ λ o. on_read _ _) λ duration. AtMost-lift _)
          (AtMost-raise _ 0)

  -- However the chain answers, a request for an attestation sends five transactions at most, and
  -- waits three seconds two hundred times at most; then it has returned or thrown.
  pub request_attestation-bounds :
      (request : Text) (r : Run W Act)
      → (count is_sent (request_attestation c request r).1.acts ≤ 5 + count is_sent r.acts)
        × (count is_pause (request_attestation c request r).1.acts ≤ 200 + count is_pause r.acts)
  unfolding request_attestation
  request_attestation-bounds request r = (
    (AtMost-bind (send_request c request) _ 5 0 (send_request-bounds request).0 λ sent.
          AtMost-skip _ _ 0 (settle_round-AtMost is_sent sent.0 (λ o. refl) (λ n. refl) λ a f. refl)
            λ round_id. AtMost-pure _ 0).at_most
        r,
    (AtMost-bind (send_request c request) _ 200 0 (send_request-bounds request).1 λ sent.
          AtMost-skip _ _ 0
            (settle_round-AtMost is_pause sent.0 (λ o. refl) (λ n. refl) λ a f. refl)
            λ round_id. AtMost-pure _ 0).at_most
        r,
  )
