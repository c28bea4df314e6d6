-- ===== src/Relayer/Fdc/Bids.antt =====
-- fdc.ts: what the transactions of a request for an attestation say, and which one is kept.
use xrpl.Prelude.{
  ℕ, zero, suc, ◌≤◌, ◌≡◌, refl, not, ◌||◌, [], ◌∷◌, Option, none, some, arith, leb, ◌==◌,
}
use xrpl.Js.Text.{Text, lit, same, is_empty}
use xrpl.Js.Task.{◌>>◌}
use xrpl.Js.Task.Acts.{
  EachAct, EachAct-pure, EachAct-raise, EachAct-bind, EachAct-catch, EachAct-perform, EachAct-test,
  EachAct-lift,
}
use xrpl.Relayer.Chain.{Chain, Act, text_arg, Fees, wrote}
use xrpl.Relayer.Fdc.{
  Bid, bump, is_nonce_race, request_of, registry_address, count_transactions, pause, wait_for_nonce,
  wait_for_pending_nonce, attempt, submit, estimate, hash_or_raise, send_request, system_uint,
  settle_round, request_attestation, first_bid,
}

-- A transaction that is sent asks for the attestation of `request`, and its bid for priority is
-- within the fee that it allows.
abbrev pub Asks : Text → Act → Type 0
Asks request (wrote tx _) =
    (tx.function_name ≡ lit "requestAttestation")
    × (tx.args ≡ text_arg request ∷ [])
    × (tx.gas ≡ 1000000)
    × (tx.max_priority_fee_per_gas ≤ tx.max_fee_per_gas)
Asks request _ = Unit

abbrev IsCovered : Bid → Type 0
IsCovered b = b.priority ≤ b.fee

first_bid-IsCovered : (fees : Fees) → IsCovered (first_bid fees)
unfolding first_bid
first_bid-IsCovered fees = ground arith

bump-IsCovered : (b : Bid) → IsCovered b → IsCovered (bump b)
unfolding bump
bump-IsCovered b h = ground arith

module _ {W : Type 0} (c : Chain W) (request : Text) where
  count_transactions-Asks : (tag : Text) → EachAct (Asks request) (count_transactions c tag)
  unfolding count_transactions
  count_transactions-Asks tag = EachAct-perform _ _ λ o. tt

  registry_address-Asks : (name : Text) → EachAct (Asks request) (registry_address c name)
  unfolding registry_address
  registry_address-Asks name = EachAct-perform _ _ λ o. tt

  wait_for_nonce-Asks : (n : ℕ) → EachAct (Asks request) (wait_for_nonce c n)
  unfolding wait_for_nonce pause
  wait_for_nonce-Asks zero = EachAct-raise _
  wait_for_nonce-Asks (suc n) = EachAct-bind _ _ (count_transactions-Asks _) λ latest.
      EachAct-bind _ _ (count_transactions-Asks _) λ pending.
        EachAct-test (leb pending latest) _ _ (EachAct-pure tt)
          (EachAct-bind _ _ (EachAct-perform _ _ λ o. tt) λ _. wait_for_nonce-Asks n)

  attempt-Asks :
      (hub : Text) (fee : ℕ) (bid : Bid)
      → IsCovered bid
      → EachAct (Asks request) (attempt c hub request fee bid)
  unfolding attempt request_of
  attempt-Asks hub fee bid covered = EachAct-bind _ _ (count_transactions-Asks _) λ nonce.
      EachAct-bind _ _ (EachAct-perform _ _ λ o. (refl, refl, refl, covered))
        λ hash. EachAct-pure (some hash)

  submit-Asks :
      (hub : Text) (fee n : ℕ) (bid : Bid)
      → IsCovered bid
      → EachAct (Asks request) (submit c hub request fee n bid)
  unfolding submit
  submit-Asks hub fee zero bid covered = EachAct-pure none
  submit-Asks hub fee (suc n) bid covered =
      let again : EachAct (Asks request)
          (wait_for_pending_nonce c >> submit c hub request fee n (bump bid)) =
        EachAct-bind _ _ (wait_for_nonce-Asks 40)
          λ _. submit-Asks hub fee n (bump bid) (bump-IsCovered bid covered) in
      EachAct-catch _ _ (attempt-Asks hub fee bid covered)
        λ e. EachAct-test (not (is_nonce_race e) || (n == 0)) _ _ (EachAct-raise e) again

  hash_or_raise-Asks : (o : Option Text) → EachAct {W = W} (Asks request) (hash_or_raise c o)
  hash_or_raise-Asks none = EachAct-raise _
  hash_or_raise-Asks (some hash) =
      EachAct-test (is_empty hash) _ _ (EachAct-raise _) (EachAct-pure hash)

  send_request-Asks : EachAct (Asks request) (send_request c request)
  unfolding send_request estimate
  send_request-Asks = EachAct-bind _ _ (registry_address-Asks _) λ hub.
      EachAct-bind _ _ (registry_address-Asks _) λ fee_cfg.
        EachAct-bind _ _ (EachAct-perform _ _ λ o. tt) λ fee.
          EachAct-bind _ _ (wait_for_nonce-Asks 40) λ _.
            EachAct-bind _ _ (EachAct-catch _ _ (EachAct-perform _ _ λ o. tt) λ e. EachAct-pure _)
              λ fees.
                EachAct-bind _ _ (submit-Asks hub fee 5 (first_bid fees) (first_bid-IsCovered fees))
                  λ sent. EachAct-bind _ _ (hash_or_raise-Asks sent) λ hash. EachAct-pure _

  settle_round-Asks : (hash : Text) → EachAct (Asks request) (settle_round c hash)
  unfolding settle_round system_uint
  settle_round-Asks hash = EachAct-bind _ _ (EachAct-perform _ _ λ o. tt) λ receipt.
      EachAct-test (same receipt.status (lit "success")) _ _
        (EachAct-bind _ _ (EachAct-perform _ _ λ o. tt) λ timestamp.
          EachAct-bind _ _ (registry_address-Asks _) λ systems.
            EachAct-bind _ _ (EachAct-perform _ _ λ o. tt)
              λ first. EachAct-bind _ _ (EachAct-perform _ _ λ o. tt) λ duration. EachAct-lift _)
        (EachAct-raise _)

  -- Every transaction that a request for an attestation sends, the bumped ones included, calls
  -- `requestAttestation` with the bytes of the request, and its priority fee is at most its fee.
  pub request_attestation-Asks : EachAct (Asks request) (request_attestation c request)
  unfolding request_attestation
  request_attestation-Asks =
      EachAct-bind _ _ send_request-Asks
        λ sent. EachAct-bind _ _ (settle_round-Asks sent.0) λ round_id. EachAct-pure _
