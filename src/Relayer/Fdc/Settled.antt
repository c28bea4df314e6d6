-- ===== src/Relayer/Fdc/Settled.antt =====
-- fdc.ts: what has happened when a request for an attestation returns.
use xrpl.Js.BigInt.{number_of, over, minus, pos}
use xrpl.Prelude.{
  [], ◌≢◌, ℕ, zero, suc, ◌≡◌, refl, sym, ◌∙◌, ap, true, not, ◌||◌, List, ◌∷◌, Option, none, some,
  arith, ◌==◌, inl, inr, subst,
}
use xrpl.Js.Number.{Number}
use xrpl.Js.Text.{Text, lit, same, is_empty}
use xrpl.Js.Outcome.{ok}
use xrpl.Js.Task.{Run}
use xrpl.Js.Task.Returns.{
  Returns-world, Returns, Returns-pure, Returns-raise, Returns-lift, Returns-bind, Returns-catch,
  Returns-perform, Returns-test,
}
use xrpl.Relayer.Chain.{
  text_arg, Chain, Act, Transaction, Receipt, read, counted, wrote, awaited, asked_block,
}
use xrpl.Relayer.Fdc.{
  Bid, bump, is_nonce_race, request_of, registry_address, count_transactions, attempt, submit,
  hash_or_raise, send_request, system_uint, settle_round, request_attestation, first_bid, Submitted,
  round_of, flare_registry,
}

-- The last thing done is to send a transaction, which the chain took under this hash, with the nonce
-- that it had just reported as pending.
pub record SentLast (hash hub : Text) (fee : ℕ) (acts : List Act) : Type 0 where
  pub tx : Transaction
  pub before : List Act
  pub is_last : acts ≡ wrote tx (ok hash) ∷ counted (lit "pending") (ok tx.nonce) ∷ before
  pub to_hub : tx.address ≡ hub
  pub pays : tx.value ≡ fee

-- What the run of a request has done last, from its transaction on, up to the world that it leaves;
-- what the chain has answered to each of these acts; and the round that its answers give.
pub record IsSettled {W : Type 0} (c : Chain W) (out : Submitted) (acts : List Act) (left : W)
    : Type 0 where
  pub hub : Text
  pub receipt : Receipt
  pub systems : Text
  pub timestamp : ℕ
  pub first : ℕ
  pub duration : ℕ
  pub sent : List Act
  pub is_sent : SentLast out.hash hub out.fee sent
  pub in_order :
      acts
      ≡ read systems (lit "votingEpochDurationSeconds")
        ∷ read systems (lit "firstVotingRoundStartTs")
        ∷ read flare_registry (lit "FlareSystemsManager")
        ∷ asked_block receipt.block_number
        ∷ awaited out.hash (ok receipt)
        ∷ sent
  pub succeeded : same receipt.status (lit "success") ≡ true
  pub received_in : W
  pub block_in : W
  pub systems_in : W
  pub first_in : W
  pub its_block : c.block_timestamp receipt.block_number received_in ≡ (ok timestamp, block_in)
  pub its_systems :
      c.read_text flare_registry
        (lit "getContractAddressByName")
        (text_arg (lit "FlareSystemsManager") ∷ [])
        block_in
      ≡ (ok systems, systems_in)
  pub its_first :
      c.read_uint systems (lit "firstVotingRoundStartTs") [] systems_in ≡ (ok first, first_in)
  pub its_duration :
      c.read_uint systems (lit "votingEpochDurationSeconds") [] first_in ≡ (ok duration, left)
  pub has_duration : duration ≢ 0
  pub its_round : out.round_id ≡ number_of (over (minus (pos timestamp) (pos first)) duration)

round_of_lem :
    (timestamp first duration : ℕ) (n : Number)
    → round_of timestamp first duration ≡ ok n
    → (duration ≢ 0) × (n ≡ number_of (over (minus (pos timestamp) (pos first)) duration))
unfolding round_of
round_of_lem timestamp first duration n h = ground arith

module _ {W : Type 0} (c : Chain W) where
  attempt-SentLast :
      (hub request : Text) (fee : ℕ) (bid : Bid) (r s : Run W Act) (hash : Text)
      → Returns (attempt c hub request fee bid) r (some hash) s
      → SentLast hash hub fee s.acts
  unfolding attempt count_transactions request_of
  attempt-SentLast hub request fee bid r s hash h = Returns-bind h λ nonce r₁ counted_it rest.
      Returns-bind rest λ got r₂ wrote_it end.
        let same_hash : got ≡ hash = grind (arith, (Returns-pure end).0) in
        let sent = request_of hub request fee bid nonce in
        record {
          tx = sent;
          before = r.acts;
          is_last =
              ap (λ t. t.acts) (sym (Returns-pure end).1)
              ∙ Returns-perform _ _ wrote_it
              ∙ ap (λ t. wrote sent (ok t) ∷ r₁.acts) same_hash
              ∙ ap (λ t. wrote sent (ok hash) ∷ t) (Returns-perform _ _ counted_it);
          to_hub = refl;
          pays = refl;
        }

  submit-SentLast :
      (hub request : Text) (fee n : ℕ) (bid : Bid) (r s : Run W Act) (hash : Text)
      → Returns (submit c hub request fee n bid) r (some hash) s
      → SentLast hash hub fee s.acts
  unfolding submit
  submit-SentLast hub request fee zero bid r s hash h =
      absurd (let none_is = (Returns-pure h).0 in ground arith)
  submit-SentLast hub request fee (suc n) bid r s hash h = elim (Returns-catch h) [
    | inl tried ↦ attempt-SentLast hub request fee bid r s hash tried
    | inr (e, r', failed, again) ↦ elim (Returns-test (not (is_nonce_race e) || (n == 0)) again) [
      | inl (_, raised) ↦ absurd (Returns-raise _ raised)
      | inr (_, more) ↦
          Returns-bind more
            λ _ r₂ waited rest. submit-SentLast hub request fee n (bump bid) r₂ s hash rest
    ]
  ]

  hash_or_raise-Returns :
      (o : Option Text) (r s : Run W Act) (hash : Text)
      → Returns (hash_or_raise c o) r hash s
      → (o ≡ some hash) × (r ≡ s)
  hash_or_raise-Returns none r s hash h = absurd (Returns-raise _ h)
  hash_or_raise-Returns (some t) r s hash h = elim (Returns-test (is_empty t) h) [
    | inl (_, raised) ↦ absurd (Returns-raise _ raised)
    | inr (_, kept) ↦ (ap some (Returns-pure kept).0, (Returns-pure kept).1)
  ]

  send_request-SentLast :
      (request : Text) (r s : Run W Act) (sent : Text × ℕ)
      → Returns (send_request c request) r sent s
      → (hub : Text) × SentLast sent.0 hub sent.1 s.acts
  unfolding send_request
  send_request-SentLast request r s sent h = Returns-bind h λ hub _ _ h₁.
      Returns-bind h₁ λ fee_cfg _ _ h₂. Returns-bind h₂ λ fee _ _ h₃. Returns-bind h₃ λ _ _ _ h₄.
        Returns-bind h₄ λ fees r₅ _ h₅. Returns-bind h₅ λ o r₆ submitted h₆.
          Returns-bind h₆ λ hash r₇ checked h₇.
            let (is_hash, r₆_is) = hash_or_raise-Returns o r₆ r₇ hash checked in
            let (is_sent, r₇_is) = Returns-pure h₇ in
            (
              hub,
              subst (λ p. SentLast p.0 hub p.1 s.acts) is_sent
                  (submit-SentLast hub request fee 5 (first_bid fees) r₅ s hash (
                    subst (λ x. Returns (submit c hub request fee 5 (first_bid fees)) r₅ x s)
                      is_hash
                      (subst (λ x. Returns (submit c hub request fee 5 (first_bid fees)) r₅ o x)
                        (r₆_is ∙ r₇_is) submitted))),
            )

  settle_round-Returns :
      (r s : Run W Act) (hash : Text) (fee : ℕ) (round_id : Number) (hub : Text)
      → SentLast hash hub fee r.acts
      → Returns (settle_round c hash) r round_id s
      → IsSettled c (record { hash = hash; round_id = round_id; fee = fee }) s.acts s.world
  unfolding settle_round system_uint registry_address
  settle_round-Returns r s hash fee round_id hub sent h =
      Returns-bind h λ receipt r₁ got_receipt h₁.
        elim (Returns-test (same receipt.status (lit "success")) h₁) [
          | inr (_, reverted) ↦ absurd (Returns-raise _ reverted)
          | inl (good, h₂) ↦ Returns-bind h₂ λ timestamp r₂ got_block h₃.
              Returns-bind h₃ λ systems r₃ got_systems h₄. Returns-bind h₄ λ first r₄ got_first h₅.
                Returns-bind h₅ λ duration r₅ got_duration h₆.
                  let (round, same_run) = Returns-lift (round_of timestamp first duration) h₆ in
                  let (has_duration, its_round) =
                    round_of_lem timestamp first duration round_id round in
                  record {
                    hub = hub;
                    receipt = receipt;
                    systems = systems;
                    timestamp = timestamp;
                    first = first;
                    duration = duration;
                    sent = r.acts;
                    is_sent = sent;
                    in_order = cc (
                      same_run,
                      Returns-perform _ _ got_receipt,
                      Returns-perform _ _ got_block,
                      Returns-perform _ _ got_systems,
                      Returns-perform _ _ got_first,
                      Returns-perform _ _ got_duration,
                    );
                    succeeded = good;
                    received_in = r₁.world;
                    block_in = r₂.world;
                    systems_in = r₃.world;
                    first_in = r₄.world;
                    its_block = Returns-world _ _ got_block;
                    its_systems = Returns-world _ _ got_systems;
                    its_first = Returns-world _ _ got_first;
                    its_duration =
                        Returns-world _ _ got_duration ∙ ap (λ x. (ok duration, x.world)) same_run;
                    has_duration = has_duration;
                    its_round = its_round;
                  }
        ]

  -- A request for an attestation that returns has sent the transaction of its hash, with the nonce that
  -- the chain had just reported as pending and the fee that it returns as its value; the chain then gave
  -- a receipt of success for that hash. The round that it returns is the whole part of the time from the
  -- first round to the block of the receipt, by the duration of a round, as the chain answered these
  -- three to the last reads of the run.
  pub request_attestation-IsSettled :
      (request : Text) (r : Run W Act) (out : Submitted) (s : Run W Act)
      → Returns (request_attestation c request) r out s
      → IsSettled c out s.acts s.world
  unfolding request_attestation
  request_attestation-IsSettled request r out s h = Returns-bind h λ sent r₁ sending h₁.
      Returns-bind h₁ λ round_id r₂ settling h₂.
        let (hub, last) = send_request-SentLast request r r₁ sent sending in
        let (is_out, r₂_is) = Returns-pure h₂ in
        subst (λ o. IsSettled c o s.acts s.world) is_out
          (subst
            (λ x.
              IsSettled c (record { hash = sent.0; round_id = round_id; fee = sent.1 }) x.acts
                x.world)
            r₂_is (settle_round-Returns r₁ r₂ sent.0 sent.1 round_id hub last settling))
