-- ===== src/Matching/TopUp/Answers.antt =====
-- handlers.ts: what TOPUP_V1 answers.
use xrpl.Prelude.{
  ◌∙◌, ap, none, suc, zero, ℕ, ◌≡◌, refl, ◌⊎◌, inl, inr, true, false, some, arith, Option-cases,
  Bool-cases,
}
use xrpl.Js.Text.{Text, lit, starts_with}
use xrpl.Js.Utf8.{decode}
use xrpl.Js.BigInt.{ℤ, pos, negsuc, big_int_of_text, big_text}
use xrpl.Js.Outcome.{ok, throw, Thrown, Outcome-cases, bad_access, bad_json, bad_integer}
use xrpl.Js.Json.{Json, null, is_null}
use xrpl.Js.Json.Parse.{parse}
use xrpl.Base.Framework.{HandlerResult, refuse, refuse_with, respond}
use xrpl.Base.Flow.{next, stop, fail}
use xrpl.Base.Server.{hex_of_json}
use xrpl.Base.Greeting.{hex_json}
use xrpl.Matching.Host.{Host, supply}
use xrpl.Matching.TopUp.{
  top_up_of, amount_text, read_top_up, top_up_fields, is_valid, top_up_payload, execute_top_up,
  top_up,
}
use xrpl.Matching.TopUp.Ends.{
  Carries, follower_in, lead_in, pool_in, amount_in, supply_payload, TopUpEnds, unread, of_null,
  bad_amount, invalid, supplied, not_encoded,
}

read_top_up-Carries :
    (msg v : Json)
    → Carries msg v
    → (is_null v ≡ false → read_top_up msg ≡ next v)
      × (v ≡ null → read_top_up msg ≡ fail bad_access)
unfolding read_top_up
read_top_up-Carries msg v c =
    let hex = c.hex in let parsed = c.parsed in (λ p. ground arith, λ p. ground arith)

read_top_up-stops :
    (msg : Json)
    → ((v : Json) → ¬ Carries msg v)
    → (r : HandlerResult) × (read_top_up msg ≡ stop r) × (r.status ≡ 0)
unfolding read_top_up
read_top_up-stops msg carries_none = elim (Outcome-cases (hex_of_json (some msg))) [
  | inr (x, bad) ↦ (refuse_with (lit "decoding request: invalid hex: ") x, rw bad, refl)
  | inl (bytes, hex) ↦ elim (Option-cases (parse (decode bytes))) [
    | inl bad ↦ (refuse_with (lit "decoding request: ") bad_json, rw (hex, bad), refl)
    | inr (v, parsed) ↦
        absurd (carries_none v (record { bytes = bytes; hex = hex; parsed = parsed }))
  ]
]

module _ (h : Host) where
  big_int_of_text-throws : (s : Text) (e : Thrown) → big_int_of_text s ≡ throw e → e ≡ bad_integer
  unfolding big_int_of_text
  big_int_of_text-throws s e p = ground arith

  amount_text-in : (v : Json) → big_int_of_text (amount_text h v) ≡ amount_in h v
  unfolding amount_text
  amount_text-in v = refl

  -- A top-up is valid or not, by its texts and its amount.
  valid-cases :
      (v : Json) (z : ℤ)
      → ((n : ℕ) × (z ≡ pos (suc n))
          × (starts_with (lit "0x") (follower_in v) ≡ true)
          × (starts_with (lit "0x") (pool_in h v) ≡ true)
          × (is_valid (top_up_of h v z) ≡ true))
        ⊎ (((starts_with (lit "0x") (follower_in v) ≡ false)
              ⊎ (starts_with (lit "0x") (pool_in h v) ≡ false)
              ⊎ (z ≡ pos 0)
              ⊎ ((n : ℕ) × (z ≡ negsuc n)))
            × (is_valid (top_up_of h v z) ≡ false))
  unfolding is_valid top_up_of
  valid-cases v z = elim (Bool-cases (starts_with (lit "0x") (follower_in v))) [
    | inr no_follower ↦ inr (inl no_follower, ground arith)
    | inl follower ↦ elim (Bool-cases (starts_with (lit "0x") (pool_in h v))) [
      | inr no_pool ↦ inr (inr (inl no_pool), ground arith)
      | inl pool ↦ at_amount z follower pool
    ]
  ]
    where
      at_amount :
          (z : ℤ)
          → starts_with (lit "0x") (follower_in v) ≡ true
          → starts_with (lit "0x") (pool_in h v) ≡ true
          → ((n : ℕ) × (z ≡ pos (suc n))
              × (starts_with (lit "0x") (follower_in v) ≡ true)
              × (starts_with (lit "0x") (pool_in h v) ≡ true)
              × (is_valid (top_up_of h v z) ≡ true))
            ⊎ (((starts_with (lit "0x") (follower_in v) ≡ false)
                  ⊎ (starts_with (lit "0x") (pool_in h v) ≡ false)
                  ⊎ (z ≡ pos 0)
                  ⊎ ((n : ℕ) × (z ≡ negsuc n)))
                × (is_valid (top_up_of h v z) ≡ false))
      at_amount (pos zero) follower pool = inr (inr (inr (inl refl)), ground arith)
      at_amount (pos (suc n)) follower pool = inl (n, refl, follower, pool, ground arith)
      at_amount (negsuc n) follower pool = inr (inr (inr (inr (n, refl))), ground arith)

  amount_wei-of : (v : Json) (z : ℤ) → (top_up_of h v z).amount_wei ≡ z
  unfolding top_up_of
  amount_wei-of v z = refl

  payload-supply :
      (v : Json) (n : ℕ) (calldata : Text)
      → respond (hex_json (top_up_payload (top_up_of h v (pos (suc n))) calldata)) ≡ record {
        payload = some (supply_payload (pool_in h v) calldata (follower_in v) (lead_in v) (suc n));
        status = 1;
        error = none;
      }
  unfolding hex_json top_up_payload top_up_of big_text
  payload-supply v n calldata = refl

  -- The end of a message that carries a value other than `null`.
  ends-Carries :
      (msg v : Json) → Carries msg v → read_top_up msg ≡ next v → TopUpEnds h msg (top_up h msg)
  unfolding top_up execute_top_up top_up_fields top_up_of
  ends-Carries msg v c read = elim (Outcome-cases (amount_in h v)) [
    | inr (e, bad) ↦
        let is_integer = big_int_of_text-throws _ e bad in
        let text = amount_text-in v ∙ bad in
        bad_amount v c (bad ∙ ap throw is_integer) (rw (read, text, is_integer))
    | inl (z, amount) ↦
        let text = amount_text-in v ∙ amount in
        elim (valid-cases v z) [
          | inr (why, not_valid) ↦
              invalid v z c amount why (refuse (lit "invalid top-up payload"))
                (rw (read, text, not_valid)) refl
          | inl (n, is_n, follower, pool, valid) ↦
              let wei = amount ∙ ap ok is_n in
              let valid_n : is_valid (top_up_of h v (pos (suc n))) ≡ true = rw is_n at valid in
              let own = amount_wei-of v (pos (suc n)) in
              let text_n = amount_text-in v ∙ wei in
              elim (Outcome-cases (h.encode_call (supply (pos (suc n))))) [
                | inr (e, bad) ↦
                    not_encoded v n e c wei follower pool bad (rw (read, text_n, valid_n, own, bad))
                | inl (calldata, encoded) ↦
                    supplied v n calldata c wei follower pool encoded (
                      rw (read, text_n, valid_n, own, encoded)
                        (ap ok (payload-supply v n calldata)))
              ]
        ]
  ]

  unread_ends : (msg : Json) → ((v : Json) → ¬ Carries msg v) → TopUpEnds h msg (top_up h msg)
  unfolding top_up
  unread_ends msg carries_none =
      let (r, stopped, status) = read_top_up-stops msg carries_none in
      unread carries_none r (rw stopped) status

  null_ends : (msg v : Json) → Carries msg v → is_null v ≡ true → TopUpEnds h msg (top_up h msg)
  unfolding top_up
  null_ends msg v c p =
      let at : v ≡ null = ground arith in
      of_null (rw at at c) (rw ((read_top_up-Carries msg v c).1 at))

  -- A message that carries no JSON is refused with status 0. One that carries `null` makes the
  -- handler throw, and so does one whose `amountWei` (`0` where there is none) is no whole number.
  -- Otherwise it is refused with status 0 where the follower, or the pool of the message or else of
  -- MOCK_KINETIC_POOL_ADDRESS, does not start with `0x`, or where the amount is zero or negative. What is
  -- left throws what the encoder of the call throws, or is answered with status 1 and, as hex of a
  -- JSON text, the pool, the encoded `supply` of that amount, the venue, the follower, the lead and the
  -- amount.
  pub top_up_lem : (msg : Json) → TopUpEnds h msg (top_up h msg)
  top_up_lem msg = elim (Outcome-cases (hex_of_json (some msg))) [
    | inr (x, bad) ↦ unread_ends msg (λ v c. let hex = c.hex in ground arith)
    | inl (bytes, hex) ↦ elim (Option-cases (parse (decode bytes))) [
      | inl bad ↦ unread_ends msg λ v c.
          let other = c.hex in
          let parsed = c.parsed in
          let same_bytes : bytes ≡ c.bytes = ground arith in
          let found : parse (decode bytes) ≡ some v = rw same_bytes parsed in ground arith
      | inr (v, parsed) ↦
          let c : Carries msg v = record { bytes = bytes; hex = hex; parsed = parsed } in
          elim (Bool-cases (is_null v)) [
            | inl is_null_v ↦ null_ends msg v c is_null_v
            | inr other ↦ ends-Carries msg v c ((read_top_up-Carries msg v c).0 other)
          ]
    ]
  ]
