-- ===== src/Relayer/DaProof/Ends.antt =====
-- fdc.ts: the wait for a proof ends, by the clock and by the number of polls.
use xrpl.Prelude.{
  ℕ, zero, suc, ◌+◌, ◌*◌, ◌-◌, ◌≤◌, ◌<◌, ◌≡◌, ◌≢◌, refl, sym, ap, Bool, true, false, List, [], ◌∷◌,
  none, arith, ltb, inl, inr, ◌∙◌, subst,
}
use xrpl.Js.Text.{Text, lit}
use xrpl.Js.Number.{Number}
use xrpl.Js.BigInt.{pos, big_int}
use xrpl.Js.Json.{Json}
use xrpl.Js.Outcome.{ok}
use xrpl.Js.Task.{Run}
use xrpl.Js.Task.Acts.{
  AtMost, count, AtMost-pure, AtMost-raise, AtMost-bind, AtMost-perform, AtMost-other, AtMost-lift,
  AtMost-skip, AtMost-next, AtMost-test,
}
use xrpl.Js.Task.Returns.{
  Returns, Returns-pure, Returns-raise, Returns-lift, Returns-bind, Returns-test, Returns-world,
}
use xrpl.Relayer.Chain.{Chain, Act, Arg, big_arg, posted}
use xrpl.Relayer.Fdc.{registry_address, pause}
use xrpl.Relayer.DaProof.{has_response, await_final, poll, fetch_proof, proof_of, wait_for_da_proof}

-- What the services do to the clock: it is what `Date.now` reads; a timer does not fire early; and no
-- read of a contract sets it back.
pub record IsTimed {W : Type 0} (c : Chain W) (clock : W → ℕ) : Type 0 where
  pub now_reads : (w : W) → c.now w ≡ (ok (clock w), w)
  pub sleep_passes : (ms : ℕ) (w : W) → clock w + ms ≤ clock (c.sleep ms w).1
  pub read_goes_on :
      (address function : Text) (args : List Arg) (w : W)
      → clock w ≤ clock (c.read_bool address function args w).1

-- An answer gives a proof, or an error.
proof_of-some : (p : Json) → proof_of p ≢ ok none
proof_of-some p = ground arith

module _ {W : Type 0} (c : Chain W) (clock : W → ℕ) (timed : IsTimed c clock) where
  await_final-ends :
      (relay : Text) (args : List Arg) (round_id : Number) (deadline n : ℕ) (r s : Run W Act)
      → 1 ≤ n
      → deadline < clock r.world + 10000 * (n - 1)
      → Returns (await_final c relay args round_id deadline n) r false s
      → ⊥
  unfolding await_final pause
  await_final-ends relay args round_id deadline zero r s some_left soon h = absurd (omega arith)
  await_final-ends relay args round_id deadline (suc n) r s some_left soon h =
      Returns-bind h λ final r₁ looked h₁.
        let world₁ : (c.read_bool relay (lit "isFinalized") args r.world).1 ≡ r₁.world =
          ap (λ x. x.1) (Returns-world _ _ looked) in
        let kept : clock r.world ≤ clock r₁.world =
          subst (λ w. clock r.world ≤ clock w) world₁
            (timed.read_goes_on relay (lit "isFinalized") args r.world) in
        elim (Returns-test final h₁) [
          | inl (_, done) ↦ let is_true = (Returns-pure done).0 in ground arith
          | inr (_, h₂) ↦ Returns-bind h₂ λ now r₂ told h₃.
              let told_it = sym (timed.now_reads r₁.world) ∙ Returns-world _ _ told in
              let is_now : clock r₁.world ≡ now = grind (arith, told_it) in
              let world₂ : r₁.world ≡ r₂.world = grind (arith, told_it) in
              elim (Returns-test (ltb deadline now) h₃) [
                | inl (_, late) ↦ Returns-raise _ late
                | inr (early, h₄) ↦ Returns-bind h₄ λ _ r₃ slept h₅.
                    let world₃ : (c.sleep 10000 r₂.world).1 ≡ r₃.world =
                      ap (λ x. x.1) (Returns-world _ _ slept) in
                    let passed : clock r₂.world + 10000 ≤ clock r₃.world =
                      subst (λ w. clock r₂.world + 10000 ≤ clock w) world₃
                        (timed.sleep_passes 10000 r₂.world) in
                    let same_clock = ap clock world₂ in
                    await_final-ends relay args round_id deadline n r₃ s (grind (arith, early))
                      (grind (arith, early)) h₅
              ]
        ]

  pub wait_for_da_proof-ends :
      (fuel : ℕ) (request : Text) (round_id : Number) (r s : Run W Act)
      → 50 ≤ fuel
      → Returns (wait_for_da_proof c fuel request round_id) r none s
      → ⊥
  unfolding wait_for_da_proof fetch_proof
  wait_for_da_proof-ends fuel request round_id r s enough h = Returns-bind h λ relay r₁ _ h₁.
      Returns-bind h₁ λ verif r₂ _ h₂. Returns-bind h₂ λ protocol r₃ _ h₃.
        Returns-bind h₃ λ now r₄ told h₄.
          let told_it = sym (timed.now_reads r₃.world) ∙ Returns-world _ _ told in
          Returns-bind h₄ λ round r₅ lifted h₅.
            let same_run = (Returns-lift (big_int round_id) lifted).1 in
            Returns-bind h₅ λ final r₆ waited h₆. elim (Returns-test final h₆) [
              | inl (_, h₇) ↦
                  Returns-bind h₇
                    λ answer r₇ _ h₈. proof_of-some answer (Returns-lift (proof_of answer) h₈).0
              | inr (is_false, _) ↦
                  let is_now : clock r₅.world ≡ now = grind (arith, told_it, same_run) in
                  await_final-ends relay (big_arg (pos protocol) ∷ big_arg round ∷ []) round_id
                    (now + 8 * 60 * 1000) fuel r₅ r₆ (omega arith) (omega arith)
                    (subst
                      (λ b.
                        Returns
                          (await_final c relay (big_arg (pos protocol) ∷ big_arg round ∷ [])
                            round_id (now + 8 * 60 * 1000) fuel)
                          r₅ b r₆)
                      is_false waited)
            ]

abbrev pub is_posted : Act → Bool
is_posted (posted _ _) = true
is_posted _ = false

module _ {W : Type 0} (c : Chain W) where
  await_final-posts :
      (relay : Text) (args : List Arg) (round_id : Number) (deadline n : ℕ)
      → AtMost is_posted 0 (await_final c relay args round_id deadline n)
  unfolding await_final pause
  await_final-posts relay args round_id deadline zero = AtMost-pure false 0
  await_final-posts relay args round_id deadline (suc n) =
      AtMost-skip _ _ 0 (AtMost-other _ _ λ o. refl) λ final.
        AtMost-test final _ _ 0 (AtMost-pure true 0) (
          AtMost-skip _ _ 0 (AtMost-other _ _ λ o. refl) λ now.
            AtMost-test (ltb deadline now) _ _ 0 (AtMost-raise _ 0) (
              AtMost-skip _ _ 0 (AtMost-other _ _ λ o. refl)
                λ _. await_final-posts relay args round_id deadline n))

  poll-posts :
      (url : Text) (payload : Json) (n : ℕ) (last : Json)
      → AtMost is_posted n (poll c url payload n last)
  unfolding poll pause
  poll-posts url payload zero last = AtMost-pure last 0
  poll-posts url payload (suc n) last = AtMost-next _ _ n (AtMost-perform _ _) λ res.
      AtMost-skip _ _ n (AtMost-lift _) λ p. AtMost-skip _ _ n (AtMost-lift _) λ q.
        AtMost-test (has_response q) _ _ n (AtMost-pure q n)
          (AtMost-skip _ _ n (AtMost-other _ _ λ o. refl) λ _. poll-posts url payload n q)

  -- However the services answer, the data availability layer is asked at most thirty-six times for one
  -- proof.
  pub wait_for_da_proof-posts :
      (fuel : ℕ) (request : Text) (round_id : Number) (r : Run W Act)
      → count is_posted (wait_for_da_proof c fuel request round_id r).1.acts
        ≤ 36 + count is_posted r.acts
  unfolding wait_for_da_proof registry_address fetch_proof
  wait_for_da_proof-posts fuel request round_id r =
      let answered : AtMost is_posted 36 (fetch_proof c request round_id) =
        AtMost-bind _ _ 36 0 (poll-posts _ _ 36 _) λ answer. AtMost-lift _ in
      (AtMost-skip _ _ 36 (AtMost-other _ _ λ o. refl) λ relay.
          AtMost-skip _ _ 36 (AtMost-other _ _ λ o. refl) λ verif.
            AtMost-skip _ _ 36 (AtMost-other _ _ λ o. refl) λ protocol.
              AtMost-skip _ _ 36 (AtMost-other _ _ λ o. refl) λ now.
                AtMost-skip _ _ 36 (AtMost-lift _) λ round.
                  AtMost-skip _ _ 36 (await_final-posts relay _ round_id _ fuel)
                    λ final. AtMost-test final _ _ 36 answered (AtMost-pure none 36)).at_most
        r
