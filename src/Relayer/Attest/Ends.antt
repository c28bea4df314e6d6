-- ===== src/Relayer/Attest/Ends.antt =====
-- fdc-payment.ts: an attestation of a payment ends.
use xrpl.Prelude.{ℕ, ◌≤◌, ◌≡◌, ◌≢◌, refl, Option, none, some, arith, subst}
use xrpl.Js.Text.{Text}
use xrpl.Js.Outcome.{Outcome, ok}
use xrpl.Js.Task.{Run}
use xrpl.Js.Task.Returns.{Returns, Returns-pure, Returns-bind, Returns-of}
use xrpl.Relayer.Chain.{Chain, Act}
use xrpl.Relayer.Abi.{Value}
use xrpl.Relayer.Fdc.{Submitted}
use xrpl.Relayer.DaProof.{DaProof, wait_for_da_proof}
use xrpl.Relayer.DaProof.Ends.{IsTimed, wait_for_da_proof-ends}
use xrpl.Relayer.Attest.{finish_payment, attest_xrpl_payment}

module _ {W : Type 0} (c : Chain W) (decode : Text → Outcome Value) where
  finish_payment-none :
      (submitted : Submitted) (request : Text) (raw : Option DaProof) (r s : Run W Act)
      → Returns (finish_payment c decode submitted request raw) r none s
      → raw ≡ none
  unfolding finish_payment
  finish_payment-none submitted request none r s h = refl
  finish_payment-none submitted request (some raw) r s h = Returns-bind h λ hex r₁ _ h₁.
      Returns-bind h₁ λ payment r₂ _ h₂. let some_is = (Returns-pure h₂).0 in absurd (ground arith)

  attest_xrpl_payment-proves :
      (clock : W → ℕ) (timed : IsTimed c clock) (fuel : ℕ) (transaction_id : Text) (r s : Run W Act)
      → 50 ≤ fuel
      → Returns (attest_xrpl_payment c decode fuel transaction_id) r none s
      → ⊥
  unfolding attest_xrpl_payment
  attest_xrpl_payment-proves clock timed fuel transaction_id r s enough h =
      Returns-bind h λ _ r₁ _ h₁. Returns-bind h₁ λ request r₂ _ h₂.
        Returns-bind h₂ λ submitted r₃ _ h₃. Returns-bind h₃ λ raw r₄ waited h₄.
          wait_for_da_proof-ends c clock timed fuel request submitted.round_id r₃ r₄ enough (
            subst (λ o. Returns (wait_for_da_proof c fuel request submitted.round_id) r₃ o r₄)
              (finish_payment-none submitted request raw r₄ s h₄) waited)

  -- With fifty looks at the round or more, and a clock that goes on with each pause, the attestation of a
  -- payment does not end for want of looks: it returns a proof, or throws.
  pub attest_xrpl_payment-ends :
      (clock : W → ℕ) (timed : IsTimed c clock) (fuel : ℕ) (transaction_id : Text) (r : Run W Act)
      → 50 ≤ fuel
      → (attest_xrpl_payment c decode fuel transaction_id r).0 ≢ ok none
  attest_xrpl_payment-ends clock timed fuel transaction_id r enough e =
      attest_xrpl_payment-proves clock timed fuel transaction_id r
        (attest_xrpl_payment c decode fuel transaction_id r).1 enough
        (Returns-of (attest_xrpl_payment c decode fuel transaction_id) r none e)
