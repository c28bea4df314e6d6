-- ===== src/Relayer/Onboarding/Active.antt =====
-- xrpl-monitor.ts: what has happened on the chain when a run of a payment returns.
use xrpl.Prelude.{ℕ, ◌≡◌, refl, sym, ap, ◌∙◌, List, Option, none, some, arith}
use xrpl.Js.Text.{Text}
use xrpl.Js.Outcome.{Outcome, ok, throw}
use xrpl.Js.Task.{Run, perform, outcome}
use xrpl.Js.Task.Returns.{Returns, Returns-pure, Returns-raise, Returns-bind, Returns-world}
use xrpl.Relayer.Chain.{Chain, Act}
use xrpl.Relayer.Attest.{PaymentProof, attest_xrpl_payment}
use xrpl.Relayer.Operator.{Mac, Executed, execute_instruction_on_mac}
use xrpl.Relayer.Operator.Executes.{HowExecuted, execute_instruction_on_mac-Returns}
use xrpl.Relayer.Monitor.{PaymentStatus, sub_account_active, requesting}
use xrpl.Relayer.Monitor.Run.{
  Services, RunAct, persist_status, fail_run, on_checked, on_executed, on_attested,
  run_process_payment,
}
use xrpl.Relayer.Onboarding.{Vault, attested_or_throw, services, onboard}

module _ {W E : Type 0} where
  -- What a service did whose outcome is taken as a value.
  outcome-perform :
      {A : Type 0} (act : Outcome A → E) (f : W → Outcome A × W) (r s : Run W E) (o : Outcome A)
      → Returns (outcome (perform act f)) r o s
      → f r.world ≡ (o, s.world)
  unfolding outcome perform
  outcome-perform act f r s o h =
      let is_ok : ok (f r.world).0 ≡ ok o = ap (λ x. x.0) h.run in
      let is_world : (f r.world).1 ≡ s.world = ap (λ x. x.1.world) h.run in
      ground (arith, is_ok, is_world)

module _ {W : Type 0} (h : Services W) where
  -- The attestation and the execution behind a status that a run returns.
  pub record Behind (address tx : Text) (w : W) (st : PaymentStatus) : Type 0 where
    pub proof : PaymentProof
    pub attested_in : W
    pub executed : Executed
    pub executed_in : W
    pub has_proof : h.attest tx w ≡ (ok proof, attested_in)
    pub has_executed : h.execute proof address attested_in ≡ (ok executed, executed_in)
    pub is_active : st.state ≡ sub_account_active
    pub its_account : st.personal_account ≡ some executed.personal_account

  fail_run-raises :
      (st : PaymentStatus) (e : _) (r s : Run W RunAct) (out : PaymentStatus)
      → Returns (fail_run h st e) r out s
      → ⊥
  unfolding fail_run
  fail_run-raises st e r s out ret = Returns-bind ret λ _ r₁ _ raised. Returns-raise _ raised

  persist_status-keeps :
      (st : PaymentStatus) (r s : Run W RunAct) (u : Unit {0})
      → Returns (persist_status h st) r u s
      → r.world ≡ s.world
  unfolding persist_status
  persist_status-keeps st r s u ret = ap (λ x. x.1) (Returns-world _ _ ret)

  on_checked-active :
      (st : PaymentStatus) (x : Executed) (o : Outcome ℕ) (r s : Run W RunAct) (out : PaymentStatus)
      → Returns (on_checked h st x o) r out s
      → (out.state ≡ sub_account_active) × (out.personal_account ≡ some x.personal_account)
  on_checked-active st x (throw e) r s out ret = absurd (fail_run-raises _ e r s out ret)
  on_checked-active st x (ok balance) r s out ret = Returns-bind ret λ _ r₁ _ ended.
      let is_out = (Returns-pure ended).0 in
      (sym (ap (λ z. z.state) is_out), sym (ap (λ z. z.personal_account) is_out))

  on_executed-active :
      (lead : Option Text) (st : PaymentStatus) (o : Outcome Executed) (r s : Run W RunAct)
      (out : PaymentStatus)
      → Returns (on_executed h lead st o) r out s
      → (x : Executed) × (o ≡ ok x)
        × (out.state ≡ sub_account_active)
        × (out.personal_account ≡ some x.personal_account)
  on_executed-active lead st (throw e) r s out ret = absurd (fail_run-raises _ e r s out ret)
  on_executed-active lead st (ok x) r s out ret = Returns-bind ret λ checked r₁ _ ended.
      let (state, account) = on_checked-active st x checked r₁ s out ended in
      (x, refl, state, account)

  on_attested-Behind :
      (address tx now : Text) (lead : Option Text) (w : W) (o : Outcome PaymentProof)
      (r s : Run W RunAct) (out : PaymentStatus)
      → h.attest tx w ≡ (o, r.world)
      → Returns (on_attested h lead (requesting address tx now) o) r out s
      → Behind address tx w out
  unfolding requesting
  on_attested-Behind address tx now lead w (throw e) r s out attested ret =
      absurd (fail_run-raises _ e r s out ret)
  on_attested-Behind address tx now lead w (ok proof) r s out attested ret =
      Returns-bind ret λ _ r₁ saved ret₁. Returns-bind ret₁ λ done r₂ ran ret₂.
        let (x, is_ok, state, account) = on_executed-active lead _ done r₂ s out ret₂ in
        let run = outcome-perform _ _ r₁ r₂ done ran in
        let same_world = persist_status-keeps _ r r₁ _ saved in
        record {
          proof = proof;
          attested_in = r.world;
          executed = x;
          executed_in = r₂.world;
          has_proof = attested;
          has_executed =
              ap (λ y. h.execute proof address y) same_world ∙ run ∙ ap (λ y. (y, r₂.world)) is_ok;
          is_active = state;
          its_account = account;
        }

  pub run_process_payment-Behind :
      (address tx now : Text) (lead : Option Text) (r s : Run W RunAct) (out : PaymentStatus)
      → Returns (run_process_payment h address tx lead now) r out s
      → Behind address tx r.world out
  unfolding run_process_payment
  run_process_payment-Behind address tx now lead r s out ret = Returns-bind ret λ _ r₁ saved ret₁.
      Returns-bind ret₁ λ o r₂ ran ret₂.
        let same_world = persist_status-keeps _ r r₁ _ saved in
        on_attested-Behind address tx now lead r.world o r₂ s out
          (ap (λ y. h.attest tx y) same_world ∙ outcome-perform _ _ r₁ r₂ o ran) ret₂

attested_or_throw-some :
    (o : Outcome (Option PaymentProof)) (proof : PaymentProof)
    → attested_or_throw o ≡ ok proof
    → o ≡ ok (some proof)
attested_or_throw-some (throw e) proof h = absurd (ground arith)
attested_or_throw-some (ok none) proof h = absurd (ground arith)
attested_or_throw-some (ok (some p)) proof h = ground arith

module _ {W : Type 0} (c : Chain W) (mac : Mac W) (v : Vault W) where
  -- The attestation has returned a proof; on the chain as it left it, the execution of that proof for
  -- the address has returned; its transaction was simulated and sent with success, or was known to have
  -- been executed; and the status has the personal account that the controller named.
  pub record IsOnboarded (address tx : Text) (r : Run W Act) (st : PaymentStatus) : Type 0 where
    pub proof : PaymentProof
    pub attested_in : Run W Act
    pub executed : Executed
    pub executed_in : Run W Act
    pub before : List Act
    pub has_proof : Returns (attest_xrpl_payment c v.decode 50 tx) r (some proof) attested_in
    pub has_executed :
        Returns (execute_instruction_on_mac c mac proof address) attested_in executed executed_in
    pub how : HowExecuted c mac proof address executed before executed_in.acts
    pub is_active : st.state ≡ sub_account_active
    pub its_account : st.personal_account ≡ some executed.personal_account

  -- A run of a payment that returns, with the client of the attestations and the executor that it calls,
  -- returns an active status, and only where the payment was attested and then executed for its payer
  -- with that proof.
  pub onboard-IsOnboarded :
      (address tx now : Text) (lead : Option Text) (r s : Run (Run W Act) RunAct)
      (out : PaymentStatus)
      → Returns (onboard c mac v address tx lead now) r out s
      → IsOnboarded address tx r.world out
  unfolding onboard services
  onboard-IsOnboarded address tx now lead r s out ret =
      let b = run_process_payment-Behind (services c mac v) address tx now lead r s out ret in
      let proven : Returns (attest_xrpl_payment c v.decode 50 tx) r.world (some b.proof)
          b.attested_in =
        record {
          run =
              ap (λ o. (o, (attest_xrpl_payment c v.decode 50 tx r.world).1))
                (attested_or_throw-some _ b.proof (ap (λ x. x.0) b.has_proof))
              ∙ ap (λ y. (ok (some b.proof), y)) (ap (λ x. x.1) b.has_proof);
        } in
      let executed : Returns (execute_instruction_on_mac c mac b.proof address) b.attested_in
          b.executed b.executed_in =
        record { run = b.has_executed } in
      let how =
        execute_instruction_on_mac-Returns c mac b.proof address b.attested_in b.executed_in
          b.executed executed in
      record {
        proof = b.proof;
        attested_in = b.attested_in;
        executed = b.executed;
        executed_in = b.executed_in;
        before = how.0;
        has_proof = proven;
        has_executed = executed;
        how = how.1;
        is_active = b.is_active;
        its_account = b.its_account;
      }
