-- ===== src/Relayer/Operator/Executes.antt =====
-- xrpl-monitor.ts: what is sent to the controller, and what has happened when an execution returns.
use xrpl.Prelude.{
  ℕ, ◌^◌, ◌<◌, ◌≡◌, refl, sym, ap, true, List, ◌∷◌, Option, none, some, arith, inl, inr, subst, ◌⊎◌,
}
use xrpl.Js.Text.{Text, lit, same, is_empty, includes, to_lower_case}
use xrpl.Js.Outcome.{ok}
use xrpl.Js.Task.{Run, Task}
use xrpl.Js.Task.Acts.{
  EachAct, EachAct-pure, EachAct-raise, EachAct-bind, EachAct-catch, EachAct-perform, EachAct-test,
  EachAct-lift,
}
use xrpl.Js.Task.Returns.{
  Returns, Returns-pure, Returns-raise, Returns-bind, Returns-perform, Returns-test, EachAct-then,
}
use xrpl.Relayer.Chain.{Chain, Act, Failure, Receipt, Execution, read, awaited, simulated, executed}
use xrpl.Relayer.Attest.{PaymentProof, resolve_master_account_controller, given}
use xrpl.Relayer.Fdc.{registry_address}
use xrpl.Relayer.Operator.{
  Mac, Executed, decode_mac_revert, value_for, instruction_fee, personal_account_of, execute_now,
  refused, execution_of, execute_instruction_on_mac, passed_or, is_nil,
}

-- An execution that is sent is for the address, with the Merkle proof of the attestation, and pays
-- less than 10 ^ 18.
abbrev pub IsFor : PaymentProof → Text → Act → Type 0
IsFor proof xrpl_address (executed x _) =
    (x.xrpl_address ≡ xrpl_address) × (x.merkle_proof ≡ proof.merkle_proof) × (x.value < 10 ^ 18)
IsFor proof xrpl_address _ = Unit

value_for-lt : (fee : ℕ) → value_for fee < 10 ^ 18
unfolding value_for
value_for-lt fee = ground arith

module _ {W : Type 0} (c : Chain W) (mac : Mac W) (proof : PaymentProof) (address : Text) where
  abbrev IsGood : Execution → Type 0
  IsGood x =
      (x.xrpl_address ≡ address) × (x.merkle_proof ≡ proof.merkle_proof) × (x.value < 10 ^ 18)

  given-IsFor :
      (o : Option Text) (m : Task W Act Text)
      → EachAct (IsFor proof address) m
      → EachAct (IsFor proof address) (given c o m)
  given-IsFor none m h = h
  given-IsFor (some s) m h = EachAct-test (is_empty s) _ _ h (EachAct-pure s)

  controller-IsFor : EachAct (IsFor proof address) (resolve_master_account_controller c)
  unfolding resolve_master_account_controller registry_address
  controller-IsFor =
      given-IsFor (c.env (lit "MASTER_ACCOUNT_CONTROLLER")) _ (EachAct-perform _ _ λ o. tt)

  personal_account_of-IsFor :
      (controller owner : Text)
      → EachAct (IsFor proof address) (personal_account_of c mac controller owner)
  unfolding personal_account_of
  personal_account_of-IsFor controller owner = EachAct-perform _ _ λ o. tt

  execution_of-IsFor : EachAct (IsFor proof address) (execution_of c mac proof address)
  unfolding execution_of instruction_fee
  execution_of-IsFor = EachAct-bind _ _ (EachAct-lift _) λ _.
      EachAct-bind _ _ controller-IsFor λ controller. EachAct-bind _ _ (EachAct-lift _) λ payment.
        EachAct-test _ _ _ (EachAct-raise _) (
          EachAct-bind _ _ (EachAct-catch _ _ (EachAct-perform _ _ λ o. tt) λ e. EachAct-pure 0)
            λ fee. EachAct-pure _)

  execution_of-IsGood :
      (r s : Run W Act) (x : Execution)
      → Returns (execution_of c mac proof address) r x s
      → IsGood x
  unfolding execution_of
  execution_of-IsGood r s x h = Returns-bind h λ _ r₁ _ h₁. Returns-bind h₁ λ controller r₂ _ h₂.
      Returns-bind h₂ λ payment r₃ _ h₃. elim (Returns-test (is_nil proof.merkle_proof) h₃) [
        | inl (_, no_proof) ↦ absurd (Returns-raise _ no_proof)
        | inr (_, h₄) ↦
            Returns-bind h₄
              λ fee r₄ _ h₅. subst IsGood (Returns-pure h₅).0 (refl, refl, value_for-lt fee)
      ]

  execute_now-IsFor :
      (x : Execution) → IsGood x → EachAct (IsFor proof address) (execute_now c mac x)
  unfolding execute_now
  execute_now-IsFor x good = EachAct-bind _ _ (EachAct-perform _ _ λ o. good) λ hash.
      EachAct-bind _ _ (EachAct-perform _ _ λ o. tt) λ receipt.
        EachAct-test (same receipt.status (lit "success")) _ _
          (EachAct-bind _ _ (personal_account_of-IsFor _ _) λ account. EachAct-pure _)
          (EachAct-raise _)

  refused-IsFor : (x : Execution) (f : Failure) → EachAct (IsFor proof address) (refused c mac x f)
  unfolding refused
  refused-IsFor x f =
      EachAct-test _ _ _
        (EachAct-bind _ _ (personal_account_of-IsFor _ _) λ account. EachAct-pure _)
        (EachAct-raise _)

  passed_or-IsFor :
      (x : Execution) (o : Option Failure)
      → IsGood x
      → EachAct (IsFor proof address) (passed_or c mac x o)
  passed_or-IsFor x none good = execute_now-IsFor x good
  passed_or-IsFor x (some f) good = refused-IsFor x f

  -- Every execution that the relayer sends for an attested payment names the payer, carries the Merkle
  -- proof of the attestation and pays less than 10 ^ 18, whatever fee the controller asks for.
  pub execute_instruction_on_mac-IsFor :
      EachAct (IsFor proof address) (execute_instruction_on_mac c mac proof address)
  unfolding execute_instruction_on_mac
  execute_instruction_on_mac-IsFor = EachAct-then _ _ execution_of-IsFor λ x r s got.
      EachAct-bind _ _ (EachAct-perform _ _ λ o. tt)
        λ failed. passed_or-IsFor x failed (execution_of-IsGood r s x got)

  -- How an execution has returned: its transaction was simulated without a failure, sent right after,
  -- and its receipt says success; or a simulation failed as one that was executed already, and nothing
  -- was sent.
  abbrev pub HowExecuted : Executed → List Act → List Act → Type 0
  HowExecuted out before acts =
      ((x : Execution) × (receipt : Receipt) × (same receipt.status (lit "success") ≡ true)
        × (acts
            ≡ read x.address (lit "getPersonalAccount")
              ∷ awaited out.hash (ok receipt)
              ∷ executed x (ok out.hash)
              ∷ simulated x (ok none)
              ∷ before))
      ⊎ ((x : Execution) × (f : Failure) × (out.hash ≡ lit "already-executed")
          × (includes (lit "transactionalreadyexecuted")
                (to_lower_case (decode_mac_revert mac.decode_error f))
              ≡ true)
          × (acts ≡ read x.address (lit "getPersonalAccount") ∷ simulated x (ok (some f)) ∷ before))

  passed_or-Returns :
      (x : Execution) (o : Option Failure) (r s : Run W Act) (out : Executed) (before : List Act)
      → r.acts ≡ simulated x (ok o) ∷ before
      → Returns (passed_or c mac x o) r out s
      → HowExecuted out before s.acts
  unfolding execute_now refused personal_account_of
  passed_or-Returns x none r s out before at_r h = Returns-bind h λ hash r₁ sent h₁.
      Returns-bind h₁ λ receipt r₂ got h₂.
        elim (Returns-test (same receipt.status (lit "success")) h₂) [
          | inr (_, reverted) ↦ absurd (Returns-raise _ reverted)
          | inl (good, h₃) ↦ Returns-bind h₃ λ account r₃ asked h₄.
              let (is_out, same_run) = Returns-pure h₄ in
              let is_hash : hash ≡ out.hash = ap (λ o. o.hash) is_out in
              let acts₁ = Returns-perform _ _ sent in
              let acts₂ = Returns-perform _ _ got in
              let acts₃ = Returns-perform _ _ asked in
              inl (x, receipt, good, cc (is_hash, same_run, acts₁, acts₂, acts₃, at_r))
        ]
  passed_or-Returns x (some f) r s out before at_r h =
      elim (Returns-test
        (includes (lit "transactionalreadyexecuted")
          (to_lower_case (decode_mac_revert mac.decode_error f)))
        h) [
          | inr (_, raised) ↦ absurd (Returns-raise _ raised)
          | inl (known, h₁) ↦ Returns-bind h₁ λ account r₁ asked h₂.
              let (is_out, same_run) = Returns-pure h₂ in
              let acts₁ = Returns-perform _ _ asked in
              inr (x, f, sym (ap (λ o. o.hash) is_out), known, cc (same_run, acts₁, at_r))
        ]

  -- A run that returns has either simulated its transaction without a failure, sent it right after,
  -- waited for a receipt that says success, and returns its hash; or a simulation has failed as one that
  -- was executed already, nothing was sent after it, and it returns `already-executed`.
  pub execute_instruction_on_mac-Returns :
      (r s : Run W Act) (out : Executed)
      → Returns (execute_instruction_on_mac c mac proof address) r out s
      → (before : List Act) × HowExecuted out before s.acts
  unfolding execute_instruction_on_mac
  execute_instruction_on_mac-Returns r s out h = Returns-bind h λ x r₁ _ h₁.
      Returns-bind h₁ λ failed r₂ simulated_it h₂.
        (r₁.acts, passed_or-Returns x failed r₂ s out r₁.acts (Returns-perform _ _ simulated_it) h₂)
