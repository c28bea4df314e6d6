-- ===== src/Relayer/Monitor/Run/Statuses.antt =====
-- xrpl-monitor.ts: what a run has done in each of its courses, with the statuses that it persists.
use xrpl.Prelude.{
  Bool, subst, ℕ, ◌≡◌, refl, ap, true, false, List, [], ◌∷◌, ◌++◌, Option, some, none, ◌==◌, ◌⊎◌,
  inl, inr,
}
use xrpl.Js.Text.{Text, lit}
use xrpl.Js.Number.Show.{decimal, number_text}
use xrpl.Js.Outcome.{Outcome, ok, throw, Thrown}
use xrpl.Js.Task.{Run, Task, ◌>>=◌, pure, raise, perform, lift, outcome, after}
use xrpl.Relayer.Monitor.{
  PaymentStatus, requesting, requesting_fdc, minting_fxrp, sub_account_active, failed,
}
use xrpl.Relayer.Attest.{PaymentProof}
use xrpl.Relayer.Operator.{Executed}
use xrpl.Relayer.Monitor.Run.{
  message_of_active, active, Services, RunAct, persisted, attested, executed_on_mac,
  read_config_file, read_balance, persist_status, fail_run, check_vault, on_checked, on_executed,
  on_attested, run_process_payment,
}

-- The statuses of a payment: as it is asked for, attested, and executed; and how it ends.
abbrev pub asked_for : Text → Text → Text → PaymentStatus
asked_for address tx now = record {
  xrpl_address = address;
  tx_hash = some tx;
  state = requesting_fdc;
  message =
      some
        (lit "Requesting FDC Payment attestation (one round, typically 1" ++ 0x2013 ∷ lit "3 min)");
  personal_account = none;
  vault_balance = none;
  updated_at = now;
}

abbrev pub with_proof : PaymentStatus → PaymentProof → PaymentStatus
with_proof st proof = record st {
  state = minting_fxrp;
  message = some (lit "FDC round " ++ number_text proof.round_id);
}

abbrev pub with_account : PaymentStatus → Executed → PaymentStatus
with_account st x = record st { personal_account = some x.personal_account }

abbrev pub failed_with : PaymentStatus → Text → PaymentStatus
failed_with st error = record st { state = failed; message = some error }

abbrev live_message : Bool → Executed → Text
live_message false x = lit "executeInstruction " ++ x.hash
live_message true x =
    lit "executeInstruction "
    ++ x.hash
    ++ lit " "
    ++ 0x2014 ∷ lit " PersonalAccount "
    ++ x.personal_account
    ++ lit " is active. Mirror vault follow still needs onboard()."

abbrev pub live : PaymentStatus → Executed → ℕ → PaymentStatus
live st x balance = record st {
  state = sub_account_active;
  message = some (live_message (balance == 0) x);
  personal_account = some x.personal_account;
  vault_balance = some (decimal balance);
}

live_message-eq : (b : Bool) (x : Executed) → live_message b x ≡ message_of_active b x
live_message-eq false x = refl
live_message-eq true x = refl

live-eq :
    (st : PaymentStatus) (x : Executed) (balance : ℕ) → live st x balance ≡ active st x balance
live-eq st x balance =
    ap
      (λ t. record st {
        state = sub_account_active;
        message = some t;
        personal_account = some x.personal_account;
        vault_balance = some (decimal balance);
      })
      (live_message-eq (balance == 0) x)

-- The acts of a vault check that has thrown.
abbrev pub FailedCheck : Thrown → List RunAct → Type 0
FailedCheck e acts =
    (acts ≡ read_config_file ∷ []) ⊎ (acts ≡ read_balance (throw e) ∷ read_config_file ∷ [])

-- The courses of a run: what it returns or throws, and all that it does, the latest first.
pub data Course (wording : Thrown → Text) (start : PaymentStatus)
    : Outcome PaymentStatus → List RunAct → Type 0 where
  not_attested :
      (e : Thrown)
      → Course wording start
          (throw e)
          (persisted (failed_with start (wording e)) ∷ attested (throw e) ∷ persisted start ∷ [])
  not_executed :
      (e : Thrown) (proof : PaymentProof)
      → Course wording start (throw e) (
          persisted (failed_with (with_proof start proof) (wording e))
          ∷ executed_on_mac (throw e)
          ∷ persisted (with_proof start proof)
          ∷ attested (ok proof)
          ∷ persisted start
          ∷ [])
  not_checked :
      (e : Thrown) (proof : PaymentProof) (x : Executed) (checks : List RunAct)
      → FailedCheck e checks
      → Course wording start (throw e) (
          persisted (failed_with (with_account (with_proof start proof) x) (wording e)) ∷ checks
          ++ executed_on_mac (ok x)
            ∷ persisted (with_proof start proof)
            ∷ attested (ok proof)
            ∷ persisted start
            ∷ [])
  onboarded :
      (proof : PaymentProof) (x : Executed) (balance : ℕ)
      → Course wording start (ok (live (with_proof start proof) x balance)) (
          persisted (live (with_proof start proof) x balance)
          ∷ read_balance (ok balance)
          ∷ read_config_file
          ∷ executed_on_mac (ok x)
          ∷ persisted (with_proof start proof)
          ∷ attested (ok proof)
          ∷ persisted start
          ∷ [])

-- What a vault check has done after these acts.
unfoldable Checked : List RunAct → Outcome ℕ → List RunAct → Type 0
Checked before (ok balance) acts = acts ≡ read_balance (ok balance) ∷ read_config_file ∷ before
Checked before (throw e) acts =
    (acts ≡ read_config_file ∷ before) ⊎ (acts ≡ read_balance (throw e) ∷ read_config_file ∷ before)

Checked-read :
    (before acts : List RunAct) (o : Outcome ℕ)
    → acts ≡ read_config_file ∷ before
    → Checked before o (read_balance o ∷ acts)
unfolding Checked
Checked-read before acts (ok balance) h = ap (λ l. read_balance (ok balance) ∷ l) h
Checked-read before acts (throw e) h = inr (ap (λ l. read_balance (throw e) ∷ l) h)

module _ {W : Type 0} where
  -- The rest of a vault check, once the configuration is read.
  record Ready (m : Task W RunAct ℕ) : Type 0 where
    ready :
        (before : List RunAct) (r : Run W RunAct)
        → r.acts ≡ read_config_file ∷ before
        → Checked before (m r).0 (m r).1.acts

  Ready-lift :
      {A : Type 0} (o : Outcome A) (f : A → Task W RunAct ℕ)
      → ((a : A) → Ready (f a))
      → Ready (lift o >>= f)
  unfolding ◌>>=◌ pure raise Checked
  Ready-lift (ok a) f h = h a
  Ready-lift (throw e) f h = record { ready = λ before r at. inl at }

  Ready-perform : (g : W → Outcome ℕ × W) → Ready (perform read_balance g)
  unfolding perform
  Ready-perform g = record { ready = λ before r at. Checked-read before r.acts (g r.world).0 at }

  Checked-after :
      {A : Type 0} (o : Outcome A) (f : A → Task W RunAct ℕ) (before : List RunAct)
      (r : Run W RunAct)
      → ((a : A) → Ready (f a))
      → r.acts ≡ read_config_file ∷ before
      → Checked before (after f (o, r)).0 (after f (o, r)).1.acts
  unfolding Checked
  Checked-after (ok a) f before r h at = (h a).ready before r at
  Checked-after (throw e) f before r h at = inl at

module _ {W : Type 0} (h : Services W) where
  check_vault-Checked :
      (lead : Option Text) (account : Text) (r : Run W RunAct)
      → Checked r.acts (check_vault h lead account r).0 (check_vault h lead account r).1.acts
  unfolding check_vault ◌>>=◌ perform
  check_vault-Checked lead account r =
      Checked-after (h.read_config r.world).0 _ r.acts
        (record { world = (h.read_config r.world).1; acts = read_config_file ∷ r.acts })
        (λ config. Ready-lift _ _ λ contracts.
          Ready-lift _ _
            λ vault_text. Ready-lift _ _ λ vault. Ready-lift _ _ λ the_lead. Ready-perform _)
        refl

  -- What a run has done once the execution has returned.
  abbrev executed_acts : PaymentStatus → PaymentProof → Executed → List RunAct
  executed_acts start proof x =
      executed_on_mac (ok x)
      ∷ persisted (with_proof start proof)
      ∷ attested (ok proof)
      ∷ persisted start
      ∷ []

  on_checked-Course :
      (start : PaymentStatus) (proof : PaymentProof) (x : Executed) (o : Outcome ℕ)
      (r : Run W RunAct)
      → Checked (executed_acts start proof x) o r.acts
      → let out = on_checked h (with_proof start proof) x o r in
        Course h.wording start out.0 out.1.acts
  unfolding ◌>>=◌ fail_run persist_status perform pure raise Checked
  on_checked-Course start proof x (throw e) r (inl acts) =
      rw acts (not_checked e proof x (read_config_file ∷ []) (inl refl))
  on_checked-Course start proof x (throw e) r (inr acts) =
      rw acts (not_checked e proof x (read_balance (throw e) ∷ read_config_file ∷ []) (inr refl))
  on_checked-Course start proof x (ok balance) r acts = rw acts (
      subst
        (λ a. Course h.wording start (ok a) (
          persisted a ∷ read_balance (ok balance) ∷ read_config_file ∷ executed_acts start proof x))
        (live-eq (with_proof start proof) x balance) (onboarded proof x balance))

  on_executed-Course :
      (lead : Option Text) (start : PaymentStatus) (proof : PaymentProof) (o : Outcome Executed)
      (r : Run W RunAct)
      → r.acts
        ≡ executed_on_mac o
          ∷ persisted (with_proof start proof)
          ∷ attested (ok proof)
          ∷ persisted start
          ∷ []
      → let out = on_executed h lead (with_proof start proof) o r in
        Course h.wording start out.0 out.1.acts
  unfolding ◌>>=◌ fail_run persist_status perform pure raise outcome
  on_executed-Course lead start proof (throw e) r before = rw before (not_executed e proof)
  on_executed-Course lead start proof (ok x) r before =
      let checked = check_vault h lead x.personal_account r in
      on_checked-Course start proof x checked.0 checked.1 (
        subst (λ l. Checked l checked.0 checked.1.acts) before
          (check_vault-Checked lead x.personal_account r))

  on_attested-Course :
      (lead : Option Text) (start : PaymentStatus) (o : Outcome PaymentProof) (r : Run W RunAct)
      → r.acts ≡ attested o ∷ persisted start ∷ []
      → let out = on_attested h lead start o r in Course h.wording start out.0 out.1.acts
  unfolding ◌>>=◌ fail_run persist_status perform pure raise outcome
  on_attested-Course lead start (throw e) r before = rw before (not_attested e)
  on_attested-Course lead start (ok proof) r before =
      let done = h.execute proof start.xrpl_address r.world in
      on_executed-Course lead start proof done.0
        (record {
          world = done.1;
          acts = executed_on_mac done.0 ∷ persisted (with_proof start proof) ∷ r.acts;
        })
        (ap (λ l. executed_on_mac done.0 ∷ persisted (with_proof start proof) ∷ l) before)

  -- Whatever the services answer, a run persists its status as requesting and asks for the attestation.
  -- If that throws, it persists the status as failed with the message of the error, and throws it. If it
  -- returns, the run persists the status as minting, with the round of the proof, and executes; where
  -- that throws it fails in the same way. Where the execution has returned, the run reads the
  -- configuration and the balance of the vault; if they are there, it persists and returns an active
  -- status with the account and the balance, and if not, it fails with a status that keeps the account.
  pub run_process_payment-Course :
      (address tx now : Text) (lead : Option Text) (w : W)
      → let out = run_process_payment h address tx lead now (record { world = w; acts = [] }) in
        Course h.wording (asked_for address tx now) out.0 out.1.acts
  unfolding run_process_payment ◌>>=◌ persist_status perform outcome requesting
  run_process_payment-Course address tx now lead w =
      let proof = h.attest tx w in
      on_attested-Course lead (asked_for address tx now) proof.0
        (record {
          world = proof.1;
          acts = attested proof.0 ∷ persisted (asked_for address tx now) ∷ [];
        })
        refl
