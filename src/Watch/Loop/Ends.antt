-- ===== src/Watch/Loop/Ends.antt =====
-- The loop of the monitors: when it ends, and how much it does.
use xrpl.Prelude.{
  ℕ, zero, suc, ◌+◌, ◌*◌, ◌≤◌, ◌<◌, ◌≡◌, sym, ◌∙◌, subst, Bool, true, false, arith, inl, inr, leb,
}
use xrpl.Js.Number.{Number, of_ℕ, lt, le, is_nan}
use xrpl.Js.Outcome.{Outcome}
use xrpl.Js.Task.{Run, Task}
use xrpl.Js.Task.Acts.{
  AtMost, AtMost-pure, AtMost-bind, AtMost-skip, AtMost-other, AtMost-test, AtMost-more,
}
use xrpl.Js.Task.Returns.{Returns, Returns-pure, Returns-bind, Returns-test}
use xrpl.Watch.Loop.{WatchAct, slept, is_last, run_cycles}

-- With a whole number of cycles, the last is the one of that number; with 0 there is no last.
is_last_lem : (n i : ℕ) → 1 ≤ n → is_last (of_ℕ n) i ≡ leb n i
unfolding is_last lt le is_nan
is_last_lem n i h = ground arith

is_last_zero : (i : ℕ) → is_last (of_ℕ 0) i ≡ false
unfolding is_last lt le is_nan
is_last_zero i = ground arith

leb_self : (n : ℕ) → leb n n ≡ true
leb_self n = ground arith

module _ {W : Type 0} (cycle : ℕ → Task W WatchAct (Unit {0}))
    (sleep : W → Outcome (Unit {0}) × W) where
  -- With a whole number of cycles that is not 0, as many steps of fuel are enough.
  pub run_cycles-ends :
      (n fuel i : ℕ) (r s : Run W WatchAct)
      → i < n
      → n ≤ i + fuel
      → Returns (run_cycles cycle sleep (of_ℕ n) fuel i) r false s
      → ⊥
  unfolding run_cycles
  run_cycles-ends n zero i r s before enough h = absurd (omega arith)
  run_cycles-ends n (suc fuel) i r s before enough h = Returns-bind h λ _ r₁ _ h₁.
      elim (Returns-test (is_last (of_ℕ n) (i + 1)) h₁) [
        | inl (_, ended) ↦ let is_true = (Returns-pure ended).0 in ground arith
        | inr (more, h₂) ↦ Returns-bind h₂ λ _ r₂ _ h₃.
            let not_last : leb n (i + 1) ≡ false =
              sym (is_last_lem n (i + 1) (omega arith)) ∙ more in
            run_cycles-ends n fuel (i + 1) r₂ s (grind (arith, not_last)) (omega arith) h₃
      ]

  -- With 0 cycles, the loop never ends of itself.
  pub run_cycles-goes_on :
      (fuel i : ℕ) (r s : Run W WatchAct)
      → Returns (run_cycles cycle sleep (of_ℕ 0) fuel i) r true s
      → ⊥
  unfolding run_cycles
  run_cycles-goes_on zero i r s h = let is_false = (Returns-pure h).0 in ground arith
  run_cycles-goes_on (suc fuel) i r s h = Returns-bind h λ _ r₁ _ h₁.
      elim (Returns-test (is_last (of_ℕ 0) (i + 1)) h₁) [
        | inl (last, _) ↦ let never = is_last_zero (i + 1) in ground arith
        | inr (_, h₂) ↦ Returns-bind h₂ λ _ r₂ _ h₃. run_cycles-goes_on fuel (i + 1) r₂ s h₃
      ]

  -- A loop of cycles that do no such act does none.
  pub run_cycles-none :
      (is : WatchAct → Bool) (max_cycles : Number) (fuel i : ℕ)
      → is slept ≡ false
      → ((j : ℕ) → AtMost is 0 (cycle j))
      → AtMost is 0 (run_cycles cycle sleep max_cycles fuel i)
  unfolding run_cycles
  run_cycles-none is max_cycles zero i quiet each = AtMost-pure false 0
  run_cycles-none is max_cycles (suc fuel) i quiet each = AtMost-skip _ _ 0 (each i) λ _.
      AtMost-test (is_last max_cycles (i + 1)) _ _ 0 (AtMost-pure true 0) (
        AtMost-skip _ _ 0 (AtMost-other _ _ λ o. quiet)
          λ _. run_cycles-none is max_cycles fuel (i + 1) quiet each)

  -- Whatever the fuel, a loop of a whole number of cycles does in all at most what that many cycles do.
  pub run_cycles-AtMost :
      (is : WatchAct → Bool) (k m fuel i : ℕ)
      → is slept ≡ false
      → ((j : ℕ) → AtMost is k (cycle j))
      → AtMost is (suc m * k) (run_cycles cycle sleep (of_ℕ (i + suc m)) fuel i)
  unfolding run_cycles
  run_cycles-AtMost is k m zero i quiet each = AtMost-pure false _
  run_cycles-AtMost is k zero (suc fuel) i quiet each =
      let last : is_last (of_ℕ (i + 1)) (i + 1) ≡ true =
        is_last_lem (i + 1) (i + 1) (omega arith) ∙ leb_self (i + 1) in
      AtMost-more (AtMost-bind (cycle i) _ k 0 (each i) λ _. rw last (AtMost-pure true 0))
        (grind arith)
  run_cycles-AtMost is k (suc m) (suc fuel) i quiet each =
      let later : i + suc (suc m) ≡ (i + 1) + suc m = omega arith in
      let again : AtMost is (suc m * k)
          (run_cycles cycle sleep (of_ℕ (i + suc (suc m))) fuel (i + 1)) =
        subst (λ n. AtMost is (suc m * k) (run_cycles cycle sleep (of_ℕ n) fuel (i + 1)))
          (sym later) (run_cycles-AtMost is k m fuel (i + 1) quiet each) in
      AtMost-more
        (AtMost-bind (cycle i) _ k (suc m * k) (each i) λ _.
          AtMost-test (is_last (of_ℕ (i + suc (suc m))) (i + 1)) _ _ (suc m * k)
            (AtMost-pure true _) (AtMost-skip _ _ _ (AtMost-other _ _ λ o. quiet) λ _. again))
        (grind arith)
