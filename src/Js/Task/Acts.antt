-- ===== src/Js/Task/Acts.antt =====
-- What a task does, however it ends: how often it does an act, and what all its acts have.
use xrpl.Prelude.{ℕ, suc, ◌+◌, ◌≤◌, ◌≡◌, Bool, true, false, List, [], ◌∷◌, arith, All}
use xrpl.Js.Outcome.{Outcome, ok, throw, Thrown}
use xrpl.Js.Task.{Run, Task, ◌>>=◌, pure, raise, perform, catch, lift, after, otherwise}

abbrev one : Bool → ℕ
one true = 1
one false = 0

-- The number of acts that pass a test.
unfoldable pub count : {E : Type 0} → (E → Bool) → List E → ℕ
count is [] = 0
count is (e ∷ es) = one (is e) + count is es

-- The task does at most `n` acts that pass the test.
pub record AtMost {W E A : Type 0} (is : E → Bool) (n : ℕ) (m : Task W E A) : Type 0 where
  pub at_most : (r : Run W E) → count is (m r).1.acts ≤ n + count is r.acts

module _ {W E : Type 0} {is : E → Bool} where
  pub AtMost-pure : {A : Type 0} (a : A) (n : ℕ) → AtMost {W = W} is n (pure a)
  unfolding pure
  AtMost-pure a n = record { at_most = λ r. omega arith }

  pub AtMost-raise : {A : Type 0} (e : Thrown) (n : ℕ) → AtMost {W = W} {A = A} is n (raise e)
  unfolding raise
  AtMost-raise e n = record { at_most = λ r. omega arith }

  pub AtMost-lift : {A : Type 0} (o : Outcome A) → AtMost {W = W} is 0 (lift o)
  AtMost-lift (ok a) = AtMost-pure a 0
  AtMost-lift (throw e) = AtMost-raise e 0

  pub AtMost-more : {A : Type 0} {m : Task W E A} {n k : ℕ} → AtMost is n m → n ≤ k → AtMost is k m
  AtMost-more h le = record { at_most = λ r. grind (arith, h.at_most r) }

  AtMost-after :
      {A B : Type 0} (f : A → Task W E B) (n k c : ℕ) (out : Outcome A × Run W E)
      → count is out.1.acts ≤ n + c
      → ((a : A) → AtMost is k (f a))
      → count is (after f out).1.acts ≤ n + k + c
  AtMost-after f n k c (ok a, r) h hf = grind (arith, (hf a).at_most r)
  AtMost-after f n k c (throw e, r) h hf = grind arith

  pub AtMost-bind :
      {A B : Type 0} (m : Task W E A) (f : A → Task W E B) (n k : ℕ)
      → AtMost is n m
      → ((a : A) → AtMost is k (f a))
      → AtMost is (n + k) (m >>= f)
  unfolding ◌>>=◌
  AtMost-bind m f n k h hf = record {
    at_most = λ r. AtMost-after f n k (count is r.acts) (m r) (h.at_most r) hf;
  }

  -- A task that does no such act, and then another.
  pub AtMost-skip :
      {A B : Type 0} (m : Task W E A) (f : A → Task W E B) (n : ℕ)
      → AtMost is 0 m
      → ((a : A) → AtMost is n (f a))
      → AtMost is n (m >>= f)
  AtMost-skip m f n h hf = AtMost-more (AtMost-bind m f 0 n h hf) (omega arith)

  -- A task that does one such act at most, and then another.
  pub AtMost-next :
      {A B : Type 0} (m : Task W E A) (f : A → Task W E B) (n : ℕ)
      → AtMost is 1 m
      → ((a : A) → AtMost is n (f a))
      → AtMost is (suc n) (m >>= f)
  AtMost-next m f n h hf = AtMost-more (AtMost-bind m f 1 n h hf) (omega arith)

  pub AtMost-test :
      {A : Type 0} (b : Bool) (m k : Task W E A) (n : ℕ)
      → AtMost is n m
      → AtMost is n k
      → AtMost is n (elim b [ true ↦ m | false ↦ k ])
  AtMost-test true m k n h hk = h
  AtMost-test false m k n h hk = hk

  AtMost-otherwise :
      {A : Type 0} (f : Thrown → Task W E A) (n k c : ℕ) (out : Outcome A × Run W E)
      → count is out.1.acts ≤ n + c
      → ((e : Thrown) → AtMost is k (f e))
      → count is (otherwise f out).1.acts ≤ n + k + c
  AtMost-otherwise f n k c (ok a, r) h hf = grind arith
  AtMost-otherwise f n k c (throw e, r) h hf = grind (arith, (hf e).at_most r)

  pub AtMost-catch :
      {A : Type 0} (m : Task W E A) (f : Thrown → Task W E A) (n k : ℕ)
      → AtMost is n m
      → ((e : Thrown) → AtMost is k (f e))
      → AtMost is (n + k) (catch m f)
  unfolding catch
  AtMost-catch m f n k h hf = record {
    at_most = λ r. AtMost-otherwise f n k (count is r.acts) (m r) (h.at_most r) hf;
  }

  pub AtMost-perform :
      {A : Type 0} (act : Outcome A → E) (f : W → Outcome A × W) → AtMost is 1 (perform act f)
  unfolding perform count
  AtMost-perform act f = record { at_most = λ r. grind arith }

  pub AtMost-other :
      {A : Type 0} (act : Outcome A → E) (f : W → Outcome A × W)
      → ((o : Outcome A) → is (act o) ≡ false)
      → AtMost is 0 (perform act f)
  unfolding perform count
  AtMost-other act f h = record { at_most = λ r. rw (h (f r.world).0) (omega arith) }

-- Whatever the task does has the predicate, if all that was done before has it.
pub record EachAct {W E A : Type 0} (P : E → Type 0) (m : Task W E A) : Type 0 where
  pub each : (r : Run W E) → All P r.acts → All P (m r).1.acts

module _ {W E : Type 0} {P : E → Type 0} where
  pub EachAct-pure : {A : Type 0} (a : A) → EachAct {W = W} P (pure a)
  unfolding pure
  EachAct-pure a = record { each = λ r h. h }

  pub EachAct-raise : {A : Type 0} (e : Thrown) → EachAct {W = W} {A = A} P (raise e)
  unfolding raise
  EachAct-raise e = record { each = λ r h. h }

  pub EachAct-lift : {A : Type 0} (o : Outcome A) → EachAct {W = W} P (lift o)
  EachAct-lift (ok a) = EachAct-pure a
  EachAct-lift (throw e) = EachAct-raise e

  EachAct-after :
      {A B : Type 0} (f : A → Task W E B) (out : Outcome A × Run W E)
      → All P out.1.acts
      → ((a : A) → EachAct P (f a))
      → All P (after f out).1.acts
  EachAct-after f (ok a, r) h hf = (hf a).each r h
  EachAct-after f (throw e, r) h hf = h

  pub EachAct-bind :
      {A B : Type 0} (m : Task W E A) (f : A → Task W E B)
      → EachAct P m
      → ((a : A) → EachAct P (f a))
      → EachAct P (m >>= f)
  unfolding ◌>>=◌
  EachAct-bind m f h hf = record { each = λ r hr. EachAct-after f (m r) (h.each r hr) hf }

  EachAct-otherwise :
      {A : Type 0} (f : Thrown → Task W E A) (out : Outcome A × Run W E)
      → All P out.1.acts
      → ((e : Thrown) → EachAct P (f e))
      → All P (otherwise f out).1.acts
  EachAct-otherwise f (ok a, r) h hf = h
  EachAct-otherwise f (throw e, r) h hf = (hf e).each r h

  pub EachAct-catch :
      {A : Type 0} (m : Task W E A) (f : Thrown → Task W E A)
      → EachAct P m
      → ((e : Thrown) → EachAct P (f e))
      → EachAct P (catch m f)
  unfolding catch
  EachAct-catch m f h hf = record { each = λ r hr. EachAct-otherwise f (m r) (h.each r hr) hf }

  pub EachAct-test :
      {A : Type 0} (b : Bool) (m k : Task W E A)
      → EachAct P m
      → EachAct P k
      → EachAct P (elim b [ true ↦ m | false ↦ k ])
  EachAct-test true m k h hk = h
  EachAct-test false m k h hk = hk

  pub EachAct-perform :
      {A : Type 0} (act : Outcome A → E) (f : W → Outcome A × W)
      → ((o : Outcome A) → P (act o))
      → EachAct P (perform act f)
  unfolding perform
  EachAct-perform act f p = record { each = λ r h. (p (f r.world).0, h) }
