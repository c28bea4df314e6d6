-- ===== src/Js/Task/Returns.antt =====
-- What is known of the parts of a task that has returned.
use xrpl.Prelude.{◌≡◌, refl, sym, ◌∙◌, ap, Bool, true, false, ◌∷◌, arith, ◌⊎◌, inl, inr, All}
use xrpl.Js.Outcome.{Outcome, ok, throw, Thrown}
use xrpl.Js.Task.{Run, Task, ◌>>=◌, pure, raise, perform, catch, lift, after, otherwise}
use xrpl.Js.Task.Acts.{EachAct}

-- The task, run on `r`, returns `a` and leaves `s`.
pub record Returns {W E A : Type 0} (m : Task W E A) (r : Run W E) (a : A) (s : Run W E)
    : Type 0 where
  pub run : m r ≡ (ok a, s)

module _ {W E : Type 0} where
  pub Returns-of :
      {A : Type 0} (m : Task W E A) (r : Run W E) (a : A) → (m r).0 ≡ ok a → Returns m r a (m r).1
  Returns-of m r a e = record { run = ap (λ o. (o, (m r).1)) e }

  pub Returns-pure :
      {A : Type 0} {a b : A} {r s : Run W E} → Returns (pure a) r b s → (a ≡ b) × (r ≡ s)
  unfolding pure
  Returns-pure {a} {b} {r} {s} h = let run = h.run in ground arith

  pub Returns-raise :
      {A : Type 0} (e : Thrown) {b : A} {r s : Run W E} → Returns (raise e) r b s → ⊥
  unfolding raise
  Returns-raise e {b} {r} {s} h = let run = h.run in ground arith

  pub Returns-lift :
      {A : Type 0} (o : Outcome A) {b : A} {r s : Run W E}
      → Returns (lift o) r b s
      → (o ≡ ok b) × (r ≡ s)
  Returns-lift (ok a) h = let same = Returns-pure h in (ap ok same.0, same.1)
  Returns-lift (throw e) h = absurd (Returns-raise _ h)

  after-Returns :
      {A B : Type 0} (f : A → Task W E B) (out : Outcome A × Run W E) (b : B) (s : Run W E)
      → after f out ≡ (ok b, s)
      → (a : A) × (r : Run W E) × (out ≡ (ok a, r)) × Returns (f a) r b s
  after-Returns f (ok a, r) b s h = (a, r, refl, record { run = h })
  after-Returns f (throw e, r) b s h = absurd (ground arith)

  -- A chain returns where its first part has returned, and then the rest.
  pub Returns-bind :
      {A B C : Type 0} {m : Task W E A} {f : A → Task W E B} {r : Run W E} {b : B} {s : Run W E}
      → Returns (m >>= f) r b s
      → ((a : A) (r' : Run W E) → Returns m r a r' → Returns (f a) r' b s → C)
      → C
  unfolding ◌>>=◌
  Returns-bind {m} {f} {r} {b} {s} h k =
      let (a, r', run, rest) = after-Returns f (m r) b s h.run in k a r' (record { run = run }) rest

  otherwise-Returns :
      {A : Type 0} (f : Thrown → Task W E A) (out : Outcome A × Run W E) (a : A) (s : Run W E)
      → otherwise f out ≡ (ok a, s)
      → (out ≡ (ok a, s))
        ⊎ ((e : Thrown) × (r : Run W E) × (out ≡ (throw e, r)) × Returns (f e) r a s)
  otherwise-Returns f (ok a, r) b s h = inl h
  otherwise-Returns f (throw e, r) b s h = inr (e, r, refl, record { run = h })

  pub Returns-catch :
      {A : Type 0} {m : Task W E A} {f : Thrown → Task W E A} {r : Run W E} {a : A} {s : Run W E}
      → Returns (catch m f) r a s
      → Returns m r a s
        ⊎ ((e : Thrown) × (r' : Run W E) × (m r ≡ (throw e, r')) × Returns (f e) r' a s)
  unfolding catch
  Returns-catch {m} {f} {r} {a} {s} h = elim (otherwise-Returns f (m r) a s h.run) [
    | inl run ↦ inl (record { run = run })
    | inr thrown ↦ inr thrown
  ]

  pub Returns-perform :
      {A : Type 0} (act : Outcome A → E) (f : W → Outcome A × W) {r : Run W E} {a : A} {s : Run W E}
      → Returns (perform act f) r a s
      → s.acts ≡ act (ok a) ∷ r.acts
  unfolding perform
  Returns-perform act f {r} {a} {s} h =
      let fst : (f r.world).0 ≡ ok a = ap (λ x. x.0) h.run in
      let snd = ap (λ x. x.1.acts) h.run in sym snd ∙ ap (λ o. act o ∷ r.acts) fst

  pub Returns-test :
      {A : Type 0} (b : Bool) {m k : Task W E A} {r : Run W E} {a : A} {s : Run W E}
      → Returns (elim b [ true ↦ m | false ↦ k ]) r a s
      → ((b ≡ true) × Returns m r a s) ⊎ ((b ≡ false) × Returns k r a s)
  Returns-test true h = inl (refl, h)
  Returns-test false h = inr (refl, h)

  -- What the service did.
  pub Returns-world :
      {A : Type 0} (act : Outcome A → E) (f : W → Outcome A × W) {r : Run W E} {a : A} {s : Run W E}
      → Returns (perform act f) r a s
      → f r.world ≡ (ok a, s.world)
  unfolding perform
  Returns-world act f {r} {a} {s} h =
      let fst : (f r.world).0 ≡ ok a = ap (λ x. x.0) h.run in
      let snd : (f r.world).1 ≡ s.world = ap (λ x. x.1.world) h.run in grind (arith, fst, snd)

  each-after :
      {A B : Type 0} (P : E → Type 0) (m : Task W E A) (f : A → Task W E B) (r : Run W E)
      (out : Outcome A × Run W E)
      → m r ≡ out
      → All P out.1.acts
      → ((a : A) (s s' : Run W E) → Returns m s a s' → EachAct P (f a))
      → All P (after f out).1.acts
  each-after P m f r (ok a, s) run h hf = (hf a r s (record { run = run })).each s h
  each-after P m f r (throw e, s) run h hf = h

  -- A chain whose rest is known to follow what its first part returns.
  pub EachAct-then :
      {A B : Type 0} {P : E → Type 0} (m : Task W E A) (f : A → Task W E B)
      → EachAct P m
      → ((a : A) (s s' : Run W E) → Returns m s a s' → EachAct P (f a))
      → EachAct P (m >>= f)
  unfolding ◌>>=◌
  EachAct-then {P} m f h hf = record {
    each = λ r hr. each-after P m f r (m r) refl (h.each r hr) hf;
  }
