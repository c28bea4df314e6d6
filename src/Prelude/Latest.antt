-- ===== src/Prelude/Latest.antt =====
-- `Array.prototype.slice(-n)` of a list that grows at its end.
use Prim.Native.Nat.{ℕ, zero, suc, ◌+◌, ◌-◌, ◌≤◌}
use mathlib.Core.Path.{◌≡◌, refl, sym, ap, ◌∙◌}
use mathlib.Core.List.{List, [], ◌∷◌, ◌++◌}
use native.Mathlib.Omega.{arith}
use xrpl.Prelude.Lists.{length, drop, length-append, length-drop}

module _ {ℓ} {A : Type ℓ} where
  -- The last `n` elements.
  abbrev pub latest : ℕ → List A → List A
  latest n xs = drop (length xs - n) xs

  drop-append : (n : ℕ) (xs ys : List A) → n ≤ length xs → drop n (xs ++ ys) ≡ drop n xs ++ ys
  drop-append zero xs ys h = refl
  drop-append (suc n) [] ys h = absurd (omega arith)
  drop-append (suc n) (x ∷ xs) ys h = drop-append n xs ys (omega arith)

  drop-nil : (n : ℕ) → drop {A = A} n [] ≡ []
  drop-nil zero = refl
  drop-nil (suc n) = refl

  drop-drop : (m n : ℕ) (xs : List A) → drop m (drop n xs) ≡ drop (n + m) xs
  drop-drop m zero xs = ap (λ k. drop k xs) (omega arith)
  drop-drop m (suc n) [] = drop-nil m ∙ sym (drop-nil (suc n + m))
  drop-drop m (suc n) (x ∷ xs) =
      let e : suc n + m ≡ suc (n + m) = omega arith in rw e (drop-drop m n xs)

  -- What is behind the last `n` does not matter to the last `n` of a longer list.
  pub latest-push :
      (n : ℕ) (x : A) (xs : List A) → latest n (latest n xs ++ x ∷ []) ≡ latest n (xs ++ x ∷ [])
  latest-push n x xs =
      let d = length xs - n in
      let pushed = xs ++ x ∷ [] in
      let moved : drop d xs ++ x ∷ [] ≡ drop d pushed =
        sym (drop-append d xs (x ∷ []) (omega arith)) in
      let count : d + (length (drop d pushed) - n) ≡ length pushed - n =
        omega (arith, length-drop d pushed, length-append xs (x ∷ [])) in
      ap (latest n) moved
      ∙ drop-drop (length (drop d pushed) - n) d pushed
      ∙ ap (λ k. drop k pushed) count
