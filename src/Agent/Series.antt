-- ===== src/Agent/Series.antt =====
-- fce-ai-agent/typescript/src/app/scoring.ts and classify.ts: the events, and the sums and the sort
-- that both files use.
use xrpl.Prelude.{List, [], ◌∷◌, Option, length, if◌then◌else◌}
use xrpl.Js.Text.{Text}
use xrpl.Js.Number.{Number, of_ℕ, lt, add, sub, mul, div, max_of, min_of}
use xrpl.Matching.OutcomeLog.{Direction}

pub record OutcomeEvent : Type 0 where
  pub lead : Text
  pub timestamp : Number
  pub pnl_bps : Number
  pub direction : Option Direction
  pub size_pct : Option Number

module _ {A : Type 0} (key : A → Number) where
  unfoldable pub insert_by : A → List A → List A
  insert_by x [] = x ∷ []
  insert_by x (y ∷ ys) = if lt (key y) (key x) then y ∷ insert_by x ys else x ∷ y ∷ ys

  -- `sort((a, b) => key(a) - key(b))`, which keeps the order of equal elements
  unfoldable pub sort_by : List A → List A
  sort_by [] = []
  sort_by (x ∷ xs) = insert_by x (sort_by xs)

-- `reduce((a, b) => a + b, start)`
unfoldable pub sum_from : Number → List Number → Number
sum_from acc [] = acc
sum_from acc (x ∷ xs) = sum_from (add acc x) xs

unfoldable pub sum : List Number → Number
sum xs = sum_from (of_ℕ 0) xs

-- `reduce((a, b) => a + (b - mean) ** 2, start)`
unfoldable pub squares_from : Number → Number → List Number → Number
squares_from mean acc [] = acc
squares_from mean acc (x ∷ xs) = squares_from mean (add acc (mul (sub x mean) (sub x mean))) xs

unfoldable pub squares : Number → List Number → Number
squares mean xs = squares_from mean (of_ℕ 0) xs

unfoldable pub mean_of : List Number → Number
mean_of xs = div (sum xs) (of_ℕ (length xs))

-- `Math.max(0, Math.min(1, x))`
unfoldable pub clamp01 : Number → Number
clamp01 x = max_of (of_ℕ 0) (min_of (of_ℕ 1) x)
