-- ===== src/Js/Number.antt =====
-- JavaScript numbers: the doubles, as the exact values that they stand for. -0 and +0 are one
-- value, since nothing in the source tells them apart.
pub mod Show
pub mod Read
use xrpl.Prelude.{
  ℕ, zero, suc, ◌+◌, ◌-◌, ◌*◌, ◌/◌, ◌%◌, ◌^◌, min, Bool, true, false, not, ◌&&◌, ◌||◌, ltb, leb,
  ◌==◌, if◌then◌else◌,
}

-- `finite neg num scale` is num / 2 ^ scale, negated where `neg` holds.
pub data Number : Type 0 where
  nan : Number
  infinite : Bool → Number
  finite : Bool → ℕ → ℕ → Number

-- The number of binary digits; the first argument bounds the rounds, and `n` of them suffice.
bits_in : ℕ → ℕ → ℕ
bits_in zero n = 0
bits_in (suc f) n = elim (n == 0) [ true ↦ 0 | false ↦ suc (bits_in f (n / 2)) ]

bits : ℕ → ℕ
unfolding bits_in
bits n = bits_in n n

-- num / den to the nearest whole number, ties to even
half_even : ℕ → ℕ → ℕ
half_even num den =
    let q = num / den in
    let r = num % den in if ltb den (2 * r) || ((2 * r == den) && (q % 2 == 1)) then q + 1 else q

overflowing : Bool → ℕ → ℕ → Number
overflowing neg num scale =
    if leb (2 ^ (1024 + scale)) num then Number.infinite neg else finite neg num scale

-- num * 2 ^ up / (den * 2 ^ down) keeps 53 binary digits, or one more.
round_at : Bool → ℕ → ℕ → ℕ → ℕ → Number
unfolding half_even overflowing
round_at neg num den up down =
    overflowing neg (half_even (num * 2 ^ up) (den * 2 ^ down) * 2 ^ down) up

-- The double nearest to num / den, ties to even, subnormal numbers included.
unfoldable pub round : Bool → ℕ → ℕ → Number
unfolding bits round_at
round neg num den =
    let up = 53 + bits den - bits num in
    let down = bits num - (53 + bits den) in
    let wide = leb (den * 2 ^ down * 2 ^ 53) (num * 2 ^ up) in
    if wide && ltb 0 up
    then round_at neg num den (min (up - 1) 1074) 0
    else if wide
    then round_at neg num den 0 (down + 1)
    else round_at neg num den (min up 1074) down

abbrev pub of_ℕ : ℕ → Number
of_ℕ n = finite false n 0

-- The two sides of a signed value.
abbrev above : Bool → ℕ → ℕ
above neg n = if neg then 0 else n

abbrev below : Bool → ℕ → ℕ
below neg n = if neg then n else 0

-- `x < y`
unfoldable pub lt : Number → Number → Bool
lt nan y = false
lt (infinite n) nan = false
lt (infinite n) (infinite m) = n && not m
lt (infinite n) (finite m b t) = n
lt (finite n a s) nan = false
lt (finite n a s) (infinite m) = not m
lt (finite n a s) (finite m b t) =
    ltb (above n a * 2 ^ t + below m b * 2 ^ s) (above m b * 2 ^ s + below n a * 2 ^ t)

unfoldable pub is_nan : Number → Bool
is_nan nan = true
is_nan (infinite _) = false
is_nan (finite _ _ _) = false

-- `x <= y`
unfoldable pub le : Number → Number → Bool
unfolding lt is_nan
le x y = not (is_nan x) && not (is_nan y) && not (lt y x)

-- `x === y`
unfoldable pub eq : Number → Number → Bool
unfolding le
eq x y = le x y && le y x

-- `Number.isFinite`
unfoldable pub is_finite : Number → Bool
is_finite nan = false
is_finite (infinite _) = false
is_finite (finite _ _ _) = true

unfoldable pub neg : Number → Number
neg nan = nan
neg (infinite n) = infinite (not n)
neg (finite n a s) = finite (not n) a s

unfoldable pub abs : Number → Number
abs nan = nan
abs (infinite n) = infinite false
abs (finite n a s) = finite false a s

-- A sum of two signed values over one scale.
sum_over : ℕ → ℕ → ℕ → Number
unfolding round
sum_over up down scale =
    if leb down up then round false (up - down) (2 ^ scale) else round true (down - up) (2 ^ scale)

unfoldable pub add : Number → Number → Number
unfolding sum_over
add nan y = nan
add (infinite n) nan = nan
add (infinite n) (infinite m) = if n && not m || (m && not n) then nan else infinite n
add (infinite n) (finite _ _ _) = infinite n
add (finite _ _ _) nan = nan
add (finite _ _ _) (infinite m) = infinite m
add (finite n a s) (finite m b t) =
    sum_over (above n a * 2 ^ t + above m b * 2 ^ s) (below n a * 2 ^ t + below m b * 2 ^ s) (s + t)

unfoldable pub sub : Number → Number → Number
unfolding add neg
sub x y = add x (neg y)

xor : Bool → Bool → Bool
xor true b = not b
xor false b = b

unfoldable pub mul : Number → Number → Number
unfolding xor round
mul nan y = nan
mul (infinite n) nan = nan
mul (infinite n) (infinite m) = infinite (xor n m)
mul (infinite n) (finite m b t) = if b == 0 then nan else infinite (xor n m)
mul (finite n a s) nan = nan
mul (finite n a s) (infinite m) = if a == 0 then nan else infinite (xor n m)
mul (finite n a s) (finite m b t) = round (xor n m) (a * b) (2 ^ (s + t))

unfoldable pub div : Number → Number → Number
unfolding xor round
div nan y = nan
div (infinite n) nan = nan
div (infinite n) (infinite m) = nan
div (infinite n) (finite m b t) = infinite (xor n m)
div (finite n a s) nan = nan
div (finite n a s) (infinite m) = of_ℕ 0
div (finite n a s) (finite m b t) =
    if b == 0
    then if a == 0 then nan else infinite (xor n m)
    else round (xor n m) (a * 2 ^ t) (b * 2 ^ s)

-- The whole part of a square root: a binary digit for each two of the argument.
root_in : ℕ → ℕ → ℕ
root_in zero n = 0
root_in (suc f) n = elim (n == 0) [
  | true ↦ 0
  | false ↦ let r = 2 * root_in f (n / 4) in if leb ((r + 1) * (r + 1)) n then r + 1 else r
]

-- Sixty digits of the root and a digit for the rest round like the root itself.
root : ℕ → ℕ → Number
unfolding root_in round
root num half =
    let r = root_in num num in round false (2 * r + (if r * r == num then 0 else 1)) (2 * 2 ^ half)

-- `Math.sqrt`
unfoldable pub sqrt : Number → Number
unfolding root
sqrt nan = nan
sqrt (infinite n) = if n then nan else infinite false
sqrt (finite n a s) =
    if a == 0
    then of_ℕ 0
    else if n
    then nan
    else root (a * 2 ^ (120 + s % 2)) ((s + 120 + s % 2) / 2)

-- `Math.max` and `Math.min` of two numbers
unfoldable pub max_of : Number → Number → Number
unfolding lt is_nan
max_of x y = if is_nan x || is_nan y then nan else if lt x y then y else x

unfoldable pub min_of : Number → Number → Number
unfolding lt is_nan
min_of x y = if is_nan x || is_nan y then nan else if lt y x then y else x

-- `Math.trunc`
unfoldable pub trunc : Number → Number
trunc nan = nan
trunc (infinite n) = infinite n
trunc (finite n a s) = finite n (a / 2 ^ s) 0

-- `Math.round`: the whole number that is nearest, the greater of two.
unfoldable pub round_half_up : Number → Number
round_half_up nan = nan
round_half_up (infinite n) = infinite n
round_half_up (finite n a s) =
    if n
    then finite true ((2 * a + 2 ^ s - 1) / (2 * 2 ^ s)) 0
    else finite false ((2 * a + 2 ^ s) / (2 * 2 ^ s)) 0
