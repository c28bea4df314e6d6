-- ===== src/Js/Number/Show.antt =====
-- The decimal text of a number, `String(x)`.
use xrpl.Prelude.{
  not, ℕ, zero, suc, ◌+◌, ◌-◌, ◌*◌, ◌/◌, ◌%◌, ◌^◌, ◌||◌, ◌&&◌, [], ◌∷◌, ◌++◌, leb, ltb, ◌==◌,
  if◌then◌else◌, replicate, take, drop, true, false,
}
use xrpl.Js.Text.{Text, lit}
use xrpl.Js.Number.{Number, nan, infinite, finite, round, eq}

-- The digits of `n` in front of `out`; the first argument bounds their number.
digits_in : ℕ → ℕ → Text → Text
digits_in zero n out = out
digits_in (suc f) n out =
    let longer = digits_in f (n / 10) ((b'0' + n % 10) ∷ out) in if n == 0 then out else longer

unfoldable pub decimal : ℕ → Text
unfolding digits_in
decimal n = if n == 0 then b'0' ∷ [] else digits_in n n []

-- The number of decimal digits of `n`.
width_in : ℕ → ℕ → ℕ
width_in zero n = 0
width_in (suc f) n = elim (n == 0) [ true ↦ 0 | false ↦ suc (width_in f (n / 10)) ]

-- How many zeros stand behind the point of num / den, which is less than 1.
zeros_in : ℕ → ℕ → ℕ → ℕ
zeros_in zero num den = 0
zeros_in (suc f) num den = elim (leb den (num * 10)) [
  | true ↦ 0
  | false ↦ suc (zeros_in f (num * 10) den)
]

-- 0.digits * 10 ^ point / 10 ^ zeros, where `digits` has `count` digits.
record Shortest : Type 0 where
  digits : ℕ
  count : ℕ
  point : ℕ
  zeros : ℕ

nearest : ℕ → ℕ → ℕ
nearest num den = if leb den (2 * (num % den)) then num / den + 1 else num / den

-- `count` digits of num / den.
candidate : ℕ → ℕ → ℕ → ℕ → ℕ → Shortest
unfolding nearest
candidate num den point zeros count =
    let s = nearest (num * 10 ^ (count + zeros)) (den * 10 ^ point) in
    if s == 10 ^ count
    then record {
      digits = 10 ^ (count - 1);
      count = count;
      point = if ltb 0 zeros then point else point + 1;
      zeros = zeros - 1;
    }
    else record { digits = s; count = count; point = point; zeros = zeros }

-- The fewest digits, seventeen at most, that read back as the same number.
shortest_in : ℕ → Number → ℕ → ℕ → ℕ → ℕ → ℕ → Shortest
unfolding candidate
shortest_in zero x num den point zeros count = candidate num den point zeros count
shortest_in (suc f) x num den point zeros count =
    let c = candidate num den point zeros count in
    let longer = shortest_in f x num den point zeros (count + 1) in
    if eq (round false (c.digits * 10 ^ c.point) (10 ^ (c.count + c.zeros))) x then c else longer

scientific : Text → Text → Text
scientific [] e = e
scientific (d ∷ []) e = d ∷ e
scientific (d ∷ c ∷ ds) e = d ∷ b'.' ∷ c ∷ ds ++ e

-- Digits, with the point or the exponent where `Number.prototype.toString` puts them.
layout : Shortest → Text
unfolding decimal scientific
layout r =
    let ds = decimal r.digits in
    if ltb 0 r.zeros || r.point == 0
    then if leb r.zeros 5
      then lit "0." ++ replicate r.zeros b'0' ++ ds
      else scientific ds (lit "e-" ++ decimal (r.zeros + 1))
    else if leb r.count r.point && leb r.point 21
    then ds ++ replicate (r.point - r.count) b'0'
    else if leb r.point 21
    then take r.point ds ++ b'.' ∷ drop r.point ds
    else scientific ds (lit "e+" ++ decimal (r.point - 1))

-- `String(x)` of a positive number, num / 2 ^ scale
positive : ℕ → ℕ → Text
unfolding layout width_in zeros_in shortest_in eq
positive num scale =
    let whole = num / 2 ^ scale in
    let point = width_in whole whole in
    let zeros = if whole == 0 then zeros_in scale num (2 ^ scale) else 0 in
    layout (shortest_in 16 (finite false num scale) num (2 ^ scale) point zeros 1)

unfoldable pub number_text : Number → Text
unfolding positive
number_text nan = lit "NaN"
number_text (infinite n) = if n then lit "-Infinity" else lit "Infinity"
number_text (finite n num scale) =
    if num == 0 then lit "0" else (if n then b'-' ∷ [] else []) ++ positive num scale

-- `x.toFixed(2)` of a number below 10 ^ 21: the nearest hundredth, the greater of two
unfoldable pub to_fixed2 : Number → Text
unfolding decimal
to_fixed2 nan = lit "NaN"
to_fixed2 (infinite n) = if n then lit "-Infinity" else lit "Infinity"
to_fixed2 (finite n a s) =
    let hundredths = (a * 200 + 2 ^ s) / 2 ^ (s + 1) in
    let text =
      decimal (hundredths / 100)
      ++ b'.' ∷ (b'0' + hundredths % 100 / 10) ∷ (b'0' + hundredths % 10) ∷ [] in
    if n && not (hundredths == 0) then b'-' ∷ text else text
