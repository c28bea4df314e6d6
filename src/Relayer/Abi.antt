-- ===== src/Relayer/Abi.antt =====
-- scripts/relayer: values as the ABI decoders of viem and ethers give them, and what the source makes
-- of them (pick, asHex, asBig, `BigInt`, `Number` and `Boolean`). `none` is `undefined`.
use xrpl.Prelude.{
  ℕ, zero, suc, Bool, true, false, not, ◌&&◌, [], ◌∷◌, ◌++◌, Option, none, some, if◌then◌else◌,
  get_elem?,
}
use xrpl.Js.Text.{Text, lit, same, is_empty, starts_with}
use xrpl.Js.Number.{Number, nan, of_ℕ, is_nan, eq}
use xrpl.Js.Number.Show.{number_text}
use xrpl.Js.Number.Read.{to_number}
use xrpl.Js.BigInt.{ℤ, pos, big_int, big_int_of_text, big_text, number_of, is_zero}
use xrpl.Js.Outcome.{Outcome, ok, throw, bad_access}

-- The members of a struct have names, positions or both: a tuple with names that viem decodes has
-- names only, an array has positions only, and a result of ethers has both.
mutual
  pub data Value : Type 0 where
    null : Value
    text : Text → Value
    word : ℤ → Value
    number : Number → Value
    flag : Bool → Value
    struct : Bool → Members → Value

  pub data Members : Type 0 where
    done : Members
    member : Option Text → Value → Members → Members

abbrev is_named : Text → Option Text → Bool
is_named key none = false
is_named key (some name) = same name key

unfoldable pub by_name : Text → Members → Option Value
by_name key done = none
by_name key (member name v ms) =
    let rest = by_name key ms in if is_named key name then some v else rest

unfoldable pub by_position : ℕ → Members → Option Value
by_position i done = none
by_position zero (member name v ms) = some v
by_position (suc i) (member name v ms) = by_position i ms

-- `v[key]` and `v[i]`, of a value that is neither `null` nor `undefined`
unfoldable pub named : Text → Value → Option Value
unfolding by_name
named key (struct positional ms) = by_name key ms
named key _ = none

abbrev one_unit : Option ℕ → Option Value
one_unit none = none
one_unit (some c) = some (text (c ∷ []))

unfoldable pub position : ℕ → Value → Option Value
unfolding by_position
position i (struct true ms) = by_position i ms
position i (struct false ms) = none
position i (text s) = one_unit (get_elem? s i)
position i null = none
position i (word _) = none
position i (number _) = none
position i (flag _) = none

-- `pick`
unfoldable pub pick : Option Value → Text → ℕ → Option Value
unfolding named position
pick none key i = none
pick (some v) key i = elim (named key v) [ some w ↦ some w | none ↦ position i v ]

-- `a ?? b`
abbrev pub or_value : Option Value → Value → Value
or_value none other = other
or_value (some null) other = other
or_value (some v) other = v

-- The text of a value: `String(v)` in a list, where `null` is empty.
mutual
  item_text : Value → Text
  item_text null = []
  item_text (text s) = s
  item_text (word n) = big_text n
  item_text (number x) = number_text x
  item_text (flag b) = if b then lit "true" else lit "false"
  item_text (struct positional ms) =
      let joined = joined_text ms in if positional then joined else lit "[object Object]"

  joined_text : Members → Text
  joined_text done = []
  joined_text (member name v done) = item_text v
  joined_text (member name v (member name' v' ms)) =
      item_text v ++ b',' ∷ joined_text (member name' v' ms)

-- `BigInt(v)`
unfoldable pub to_big : Value → Outcome ℤ
unfolding item_text
to_big null = throw bad_access
to_big (text s) = big_int_of_text s
to_big (word n) = ok n
to_big (number x) = big_int x
to_big (flag b) = ok (pos (if b then 1 else 0))
to_big (struct positional ms) = big_int_of_text (item_text (struct positional ms))

-- `Number(v)`
unfoldable pub to_num : Option Value → Number
unfolding item_text
to_num none = nan
to_num (some null) = of_ℕ 0
to_num (some (text s)) = to_number s
to_num (some (word n)) = number_of n
to_num (some (number x)) = x
to_num (some (flag b)) = of_ℕ (if b then 1 else 0)
to_num (some (struct positional ms)) = to_number (item_text (struct positional ms))

-- `Boolean(v)`
unfoldable pub to_bool : Option Value → Bool
to_bool none = false
to_bool (some null) = false
to_bool (some (text s)) = not (is_empty s)
to_bool (some (word n)) = not (is_zero n)
to_bool (some (number x)) = not (is_nan x) && not (eq x (of_ℕ 0))
to_bool (some (flag b)) = b
to_bool (some (struct _ _)) = true

-- `asHex`, with its fallback
unfoldable pub as_hex : Option Value → Text
as_hex (some (text s)) = if starts_with (lit "0x") s then s else lit "0x" ++ s
as_hex _ = lit "0x"

-- `asBig`
unfoldable pub as_big : Option Value → Outcome ℤ
as_big (some (word n)) = ok n
as_big (some (number x)) = big_int x
as_big (some (text s)) = big_int_of_text s
as_big _ = ok (pos 0)

-- How a decoder gives a tuple: with names, with positions, or with both.
pub data Shape : Type 0 where
  names : Shape
  positions : Shape
  both : Shape

abbrev pub name_in : Shape → Text → Option Text
name_in names key = some key
name_in positions key = none
name_in both key = some key

abbrev pub has_positions : Shape → Bool
has_positions names = false
has_positions positions = true
has_positions both = true
