-- ===== src/Js/Json.antt =====
-- JSON values, as `JSON.parse` builds them, with the readings that the source makes of them.
pub mod Parse
pub mod Print
pub mod Coerce
use xrpl.Prelude.{ℕ, Bool, true, false, not, List, [], ◌∷◌, map, Option, none, some, if◌then◌else◌}
use xrpl.Js.Text.{Text, same}
use xrpl.Js.Number.{Number}

-- The fields of an object stand in the order of the text. A key that the text repeats is listed
-- twice, and the later value counts.
mutual
  pub data Json : Type 0 where
    null : Json
    bool : Bool → Json
    num : Number → Json
    str : Text → Json
    arr : Items → Json
    obj : Fields → Json

  pub data Items : Type 0 where
    nil : Items
    cons : Json → Items → Items

  pub data Fields : Type 0 where
    end : Fields
    field : Text → Json → Fields → Fields

abbrev pub items : Items → List Json
items nil = []
items (cons v vs) = v ∷ items vs

abbrev pub from_list : List Json → Items
from_list [] = nil
from_list (v ∷ vs) = cons v (from_list vs)

-- `o[key]`; `none` is `undefined`.
unfoldable pub lookup : Text → Fields → Option Json
lookup key end = none
lookup key (field k v fs) = elim (lookup key fs) [
  | some w ↦ some w
  | none ↦ if same k key then some v else none
]

-- `Object.keys`
unfoldable pub keys : Fields → List Text
keys end = []
keys (field k v fs) = k ∷ keys fs

-- A property of a value that is neither `null` nor `undefined`; of these, only an object has
-- properties with the names that the source reads.
unfoldable pub property : Text → Json → Option Json
unfolding lookup
property key (obj fs) = lookup key fs
property key null = none
property key (bool _) = none
property key (num _) = none
property key (str _) = none
property key (arr _) = none

abbrev pub is_null : Json → Bool
is_null null = true
is_null (bool _) = false
is_null (num _) = false
is_null (str _) = false
is_null (arr _) = false
is_null (obj _) = false

-- `typeof v === "object"`, `null` included
abbrev pub is_object : Json → Bool
is_object null = true
is_object (bool _) = false
is_object (num _) = false
is_object (str _) = false
is_object (arr _) = true
is_object (obj _) = true

-- `typeof v === "string" ? v : none`, and so on.
abbrev pub as_text : Option Json → Option Text
as_text (some (str s)) = some s
as_text _ = none

abbrev pub as_number : Option Json → Option Number
as_number (some (num x)) = some x
as_number _ = none

-- `Array.isArray(v) ? v : null`
abbrev pub as_list : Option Json → Option (List Json)
as_list (some (arr vs)) = some (items vs)
as_list _ = none

-- `a ?? b`: `null` and `undefined` give way.
abbrev pub or_else : Option Json → Option Json → Option Json
or_else none other = other
or_else (some null) other = other
or_else (some (bool b)) other = some (bool b)
or_else (some (num x)) other = some (num x)
or_else (some (str s)) other = some (str s)
or_else (some (arr vs)) other = some (arr vs)
or_else (some (obj fs)) other = some (obj fs)
