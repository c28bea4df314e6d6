-- ===== src/Base/Framework/Dispatch.antt =====
-- types.ts: which handler `lookup` finds after a registration.
use xrpl.Prelude.{◌≡◌, refl, false, ◌&&◌, List, [], ◌∷◌, ◌++◌, none, some, arith, if◌then◌else◌}
use xrpl.Js.Text.{Text, lit, same, starts_with, to_lower_case, to_lower_case_idem, is_empty, lower}
use xrpl.Js.Outcome.{ok}
use xrpl.Base.Encoding.{string_to_bytes32_hex}
use xrpl.Base.Framework.{empty_bytes32, normalize, Entry, handle, find, or_default, lookup}

is_empty-to_lower_case : (s : Text) → is_empty (to_lower_case s) ≡ is_empty s
unfolding is_empty to_lower_case
is_empty-to_lower_case [] = refl
is_empty-to_lower_case (c ∷ s) = refl

module _ {H : Type 0} where
  find-append :
      (t c : Text) (es : List (Entry H)) (e : Entry H)
      → find t c (es ++ e ∷ [])
        ≡ or_default
            (find t c es)
            (if same e.op_type t && same e.op_command c then some e.handler else none)
  unfolding find
  find-append t c [] e = ground arith
  find-append t c (d ∷ es) e = ground (arith, find-append t c es e)

  -- A registration puts one entry, with the bytes32 forms of its identifiers, behind the others.
  handle-inv :
      (op_type op_command t c : Text) (h : H) (es es' : List (Entry H))
      → string_to_bytes32_hex op_type ≡ ok t
      → string_to_bytes32_hex op_command ≡ ok c
      → handle op_type op_command h es ≡ ok es'
      → es' ≡ es ++ record { op_type = t; op_command = c; handler = h } ∷ []
  unfolding handle
  handle-inv op_type op_command t c h es es' et ec e = ground arith

  module _ (op_type op_command t c : Text) (h : H) (es es' : List (Entry H))
      (et : string_to_bytes32_hex op_type ≡ ok t) (ec : string_to_bytes32_hex op_command ≡ ok c)
      (added : handle op_type op_command h es ≡ ok es') where
    find-handle :
        (u v : Text)
        → find u v es' ≡ or_default (find u v es) (if same t u && same c v then some h else none)
    find-handle u v =
        rw (handle-inv op_type op_command t c h es es' et ec added) (find-append u v es _)

    -- After a registration `lookup` takes the first of these that there is: the handler that had
    -- exactly these identifiers before; the new handler, if they are its own; the handler that
    -- answered every other command of the operation type before; the new handler, if it is
    -- registered for the type with the empty command.
    pub lookup-handle :
        (a b : Text)
        → lookup a b es'
          ≡ or_default (find (normalize a) (normalize b) es) (
              or_default (if same t (normalize a) && same c (normalize b) then some h else none) (
                or_default
                  (find (normalize a) empty_bytes32 es)
                  (if same t (normalize a) && same c empty_bytes32 then some h else none)))
    unfolding lookup
    lookup-handle a b =
        let exact = find-handle (normalize a) (normalize b) in
        let wild = find-handle (normalize a) empty_bytes32 in grind (arith, exact, wild)

normalize_lower : (a : Text) → normalize (to_lower_case a) ≡ normalize a
unfolding normalize
normalize_lower a = rw to_lower_case_idem (rw (is_empty-to_lower_case a) refl)

normalize_prefix :
    (a : Text)
    → is_empty a ≡ false
    → starts_with (lit "0x") (to_lower_case a) ≡ false
    → normalize (lit "0x" ++ a) ≡ normalize a
unfolding normalize starts_with is_empty to_lower_case lower
normalize_prefix a p q = ground arith

-- The case of letters does not matter to `lookup`, nor does a missing `0x` before an operation type
-- that is not empty.
pub lookup_same :
    {H : Type 0} (a c : Text) (es : List (Entry H))
    → is_empty a ≡ false
    → starts_with (lit "0x") (to_lower_case a) ≡ false
    → (lookup (to_lower_case a) (to_lower_case c) es ≡ lookup a c es)
      × (lookup (lit "0x" ++ a) c es ≡ lookup a c es)
unfolding lookup
lookup_same a c es p q =
    (rw (normalize_lower, normalize_lower) refl, rw (normalize_prefix a p q) refl)
