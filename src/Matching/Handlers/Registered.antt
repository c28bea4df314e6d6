-- ===== src/Matching/Handlers/Registered.antt =====
-- handlers.ts: which handler answers which operation.
use xrpl.Prelude.{◌≡◌, refl, [], ◌∷◌, false, List, Option, none, some, arith, if◌then◌else◌}
use xrpl.Js.Text.{Text, lit, same, same_iff}
use xrpl.Js.Outcome.{ok}
use xrpl.Js.Utf8.{encode}
use xrpl.Base.Encoding.{string_to_bytes32_hex, bytes_to_hex, hex_pairs, hex_digit}
use xrpl.Base.Framework.{Entry, handle, find, lookup, normalize, empty_bytes32, or_default}
use xrpl.Base.Server.{Handler}
use xrpl.Matching.Host.{Host}
use xrpl.Matching.Handlers.{
  State, register, handle_say_hello, handle_say_goodbye, handle_mirror_match, handle_mirror_top_up,
  op_type_greeting, op_type_mirror, op_command_say_hello, op_command_say_goodbye,
  op_command_match_v1, op_command_topup_v1,
}

-- The identifiers as they come on the wire.
unfoldable pub greeting_id : Text
greeting_id = lit "0x4752454554494e47000000000000000000000000000000000000000000000000"

unfoldable pub say_hello_id : Text
say_hello_id = lit "0x5341595f48454c4c4f0000000000000000000000000000000000000000000000"

unfoldable pub say_goodbye_id : Text
say_goodbye_id = lit "0x5341595f474f4f44425945000000000000000000000000000000000000000000"

unfoldable pub mirror_id : Text
mirror_id = lit "0x4d4952524f520000000000000000000000000000000000000000000000000000"

unfoldable pub match_v1_id : Text
match_v1_id = lit "0x4d415443485f5631000000000000000000000000000000000000000000000000"

unfoldable pub topup_v1_id : Text
topup_v1_id = lit "0x544f5055505f5631000000000000000000000000000000000000000000000000"

-- The entries of the registry, in the order of registration.
abbrev pub entries_of : Host → List (Entry (Handler State))
entries_of h =
    record { op_type = greeting_id; op_command = say_hello_id; handler = handle_say_hello h }
    ∷ record { op_type = greeting_id; op_command = say_goodbye_id; handler = handle_say_goodbye h }
    ∷ record { op_type = mirror_id; op_command = match_v1_id; handler = handle_mirror_match h }
    ∷ record { op_type = mirror_id; op_command = topup_v1_id; handler = handle_mirror_top_up h }
    ∷ []

register-ok : (h : Host) → register h [] ≡ ok (entries_of h)
unfolding register handle string_to_bytes32_hex op_type_greeting op_type_mirror op_command_say_hello
    op_command_say_goodbye op_command_match_v1 op_command_topup_v1 greeting_id say_hello_id
    say_goodbye_id mirror_id match_v1_id topup_v1_id encode bytes_to_hex hex_pairs hex_digit
register-ok h = refl

-- The handler of a pair of normalized identifiers.
unfoldable pub answered_by : Host → Text → Text → Option (Handler State)
answered_by h t c =
    if same greeting_id t
    then if same say_hello_id c
      then some (handle_say_hello h)
      else if same say_goodbye_id c
      then some (handle_say_goodbye h)
      else none
    else if same mirror_id t
    then if same match_v1_id c
      then some (handle_mirror_match h)
      else if same topup_v1_id c
      then some (handle_mirror_top_up h)
      else none
    else none

greeting-ne-mirror : same greeting_id mirror_id ≡ false
unfolding greeting_id mirror_id same
greeting-ne-mirror = refl

find-entries_of : (h : Host) (t c : Text) → find t c (entries_of h) ≡ answered_by h t c
unfolding find answered_by
find-entries_of h t c = ground (
  arith,
  same_iff greeting_id t,
  same_iff mirror_id t,
  same_iff greeting_id mirror_id,
  greeting-ne-mirror,
)

no_default : (h : Host) (t : Text) → answered_by h t empty_bytes32 ≡ none
unfolding answered_by same empty_bytes32 say_hello_id say_goodbye_id match_v1_id topup_v1_id
no_default h t = ground arith

or_default-none : {H : Type 0} (o : Option H) → or_default o none ≡ o
or_default-none none = refl
or_default-none (some h) = refl

-- The registration succeeds, and what it leaves answers by the identifiers alone: the greeting type
-- has the handlers of SAY_HELLO and SAY_GOODBYE, the mirror type those of MATCH_V1 and TOPUP_V1, and
-- every other pair of identifiers has none.
pub register-lookup :
    (h : Host)
    → (entries : List (Entry (Handler State))) × (register h [] ≡ ok entries)
      × ((t c : Text) → lookup t c entries ≡ answered_by h (normalize t) (normalize c))
unfolding lookup
register-lookup h = (
  entries_of h,
  register-ok h,
  λ t c.
      rw
        (
          find-entries_of h (normalize t) (normalize c),
          find-entries_of h (normalize t) empty_bytes32,
          no_default h (normalize t),
        )
        (or_default-none (answered_by h (normalize t) (normalize c))),
)
