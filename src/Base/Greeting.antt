-- ===== src/Base/Greeting.antt =====
-- fce-matching-engine/typescript/src/app/handlers.ts, the GREETING operations, which the handlers.ts
-- of fce-ai-agent repeats with another welcome.
pub mod Counts
use xrpl.Prelude.{
  ℕ, ◌+◌, Bool, true, false, not, List, [], ◌∷◌, ◌++◌, Option, none, some, filter, if◌then◌else◌,
}
use xrpl.Js.Text.{Text, lit, same, text_leb, is_empty}
use xrpl.Js.Number.{of_ℕ}
use xrpl.Js.Utf8.{encode, decode}
use xrpl.Js.Outcome.{Outcome, ok, throw, bad_json, or_throw}
use xrpl.Js.Json.{Json, null, bool, num, str, arr, obj, Fields, end, field, lookup, keys, as_text}
use xrpl.Js.Json.Parse.{parse}
use xrpl.Js.Json.Print.{stringify}
use xrpl.Base.Encoding.{bytes_to_hex}
use xrpl.Base.Framework.{HandlerResult, refuse, refuse_with, respond}
use xrpl.Base.Flow.{Flow, next, stop, fail, ◌>>=◌, ◌>>◌, require, return_if, or_return, attempt}
use xrpl.Base.Server.{hex_of_json}

-- The state of the greeting operations.
pub record Counters : Type 0 where
  pub greeting_count : ℕ
  pub last_greeting : Text
  pub farewell_count : ℕ
  pub last_farewell : Text

-- `resetState`
abbrev pub no_greetings : Counters
no_greetings = record {
  greeting_count = 0;
  last_greeting = [];
  farewell_count = 0;
  last_farewell = [];
}

-- `bytesToHex(Buffer.from(JSON.stringify(v), "utf-8"))`
unfoldable pub hex_json : Json → Text
hex_json v = bytes_to_hex (encode (stringify v))

unfoldable pub insert_sorted : Text → List Text → List Text
insert_sorted k [] = k ∷ []
insert_sorted k (j ∷ ks) = if text_leb k j then k ∷ j ∷ ks else j ∷ insert_sorted k ks

-- `sort` of texts
unfoldable pub sort_texts : List Text → List Text
unfolding insert_sorted
sort_texts [] = []
sort_texts (k ∷ ks) = insert_sorted k (sort_texts ks)

-- The keys that are not `name`, sorted.
unfoldable pub unknown_keys : Fields → List Text
unfolding sort_texts
unknown_keys fs = sort_texts (filter (λ k. not (same k (lit "name"))) (keys fs))

-- An object that is neither `null` nor an array.
abbrev pub as_fields : Json → Option Fields
as_fields null = none
as_fields (bool _) = none
as_fields (num _) = none
as_fields (str _) = none
as_fields (arr _) = none
as_fields (obj fs) = some fs

abbrev pub refuse_unknown : List Text → Flow HandlerResult (Unit {0})
refuse_unknown [] = next tt
refuse_unknown (k ∷ _) = stop (refuse (lit "decoding request: unknown field \"" ++ k ++ lit "\""))

-- Decode and validate: the name, or the refusal.
unfoldable pub hello_name : Json → Flow HandlerResult Text
hello_name msg = do
  raw ← attempt (hex_of_json (some msg)) (refuse_with (lit "decoding request: invalid hex: "))
  req ← attempt (or_throw bad_json (parse (decode raw))) (refuse_with (lit "decoding request: "))
  fields ← or_return (as_fields req) (refuse (lit "decoding request: expected a JSON object"))
  refuse_unknown (unknown_keys fields)
  name ← or_return (as_text (lookup (lit "name") fields)) (refuse (lit "name must not be empty"))
  return_if (is_empty name) (refuse (lit "name must not be empty"))
  next name

-- Execute and respond, with the text that follows the name.
unfoldable pub greet : Text → Text → Counters → HandlerResult × Counters
greet welcome name c =
    let greeting = lit "Hello, " ++ name ++ welcome in
    let count = c.greeting_count + 1 in
    (
      respond (
          hex_json (
            obj (
              field (lit "greeting") (str greeting)
                (field (lit "greetingNumber") (num (of_ℕ count)) end)))),
      record c { greeting_count = count; last_greeting = greeting },
    )

-- A handler's decoding, and what it does with what it decoded.
abbrev pub run :
    {S A : Type 0}
    → Flow HandlerResult A
    → (A → S → HandlerResult × S)
    → S
    → Outcome HandlerResult × S
run (next a) f s = (ok (f a s).0, (f a s).1)
run (stop r) f s = (ok r, s)
run (fail e) f s = (throw e, s)

unfoldable pub say_hello : Text → Json → Counters → Outcome HandlerResult × Counters
say_hello welcome msg c = run (hello_name msg) (greet welcome) c

module _ (decode_goodbye : Text → Outcome (Text × Text)) where
  unfoldable pub goodbye_parts : Json → Flow HandlerResult (Text × Text)
  goodbye_parts msg = do
    raw ← attempt (hex_of_json (some msg)) (refuse_with (lit "decoding request: invalid hex: "))
    parts ← attempt (decode_goodbye (bytes_to_hex raw)) (refuse_with (lit "decoding request: "))
    return_if (is_empty parts.0) (refuse (lit "name must not be empty"))
    next parts

unfoldable pub bid_farewell : Text × Text → Counters → HandlerResult × Counters
bid_farewell parts c =
    let farewell = lit "Goodbye, " ++ parts.0 ++ lit "! Reason: " ++ parts.1 in
    let count = c.farewell_count + 1 in
    (
      respond (
          hex_json (
            obj (
              field (lit "farewell") (str farewell)
                (field (lit "farewellNumber") (num (of_ℕ count)) end)))),
      record c { farewell_count = count; last_farewell = farewell },
    )

unfoldable pub say_goodbye :
    (Text → Outcome (Text × Text)) → Json → Counters → Outcome HandlerResult × Counters
say_goodbye decode_goodbye msg c = run (goodbye_parts decode_goodbye msg) bid_farewell c
