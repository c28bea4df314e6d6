-- ===== src/Base/Greeting/Counts.antt =====
-- handlers.ts: what the GREETING operations accept, and how they count.
use xrpl.Prelude.{
  ◌+◌, ◌≡◌, ◌≢◌, refl, ◌↔◌, ◌⊎◌, inl, inr, Bool, true, false, not, List, [], ◌∷◌, ◌++◌, some, arith,
  ap, filter, all, Option-cases,
}
use xrpl.Js.Text.{Text, lit, same, is_empty}
use xrpl.Js.Number.{of_ℕ}
use xrpl.Js.Utf8.{Bytes, decode}
use xrpl.Js.Outcome.{Outcome, ok, Outcome-cases}
use xrpl.Js.Json.{Json, num, str, obj, Fields, end, field, lookup, keys}
use xrpl.Js.Json.Parse.{parse}
use xrpl.Base.Encoding.{bytes_to_hex}
use xrpl.Base.Framework.{HandlerResult, respond}
use xrpl.Base.Flow.{Flow, next, stop, fail}
use xrpl.Base.Flow.Ends.{Ends, Flow-cases}
use xrpl.Base.Server.{hex_of_json}
use xrpl.Base.Greeting.{
  Counters, hex_json, insert_sorted, sort_texts, unknown_keys, hello_name, greet, say_hello,
  as_fields, run, say_goodbye, goodbye_parts, bid_farewell,
}

insert_sorted-ne-nil : (k : Text) (ks : List Text) → insert_sorted k ks ≢ []
unfolding insert_sorted
insert_sorted-ne-nil k [] = ground arith
insert_sorted-ne-nil k (j ∷ ks) = ground arith

sort_texts-nil : (ks : List Text) → sort_texts ks ≡ [] → ks ≡ []
unfolding sort_texts
sort_texts-nil [] e = refl
sort_texts-nil (k ∷ ks) e = absurd (insert_sorted-ne-nil k (sort_texts ks) e)

filter-not : (p : Text → Bool) (ks : List Text) → filter (λ k. not (p k)) ks ≡ [] → all p ks ≡ true
filter-not p [] e = refl
filter-not p (k ∷ ks) e = ground (arith, filter-not p ks)

filter-not-nil :
    (p : Text → Bool) (ks : List Text) → all p ks ≡ true → filter (λ k. not (p k)) ks ≡ []
filter-not-nil p [] e = refl
filter-not-nil p (k ∷ ks) e = ground (arith, filter-not-nil p ks)

unknown_keys-nil_iff :
    (fs : Fields) → (unknown_keys fs ≡ []) ↔ (all (λ k. same k (lit "name")) (keys fs) ≡ true)
unfolding unknown_keys
unknown_keys-nil_iff fs =
    (λ e. filter-not _ (keys fs) (sort_texts-nil _ e), λ h. rw (filter-not-nil _ (keys fs) h))

-- A message that SAY_HELLO accepts: hex of a JSON object with no key but `name`, a text that is not
-- empty.
pub record IsHello (msg : Json) (name : Text) : Type 0 where
  pub bytes : Bytes
  pub fields : Fields
  pub hex : hex_of_json (some msg) ≡ ok bytes
  pub parsed : parse (decode bytes) ≡ some (obj fields)
  pub only_name : all (λ k. same k (lit "name")) (keys fields) ≡ true
  pub named : lookup (lit "name") fields ≡ some (str name)
  pub not_empty : is_empty name ≡ false

as_fields-obj : (v : Json) (fs : Fields) → as_fields v ≡ some fs → v ≡ obj fs
as_fields-obj v fs e = ground arith

hello_name_sound : (msg : Json) (name : Text) → hello_name msg ≡ next name → IsHello msg name
unfolding hello_name
hello_name_sound msg name e = elim (Outcome-cases (hex_of_json (some msg))) [
  | inr (x, bad) ↦ absurd (ground arith)
  | inl (bytes, hex) ↦ elim (Option-cases (parse (decode bytes))) [
    | inl bad ↦ absurd (ground arith)
    | inr (req, parsed) ↦ elim (Option-cases (as_fields req)) [
      | inl bad ↦ absurd (ground arith)
      | inr (fields, is_obj) ↦ record {
        bytes = bytes;
        fields = fields;
        hex = hex;
        parsed = rw parsed (ap some (as_fields-obj req fields is_obj));
        only_name = (unknown_keys-nil_iff fields).0 (ground arith);
        named = ground arith;
        not_empty = ground arith;
      }
    ]
  ]
]

hello_name_complete : (msg : Json) (name : Text) → IsHello msg name → hello_name msg ≡ next name
unfolding hello_name
hello_name_complete msg name h =
    rw (h.hex, h.parsed, (unknown_keys-nil_iff h.fields).1 h.only_name, h.named, h.not_empty)

abbrev IsFailure : HandlerResult → Type 0
IsFailure r = r.status ≡ 0

hello_name-Ends : (msg : Json) → Ends IsFailure (λ e. ⊥) (hello_name msg)
unfolding hello_name
hello_name-Ends msg = ground arith

-- A flow that ends early, without a throw, ends the handler with its result.
run_stopped :
    {S A : Type 0} (m : Flow HandlerResult A) (f : A → S → HandlerResult × S) (s : S)
    → Ends IsFailure (λ e. ⊥) m
    → ((a : A) → m ≢ next a)
    → (r : HandlerResult) × (run m f s ≡ (ok r, s)) × (r.status ≡ 0)
run_stopped (next a) f s p h = absurd (h a refl)
run_stopped (stop r) f s p h = (r, refl, p)
run_stopped (fail e) f s p h = absurd p

-- SAY_HELLO never throws. Either the message is one that it accepts, and it greets, counts and answers
-- with the new count; or it is not, and is refused with status 0 and changes nothing.
pub say_hello_lem :
    (welcome : Text) (msg : Json) (c : Counters)
    → ((name : Text) × IsHello msg name
        × (let n = c.greeting_count + 1 in
            let greeting = lit "Hello, " ++ name ++ welcome in
            say_hello welcome msg c ≡ (
              ok (
                  respond (
                    hex_json (
                      obj (
                        field
                          (lit "greeting")
                          (str greeting)
                          (field (lit "greetingNumber") (num (of_ℕ n)) end))))),
              record c { greeting_count = n; last_greeting = greeting },
            )))
      ⊎ (((name : Text) → ¬ IsHello msg name)
          × ((r : HandlerResult) × (say_hello welcome msg c ≡ (ok r, c)) × (r.status ≡ 0)))
unfolding say_hello greet
say_hello_lem welcome msg c = elim (Flow-cases (hello_name msg)) [
  | inl (name, found) ↦ inl (name, hello_name_sound msg name found, rw found)
  | inr none_next ↦ inr (
    λ name h. none_next name (hello_name_complete msg name h),
    run_stopped (hello_name msg) (greet welcome) c (hello_name-Ends msg) none_next,
  )
]

-- A message that SAY_GOODBYE accepts: hex, whose bytes the ABI decoder reads as a name, which is not
-- empty, and a reason.
pub record IsGoodbye (decode_goodbye : Text → Outcome (Text × Text)) (msg : Json)
    (parts : Text × Text) : Type 0 where
  pub bytes : Bytes
  pub hex : hex_of_json (some msg) ≡ ok bytes
  pub decoded : decode_goodbye (bytes_to_hex bytes) ≡ ok parts
  pub not_empty : is_empty parts.0 ≡ false

module _ (decode_goodbye : Text → Outcome (Text × Text)) (msg : Json) where
  goodbye_parts_sound :
      (parts : Text × Text)
      → goodbye_parts decode_goodbye msg ≡ next parts
      → IsGoodbye decode_goodbye msg parts
  unfolding goodbye_parts
  goodbye_parts_sound parts e = elim (Outcome-cases (hex_of_json (some msg))) [
    | inr (x, bad) ↦ absurd (ground arith)
    | inl (bytes, hex) ↦ elim (Outcome-cases (decode_goodbye (bytes_to_hex bytes))) [
      | inr (x, bad) ↦ absurd (ground arith)
      | inl (found, decoded) ↦
          let same : found ≡ parts = ground arith in
          record {
            bytes = bytes;
            hex = hex;
            decoded = rw (← same) decoded;
            not_empty = ground arith;
          }
    ]
  ]

  goodbye_parts_complete :
      (parts : Text × Text)
      → IsGoodbye decode_goodbye msg parts
      → goodbye_parts decode_goodbye msg ≡ next parts
  unfolding goodbye_parts
  goodbye_parts_complete parts h = rw (h.hex, h.decoded, h.not_empty)

  goodbye_parts-Ends : Ends IsFailure (λ e. ⊥) (goodbye_parts decode_goodbye msg)
  unfolding goodbye_parts
  goodbye_parts-Ends = ground arith

  -- SAY_GOODBYE never throws. Either the message is one that it accepts, and it counts, keeps the
  -- farewell and answers with the new count; or it is not, and is refused with status 0 and changes
  -- nothing.
  pub say_goodbye_lem :
      (c : Counters)
      → ((parts : Text × Text) × IsGoodbye decode_goodbye msg parts
          × (let n = c.farewell_count + 1 in
              let farewell = lit "Goodbye, " ++ parts.0 ++ lit "! Reason: " ++ parts.1 in
              say_goodbye decode_goodbye msg c ≡ (
                ok (
                    respond (
                      hex_json (
                        obj (
                          field
                            (lit "farewell")
                            (str farewell)
                            (field (lit "farewellNumber") (num (of_ℕ n)) end))))),
                record c { farewell_count = n; last_farewell = farewell },
              )))
        ⊎ (((parts : Text × Text) → ¬ IsGoodbye decode_goodbye msg parts)
            × ((r : HandlerResult) × (say_goodbye decode_goodbye msg c ≡ (ok r, c))
                × (r.status ≡ 0)))
  unfolding say_goodbye bid_farewell
  say_goodbye_lem c = elim (Flow-cases (goodbye_parts decode_goodbye msg)) [
    | inl (parts, found) ↦ inl (parts, goodbye_parts_sound parts found, rw found)
    | inr none_next ↦ inr (
      λ parts h. none_next parts (goodbye_parts_complete parts h),
      run_stopped (goodbye_parts decode_goodbye msg) bid_farewell c goodbye_parts-Ends none_next,
    )
  ]
