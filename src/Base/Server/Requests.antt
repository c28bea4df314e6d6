-- ===== src/Base/Server/Requests.antt =====
-- server.ts: what a request asks for, read off its body.
use xrpl.Prelude.{
  ◌≡◌, refl, ap, Option, some, none, ◌⊎◌, arith, true, false, List, [], inl, inr, Option-cases,
}
use xrpl.Js.Text.{Text, lit, is_empty}
use xrpl.Js.Number.{is_nan, eq, of_ℕ}
use xrpl.Js.Utf8.{Bytes, decode}
use xrpl.Js.Outcome.{ok, Outcome-cases}
use xrpl.Js.Json.{is_object, Json, null, bool, num, str, arr, obj, property, or_else}
use xrpl.Js.Json.Parse.{parse}
use xrpl.Base.Flow.{next}
use xrpl.Base.Framework.{Entry, lookup}
use xrpl.Base.Flow.Ends.{Flow-cases}
use xrpl.Base.Server.{
  Handler, Request, truthy, hex_of_json, identifier, get, read_data, read_fixed, find_handler,
  read_request,
}

-- A value that counts as a text: a text, or nothing, or what counts as empty.
abbrev pub IsTextOf : Option Json → Text → Type 0
IsTextOf none t = t ≡ []
IsTextOf (some null) t = t ≡ []
IsTextOf (some (str s)) t = t ≡ s
IsTextOf (some (bool b)) t = (b ≡ false) × (t ≡ [])
IsTextOf (some (num x)) t = ((is_nan x ≡ true) ⊎ (eq x (of_ℕ 0) ≡ true)) × (t ≡ [])
IsTextOf (some (arr _)) t = ⊥
IsTextOf (some (obj _)) t = ⊥

-- The body asks for this: it is an action whose `message` decodes to a DataFixed, with an `opType` that
-- is a text but the empty one; and a handler is registered for the two identifiers.
pub record Asks {S : Type 0} (handlers : List (Entry (Handler S))) (body : Text) : Type 0 where
  pub action : Json
  pub action_data : Json
  pub bytes : Bytes
  pub fixed : Json
  pub op_type : Text
  pub op_command : Text
  pub handler : Handler S
  pub parsed : parse body ≡ some action
  pub is_action : is_object action ≡ true
  pub has_data : property (lit "data") action ≡ some action_data
  pub is_set : truthy (some action_data) ≡ true
  pub hex : hex_of_json (property (lit "message") action_data) ≡ ok bytes
  pub parsed_fixed : parse (decode bytes) ≡ some fixed
  pub is_fixed : is_object fixed ≡ true
  pub has_type : property (lit "opType") fixed ≡ some (str op_type)
  pub named : is_empty op_type ≡ false
  pub has_command : IsTextOf (property (lit "opCommand") fixed) op_command
  pub found : lookup op_type op_command handlers ≡ some handler

-- The message of a DataFixed: `originalMessage`, or `0x` where it is missing or `null`.
abbrev pub message_in : Option Json → Json
message_in none = str (lit "0x")
message_in (some null) = str (lit "0x")
message_in (some (str s)) = str s
message_in (some (bool b)) = bool b
message_in (some (num x)) = num x
message_in (some (arr vs)) = arr vs
message_in (some (obj fs)) = obj fs

read_data-inv :
    (body : Text) (d : Json)
    → read_data body ≡ next d
    → (action : Json) × (parse body ≡ some action)
      × (is_object action ≡ true)
      × (property (lit "data") action ≡ some d)
      × (truthy (some d) ≡ true)
unfolding read_data
read_data-inv body d e = elim (Option-cases (parse body)) [
  | inl none_parsed ↦ absurd (ground arith)
  | inr (action, parsed) ↦ (action, parsed, ground arith, ground arith, ground arith)
]

read_fixed-inv :
    (d fixed : Json)
    → read_fixed d ≡ next fixed
    → (bytes : Bytes) × (hex_of_json (property (lit "message") d) ≡ ok bytes)
      × (parse (decode bytes) ≡ some fixed)
      × (is_object fixed ≡ true)
      × (truthy (property (lit "opType") fixed) ≡ true)
unfolding read_fixed
read_fixed-inv d fixed e = elim (Outcome-cases (hex_of_json (property (lit "message") d))) [
  | inr (x, bad) ↦ absurd (ground arith)
  | inl (bytes, hex) ↦ elim (Option-cases (parse (decode bytes))) [
    | inl none_parsed ↦ absurd (ground arith)
    | inr (v, parsed) ↦
        let same_v : v ≡ fixed = ground arith in
        (bytes, hex, rw same_v at parsed, ground arith, ground arith)
  ]
]

op_type-inv :
    (v : Option Json) (t : Text)
    → truthy v ≡ true
    → identifier (get v) ≡ ok t
    → (v ≡ some (str t)) × (is_empty t ≡ false)
unfolding truthy identifier
op_type-inv v t p e = ground arith

op_command-inv :
    (v : Option Json) (t : Text)
    → identifier (get (or_else v (some (str [])))) ≡ ok t
    → IsTextOf v t
unfolding identifier truthy
op_command-inv v t e = ground arith

module _ {S : Type 0} (handlers : List (Entry (Handler S))) (body : Text) where
  -- The request that is made of what the body asks for.
  abbrev pub request_of : Asks handlers body → Request S
  request_of a = record {
    id = property (lit "id") a.action_data;
    submission_tag = property (lit "submissionTag") a.action_data;
    op_type = str a.op_type;
    op_command = property (lit "opCommand") a.fixed;
    message = message_in (property (lit "originalMessage") a.fixed);
    handler = a.handler;
  }

  find_handler-inv :
      (fixed : Json) (h : Handler S)
      → find_handler handlers fixed ≡ next h
      → (t : Text) × (c : Text) × (identifier (get (property (lit "opType") fixed)) ≡ ok t)
        × (identifier (get (or_else (property (lit "opCommand") fixed) (some (str [])))) ≡ ok c)
        × (lookup t c handlers ≡ some h)
  unfolding find_handler
  find_handler-inv fixed h e =
      elim (Outcome-cases (identifier (get (property (lit "opType") fixed)))) [
        | inr (x, bad) ↦ absurd (ground arith)
        | inl (t, is_t) ↦
            elim (Outcome-cases
              (identifier (get (or_else (property (lit "opCommand") fixed) (some (str [])))))) [
                | inr (x, bad) ↦ absurd (ground arith)
                | inl (c, is_c) ↦ elim (Option-cases (lookup t c handlers)) [
                  | inl missing ↦ absurd (ground arith)
                  | inr (g, found) ↦
                      let same_g : g ≡ h = ground arith in (t, c, is_t, is_c, rw same_g at found)
                ]
              ]
      ]

  message_in_lem : (v : Option Json) → get (or_else v (some (str (lit "0x")))) ≡ message_in v
  message_in_lem v = ground arith

  pub read_request-Asks :
      (q : Request S)
      → read_request handlers body ≡ next q
      → (a : Asks handlers body) × (q ≡ request_of a)
  unfolding read_request
  read_request-Asks q e = elim (Flow-cases (read_data body)) [
    | inr no_data ↦ absurd (grind (arith, no_data))
    | inl (d, is_d) ↦ elim (Flow-cases (read_fixed d)) [
      | inr no_fixed ↦ absurd (grind (arith, no_fixed))
      | inl (fixed, is_fixed) ↦ elim (Flow-cases (find_handler handlers fixed)) [
        | inr no_handler ↦ absurd (grind (arith, no_handler))
        | inl (h, is_h) ↦
            let (action, parsed, is_action, has_data, is_set) = read_data-inv body d is_d in
            let (bytes, hex, parsed_fixed, is_object_fixed, set) =
              read_fixed-inv d fixed is_fixed in
            let (t, c, is_t, is_c, found) = find_handler-inv fixed h is_h in
            let (has_type, named) = op_type-inv (property (lit "opType") fixed) t set is_t in
            let a : Asks handlers body = record {
              action = action;
              action_data = d;
              bytes = bytes;
              fixed = fixed;
              op_type = t;
              op_command = c;
              handler = h;
              parsed = parsed;
              is_action = is_action;
              has_data = has_data;
              is_set = is_set;
              hex = hex;
              parsed_fixed = parsed_fixed;
              is_fixed = is_object_fixed;
              has_type = has_type;
              named = named;
              has_command = op_command-inv (property (lit "opCommand") fixed) c is_c;
              found = found;
            } in
            let of_type : get (property (lit "opType") fixed) ≡ str t = ap get has_type in
            let message = message_in_lem (property (lit "originalMessage") fixed) in
            (a, grind (arith, is_d, is_fixed, is_h, of_type, message))
      ]
    ]
  ]

identifier-named : (v : Option Json) (t : Text) → v ≡ some (str t) → identifier (get v) ≡ ok t
unfolding identifier
identifier-named v t e = ground arith

truthy-named :
    (v : Option Json) (t : Text) → v ≡ some (str t) → is_empty t ≡ false → truthy v ≡ true
unfolding truthy
truthy-named v t e named = ground arith

identifier-IsTextOf :
    (v : Option Json) (t : Text)
    → IsTextOf v t
    → identifier (get (or_else v (some (str [])))) ≡ ok t
unfolding identifier truthy
identifier-IsTextOf none t h = ground arith
identifier-IsTextOf (some null) t h = ground arith
identifier-IsTextOf (some (str s)) t h = ground arith
identifier-IsTextOf (some (bool b)) t h = ground arith
identifier-IsTextOf (some (num x)) t h = ground arith
identifier-IsTextOf (some (arr _)) t h = elim h [ ]
identifier-IsTextOf (some (obj _)) t h = elim h [ ]

module _ {S : Type 0} (handlers : List (Entry (Handler S))) (body : Text) where
  -- A body that asks for something is read as just that.
  pub Asks-read_request :
      (a : Asks handlers body) → read_request handlers body ≡ next (request_of handlers body a)
  unfolding read_request read_data read_fixed find_handler
  Asks-read_request a =
      let set = truthy-named (property (lit "opType") a.fixed) a.op_type a.has_type a.named in
      let type_text : identifier (get (property (lit "opType") a.fixed)) ≡ ok a.op_type =
        identifier-named (property (lit "opType") a.fixed) a.op_type a.has_type in
      let command =
        identifier-IsTextOf (property (lit "opCommand") a.fixed) a.op_command a.has_command in
      let message = message_in_lem handlers body (property (lit "originalMessage") a.fixed) in
      rw
        (
          a.parsed,
          a.is_action,
          a.has_data,
          a.is_set,
          a.hex,
          a.parsed_fixed,
          a.is_fixed,
          set,
          type_text,
          command,
          a.found,
          message,
          ap get a.has_type,
        )
        refl
