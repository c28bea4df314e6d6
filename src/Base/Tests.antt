-- ===== src/Base/Tests.antt =====
-- The server's base on concrete registries, messages and bodies.
use xrpl.Prelude.{true, ℕ, ◌+◌, ◌≡◌, refl, List, [], ◌∷◌, none, some, arith, All, length}
use xrpl.Js.Text.{Text, lit, same, is_empty}
use xrpl.Js.Utf8.{decode}
use xrpl.Js.Utf8.Ascii.{IsAscii}
use xrpl.Js.Outcome.{ok}
use xrpl.Js.Json.{Json, str, obj, end, field, property, lookup as field_of}
use xrpl.Js.Json.Parse.{parse}
use xrpl.Base.Encoding.{
  hex_to_bytes, bytes_to_hex, is_hex, byte_pairs, string_to_bytes32_hex, bytes32_hex_to_string,
}
use xrpl.Base.Encoding.Hex.{IsByte, hex_to_bytes-bytes_to_hex}
use xrpl.Base.Encoding.Bytes32.{EndsNonzero, bytes32_hex_to_string-string_to_bytes32_hex}
use xrpl.Base.Framework.{respond, Entry, lookup, empty_bytes32}
use xrpl.Base.Server.{Handler, plain, process_action, hex_of_json, truthy}
use xrpl.Base.Queue.{
  Job, Event, Queue, called, started, ended, running, settled, start_at, end_at, step, steps,
}
use xrpl.Base.Queue.Order.{InOrder, steps-InOrder}
use xrpl.Base.Queue.Drain.{Drains, steps-drain}
use xrpl.Js.Task.{Run}
use xrpl.Base.Base64.{encode64, decode64}
use xrpl.Base.Node.{Node, answered as fetched, NodeAct, posted, decrypt}
use xrpl.Base.Node.Decrypts.{message_of, decrypt_url, Answers, decrypt-Answers}
use xrpl.Base.Server.Echoes.{echoed}
use xrpl.Base.Server.Routing.{IsAction, process_action-IsAction}

are_bytes : All IsByte (171 ∷ 0 ∷ [])
are_bytes = ground arith

hex_to_bytes-bytes_to_hex_example :
    hex_to_bytes (some (bytes_to_hex (171 ∷ 0 ∷ []))) ≡ ok (171 ∷ 0 ∷ [])
hex_to_bytes-bytes_to_hex_example = hex_to_bytes-bytes_to_hex (171 ∷ 0 ∷ []) are_bytes

hi_IsAscii : All IsAscii (lit "hi")
hi_IsAscii = ground arith

hi_ends : EndsNonzero (lit "hi")
hi_ends = ground arith

bytes32_hex_to_string-string_to_bytes32_hex_example :
    (h : Text) × (string_to_bytes32_hex (lit "hi") ≡ ok h)
    × (length h ≡ 66)
    × (bytes32_hex_to_string h ≡ lit "hi")
bytes32_hex_to_string-string_to_bytes32_hex_example =
    bytes32_hex_to_string-string_to_bytes32_hex (lit "hi") hi_IsAscii hi_ends (omega arith)

-- A handler that counts its calls.
abbrev count : Handler ℕ
count msg n = (ok (respond (lit "0x")), n + 1)

abbrev entries : List (Entry (Handler ℕ))
entries = record { op_type = lit "0x01"; op_command = empty_bytes32; handler = count } ∷ []

abbrev body : Text
body =
    lit
      "{\"data\":{\"id\":\"i\",\"message\":\"0x7b226f7054797065223a2230783031222c226f70436f6d6d616e64223a22222c226f726967696e616c4d657373616765223a2230783037227d\"}}"

abbrev fixed : Json
fixed = obj (
    field (lit "opType") (str (lit "0x01"))
      (field (lit "opCommand") (str []) (field (lit "originalMessage") (str (lit "0x07")) end)))

abbrev data_of : Json
data_of = obj (
    field (lit "id") (str (lit "i")) (
      field (lit "message")
        (str (
          lit
            "0x7b226f7054797065223a2230783031222c226f70436f6d6d616e64223a22222c226f726967696e616c4d657373616765223a2230783037227d"))
        end))

abbrev fixed_text : Text
fixed_text = lit "{\"opType\":\"0x01\",\"opCommand\":\"\",\"originalMessage\":\"0x07\"}"

is_action : IsAction body (lit "0x01") [] (lit "0x07") data_of
unfolding parse hex_of_json hex_to_bytes decode property field_of truthy is_empty same is_hex
    byte_pairs
is_action = record {
  action = obj (field (lit "data") data_of end);
  fixed = fixed;
  bytes = fixed_text;
  parsed = refl;
  is_action = refl;
  data_field = refl;
  data_set = refl;
  hex = refl;
  parsed_fixed = refl;
  is_fixed = refl;
  op_type = refl;
  named = refl;
  op_command = refl;
  original = refl;
}

process_action-IsAction_example :
    process_action entries (lit "1") body 4 ≡ elim (lookup (lit "0x01") [] entries) [
      | some h ↦ (
        echoed
            (lit "1")
            (property (lit "id") data_of)
            (property (lit "submissionTag") data_of)
            (str (lit "0x01"))
            (some (str []))
            (h (str (lit "0x07")) 4).0,
        (h (str (lit "0x07")) 4).1,
      )
      | none ↦ (ok (record { status = 501; body = plain (lit "unsupported op type") }), 4)
    ]
process_action-IsAction_example = process_action-IsAction entries (lit "1") 4 is_action

abbrev add : ℕ → Job ℕ ℕ
add n s = (s, s + n)

-- Two calls; the second job starts only when the first has ended.
abbrev two_calls : List (Event ℕ ℕ)
two_calls = called (add 1) ∷ started 0 ∷ called (add 2) ∷ ended 0 ∷ started 1 ∷ []

abbrev two_calls_queue : Queue ℕ ℕ
two_calls_queue = record { calls = settled (add 1) 5 ∷ running (add 2) ∷ []; state = 6 }

two_calls_run : steps two_calls (record { calls = []; state = 5 }) ≡ some two_calls_queue
unfolding steps step start_at end_at
two_calls_run = refl

overlap_run :
    steps
      (called (add 1) ∷ started 0 ∷ called (add 2) ∷ started 1 ∷ [])
      (record { calls = []; state = 5 })
    ≡ none
unfolding steps step start_at end_at
overlap_run = refl

steps-InOrder_example : InOrder 5 two_calls_queue.calls 6
steps-InOrder_example = steps-InOrder two_calls 5 two_calls_queue two_calls_run

steps-drain_example : Drains 5 two_calls_queue
steps-drain_example = steps-drain two_calls 5 two_calls_queue two_calls_run

-- A node that decrypts every message to the bytes of hi.
abbrev node : Node ℕ
node = record {
  sign_port = lit "8080";
  timeout_ms = 5000;
  fetch = λ url payload ms w. (
    ok (
        fetched
          (record { is_ok = true; status = 200; body = lit "{\"decryptedMessage\":\"aGk=\"}" })),
    w,
  );
  buffer_of = λ v. ok [];
}

abbrev idle : Run ℕ NodeAct
idle = record { world = 0; acts = [] }

hi_bytes : All IsByte (lit "hi")
hi_bytes = ground arith

node-Answers : Answers node (171 ∷ 0 ∷ []) (lit "hi") 0
unfolding parse encode64
node-Answers = (_, refl, refl, refl)

decrypt-Answers_example :
    ((decrypt node (171 ∷ 0 ∷ []) idle).0 ≡ ok (lit "hi"))
    × ((t : Text) × ((decrypt node (171 ∷ 0 ∷ []) idle).1.acts
          ≡ posted (decrypt_url node) (message_of node t) ∷ [])
        × (decode64 t ≡ 171 ∷ 0 ∷ []))
decrypt-Answers_example =
    decrypt-Answers node (171 ∷ 0 ∷ []) (lit "hi") idle are_bytes hi_bytes node-Answers
