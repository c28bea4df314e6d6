-- ===== src/Base/Node.antt =====
-- fce-matching-engine/typescript/src/base/node.ts, and the same file of fce-ai-agent: the client of the
-- tee-node (NodeClient), over `fetch`.
pub mod Decrypts
use xrpl.Prelude.{ℕ, Bool, true, false, List, [], ◌∷◌, ◌++◌, Option, none, some}
use xrpl.Js.Text.{Text, lit}
use xrpl.Js.Number.{Number}
use xrpl.Js.Number.Show.{decimal, number_text}
use xrpl.Js.Number.Read.{to_number}
use xrpl.Js.Utf8.{Bytes}
use xrpl.Js.Json.{Json, str, obj, field, end, property, is_null}
use xrpl.Js.Json.Parse.{parse}
use xrpl.Js.Outcome.{Outcome, ok, throw, message, bad_json, bad_access, or_throw}
use xrpl.Js.Task.{Run, Task, ◌>>=◌, ◌>>◌, pure, raise, perform, lift}
use xrpl.Base.Base64.{encode64, decode64}

pub record Response : Type 0 where
  pub is_ok : Bool
  pub status : ℕ
  pub body : Text

-- What `fetch` gives: a response, or that the timer has aborted it.
pub data Fetched : Type 0 where
  answered : Response → Fetched
  aborted : Fetched

-- The node, and what `Buffer.from` makes of a value that is no text.
pub record Node (W : Type 0) : Type 0 where
  pub sign_port : Text
  pub timeout_ms : ℕ
  pub fetch : Text → Json → ℕ → W → Outcome Fetched × W
  pub buffer_of : Json → Outcome Bytes

pub data NodeAct : Type 0 where
  posted : Text → Json → NodeAct

module _ {W : Type 0} (n : Node W) where
  -- `baseUrl`
  unfoldable pub base_url : Text
  unfolding number_text
  base_url = lit "http://localhost:" ++ number_text (to_number n.sign_port)

  unfoldable pub read_response : Text → Fetched → Task W NodeAct Json
  read_response path aborted = raise (
      message (
        lit "node request to "
        ++ path
        ++ lit " timed out after "
        ++ decimal n.timeout_ms
        ++ lit "ms"))
  read_response path (answered res) = elim res.is_ok [
    | true ↦ lift (or_throw bad_json (parse res.body))
    | false ↦ raise (
        message (
          lit "node returned "
          ++ decimal res.status
          ++ lit " for "
          ++ path
          ++ lit ": "
          ++ res.body))
  ]

  -- `post`
  unfoldable pub post : Text → Json → Task W NodeAct Json
  unfolding base_url
  post path payload = do
    fetched ←
        perform (λ _. posted (base_url ++ path) payload)
          (n.fetch (base_url ++ path) payload n.timeout_ms)
    read_response path fetched

  abbrev pub decrypt_payload : Bytes → Json
  decrypt_payload ciphertext = obj (field (lit "encryptedMessage") (str (encode64 ciphertext)) end)

  abbrev bytes_of_value : Option Json → Outcome Bytes
  bytes_of_value none = throw (message (lit "node response missing decryptedMessage"))
  bytes_of_value (some (str s)) = ok (decode64 s)
  bytes_of_value (some v) = n.buffer_of v

  -- The bytes of a response.
  unfoldable pub decrypted_message : Json → Outcome Bytes
  decrypted_message resp = elim (is_null resp) [
    | true ↦ throw bad_access
    | false ↦ bytes_of_value (property (lit "decryptedMessage") resp)
  ]

  -- `decrypt`
  unfoldable pub decrypt : Bytes → Task W NodeAct Bytes
  decrypt ciphertext = do
    resp ← post (lit "/decrypt") (decrypt_payload ciphertext)
    lift (decrypted_message resp)
