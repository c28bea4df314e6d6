-- ===== src/Base/Node/Decrypts.antt =====
-- node.ts: the client and a node that decrypts.
use xrpl.Js.Number.Read.{to_number}
use xrpl.Js.Number.Show.{number_text}
use xrpl.Prelude.{◌≡◌, refl, ap, ◌∙◌, true, ◌∷◌, ◌++◌, some, All}
use xrpl.Js.Text.{Text, lit, same}
use xrpl.Js.Utf8.{Bytes}
use xrpl.Js.Json.{Json, str, obj, field, end, property, lookup}
use xrpl.Js.Json.Parse.{parse}
use xrpl.Js.Outcome.{Outcome, ok}
use xrpl.Js.Task.{Run, ◌>>=◌, pure, perform, lift, after}
use xrpl.Base.Encoding.Hex.{IsByte}
use xrpl.Base.Base64.{encode64, decode64}
use xrpl.Base.Base64.RoundTrip.{decode64-encode64}
use xrpl.Base.Node.{
  Node, Response, Fetched, answered, NodeAct, posted, base_url, read_response, post,
  decrypt_payload, decrypted_message, decrypt,
}

module _ {W : Type 0} (n : Node W) where
  -- What a node is asked, at the address of the client.
  abbrev asked : Bytes → W → Outcome Fetched × W
  asked ciphertext =
      n.fetch (base_url n ++ lit "/decrypt") (decrypt_payload n ciphertext) n.timeout_ms

  -- The address, and the object of a message that is a base64 text.
  abbrev pub decrypt_url : Text
  decrypt_url = lit "http://localhost:" ++ number_text (to_number n.sign_port) ++ lit "/decrypt"

  abbrev pub message_of : Text → Json
  message_of t = obj (field (lit "encryptedMessage") (str t) end)

  -- The node answers a message with the object of a plaintext.
  abbrev pub Answers : Bytes → Bytes → W → Type 0
  Answers ciphertext plaintext w =
      (res : Response) × ((n.fetch decrypt_url (message_of (encode64 ciphertext)) n.timeout_ms w).0
        ≡ ok (answered res))
      × (res.is_ok ≡ true)
      × (parse res.body
          ≡ some (obj (field (lit "decryptedMessage") (str (encode64 plaintext)) end)))

  abbrev answer_of : Bytes → Json
  answer_of plaintext = obj (field (lit "decryptedMessage") (str (encode64 plaintext)) end)

  read_response-answered :
      (path : Text) (plaintext : Bytes) (res : Response)
      → res.is_ok ≡ true
      → parse res.body ≡ some (answer_of plaintext)
      → read_response n path (answered res) ≡ pure (answer_of plaintext)
  unfolding read_response
  read_response-answered path plaintext res good body = rw (read_response, good, body) refl

  decrypted_message-answer :
      (plaintext : Bytes)
      → All IsByte plaintext
      → decrypted_message n (answer_of plaintext) ≡ ok plaintext
  unfolding decrypted_message property lookup same
  decrypted_message-answer plaintext h = ap ok (decode64-encode64 plaintext h)

  -- What is done with the outcome of `fetch`.
  abbrev finish : Outcome Fetched → Run W NodeAct → Outcome Bytes × Run W NodeAct
  finish o r =
      after (λ resp. lift (decrypted_message n resp))
        (after (read_response n (lit "/decrypt")) (o, r))

  finish-answered :
      (plaintext : Bytes) (res : Response) (o : Outcome Fetched) (r : Run W NodeAct)
      → All IsByte plaintext
      → o ≡ ok (answered res)
      → res.is_ok ≡ true
      → parse res.body ≡ some (answer_of plaintext)
      → finish o r ≡ (ok plaintext, r)
  unfolding pure
  finish-answered plaintext res o r hp is_answer good body =
      ap (λ x. finish x r) is_answer
      ∙ ap (λ m. after (λ resp. lift (decrypted_message n resp)) (m r))
          (read_response-answered (lit "/decrypt") plaintext res good body)
      ∙ ap (λ x. lift x r) (decrypted_message-answer plaintext hp)

  -- Where the node, asked for the base64 text of a ciphertext, answers with the base64 text of a
  -- plaintext, the client returns that plaintext, and has posted one message to the node, the object of
  -- a text that reads as the ciphertext.
  pub decrypt-Answers :
      (ciphertext plaintext : Bytes) (r : Run W NodeAct)
      → All IsByte ciphertext
      → All IsByte plaintext
      → Answers ciphertext plaintext r.world
      → ((decrypt n ciphertext r).0 ≡ ok plaintext)
        × ((t : Text) × ((decrypt n ciphertext r).1.acts
              ≡ posted decrypt_url (message_of t) ∷ r.acts)
            × (decode64 t ≡ ciphertext))
  unfolding decrypt post ◌>>=◌ perform base_url
  decrypt-Answers ciphertext plaintext r hc hp (res, answer, good, body) =
      let r' : Run W NodeAct = record {
        world = (asked ciphertext r.world).1;
        acts = posted decrypt_url (message_of (encode64 ciphertext)) ∷ r.acts;
      } in
      let ended : finish (asked ciphertext r.world).0 r' ≡ (ok plaintext, r') =
        finish-answered plaintext res (asked ciphertext r.world).0 r' hp answer good body in
      (
        ap (λ x. x.0) ended,
        (encode64 ciphertext, ap (λ x. x.1.acts) ended, decode64-encode64 ciphertext hc),
      )
