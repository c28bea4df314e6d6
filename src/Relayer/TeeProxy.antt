-- ===== src/Relayer/TeeProxy.antt =====
-- scripts/relayer/tee-proxy.ts: the public endpoint in front of the matching engine
-- (assertNoPlaintextDump, authOk, forward, handler).
pub mod Opaque
use xrpl.Prelude.{
  ℕ, Bool, true, false, not, ◌&&◌, ◌||◌, List, [], ◌∷◌, ◌++◌, Option, none, some, if◌then◌else◌,
}
use xrpl.Js.Text.{Text, lit, same, is_empty, includes}
use xrpl.Js.Json.{Json, str, bool, arr, obj, field, end, cons, nil}
use xrpl.Js.Outcome.{Outcome, ok, throw, Thrown, message}
use xrpl.Js.Number.Read.{trim}
use xrpl.Relayer.Wire.{without_slash, or_default}
use xrpl.Js.Task.{Run, Task, ◌>>=◌, ◌>>◌, pure, raise, perform, catch, lift}

-- `none` is a header or a body that is not there.
pub record Incoming : Type 0 where
  pub method : Text
  pub url : Text
  pub authorization : Option Text
  -- `readBody`
  pub body : Outcome Text

pub record Forwarded : Type 0 where
  pub url : Text
  pub method : Text
  pub body : Option Text
  pub content_type : Option Text

pub record Answer : Type 0 where
  pub status : ℕ
  pub text : Text
  pub content_type : Option Text

-- The environment of the proxy, and its services: the path that `new URL` reads, and `fetch`.
pub record Proxy (W : Type 0) : Type 0 where
  pub env : Text → Option Text
  pub pathname : Text → Outcome Text
  pub fetch : Forwarded → W → Outcome Answer × W

-- What is sent back: a text of the engine, an object, or the message of an error.
pub data Sent : Type 0 where
  passed : Text → Sent
  object : Json → Sent
  error_of : Thrown → Sent

pub record Reply : Type 0 where
  pub status : ℕ
  pub content_type : Text
  pub sent : Sent

pub data ProxyAct : Type 0 where
  forwarded : Forwarded → ProxyAct

abbrev pub plaintext_markers : List Text
plaintext_markers =
    lit "\"direction\":"
    ∷ lit "\"sizePct\":"
    ∷ lit "\"asset\":\"FXRP\""
    ∷ lit "\"asset\":\"USDT0\""
    ∷ []

unfoldable pub marker_in : List Text → Text → Option Text
marker_in [] t = none
marker_in (m ∷ ms) t = let rest = marker_in ms t in if includes m t then some m else rest

-- `assertNoPlaintextDump`
unfoldable pub assert_no_plaintext_dump : Text → Text → Outcome (Unit {0})
assert_no_plaintext_dump label t = elim (marker_in plaintext_markers t) [
  | none ↦ ok tt
  | some m ↦ throw (
      message (
        label
        ++ lit ": refused "
        ++ 0x2014 ∷ lit " body looks like plaintext signal JSON ("
        ++ m
        ++ lit ")"))
]

abbrev pub or_empty : Option Text → Text
or_empty none = []
or_empty (some t) = t

-- `UPSTREAM` and `TOKEN`
unfoldable pub upstream_of : (Text → Option Text) → Text
unfolding without_slash
upstream_of env =
    without_slash
      (or_default (env (lit "TEE_MATCHING_ENGINE_ENDPOINT")) (lit "http://127.0.0.1:8101"))

unfoldable pub token_of : (Text → Option Text) → Text
unfolding trim
token_of env = trim (or_empty (env (lit "TEE_PROXY_TOKEN")))

-- `authOk`
unfoldable pub auth_ok : Text → Option Text → Bool
auth_ok token authorization =
    is_empty token || same (or_empty authorization) (lit "Bearer " ++ token)

abbrev has_no_body : Text → Bool
has_no_body method = same method (lit "GET") || same method (lit "HEAD")

-- `content-type ?? "application/json"`
abbrev type_or_json : Option Text → Text
type_or_json none = lit "application/json"
type_or_json (some t) = t

abbrev pub json_reply : ℕ → Sent → Reply
json_reply n s = record { status = n; content_type = lit "application/json"; sent = s }

abbrev reply_with : Answer → Reply
reply_with a = record {
  status = a.status;
  content_type = type_or_json a.content_type;
  sent = passed a.text;
}

module _ {W : Type 0} (p : Proxy W) where
  -- `forward`
  unfoldable pub forward : Text → Text → Option Text → Option Text → Task W ProxyAct Answer
  forward path method body content_type =
      let f : Forwarded = record {
        url = upstream_of p.env ++ path;
        method = method;
        body = if has_no_body method then none else body;
        content_type = content_type;
      } in
      perform (λ _. forwarded f) (p.fetch f)

  unfoldable pub action : Incoming → Task W ProxyAct Reply
  action q = do
    body ← lift q.body
    lift (assert_no_plaintext_dump (lit "proxy inbound") body)
    up ← forward (lit "/action") (lit "POST") (some body) (some (lit "application/json"))
    lift (assert_no_plaintext_dump (lit "proxy upstream") up.text)
    pure (reply_with up)

  unfoldable pub state : Task W ProxyAct Reply
  state = do up ← forward (lit "/state") (lit "GET") none none; pure (reply_with up)

  abbrev not_found : Reply
  not_found = json_reply 404 (
      object (
        obj (
          field (lit "error") (str (lit "not found")) (
            field (lit "paths")
              (arr (
                cons (str (lit "/health"))
                  (cons (str (lit "/action")) (cons (str (lit "/state")) nil))))
              end))))

  unfoldable pub routed : Text → Incoming → Task W ProxyAct Reply
  routed path q = elim (same path (lit "/action") && same q.method (lit "POST")) [
    | true ↦ action q
    | false ↦ elim (same path (lit "/state") && same q.method (lit "GET")) [
      | true ↦ state
      | false ↦ pure not_found
    ]
  ]

  abbrev pub unauthorized : Reply
  unauthorized = json_reply 401 (object (obj (field (lit "error") (str (lit "unauthorized")) end)))

  abbrev pub healthy : Reply
  healthy = json_reply 200 (
      object
        (obj (field (lit "ok") (bool true) (field (lit "upstream") (str (upstream_of p.env)) end))))

  unfoldable pub guarded : Text → Incoming → Task W ProxyAct Reply
  guarded path q = elim (same path (lit "/health")) [
    | true ↦ pure healthy
    | false ↦ elim (auth_ok (token_of p.env) q.authorization) [
      | true ↦ routed path q
      | false ↦ pure unauthorized
    ]
  ]

  -- `handler`
  unfoldable pub handler : Incoming → Task W ProxyAct Reply
  handler q =
      catch (lift (p.pathname q.url) >>= λ path. guarded path q)
        λ e. pure (json_reply 500 (error_of e))
