-- ===== src/Relayer/TeeProxy/Opaque.antt =====
-- tee-proxy.ts: what the proxy lets through.
use xrpl.Prelude.{
  [], ◌++◌, ◌≢◌, ◌≡◌, refl, ◌⊎◌, inl, inr, sym, ap, ◌∙◌, ℕ, Bool, true, false, ◌&&◌, Option, none,
  some, arith, Bool-cases, Option-cases, if◌then◌else◌, subst,
}
use xrpl.Js.Text.{is_empty, Text, lit, same, same_iff, includes}
use xrpl.Js.Number.Read.{trim}
use xrpl.Js.Outcome.{Outcome, ok, throw}
use xrpl.Js.Task.{Run, Task, ◌>>=◌, pure, raise, catch, lift, otherwise}
use xrpl.Js.Task.Acts.{
  EachAct, EachAct-pure, EachAct-bind, EachAct-catch, EachAct-perform, EachAct-test, EachAct-lift,
}
use xrpl.Js.Task.Returns.{
  Returns, Returns-pure, Returns-lift, Returns-bind, Returns-catch, Returns-test, EachAct-then,
}
use xrpl.Relayer.TeeProxy.{
  or_empty, Incoming, Proxy, Sent, passed, object, error_of, Reply, ProxyAct, forwarded,
  plaintext_markers, marker_in, assert_no_plaintext_dump, auth_ok, forward, token_of, action, state,
  routed, guarded, handler, json_reply, healthy, unauthorized,
}

and-left : (a b : Bool) → (a && b) ≡ true → a ≡ true
and-left a b h = ground arith

and-right : (a b : Bool) → (a && b) ≡ true → b ≡ true
and-right a b h = ground arith

-- A text without any of the markers.
abbrev pub IsOpaque : Text → Type 0
IsOpaque t =
    (includes (lit "\"direction\":") t ≡ false)
    × (includes (lit "\"sizePct\":") t ≡ false)
    × (includes (lit "\"asset\":\"FXRP\"") t ≡ false)
    × (includes (lit "\"asset\":\"USDT0\"") t ≡ false)

marker_in-none : (t : Text) → marker_in plaintext_markers t ≡ none → IsOpaque t
unfolding marker_in
marker_in-none t h = ground arith

assert-IsOpaque :
    (label t : Text) (u : Unit {0}) → assert_no_plaintext_dump label t ≡ ok u → IsOpaque t
unfolding assert_no_plaintext_dump
assert-IsOpaque label t u h = elim (Option-cases (marker_in plaintext_markers t)) [
  | inl clean ↦ marker_in-none t clean
  | inr (m, found) ↦ absurd (grind (arith, found))
]

abbrev pub IsOpaqueBody : Option Text → Type 0
IsOpaqueBody none = Unit
IsOpaqueBody (some t) = IsOpaque t

abbrev pub ForwardsOpaque : ProxyAct → Type 0
ForwardsOpaque (forwarded f) = IsOpaqueBody f.body

module _ {W : Type 0} (p : Proxy W) where
  action-ForwardsOpaque : (q : Incoming) → EachAct ForwardsOpaque (action p q)
  unfolding action forward same
  action-ForwardsOpaque q = EachAct-bind _ _ (EachAct-lift q.body) λ body.
      EachAct-then _ _ (EachAct-lift _) λ _ r s checked.
        let clean = assert-IsOpaque (lit "proxy inbound") body tt (Returns-lift _ checked).0 in
        EachAct-bind _ _ (EachAct-perform _ _ λ o. clean)
          λ up. EachAct-bind _ _ (EachAct-lift _) λ _. EachAct-pure _

  state-ForwardsOpaque : EachAct ForwardsOpaque (state p)
  unfolding state forward same
  state-ForwardsOpaque = EachAct-bind _ _ (EachAct-perform _ _ λ o. tt) λ up. EachAct-pure _

  guarded-ForwardsOpaque : (path : Text) (q : Incoming) → EachAct ForwardsOpaque (guarded p path q)
  unfolding guarded routed
  guarded-ForwardsOpaque path q = EachAct-test (same path (lit "/health")) _ _ (EachAct-pure _) (
      EachAct-test (auth_ok (token_of p.env) q.authorization) _ _
        (EachAct-test (same path (lit "/action") && same q.method (lit "POST")) _ _
          (action-ForwardsOpaque q)
          (EachAct-test (same path (lit "/state") && same q.method (lit "GET")) _ _
            state-ForwardsOpaque (EachAct-pure _)))
        (EachAct-pure _))

  -- Whatever a client sends, no body with one of the markers of a plaintext signal is forwarded to the
  -- engine.
  pub handler-ForwardsOpaque : (q : Incoming) → EachAct ForwardsOpaque (handler p q)
  unfolding handler
  handler-ForwardsOpaque q =
      EachAct-catch _ _ (EachAct-bind _ _ (EachAct-lift _) λ path. guarded-ForwardsOpaque path q)
        λ e. EachAct-pure _

  -- A text of the engine that is sent back has no marker, or is the answer to GET /state.
  abbrev pub IsGuarded : Incoming → Sent → Type 0
  IsGuarded q (passed t) =
      IsOpaque t ⊎ ((p.pathname q.url ≡ ok (lit "/state")) × (q.method ≡ lit "GET"))
  IsGuarded q (object v) = Unit
  IsGuarded q (error_of e) = Unit

  action-IsGuarded :
      (q : Incoming) (r s : Run W ProxyAct) (reply : Reply)
      → Returns (action p q) r reply s
      → IsGuarded q reply.sent
  unfolding action
  action-IsGuarded q r s reply h = Returns-bind h λ body r₁ _ h₁. Returns-bind h₁ λ _ r₂ _ h₂.
      Returns-bind h₂ λ up r₃ _ h₃. Returns-bind h₃ λ u r₄ checked h₄.
        subst (λ x. IsGuarded q x.sent) (Returns-pure h₄).0
          (inl (assert-IsOpaque (lit "proxy upstream") up.text u (Returns-lift _ checked).0))

  routed-IsGuarded :
      (path : Text) (q : Incoming) (r s : Run W ProxyAct) (reply : Reply)
      → p.pathname q.url ≡ ok path
      → Returns (routed p path q) r reply s
      → IsGuarded q reply.sent
  unfolding routed state
  routed-IsGuarded path q r s reply at_path h =
      elim (Returns-test (same path (lit "/action") && same q.method (lit "POST")) h) [
        | inl (_, acted) ↦ action-IsGuarded q r s reply acted
        | inr (_, h₁) ↦
            elim (Returns-test (same path (lit "/state") && same q.method (lit "GET")) h₁) [
              | inr (_, lost) ↦ subst (λ x. IsGuarded q x.sent) (Returns-pure lost).0 tt
              | inl (is_state, h₂) ↦ Returns-bind h₂ λ up r₁ _ h₃.
                  let path_is : path ≡ lit "/state" =
                    (same_iff path (lit "/state")).0 (and-left _ _ is_state) in
                  let method_is : q.method ≡ lit "GET" =
                    (same_iff q.method (lit "GET")).0 (and-right _ _ is_state) in
                  subst (λ x. IsGuarded q x.sent) (Returns-pure h₃).0
                    (inr (at_path ∙ ap ok path_is, method_is))
            ]
      ]

  -- Whatever the engine answers, no text of it with one of the markers is sent back, except where the
  -- request is GET /state.
  pub handler-IsGuarded :
      (q : Incoming) (r s : Run W ProxyAct) (reply : Reply)
      → Returns (handler p q) r reply s
      → IsGuarded q reply.sent
  unfolding handler guarded
  handler-IsGuarded q r s reply h = elim (Returns-catch h) [
    | inr (e, r', _, h₁) ↦ subst (λ x. IsGuarded q x.sent) (Returns-pure h₁).0 tt
    | inl h₁ ↦ Returns-bind h₁ λ path r₁ read h₂.
        let at_path = (Returns-lift (p.pathname q.url) read).0 in
        elim (Returns-test (same path (lit "/health")) h₂) [
          | inl (_, healthy) ↦ subst (λ x. IsGuarded q x.sent) (Returns-pure healthy).0 tt
          | inr (_, h₃) ↦ elim (Returns-test (auth_ok (token_of p.env) q.authorization) h₃) [
            | inl (_, h₄) ↦ routed-IsGuarded path q r₁ s reply at_path h₄
            | inr (_, refused) ↦ subst (λ x. IsGuarded q x.sent) (Returns-pure refused).0 tt
          ]
        ]
  ]

  abbrev pub refusal : Outcome Text → ℕ
  refusal (throw e) = 500
  refusal (ok path) = if same path (lit "/health") then 200 else 401

  -- The handler, with what `new URL` has read.
  abbrev handled : Incoming → Outcome Text → Task W ProxyAct Reply
  handled q read =
      catch (lift read >>= λ path. guarded p path q) λ e. pure (json_reply 500 (error_of e))

  -- Nothing was done, and the answer has this status.
  abbrev pub IsRefused : Run W ProxyAct → ℕ → Outcome Reply × Run W ProxyAct → Type 0
  IsRefused r n out = (out.1 ≡ r) × ((reply : Reply) × (out.0 ≡ ok reply) × (reply.status ≡ n))

  guarded-healthy :
      (path : Text) (q : Incoming)
      → same path (lit "/health") ≡ true
      → guarded p path q ≡ pure (healthy p)
  unfolding guarded
  guarded-healthy path q h = rw (h, guarded) refl

  guarded-unauthorized :
      (path : Text) (q : Incoming)
      → same path (lit "/health") ≡ false
      → auth_ok (token_of p.env) q.authorization ≡ false
      → guarded p path q ≡ pure (unauthorized p)
  unfolding guarded
  guarded-unauthorized path q h refused = rw (h, refused, guarded) refl

  guarded-refuses :
      (path : Text) (q : Incoming)
      → auth_ok (token_of p.env) q.authorization ≡ false
      → (reply : Reply) × (guarded p path q ≡ pure reply) × (reply.status ≡ refusal (ok path))
  guarded-refuses path q refused = elim (Bool-cases (same path (lit "/health"))) [
    | inl is_health ↦ (healthy p, guarded-healthy path q is_health, rw is_health refl)
    | inr other ↦ (unauthorized p, guarded-unauthorized path q other refused, rw other refl)
  ]

  handled-refuses :
      (q : Incoming) (r : Run W ProxyAct) (read : Outcome Text)
      → auth_ok (token_of p.env) q.authorization ≡ false
      → IsRefused r (refusal read) (handled q read r)
  unfolding catch ◌>>=◌ pure raise
  handled-refuses q r (throw e) refused = (refl, (_, refl, refl))
  handled-refuses q r (ok path) refused =
      let (reply, is_pure, status) = guarded-refuses path q refused in
      subst
        (λ m.
          IsRefused r (refusal (ok path))
            (otherwise (λ e. pure (json_reply 500 (error_of e))) (m r)))
        (sym is_pure) (refl, (reply, refl, status))

  bearer_refused :
      (token : Text) (authorization : Option Text)
      → token ≢ []
      → authorization ≢ some (lit "Bearer " ++ token)
      → auth_ok token authorization ≡ false
  unfolding auth_ok is_empty
  bearer_refused token none given other = ground (arith, same_iff [] (lit "Bearer " ++ token))
  bearer_refused token (some a) given other =
      let differs : a ≢ lit "Bearer " ++ token = λ e. other (ap some e) in
      ground (arith, same_iff a (lit "Bearer " ++ token))

  token_of-set : (set : Text) → p.env (lit "TEE_PROXY_TOKEN") ≡ some set → token_of p.env ≡ trim set
  unfolding token_of
  token_of-set set is_set = ap (λ o. trim (or_empty o)) is_set

  -- Where the environment sets a token that is not blank, and the authorization of a request is not
  -- `Bearer` and that token without the spaces around it, nothing is forwarded, and the request is
  -- answered: the health check with 200, an address that is none with 500, and all else with 401.
  pub handler-refuses :
      (set : Text) (q : Incoming) (r : Run W ProxyAct)
      → p.env (lit "TEE_PROXY_TOKEN") ≡ some set
      → trim set ≢ []
      → q.authorization ≢ some (lit "Bearer " ++ trim set)
      → IsRefused r (refusal (p.pathname q.url)) (handler p q r)
  unfolding handler
  handler-refuses set q r is_set given other = handled-refuses q r (p.pathname q.url) (
      subst (λ t. auth_ok t q.authorization ≡ false) (sym (token_of-set set is_set))
        (bearer_refused (trim set) q.authorization given other))
