-- ===== src/Relayer/Tests/Proxy.antt =====
-- The proxy on a plaintext, on an answer of the engine, and on a request without the token.
use xrpl.Prelude.{◌++◌, ◌≢◌, arith, ℕ, ◌≡◌, refl, [], none, some, if◌then◌else◌}
use xrpl.Js.Text.{lit, same, is_empty, includes, starts_with}
use xrpl.Js.Number.Read.{trim, trim_start, is_space}
use xrpl.Js.Outcome.{ok}
use xrpl.Js.Task.{Run, ◌>>=◌, pure, raise, perform, catch}
use xrpl.Js.Task.Acts.{EachAct}
use xrpl.Js.Task.Returns.{Returns-of}
use xrpl.Relayer.TeeProxy.{
  Incoming, Proxy, passed, Reply, ProxyAct, handler, guarded, routed, action, forward,
  assert_no_plaintext_dump, marker_in, auth_ok, token_of,
}
use xrpl.Relayer.TeeProxy.Opaque.{
  ForwardsOpaque, IsGuarded, IsRefused, refusal, handler-ForwardsOpaque, handler-IsGuarded,
  handler-refuses,
}

abbrev proxy : Proxy ℕ
proxy = record {
  env = λ name. if same name (lit "TEE_PROXY_TOKEN") then some (lit "k") else none;
  pathname = λ url. ok url;
  fetch = λ f w. (ok (record { status = 200; text = lit "0x01"; content_type = none }), w);
}

abbrev signal : Incoming
signal = record {
  method = lit "POST";
  url = lit "/action";
  authorization = some (lit "Bearer k");
  body = ok (lit "{\"direction\":1}");
}

abbrev ciphertext : Incoming
ciphertext = record {
  method = lit "POST";
  url = lit "/action";
  authorization = some (lit "Bearer k");
  body = ok (lit "0x02");
}

abbrev stranger : Incoming
stranger = record {
  method = lit "POST";
  url = lit "/action";
  authorization = none;
  body = ok (lit "0x02");
}

abbrev start : Run ℕ ProxyAct
start = record { world = 0; acts = [] }

handler-ForwardsOpaque_example : EachAct ForwardsOpaque (handler proxy signal)
handler-ForwardsOpaque_example = handler-ForwardsOpaque proxy signal

abbrev answered : Reply
answered = record {
  status = 200;
  content_type = lit "application/json";
  sent = passed (lit "0x01");
}

replied : (handler proxy ciphertext start).0 ≡ ok answered
unfolding handler guarded routed action forward assert_no_plaintext_dump marker_in auth_ok token_of
    trim trim_start is_space same is_empty includes starts_with ◌>>=◌ pure raise perform catch
replied = refl

handler-IsGuarded_example : IsGuarded proxy ciphertext answered.sent
handler-IsGuarded_example =
    handler-IsGuarded proxy ciphertext start (handler proxy ciphertext start).1 answered
      (Returns-of (handler proxy ciphertext) start answered replied)

not_blank : trim (lit "k") ≢ []
unfolding trim trim_start is_space
not_blank = λ e. ground arith

no_bearer : stranger.authorization ≢ some (lit "Bearer " ++ trim (lit "k"))
no_bearer = λ e. ground arith

token_set : proxy.env (lit "TEE_PROXY_TOKEN") ≡ some (lit "k")
unfolding same
token_set = refl

handler-refuses_example :
    IsRefused proxy start
      (refusal proxy (proxy.pathname stranger.url))
      (handler proxy stranger start)
handler-refuses_example =
    handler-refuses proxy (lit "k") stranger start token_set not_blank no_bearer
