-- ===== src/Matching/Server/Routes.antt =====
-- server.ts: what each route answers, and what it leaves of the state.
use xrpl.Prelude.{
  ◌≡◌, ◌≢◌, refl, ap, ◌∙◌, ◌↔◌, inl, inr, true, ◌++◌, map, none, some, arith, Bool-cases,
  Option-cases,
}
use xrpl.Js.Text.{Text, lit, same, same_iff, before, includes, starts_with}
use xrpl.Js.Outcome.{ok}
use xrpl.Js.Json.{obj, arr, end, field, from_list}
use xrpl.Base.Server.{reply, error, json}
use xrpl.Matching.Host.{Host}
use xrpl.Matching.OutcomeLog.{get_all_outcomes}
use xrpl.Matching.Handlers.{State}
use xrpl.Matching.Swap.{if_not_empty}
use xrpl.Matching.Server.{
  Server, Incoming, process_outcome_log, route, handle_request, authorized, serve_body, serve,
  outcome_json,
}

module _ (h : Host) (server : Server) where
  -- Only `POST /action` may change the state.
  route-keeps :
      (clean method path body : Text) (s : State)
      → ¬ ((clean ≡ lit "/action") × (method ≡ lit "POST"))
      → (route h server clean method path body s).1 ≡ s
  unfolding route
  route-keeps clean method path body s not_action =
      ground (arith, same_iff clean (lit "/action"), same_iff method (lit "POST"))

  serve_body-keeps :
      (i : Incoming) (s : State)
      → ¬ ((before b'?' i.url ≡ lit "/action") × (i.method ≡ lit "POST"))
      → (serve_body h server i s).1 ≡ s
  unfolding serve_body handle_request
  serve_body-keeps i s not_action =
      let keeps : (body : Text) → (route h server (before b'?' i.url) i.method i.url body s).1 ≡ s =
        λ body. route-keeps (before b'?' i.url) i.method i.url body s not_action in
      grind (arith, keeps)

  authorized_iff :
      (given : Text)
      → (authorized h given ≡ true) ↔ (
          (token : Text) × (if_not_empty (h.env (lit "TEE_INTERNAL_TOKEN")) ≡ some token)
          × (given ≡ lit "Bearer " ++ token))
  unfolding authorized
  authorized_iff given = elim (Option-cases (if_not_empty (h.env (lit "TEE_INTERNAL_TOKEN")))) [
    | inl missing ↦ (λ p. absurd (ground arith), λ (token, found, _). absurd (ground arith))
    | inr (token, found) ↦
        let test = same_iff given (lit "Bearer " ++ token) in
        (
          λ p. (token, found, test.0 (grind (arith, found))),
          λ (other, also, is_given).
              let same_token : other ≡ token = ground arith in
              let given_token : given ≡ lit "Bearer " ++ token = rw (← same_token) is_given in
              grind (arith, found, test.1 given_token),
        )
  ]

  serve_body-unread : (i : Incoming) (s : State) → i.body ≡ none → (serve_body h server i s).1 ≡ s
  unfolding serve_body
  serve_body-unread i s unread = ground arith

  body_keeps :
      (i : Incoming) (s : State)
      → ((body : Text)
          → i.body ≡ some body
          → ¬ ((before b'?' i.url ≡ lit "/action") × (i.method ≡ lit "POST")))
      → (serve_body h server i s).1 ≡ s
  body_keeps i s not_action = elim (Option-cases i.body) [
    | inl unread ↦ serve_body-unread i s unread
    | inr (body, is_read) ↦ serve_body-keeps i s (not_action body is_read)
  ]

  -- A request leaves the state as it was, whatever the answer, unless it is a POST of `/action` whose
  -- body could be read.
  pub serve-keeps :
      (i : Incoming) (s : State)
      → ((body : Text)
          → i.body ≡ some body
          → ¬ ((before b'?' i.url ≡ lit "/action") × (i.method ≡ lit "POST")))
      → (serve h server i s).1 ≡ s
  unfolding serve
  serve-keeps i s not_action = grind (arith, body_keeps i s not_action)

  -- No request without the token of the environment sees the outcome log: it is answered with status
  -- 401, whatever its method and body.
  pub serve-unauthorized :
      (i : Incoming) (s : State)
      → before b'?' i.url ≡ lit "/internal/outcome-log"
      → ((token : Text)
          → if_not_empty (h.env (lit "TEE_INTERNAL_TOKEN")) ≡ some token
          → i.authorization ≢ lit "Bearer " ++ token)
      → serve h server i s ≡ (ok (reply 401 (error (lit "unauthorized") none)), s)
  unfolding serve
  serve-unauthorized i s at bad =
      let test = authorized_iff i.authorization in
      let here = same_iff (before b'?' i.url) (lit "/internal/outcome-log") in
      elim (Bool-cases (authorized h i.authorization)) [
        | inl passed ↦ let (token, found, given) = test.0 passed in absurd (bad token found given)
        | inr refused ↦ grind (arith, here.1 at)
      ]

  serve-authorized :
      (i : Incoming) (s : State)
      → authorized h i.authorization ≡ true
      → serve h server i s ≡ serve_body h server i s
  unfolding serve
  serve-authorized i s passed = ground arith

  process_outcome_log-all :
      (s : State) (token : Text)
      → if_not_empty (h.env (lit "TEE_INTERNAL_TOKEN")) ≡ some token
      → process_outcome_log h (lit "/internal/outcome-log") s
        ≡ reply 200
            (json (obj (field (lit "events") (arr (from_list (map outcome_json s.log))) end)))
  unfolding process_outcome_log includes starts_with get_all_outcomes
  process_outcome_log-all s token found = grind (arith, found)

  -- With the token, a GET of the outcome log whose URL has no query is answered with all the records
  -- of the log, in order, and leaves the state as it was.
  pub serve-outcomes :
      (token body : Text) (s : State)
      → if_not_empty (h.env (lit "TEE_INTERNAL_TOKEN")) ≡ some token
      → serve h server
          (record {
            method = lit "GET";
            url = lit "/internal/outcome-log";
            authorization = lit "Bearer " ++ token;
            body = some body;
          })
          s
        ≡ (
          ok (
              reply 200
                (json (obj (field (lit "events") (arr (from_list (map outcome_json s.log))) end)))),
          s,
        )
  unfolding serve_body handle_request route same before
  serve-outcomes token body s found =
      serve-authorized _ s ((authorized_iff (lit "Bearer " ++ token)).1 (token, found, refl))
      ∙ ap (λ r. (ok r, s)) (process_outcome_log-all s token found)
