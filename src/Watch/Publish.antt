-- ===== src/Watch/Publish.antt =====
-- scripts/ai-agent/publish-scores.ts: the publication of a score on the leaderboard (publishScore).
use xrpl.Prelude.{◌≡◌, refl, Bool, true, false, ◌||◌, ◌⊎◌, ◌++◌, Option, none, some, arith}
use xrpl.Js.Text.{Text, lit, same, is_empty}
use xrpl.Js.Number.{Number, of_ℕ, lt, le, is_nan}
use xrpl.Js.Json.{Json, property, is_null}
use xrpl.Js.Outcome.{Outcome, ok, throw, message, bad_access}
use xrpl.Js.Task.{Task, ◌>>=◌, ◌>>◌, pure, raise, perform, lift}
use xrpl.Js.Task.Acts.{
  EachAct, EachAct-pure, EachAct-raise, EachAct-bind, EachAct-perform, EachAct-test, EachAct-lift,
}

-- The leaderboard and what the script reads: `none` is a variable that is not set, or `undefined`.
pub record Leaderboard (W : Type 0) : Type 0 where
  pub env : Text → Option Text
  pub read_config : W → Outcome Json × W
  pub get_address : Option Json → Outcome Text
  -- `updateScore` at an address
  pub update_score : Text → Text → Number → Text → W → Outcome Text × W
  -- the status of a receipt
  pub receipt_status : Text → W → Outcome Text × W

pub data PublishAct : Type 0 where
  read_config_file : PublishAct
  updated : (leaderboard lead : Text) → (score : Number) → (attestation_id : Text) → PublishAct
  awaited : Text → PublishAct

pub record Published : Type 0 where
  pub hash : Text
  pub leaderboard : Text

-- `score < 0 || score > 100`
unfoldable pub is_out_of_range : Number → Bool
is_out_of_range score = lt score (of_ℕ 0) || lt (of_ℕ 100) score

abbrev key_or_throw : Option Text → Outcome Text
key_or_throw none = throw (message (lit "Missing PERSONA_AI_AGENT_SIGNER_PRIVATE_KEY"))
key_or_throw (some pk) = elim (is_empty pk) [
  | true ↦ throw (message (lit "Missing PERSONA_AI_AGENT_SIGNER_PRIVATE_KEY"))
  | false ↦ ok pk
]

-- `cfg.contracts.mirrorLeaderboard`
abbrev contracts_of : Json → Outcome Json
contracts_of config = elim (is_null config) [
  | true ↦ throw bad_access
  | false ↦ elim (property (lit "contracts") config) [
    | none ↦ throw bad_access
    | some v ↦ elim (is_null v) [ true ↦ throw bad_access | false ↦ ok v ]
  ]
]

module _ {W : Type 0} (h : Leaderboard W) where
  unfoldable pub send_score : Text → Text → Number → Text → Task W PublishAct Published
  send_score board lead score attestation_id = do
    hash ←
        perform (λ _. updated board lead score attestation_id)
          (h.update_score board lead score attestation_id)
    status ← perform (λ _. awaited hash) (h.receipt_status hash)
    elim (same status (lit "success")) [
      | true ↦ pure (record { hash = hash; leaderboard = board })
      | false ↦ raise (message (lit "updateScore reverted " ++ hash))
    ]

  -- `publishScore`
  unfoldable pub publish_score : Text → Number → Text → Task W PublishAct Published
  publish_score lead score attestation_id = do
    lift (key_or_throw (h.env (lit "PERSONA_AI_AGENT_SIGNER_PRIVATE_KEY")))
    config ← perform (λ _. read_config_file) h.read_config
    contracts ← lift (contracts_of config)
    board ← lift (h.get_address (property (lit "mirrorLeaderboard") contracts))
    elim (is_out_of_range score) [
      | true ↦ raise (message (lit "score out of range"))
      | false ↦ send_score board lead score attestation_id
    ]

-- An update is of this lead and attestation, with a score from 0 to 100, or NaN.
abbrev pub IsInRange : Text → Text → PublishAct → Type 0
IsInRange lead attestation_id (updated board l score a) =
    (l ≡ lead)
    × (a ≡ attestation_id)
    × ((is_nan score ≡ true) ⊎ ((le (of_ℕ 0) score ≡ true) × (le score (of_ℕ 100) ≡ true)))
IsInRange lead attestation_id _ = Unit

in_range-cases :
    (score : Number)
    → is_out_of_range score ≡ false
    → (is_nan score ≡ true) ⊎ ((le (of_ℕ 0) score ≡ true) × (le score (of_ℕ 100) ≡ true))
unfolding is_out_of_range le is_nan
in_range-cases score h = ground arith

module _ {W : Type 0} (h : Leaderboard W) where
  send_score-IsInRange :
      (board lead : Text) (score : Number) (attestation_id : Text)
      → is_out_of_range score ≡ false
      → EachAct (IsInRange lead attestation_id) (send_score h board lead score attestation_id)
  unfolding send_score
  send_score-IsInRange board lead score attestation_id range =
      EachAct-bind _ _ (EachAct-perform _ _ λ o. (refl, refl, in_range-cases score range)) λ hash.
        EachAct-bind _ _ (EachAct-perform _ _ λ o. tt) λ status.
          EachAct-test (same status (lit "success")) _ _ (EachAct-pure _) (EachAct-raise _)

  last_step :
      (b : Bool) (board lead : Text) (score : Number) (attestation_id : Text)
      → is_out_of_range score ≡ b
      → EachAct {W = W} (IsInRange lead attestation_id) (elim b [
        | true ↦ raise (message (lit "score out of range"))
        | false ↦ send_score h board lead score attestation_id
      ])
  last_step true board lead score attestation_id range = EachAct-raise _
  last_step false board lead score attestation_id range =
      send_score-IsInRange board lead score attestation_id range

  -- Whatever score it is called with, the script updates the leaderboard for the lead and the attestation
  -- that it is given, and with a score from 0 to 100 or with NaN.
  pub publish_score-IsInRange :
      (lead : Text) (score : Number) (attestation_id : Text)
      → EachAct (IsInRange lead attestation_id) (publish_score h lead score attestation_id)
  unfolding publish_score
  publish_score-IsInRange lead score attestation_id = EachAct-bind _ _ (EachAct-lift _) λ _.
      EachAct-bind _ _ (EachAct-perform _ _ λ o. tt) λ config.
        EachAct-bind _ _ (EachAct-lift _) λ contracts.
          EachAct-bind _ _ (EachAct-lift _)
            λ board. last_step (is_out_of_range score) board lead score attestation_id refl
