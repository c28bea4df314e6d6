-- ===== src/Matching/Signal.antt =====
-- fce-matching-engine/typescript/src/app/handlers.ts, `handleMirrorMatchStageB`: decrypting a signal
-- and checking its shape.
pub mod Checks
use xrpl.Prelude.{
  ℕ, Bool, true, false, not, ◌&&◌, ◌||◌, List, [], ◌∷◌, Option, none, some, ◌==◌, length,
}
use xrpl.Js.Text.{Text, lit, same, starts_with, to_lower_case}
use xrpl.Js.Number.{Number, of_ℕ, is_finite, le}
use xrpl.Js.Utf8.{Bytes, decode}
use xrpl.Js.Outcome.{Outcome, ok, throw, bad_access}
use xrpl.Js.Json.{
  Json, null, bool, num, str, arr, obj, property, is_null, is_object, as_text, as_number, as_list,
  or_else,
}
use xrpl.Js.Json.Parse.{parse}
use xrpl.Js.Json.Coerce.{string_of}
use xrpl.Base.Framework.{HandlerResult, refuse, refuse_with}
use xrpl.Base.Flow.{Flow, next, stop, fail, ◌>>=◌, ◌>>◌, require, return_if, or_return, attempt}
use xrpl.Base.Server.{hex_of_json}
use xrpl.Matching.Host.{Host}
use xrpl.Matching.OutcomeLog.{Direction, buy, sell}

abbrev pub is_text : Option Text → Text → Bool
is_text none t = false
is_text (some s) t = same s t

abbrev pub is_set : Option Text → Bool
is_set none = false
is_set (some _) = true

abbrev pub text_or : Option Text → Text → Text
text_or none t = t
text_or (some s) _ = s

module _ (h : Host) where
  abbrev pub decrypted : Bytes → Bool → Outcome Bytes → Flow HandlerResult Bytes
  decrypted ciphertext allowed (ok plain) = next plain
  decrypted ciphertext true (throw e) = next ciphertext
  decrypted ciphertext false (throw e) =
      stop (refuse_with (lit "decrypt failed (and fallback disabled): ") e)

  -- The plaintext: from the tee-node where there is one, or the bytes themselves where the
  -- environment allows that.
  unfoldable pub decrypt_signal : Json → Flow HandlerResult Bytes
  decrypt_signal msg = do
    ciphertext ←
        attempt (hex_of_json (some msg)) (refuse_with (lit "decoding request: invalid hex: "))
    elim (h.env (lit "SIGN_PORT")) [
      | some port ↦
          decrypted ciphertext (is_text (h.env (lit "FCE_PLAINTEXT_DECRYPT_FALLBACK")) (lit "1"))
            (h.decrypt port ciphertext)
      | none ↦ do
        require (is_text (h.env (lit "FCE_PLAINTEXT_DECRYPT_FALLBACK")) (lit "1"))
            (refuse (lit "decrypt unavailable (no SIGN_PORT) and fallback disabled"))
        next ciphertext
    ]

  -- `safeJsonParse`
  abbrev pub null_if_bad : Option Json → Json
  null_if_bad none = null
  null_if_bad (some v) = v

  unfoldable pub read_signal : Json → Flow HandlerResult Json
  read_signal msg = do
    plaintext ← decrypt_signal msg
    let parsed = null_if_bad (parse (decode plaintext))
    require (not (is_null parsed) && is_object parsed)
        (refuse (lit "decrypted payload: expected JSON object"))
    next parsed

  abbrev env_value : Text → Option Json
  env_value name = elim (h.env name) [ none ↦ none | some t ↦ some (str t) ]

  abbrev pub text_of : Option Json → Text
  text_of none = lit "undefined"
  text_of (some v) = string_of v

  unfoldable pub venue_hint : Json → Text
  venue_hint parsed = to_lower_case (
      text_of (
        or_else (property (lit "venue") parsed) (
          or_else (property (lit "strategyKind") parsed)
            (or_else (env_value (lit "EXECUTION_VENUE")) (some (str (lit "mock-sparkdex")))))))

-- The two mock venues.
pub data MockVenue : Type 0 where
  enosys_cdp firelight_strategy : MockVenue

unfoldable pub mock_venue : Text → Option MockVenue
mock_venue hint = elim (same hint (lit "enosys-cdp")) [
  | true ↦ some enosys_cdp
  | false ↦ elim (same hint (lit "firelight-strategy")) [
    | true ↦ some firelight_strategy
    | false ↦ none
  ]
]

pub record FollowerAlloc : Type 0 where
  pub address : Text
  pub allocation_bps : Number

-- `v.startsWith("0x") && v.length === 42`
unfoldable pub is_address : Text → Bool
is_address t = starts_with (lit "0x") t && (length t == 42)

abbrev pub is_positive : Number → Bool
is_positive x = not (le x (of_ℕ 0))

abbrev pub if_address : Option Text → Option Text
if_address none = none
if_address (some t) = elim (is_address t) [ true ↦ some t | false ↦ none ]

abbrev pub if_positive : Option Number → Option Number
if_positive none = none
if_positive (some x) = elim (is_positive x) [ true ↦ some x | false ↦ none ]

-- One round of the loop over `followers`. Reading a field of `null` throws.
unfoldable pub check_follower : Json → Flow HandlerResult FollowerAlloc
check_follower f = elim (is_null f) [
  | true ↦ fail bad_access
  | false ↦ do
    address ←
        or_return (if_address (as_text (property (lit "address") f)))
          (refuse (lit "followers[].address must be a 20-byte hex address"))
    bps ←
        or_return (if_positive (as_number (property (lit "allocationBps") f)))
          (refuse (lit "followers[].allocationBps must be positive"))
    next (record { address = address; allocation_bps = bps })
]

unfoldable pub check_followers : List Json → Flow HandlerResult (List FollowerAlloc)
check_followers [] = next []
check_followers (f ∷ fs) = check_follower f >>= λ a. check_followers fs >>= λ rest. next (a ∷ rest)

-- The followers, or the recipient with all of the position.
unfoldable pub check_targets : Json → Flow HandlerResult (List FollowerAlloc)
check_targets parsed = elim (as_list (property (lit "followers") parsed)) [
  | some (f ∷ fs) ↦ check_followers (f ∷ fs)
  | _ ↦ do
    recipient ←
        or_return (if_address (as_text (property (lit "recipient") parsed)))
          (refuse (lit "signal.recipient must be a 20-byte hex address string"))
    next (record { address = recipient; allocation_bps = of_ℕ 10000 } ∷ [])
]

abbrev pub direction_of : Option Text → Option Direction
direction_of none = none
direction_of (some t) = elim (same t (lit "BUY")) [
  | true ↦ some buy
  | false ↦ elim (same t (lit "SELL")) [ true ↦ some sell | false ↦ none ]
]

abbrev pub if_size : Option Number → Option Number
if_size none = none
if_size (some x) = elim (is_finite x && is_positive x) [ true ↦ some x | false ↦ none ]

-- A positive finite `sizePct`, in both kinds of venue.
unfoldable pub check_size : Json → Flow HandlerResult Number
check_size parsed =
    or_return (if_size (as_number (property (lit "sizePct") parsed)))
      (refuse (lit "signal.sizePct must be a positive number (bps)"))

pub record Signal : Type 0 where
  pub direction : Direction
  pub size_pct : Number
  pub targets : List FollowerAlloc

unfoldable pub check_signal : Json → Flow HandlerResult Signal
check_signal parsed = do
  require
      (is_text (as_text (property (lit "asset") parsed)) (lit "FXRP")
        || is_text (as_text (property (lit "asset") parsed)) (lit "USDT0"))
      (refuse (lit "signal.asset must be FXRP or USDT0"))
  direction ←
      or_return (direction_of (as_text (property (lit "direction") parsed)))
        (refuse (lit "signal.direction must be BUY or SELL"))
  size ← check_size parsed
  targets ← check_targets parsed
  next (record { direction = direction; size_pct = size; targets = targets })
