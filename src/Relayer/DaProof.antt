-- ===== src/Relayer/DaProof.antt =====
-- scripts/relayer/fdc.ts: the proof of a round, from the relay contract and the data availability layer
-- (waitForDaProof). The wait for the round is a recursion on fuel; `none` is that it ran out.
pub mod Ends
use xrpl.Prelude.{
  ℕ, zero, suc, ◌+◌, ◌*◌, Bool, true, false, not, ◌||◌, List, [], ◌∷◌, ◌++◌, Option, none, some,
  ltb,
}
use xrpl.Js.Text.{Text, lit}
use xrpl.Js.Number.{Number}
use xrpl.Js.Number.Show.{number_text}
use xrpl.Js.BigInt.{ℤ, pos, big_int}
use xrpl.Js.Json.{
  Json, null, num, str, arr, obj, Items, nil, end, field, property, is_null, or_else, as_list,
  from_list,
}
use xrpl.Js.Json.Parse.{parse}
use xrpl.Js.Outcome.{Outcome, ok, throw, message, bad_json, bad_access, or_throw}
use xrpl.Js.Task.{Run, Task, ◌>>=◌, ◌>>◌, pure, raise, perform, lift}
use xrpl.Base.Server.{truthy}
use xrpl.Relayer.Chain.{Chain, Act, Arg, big_arg, read, posted, looked_at_clock}
use xrpl.Relayer.Fdc.{registry_address, pause}
use xrpl.Relayer.Wire.{without_slash, or_default, post}

pub record DaProof : Type 0 where
  pub response_hex : Json
  pub proof : List Json

-- `p.data?.key`
abbrev of_data : Text → Json → Option Json
of_data key p = elim (property (lit "data") p) [ none ↦ none | some d ↦ property key d ]

-- Whether the layer has answered with a response.
unfoldable pub has_response : Json → Bool
has_response p =
    truthy (property (lit "response_hex") p)
    || truthy (property (lit "responseHex") p)
    || truthy (of_data (lit "response_hex") p)
    || truthy (of_data (lit "responseHex") p)

-- The response of an answer.
unfoldable pub response_of : Json → Option Json
response_of p = or_else (property (lit "response_hex") p) (
    or_else (property (lit "responseHex") p)
      (or_else (of_data (lit "response_hex") p) (of_data (lit "responseHex") p)))

abbrev first_list : List (Option Json) → List Json
first_list [] = []
first_list (v ∷ vs) = elim (as_list v) [ some xs ↦ xs | none ↦ first_list vs ]

-- The Merkle proof of an answer, which is empty where there is none.
unfoldable pub merkle_of : Json → List Json
merkle_of p = first_list (
    property (lit "proof") p
    ∷ property (lit "merkleProof") p
    ∷ of_data (lit "proof") p
    ∷ of_data (lit "merkleProof") p
    ∷ (elim (property (lit "proof") p) [ none ↦ none | some q ↦ property (lit "merkleProof") q ])
    ∷ [])

-- `null` has no properties.
abbrev pub object_or_throw : Json → Outcome Json
object_or_throw p = elim (is_null p) [ true ↦ throw bad_access | false ↦ ok p ]

abbrev pub proof_of : Json → Outcome (Option DaProof)
proof_of p = elim (response_of p) [
  | none ↦ throw (message (lit "DA layer did not return response_hex"))
  | some v ↦ elim (truthy (some v)) [
    | true ↦ ok (some (record { response_hex = v; proof = merkle_of p }))
    | false ↦ throw (message (lit "DA layer did not return response_hex"))
  ]
]

module _ {W : Type 0} (c : Chain W) where
  -- The loop that waits for a round to be final.
  unfoldable pub await_final : Text → List Arg → Number → ℕ → ℕ → Task W Act Bool
  await_final relay args round_id deadline zero = pure false
  await_final relay args round_id deadline (suc n) = do
    final ←
        perform (λ _. read relay (lit "isFinalized")) (c.read_bool relay (lit "isFinalized") args)
    elim final [
      | true ↦ pure true
      | false ↦ do
        now ← perform (λ _. looked_at_clock) c.now
        elim (ltb deadline now) [
          | true ↦
              raise (message (lit "round " ++ number_text round_id ++ lit " not finalized in time"))
          | false ↦ pause c 10000 >> await_final relay args round_id deadline n
        ]
    ]

  -- The loop that asks the layer, with the number of rounds that are left and the last answer.
  unfoldable pub poll : Text → Json → ℕ → Json → Task W Act Json
  poll url payload zero last = pure last
  poll url payload (suc n) last = do
    res ← post c url none payload
    p ← lift (or_throw bad_json (parse res.body))
    q ← lift (object_or_throw p)
    elim (has_response q) [ true ↦ pure q | false ↦ pause c 5000 >> poll url payload n q ]

  abbrev pub proof_url : Text
  proof_url =
      without_slash (
        or_default (c.env (lit "FDC_DA_LAYER_URL"))
          (lit "https://ctn2-data-availability.flare.network"))
      ++ lit "/api/v1/fdc/proof-by-request-round-raw"

  abbrev pub proof_payload : Number → Text → Json
  proof_payload round_id request =
      obj
        (field (lit "votingRoundId") (num round_id) (field (lit "requestBytes") (str request) end))

  unfoldable pub fetch_proof : Text → Number → Task W Act (Option DaProof)
  fetch_proof request round_id = do
    answer ← poll proof_url (proof_payload round_id request) 36 (obj end)
    lift (proof_of answer)

  -- `waitForDaProof`, for so many looks at the round
  unfoldable pub wait_for_da_proof : ℕ → Text → Number → Task W Act (Option DaProof)
  wait_for_da_proof fuel request round_id = do
    relay ← registry_address c (lit "Relay")
    verif ← registry_address c (lit "FdcVerification")
    protocol ←
        perform (λ _. read verif (lit "fdcProtocolId")) (c.read_uint verif (lit "fdcProtocolId") [])
    now ← perform (λ _. looked_at_clock) c.now
    round ← lift (big_int round_id)
    final ←
        await_final relay (big_arg (pos protocol) ∷ big_arg round ∷ []) round_id
          (now + 8 * 60 * 1000) fuel
    elim final [ true ↦ fetch_proof request round_id | false ↦ pure none ]
