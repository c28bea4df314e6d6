-- ===== src/Relayer/Web2Json.antt =====
-- scripts/relayer/fdc-web2json.ts: attestations of what a public address answers (prepareWeb2JsonRequest,
-- fetchMarketContext, attestDefiLlamaTvl, attestCoinGeckoFxrpVol). `none` is that the looks at the round
-- ran out.
pub mod Hints
use xrpl.Prelude.{ℕ, Bool, true, false, List, [], ◌∷◌, ◌++◌, Option, none, some}
use xrpl.Js.Text.{Text, lit, is_empty}
use xrpl.Js.Number.{Number, of_ℕ}
use xrpl.Js.Number.Show.{decimal}
use xrpl.Js.Json.{
  Json, null, bool, num, str, arr, obj, Items, nil, cons, end, field, property, or_else,
}
use xrpl.Js.Json.Parse.{parse}
use xrpl.Js.Json.Print.{stringify}
use xrpl.Js.Outcome.{Outcome, ok, throw, message, bad_json, bad_access, or_throw}
use xrpl.Js.Task.{Run, Task, ◌>>=◌, ◌>>◌, pure, raise, perform, catch, lift}
use xrpl.Relayer.Chain.{Chain, Act, Response, fetched}
use xrpl.Relayer.Wire.{
  to_utf8_bytes32, without_slash, or_default, or_if_empty, verifier_base, api_key, post,
}
use xrpl.Relayer.Fdc.{request_attestation, Submitted}
use xrpl.Relayer.DaProof.{DaProof, wait_for_da_proof, object_or_throw}
use xrpl.Relayer.Attest.{encoded, clients_from_env}
use xrpl.Relayer.Market.{Market, coingecko_url, coingecko_key, llama_url, fetch_market_context}

-- The options of `prepareWeb2JsonRequest`.
pub record WebRequest : Type 0 where
  pub url : Text
  pub post_process_jq : Text
  pub abi_signature : Text
  pub http_method : Option Text
  pub headers : Option Text
  pub query_params : Option Text
  pub body : Option Text

unfoldable pub web_request_body : WebRequest → Json
unfolding to_utf8_bytes32
web_request_body q = obj (
    field (lit "attestationType") (str (to_utf8_bytes32 (lit "Web2Json"))) (
      field (lit "sourceId") (str (to_utf8_bytes32 (lit "PublicWeb2"))) (
        field (lit "requestBody")
          (obj (
            field (lit "url") (str q.url) (
              field (lit "httpMethod") (str (or_default q.http_method (lit "GET"))) (
                field (lit "headers") (str (or_default q.headers (lit "{}"))) (
                  field (lit "queryParams") (str (or_default q.query_params (lit "{}"))) (
                    field (lit "body") (str (or_default q.body (lit "{}"))) (
                      field (lit "postProcessJq") (str q.post_process_jq)
                        (field (lit "abiSignature") (str q.abi_signature) end))))))))
          end)))

abbrev key_headers : Option Text → Text
key_headers none = lit "{}"
key_headers (some key) = stringify (obj (field (lit "x-cg-pro-api-key") (str key) end))

-- An attestation, with the Merkle proof and the response of the layer.
pub record Attested : Type 0 where
  pub attestation_id : Text
  pub round_id : Number
  pub merkle_proof : List Json
  pub response_hex : Json

pub record AttestedTvl : Type 0 where
  pub attested : Attested
  pub market : Market

pub record AttestedVol : Type 0 where
  pub attested : Attested
  pub volume_usd : Json
  pub url : Text

module _ {W : Type 0} (c : Chain W) where
  -- `prepareWeb2JsonRequest`
  unfoldable pub prepare_web2_json_request : WebRequest → Task W Act Json
  prepare_web2_json_request q = do
    res ←
        post c (verifier_base c ++ lit "/verifier/web2/Web2Json/prepareRequest") (some (api_key c))
          (web_request_body q)
    elim res.is_ok [
      | true ↦ lift (or_throw bad_json (parse res.body))
      | false ↦ raise (
          message
            (lit "Web2Json prepareRequest failed " ++ decimal res.status ++ lit ": " ++ res.body))
    ]

  unfoldable pub finish_web :
      (Json → Outcome Text) → Submitted → Option DaProof → Task W Act (Option Attested)
  finish_web attestation_id submitted none = pure none
  finish_web attestation_id submitted (some raw) = do
    id ← lift (attestation_id raw.response_hex)
    pure (
        some (record {
          attestation_id = id;
          round_id = submitted.round_id;
          merkle_proof = raw.proof;
          response_hex = raw.response_hex;
        }))

  -- The path that the two attestations share, with `keccak256(toBytes(…))` of a response.
  unfoldable pub attest_web : (Json → Outcome Text) → ℕ → WebRequest → Task W Act (Option Attested)
  attest_web attestation_id fuel q = do
    lift (clients_from_env c)
    p ← prepare_web2_json_request q
    prepared ← lift (object_or_throw p)
    request ← lift (encoded (property (lit "abiEncodedRequest") prepared))
    submitted ← request_attestation c request
    raw ← wait_for_da_proof c fuel request submitted.round_id
    finish_web attestation_id submitted raw

  abbrev pub tvl_request : WebRequest
  tvl_request = record {
    url = llama_url c;
    post_process_jq = lit ".|length";
    abi_signature = lit "uint256";
    http_method = none;
    headers = none;
    query_params = none;
    body = none;
  }

  abbrev pub with_market : Market → Option Attested → Option AttestedTvl
  with_market m none = none
  with_market m (some a) = some (record { attested = a; market = m })

  -- `attestDefiLlamaTvl`
  unfoldable pub attest_defi_llama_tvl : (Json → Outcome Text) → ℕ → Task W Act (Option AttestedTvl)
  attest_defi_llama_tvl attestation_id fuel = do
    market ← fetch_market_context c
    a ← attest_web attestation_id fuel tvl_request
    pure (with_market market a)

  abbrev pub vol_request : WebRequest
  vol_request = record {
    url = coingecko_url (coingecko_key c);
    post_process_jq = lit ".ripple.usd_24h_vol // 0 | floor";
    abi_signature = lit "uint256";
    http_method = some (lit "GET");
    headers = some (key_headers (coingecko_key c));
    query_params = none;
    body = none;
  }

  -- The best-effort hint of `attestCoinGeckoFxrpVol`
  unfoldable pub volume_hint : Task W Act Json
  volume_hint =
      catch (fetch_market_context c >>= λ m. pure m.coingecko_vol_hint) λ _. pure (num (of_ℕ 0))

  unfoldable pub with_volume : Option Attested → Task W Act (Option AttestedVol)
  with_volume none = pure none
  with_volume (some a) = do
    volume ← volume_hint
    pure
        (some (record { attested = a; volume_usd = volume; url = coingecko_url (coingecko_key c) }))

  -- `attestCoinGeckoFxrpVol`
  unfoldable pub attest_coin_gecko_fxrp_vol :
      (Json → Outcome Text) → ℕ → Task W Act (Option AttestedVol)
  attest_coin_gecko_fxrp_vol attestation_id fuel = do
    a ← attest_web attestation_id fuel vol_request
    with_volume a
