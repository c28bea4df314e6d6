-- ===== src/Relayer/Market.antt =====
-- scripts/relayer/fdc-web2json.ts: what the markets answer (fetchMarketContext).
use xrpl.Prelude.{true, false, List, [], ◌∷◌, ◌++◌, Option, none, some}
use xrpl.Js.Text.{Text, lit, is_empty}
use xrpl.Js.Number.{of_ℕ}
use xrpl.Js.Number.Show.{decimal}
use xrpl.Js.Json.{Json, null, bool, num, str, arr, obj, Items, nil, cons, property, or_else}
use xrpl.Js.Json.Parse.{parse}
use xrpl.Js.Outcome.{Outcome, ok, throw, message, bad_json, bad_access, or_throw}
use xrpl.Js.Task.{Task, ◌>>=◌, pure, raise, perform, catch, lift}
use xrpl.Relayer.Chain.{Chain, Act, Response, fetched}
use xrpl.Relayer.Wire.{without_slash, or_if_empty}
use xrpl.Relayer.DaProof.{object_or_throw}

-- What `fetchMarketContext` returns; the two numbers are what the services answer.
pub record Market : Type 0 where
  pub defillama_tvl_usd : Json
  pub coingecko_vol_hint : Json
  pub source_urls : List Text

unfoldable pub last_item : Items → Option Json
last_item nil = none
last_item (cons v nil) = some v
last_item (cons v (cons w vs)) = last_item (cons w vs)

-- `v[v.length - 1]`: a value that is no array has no last item.
abbrev pub last_of : Json → Outcome (Option Json)
last_of null = throw bad_access
last_of (bool b) = ok none
last_of (num n) = ok none
last_of (str s) = ok none
last_of (arr vs) = ok (last_item vs)
last_of (obj fs) = ok none

-- `v ?? 0`
abbrev or_zero : Option Json → Json
or_zero none = num (of_ℕ 0)
or_zero (some null) = num (of_ℕ 0)
or_zero (some v) = v

-- `v?.key ?? 0`
abbrev pub member_or_zero : Text → Option Json → Json
member_or_zero key none = num (of_ℕ 0)
member_or_zero key (some v) = or_zero (property key v)

-- A key that is set.
abbrev pub set_key : Option Text → Option Text
set_key none = none
set_key (some k) = elim (is_empty k) [ true ↦ none | false ↦ some k ]

abbrev pub coingecko_url : Option Text → Text
coingecko_url none =
    lit
      "https://api.coingecko.com/api/v3/simple/price?ids=ripple&vs_currencies=usd&include_24hr_vol=true"
coingecko_url (some key) =
    lit
      "https://pro-api.coingecko.com/api/v3/simple/price?ids=ripple&vs_currencies=usd&include_24hr_vol=true"

module _ {W : Type 0} (c : Chain W) where
  abbrev pub get : Text → Option Text → Task W Act Response
  get url key = perform (λ _. fetched url) (c.get url key)

  abbrev pub llama_url : Text
  llama_url =
      without_slash (or_if_empty (c.env (lit "DEFILLAMA_API_BASE")) (lit "https://api.llama.fi"))
      ++ lit "/v2/historicalChainTvl/Flare"

  -- The value of the last entry that DeFiLlama lists.
  unfoldable pub llama_tvl : Task W Act Json
  llama_tvl = do
    res ← get llama_url none
    elim res.is_ok [
      | false ↦ raise (message (lit "DeFiLlama HTTP " ++ decimal res.status))
      | true ↦ do
        listed ← lift (or_throw bad_json (parse res.body))
        last ← lift (last_of listed)
        pure (member_or_zero (lit "tvl") last)
    ]

  abbrev pub coingecko_key : Option Text
  coingecko_key = set_key (c.env (lit "COINGECKO_API_KEY"))

  -- The body of `try` in `fetchMarketContext`
  unfoldable pub coingecko_vol : Task W Act Json
  coingecko_vol = do
    res ← get (coingecko_url coingecko_key) coingecko_key
    elim res.is_ok [
      | false ↦ pure (num (of_ℕ 0))
      | true ↦ do
        j ← lift (or_throw bad_json (parse res.body))
        prices ← lift (object_or_throw j)
        pure (member_or_zero (lit "usd_24h_vol") (or_else (property (lit "ripple") prices) none))
    ]

  -- `fetchMarketContext`
  unfoldable pub fetch_market_context : Task W Act Market
  fetch_market_context = do
    tvl ← llama_tvl
    vol ← catch coingecko_vol λ _. pure (num (of_ℕ 0))
    pure (record {
      defillama_tvl_usd = tvl;
      coingecko_vol_hint = vol;
      source_urls = llama_url ∷ lit "https://api.coingecko.com/api/v3/simple/price" ∷ [];
    })
