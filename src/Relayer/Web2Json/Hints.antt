-- ===== src/Relayer/Web2Json/Hints.antt =====
-- fdc-web2json.ts: what the answers of the markets decide, and what they do not.
use xrpl.Prelude.{ℕ, ◌≡◌, refl, ap, ◌∙◌, some}
use xrpl.Js.Text.{Text}
use xrpl.Js.Number.{of_ℕ}
use xrpl.Js.Json.{Json, num}
use xrpl.Js.Outcome.{Outcome, ok, throw}
use xrpl.Js.Task.{Run, Task, ◌>>=◌, pure, catch, after, otherwise}
use xrpl.Js.Task.Returns.{Returns}
use xrpl.Relayer.Chain.{Chain, Act}
use xrpl.Relayer.Market.{Market, llama_tvl, coingecko_vol, fetch_market_context}
use xrpl.Relayer.Web2Json.{
  Attested, AttestedVol, volume_hint, with_volume, attest_web, vol_request,
  attest_coin_gecko_fxrp_vol,
}

module _ {W E : Type 0} where
  -- A task whose errors are caught by a value always returns.
  always :
      {A : Type 0} (a : A) (out : Outcome A × Run W E)
      → (b : A) × (otherwise (λ _. pure a) out ≡ (ok b, out.1))
  unfolding pure
  always a (ok b, r) = (b, refl)
  always a (throw e, r) = (a, refl)

  Returns-then :
      {A B : Type 0} (m : Task W E A) (f : A → Task W E B) (r s t : Run W E) (a : A) (b : B)
      → Returns m r a s
      → Returns (f a) s b t
      → Returns (m >>= f) r b t
  unfolding ◌>>=◌
  Returns-then m f r s t a b h k = record { run = ap (after f) h.run ∙ k.run }

module _ {W : Type 0} (c : Chain W) where
  -- Where DeFiLlama has listed a value, the context of the market is returned with it, whatever CoinGecko
  -- answers.
  pub fetch_market_context-Returns :
      (r s : Run W Act) (tvl : Json)
      → Returns (llama_tvl c) r tvl s
      → (m : Market) × (t : Run W Act) × Returns (fetch_market_context c) r m t
        × (m.defillama_tvl_usd ≡ tvl)
  unfolding fetch_market_context ◌>>=◌ catch pure
  fetch_market_context-Returns r s tvl h =
      let (vol, caught) = always (num (of_ℕ 0)) (coingecko_vol c s) in
      (_, _, record { run = ap (after _) h.run ∙ ap (after _) caught }, refl)

  volume_hint-Returns :
      (r : Run W Act) → (volume : Json) × (s : Run W Act) × Returns (volume_hint c) r volume s
  unfolding volume_hint catch
  volume_hint-Returns r =
      let (volume, caught) =
        always (num (of_ℕ 0)) ((fetch_market_context c >>= λ m. pure m.coingecko_vol_hint) r) in
      (volume, _, record { run = caught })

  -- Once the proof of an attestation for CoinGecko is there, the attestation is returned with it, whatever
  -- the markets answer to the best-effort hint.
  pub attest_coin_gecko_fxrp_vol-Returns :
      (attestation_id : Json → Outcome Text) (fuel : ℕ) (a : Attested) (r s : Run W Act)
      → Returns (attest_web c attestation_id fuel (vol_request c)) r (some a) s
      → (v : AttestedVol) × (t : Run W Act) × Returns
          (attest_coin_gecko_fxrp_vol c attestation_id fuel)
          r
          (some v)
          t
        × (v.attested ≡ a)
  unfolding attest_coin_gecko_fxrp_vol with_volume pure
  attest_coin_gecko_fxrp_vol-Returns attestation_id fuel a r s h =
      let (volume, t, hinted) = volume_hint-Returns s in
      (
        _,
        t,
        Returns-then _ _ _ _ _ _ _ h (Returns-then _ _ _ _ _ _ _ hinted (record { run = refl })),
        refl,
      )
