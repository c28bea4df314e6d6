-- ===== src/Matching/Swap/Quoted.antt =====
-- handlers.ts: the market that a signal is matched in, as the chain quotes it.
use xrpl.Prelude.{ℕ, ◌<◌, ◌≡◌, sym, ap, ◌∙◌, true, some, arith, inl, inr, Option-cases}
use xrpl.Js.Text.{Text, lit, starts_with}
use xrpl.Js.Outcome.{ok, Outcome-cases}
use xrpl.Base.Flow.{next}
use xrpl.Base.Flow.Ends.{Flow-cases}
use xrpl.Matching.Host.{Host, Chain}
use xrpl.Matching.Swap.{
  usdt0_usd_feed_id, fxrp_usd_feed_id, Market, read_market, read_prices, resolve_token, registry,
  if_hex, if_not_empty,
}

-- The token of a name: an address of the environment, or what the asset manager of the registry answers.
pub data TokenIs (h : Host) (c : Chain) (variable manager token : Text) : Type 0 where
  configured :
      (a : Text)
      → h.env variable ≡ some a
      → starts_with (lit "0x") a ≡ true
      → h.get_address a ≡ ok token
      → TokenIs h c variable manager token
  managed :
      (at asset_manager : Text)
      → h.get_address (lit "0xaD67FE66660Fb8dFE9d6b1b4240d8650e30F6019") ≡ ok at
      → c.contract_address at manager ≡ ok asset_manager
      → c.f_asset asset_manager ≡ ok token
      → TokenIs h c variable manager token

-- The market is what the chain behind FLARE_RPC_URL answers, and neither price is zero.
pub record IsQuoted (h : Host) (m : Market) : Type 0 where
  pub rpc_url : Text
  pub is_set : h.env (lit "FLARE_RPC_URL") ≡ some rpc_url
  pub at : Text
  pub oracle : Text
  pub fxrp_time : ℕ
  pub usdt0_time : ℕ
  pub is_registry : h.get_address (lit "0xaD67FE66660Fb8dFE9d6b1b4240d8650e30F6019") ≡ ok at
  pub is_oracle : (h.chain rpc_url).contract_address at (lit "FtsoV2") ≡ ok oracle
  pub fxrp_price :
      (h.chain rpc_url).feed oracle (lit "0x015852502f55534400000000000000000000000000")
      ≡ ok (m.fxrp_usd, fxrp_time)
  pub usdt0_price :
      (h.chain rpc_url).feed oracle (lit "0x01555344542f555344000000000000000000000000")
      ≡ ok (m.usdt0_usd, usdt0_time)
  pub priced : (0 < m.fxrp_usd) × (0 < m.usdt0_usd)
  pub fxrp :
      TokenIs h (h.chain rpc_url) (lit "C2_FXRP_ADDRESS") (lit "AssetManagerFXRP") m.fxrp_token
  pub usdt0 :
      TokenIs h (h.chain rpc_url) (lit "C2_USDT0_ADDRESS") (lit "AssetManagerUSDT0") m.usdt0_token

module _ (h : Host) (c : Chain) where
  resolve_token-TokenIs :
      (variable manager token : Text)
      → resolve_token h c variable manager ≡ next token
      → TokenIs h c variable manager token
  unfolding resolve_token registry
  resolve_token-TokenIs variable manager token e = elim (Option-cases (if_hex (h.env variable))) [
    | inr (a, is_hex) ↦ configured a (ground arith) (ground arith) (ground arith)
    | inl not_hex ↦
        elim (Outcome-cases (h.get_address (lit "0xaD67FE66660Fb8dFE9d6b1b4240d8650e30F6019"))) [
          | inr (x, bad) ↦ absurd (ground arith)
          | inl (at, is_at) ↦ elim (Outcome-cases (c.contract_address at manager)) [
            | inr (x, bad) ↦ absurd (ground arith)
            | inl (am, is_am) ↦ managed at am is_at is_am (ground arith)
          ]
        ]
  ]

  -- The prices of a chain, with the oracle that answers them.
  read_prices-inv :
      (p : ℕ × ℕ)
      → read_prices h c ≡ next p
      → (at : Text) × (oracle : Text) × (t : ℕ) × (u : ℕ) × (h.get_address
            (lit "0xaD67FE66660Fb8dFE9d6b1b4240d8650e30F6019")
          ≡ ok at)
        × (c.contract_address at (lit "FtsoV2") ≡ ok oracle)
        × (c.feed oracle (lit "0x015852502f55534400000000000000000000000000") ≡ ok (p.0, t))
        × (c.feed oracle (lit "0x01555344542f555344000000000000000000000000") ≡ ok (p.1, u))
        × (0 < p.0)
        × (0 < p.1)
  unfolding read_prices registry fxrp_usd_feed_id usdt0_usd_feed_id
  read_prices-inv p e =
      elim (Outcome-cases (h.get_address (lit "0xaD67FE66660Fb8dFE9d6b1b4240d8650e30F6019"))) [
        | inr (x, bad) ↦ absurd (ground arith)
        | inl (at, is_at) ↦ elim (Outcome-cases (c.contract_address at (lit "FtsoV2"))) [
          | inr (x, bad) ↦ absurd (ground arith)
          | inl (oracle, is_oracle) ↦
              elim (Outcome-cases
                (c.feed oracle (lit "0x015852502f55534400000000000000000000000000"))) [
                  | inr (x, bad) ↦ absurd (ground arith)
                  | inl ((n, t), is_n) ↦
                      elim (Outcome-cases
                        (c.feed oracle (lit "0x01555344542f555344000000000000000000000000"))) [
                          | inr (x, bad) ↦ absurd (ground arith)
                          | inl ((k, u), is_k) ↦
                              let pair : p ≡ (n, k) = ground arith in
                              let first : 0 < p.0 = ground arith in
                              let second : 0 < p.1 = ground arith in
                              (
                                at,
                                oracle,
                                t,
                                u,
                                is_at,
                                is_oracle,
                                is_n ∙ ap (λ q. ok (q.0, t)) (sym pair),
                                is_k ∙ ap (λ q. ok (q.1, u)) (sym pair),
                                first,
                                second,
                              )
                        ]
                ]
        ]
      ]

module _ (h : Host) where
  pub read_market-IsQuoted : (m : Market) → read_market h ≡ next m → IsQuoted h m
  unfolding read_market
  read_market-IsQuoted m e = elim (Option-cases (if_not_empty (h.env (lit "FLARE_RPC_URL")))) [
    | inl missing ↦ absurd (ground arith)
    | inr (url, is_url) ↦
        let c = h.chain url in
        let fxrp = lit "C2_FXRP_ADDRESS" in
        let usdt0 = lit "C2_USDT0_ADDRESS" in
        elim (Flow-cases (read_prices h c)) [
          | inr none_next ↦ absurd (grind (arith, none_next))
          | inl (p, is_p) ↦ elim (Flow-cases (resolve_token h c fxrp (lit "AssetManagerFXRP"))) [
            | inr none_next ↦ absurd (grind (arith, none_next))
            | inl (f, is_f) ↦
                elim (Flow-cases (resolve_token h c usdt0 (lit "AssetManagerUSDT0"))) [
                  | inr none_next ↦ absurd (grind (arith, none_next))
                  | inl (u, is_u) ↦
                      let made : Market = record {
                        fxrp_usd = p.0;
                        usdt0_usd = p.1;
                        fxrp_token = f;
                        usdt0_token = u;
                      } in
                      let is_m : made ≡ m = grind (arith, is_p, is_f, is_u) in
                      rw⁻¹ is_m (quoted url p f u (ground arith) is_p is_f is_u)
                ]
          ]
        ]
  ]
    where
      quoted :
          (url : Text) (p : ℕ × ℕ) (f u : Text)
          → h.env (lit "FLARE_RPC_URL") ≡ some url
          → read_prices h (h.chain url) ≡ next p
          → resolve_token h (h.chain url) (lit "C2_FXRP_ADDRESS") (lit "AssetManagerFXRP") ≡ next f
          → resolve_token h (h.chain url) (lit "C2_USDT0_ADDRESS") (lit "AssetManagerUSDT0")
            ≡ next u
          → IsQuoted h (record { fxrp_usd = p.0; usdt0_usd = p.1; fxrp_token = f; usdt0_token = u })
      quoted url p f u is_set is_p is_f is_u =
          let (at, oracle, t, v, is_at, is_oracle, is_n, is_k, fxrp_set, usdt0_set) =
            read_prices-inv h (h.chain url) p is_p in
          record {
            rpc_url = url;
            is_set = is_set;
            at = at;
            oracle = oracle;
            fxrp_time = t;
            usdt0_time = v;
            is_registry = is_at;
            is_oracle = is_oracle;
            fxrp_price = is_n;
            usdt0_price = is_k;
            priced = (fxrp_set, usdt0_set);
            fxrp = resolve_token-TokenIs h (h.chain url) _ _ f is_f;
            usdt0 = resolve_token-TokenIs h (h.chain url) _ _ u is_u;
          }
