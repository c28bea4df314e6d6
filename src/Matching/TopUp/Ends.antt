-- ===== src/Matching/TopUp/Ends.antt =====
-- handlers.ts: how TOPUP_V1 may end on a message, spelled out.
use xrpl.Prelude.{[], none, suc, ℕ, ◌≡◌, ◌⊎◌, true, false, some}
use xrpl.Js.Text.{Text, lit, starts_with}
use xrpl.Js.Utf8.{Bytes, decode, encode}
use xrpl.Js.BigInt.{ℤ, pos, negsuc, big_int_of_text}
use xrpl.Js.Number.Show.{decimal}
use xrpl.Js.Outcome.{Outcome, ok, throw, Thrown, bad_access, bad_integer}
use xrpl.Js.Json.{Json, null, str, obj, end, field, property, as_text, or_else}
use xrpl.Base.Encoding.{bytes_to_hex}
use xrpl.Matching.Signal.{text_or, text_of}
use xrpl.Js.Json.Print.{stringify}
use xrpl.Js.Json.Parse.{parse}
use xrpl.Base.Framework.{HandlerResult}
use xrpl.Base.Server.{hex_of_json}
use xrpl.Matching.Host.{Host, supply}

-- A message whose bytes are JSON text for this value.
pub record Carries (msg v : Json) : Type 0 where
  pub bytes : Bytes
  pub hex : hex_of_json (some msg) ≡ ok bytes
  pub parsed : parse (decode bytes) ≡ some v

-- The fields of a message, with their defaults.
abbrev pub follower_in : Json → Text
follower_in v = text_or (as_text (property (lit "follower") v)) []

abbrev pub lead_in : Json → Text
lead_in v = text_or (as_text (property (lit "lead") v)) []

module _ (h : Host) where
  abbrev pub pool_in : Json → Text
  pool_in v =
      text_or (as_text (property (lit "kineticPool") v))
        (text_or (h.env (lit "MOCK_KINETIC_POOL_ADDRESS")) [])

  abbrev pub amount_in : Json → Outcome ℤ
  amount_in v =
      big_int_of_text (text_of h (or_else (property (lit "amountWei") v) (some (str (lit "0")))))

-- The payload of a supply, as hex of its JSON text.
abbrev pub supply_payload : (pool calldata follower lead : Text) → ℕ → Text
supply_payload pool calldata follower lead wei = bytes_to_hex (
    encode (
      stringify (
        obj (
          field (lit "to") (str pool) (
            field (lit "data") (str calldata) (
              field (lit "venue") (str (lit "mock-kinetic")) (
                field (lit "follower") (str follower) (
                  field (lit "lead") (str lead) (
                    field (lit "amountWei") (str (decimal wei))
                      (field (lit "op") (str (lit "TOPUP_V1")) end))))))))))

-- How TOPUP_V1 ends on a message.
pub data TopUpEnds (h : Host) (msg : Json) (out : Outcome HandlerResult) : Type 0 where
  unread :
      ((v : Json) → ¬ Carries msg v)
      → (r : HandlerResult) → out ≡ ok r
      → r.status ≡ 0
      → TopUpEnds h msg out
  of_null : Carries msg null → out ≡ throw bad_access → TopUpEnds h msg out
  bad_amount :
      (v : Json)
      → Carries msg v
      → amount_in h v ≡ throw bad_integer
      → out ≡ throw bad_integer
      → TopUpEnds h msg out
  invalid :
      (v : Json) (z : ℤ)
      → Carries msg v
      → amount_in h v ≡ ok z
      → (starts_with (lit "0x") (follower_in v) ≡ false)
        ⊎ (starts_with (lit "0x") (pool_in h v) ≡ false)
        ⊎ (z ≡ pos 0)
        ⊎ ((n : ℕ) × (z ≡ negsuc n))
      → (r : HandlerResult) → out ≡ ok r
      → r.status ≡ 0
      → TopUpEnds h msg out
  supplied :
      (v : Json) (n : ℕ) (calldata : Text)
      → Carries msg v
      → amount_in h v ≡ ok (pos (suc n))
      → starts_with (lit "0x") (follower_in v) ≡ true
      → starts_with (lit "0x") (pool_in h v) ≡ true
      → h.encode_call (supply (pos (suc n))) ≡ ok calldata
      → out
        ≡ ok (record {
          payload =
              some (supply_payload (pool_in h v) calldata (follower_in v) (lead_in v) (suc n));
          status = 1;
          error = none;
        })
      → TopUpEnds h msg out
  not_encoded :
      (v : Json) (n : ℕ) (e : Thrown)
      → Carries msg v
      → amount_in h v ≡ ok (pos (suc n))
      → starts_with (lit "0x") (follower_in v) ≡ true
      → starts_with (lit "0x") (pool_in h v) ≡ true
      → h.encode_call (supply (pos (suc n))) ≡ throw e
      → out ≡ throw e
      → TopUpEnds h msg out
