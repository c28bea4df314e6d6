-- ===== src/Frontend/Signal.antt =====
-- frontend/src/lib/encrypt.ts: a signal is encrypted to the engine (b64ToBuf, encryptSignal).
pub mod Carries
use xrpl.Prelude.{ℕ, ◌||◌, List, [], ◌∷◌, ◌==◌, true, false, if◌then◌else◌, ltb}
use xrpl.Js.Text.{Text, lit, is_empty}
use xrpl.Js.Number.{Number}
use xrpl.Js.Number.Read.{is_space}
use xrpl.Js.Utf8.{Bytes, encode}
use xrpl.Js.Json.{Json, str, num, obj, field, end}
use xrpl.Js.Json.Print.{stringify}
use xrpl.Js.Outcome.{Outcome, ok, throw, message}
use xrpl.Base.Encoding.{bytes_to_hex}

-- The payload of a signal.
pub record SignalPayload : Type 0 where
  pub asset : Text
  pub direction : Text
  pub size_pct : Number
  pub nonce : Text
  pub recipient : Text

-- The browser: `atob`, as bytes, and `importKey` with `encrypt` of RSA-OAEP, which takes its random
-- padding from a world.
pub record Browser (W : Type 0) : Type 0 where
  pub atob : Text → Outcome Bytes
  pub encrypt : Bytes → Bytes → W → Outcome Bytes × W

-- `s.replace(/\s+/g, "")`
unfoldable pub without_spaces : Text → Text
without_spaces [] = []
without_spaces (c ∷ s) = let rest = without_spaces s in if is_space c then rest else c ∷ rest

unfoldable pub payload_json : SignalPayload → Json
payload_json p = obj (
    field (lit "asset") (str p.asset) (
      field (lit "direction") (str p.direction) (
        field (lit "sizePct") (num p.size_pct)
          (field (lit "nonce") (str p.nonce) (field (lit "recipient") (str p.recipient) end)))))

abbrev pub plaintext_of : SignalPayload → Bytes
plaintext_of p = encode (stringify (payload_json p))

module _ {W : Type 0} (b : Browser W) where
  abbrev pub hex_of : Outcome Bytes × W → Outcome Text × W
  hex_of (throw e, w) = (throw e, w)
  hex_of (ok cipher, w) = (ok (bytes_to_hex cipher), w)

  abbrev pub encrypt_with : Outcome Bytes → SignalPayload → W → Outcome Text × W
  encrypt_with (throw e) p w = (throw e, w)
  encrypt_with (ok key) p w = hex_of (b.encrypt key (plaintext_of p) w)

  -- `encryptSignal`
  unfoldable pub encrypt_signal : SignalPayload → Text → W → Outcome Text × W
  unfolding without_spaces
  encrypt_signal p public_key w = elim (is_empty public_key) [
    | true ↦ (
      throw (message (lit "TEE encrypt public key missing. Set NEXT_PUBLIC_TEE_ENCRYPT_PUBKEY.")),
      w,
    )
    | false ↦ encrypt_with (b.atob (without_spaces public_key)) p w
  ]
