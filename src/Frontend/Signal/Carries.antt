-- ===== src/Frontend/Signal/Carries.antt =====
-- encrypt.ts: the text of an encrypted signal, as the engine reads it.
use xrpl.Prelude.{◌≡◌, refl, sym, ap, ◌∙◌, some, arith, All, Bool-cases, inl, inr}
use xrpl.Js.Text.{Text, is_empty}
use xrpl.Js.Utf8.{Bytes}
use xrpl.Js.Outcome.{Outcome, ok, throw}
use xrpl.Base.Encoding.{hex_to_bytes, bytes_to_hex}
use xrpl.Base.Encoding.Hex.{IsByte, hex_to_bytes-bytes_to_hex}
use xrpl.Frontend.Signal.{
  SignalPayload, Browser, without_spaces, plaintext_of, hex_of, encrypt_with, encrypt_signal,
}

module _ {W : Type 0} (b : Browser W) where
  -- The engine reads a ciphertext of this key and payload from the text.
  abbrev pub Carries : Text → SignalPayload → Text → W → W → Type 0
  Carries public_key p hex w w' =
      (key : Bytes) × (cipher : Bytes) × (b.atob (without_spaces public_key) ≡ ok key)
      × (b.encrypt key (plaintext_of p) w ≡ (ok cipher, w'))
      × (hex_to_bytes (some hex) ≡ ok cipher)

  module _
      (bytes : (key plain : Bytes) (w w' : W) (cipher : Bytes)
        → b.encrypt key plain w ≡ (ok cipher, w')
        → All IsByte cipher) where
    hex_of-reads :
        (key plain : Bytes) (w w' : W) (hex : Text) (out : Outcome Bytes × W)
        → b.encrypt key plain w ≡ out
        → hex_of b out ≡ (ok hex, w')
        → (cipher : Bytes) × (out ≡ (ok cipher, w')) × (hex_to_bytes (some hex) ≡ ok cipher)
    hex_of-reads key plain w w' hex (throw e, v) run h = absurd (ground arith)
    hex_of-reads key plain w w' hex (ok cipher, v) run h =
        let same_hex : bytes_to_hex cipher ≡ hex = ground arith in
        let same_world : v ≡ w' = ap (λ x. x.1) h in
        (
          cipher,
          ap (λ x. (ok cipher, x)) same_world,
          ap (λ t. hex_to_bytes (some t)) (sym same_hex)
              ∙ hex_to_bytes-bytes_to_hex cipher (bytes key plain w v cipher run),
        )

    encrypt_with-Carries :
        (o : Outcome Bytes) (public_key : Text) (p : SignalPayload) (w w' : W) (hex : Text)
        → b.atob (without_spaces public_key) ≡ o
        → encrypt_with b o p w ≡ (ok hex, w')
        → Carries public_key p hex w w'
    encrypt_with-Carries (throw e) public_key p w w' hex read h = absurd (ground arith)
    encrypt_with-Carries (ok key) public_key p w w' hex read h =
        let (cipher, run, reads) = hex_of-reads key (plaintext_of p) w w' hex _ refl h in
        (key, cipher, read, run, reads)

    -- Where the encryption of the browser gives bytes, the text that encryptSignal returns is read by the
    -- engine as the ciphertext of the payload to the key that the base64 text holds.
    pub encrypt_signal-Carries :
        (p : SignalPayload) (public_key : Text) (w w' : W) (hex : Text)
        → encrypt_signal b p public_key w ≡ (ok hex, w')
        → Carries public_key p hex w w'
    unfolding encrypt_signal
    encrypt_signal-Carries p public_key w w' hex h = elim (Bool-cases (is_empty public_key)) [
      | inl empty ↦ absurd (grind (arith, empty))
      | inr given ↦
          encrypt_with-Carries (b.atob (without_spaces public_key)) public_key p w w' hex refl
            (sym (rw (given, encrypt_signal) refl) ∙ h)
    ]
