-- ===== src/Relayer/Wire/Bytes32.antt =====
-- fdc.ts: the bytes32 texts of `toUtf8Bytes32` against those of the extension's encoding.
use xrpl.Prelude.{
  ℕ, zero, suc, ◌-◌, ◌*◌, ◌/◌, ◌%◌, ◌≤◌, ◌≡◌, refl, ap, [], ◌∷◌, ◌++◌, arith, All, length,
  replicate,
}
use xrpl.Js.Text.{Text}
use xrpl.Js.Utf8.Ascii.{IsAscii, encode_of_ascii}
use xrpl.Js.Outcome.{ok}
use xrpl.Base.Encoding.{hex_digit, hex_pairs, bytes_to_hex, string_to_bytes32_hex}
use xrpl.Relayer.Wire.{hex_unit, hex_units, to_utf8_bytes32}

hex_unit_of_ascii : (c : ℕ) → IsAscii c → hex_unit c ≡ hex_digit (c / 16) ∷ hex_digit (c % 16) ∷ []
unfolding hex_unit
hex_unit_of_ascii c h = let small : c / 16 % 16 ≡ c / 16 = omega arith in rw small (ground arith)

hex_units_of_ascii : (s : Text) → All IsAscii s → hex_units s ≡ hex_pairs s
unfolding hex_units hex_pairs
hex_units_of_ascii [] h = refl
hex_units_of_ascii (c ∷ s) (a, h) = rw (hex_unit_of_ascii c a, hex_units_of_ascii s h) refl

length-hex_pairs : (s : Text) → length (hex_pairs s) ≡ 2 * length s
unfolding hex_pairs
length-hex_pairs [] = refl
length-hex_pairs (c ∷ s) = omega (arith, length-hex_pairs s)

hex_pairs-append : (s t : Text) → hex_pairs (s ++ t) ≡ hex_pairs s ++ hex_pairs t
unfolding hex_pairs
hex_pairs-append [] t = refl
hex_pairs-append (c ∷ s) t =
    ap (λ u. hex_digit (c / 16) ∷ hex_digit (c % 16) ∷ u) (hex_pairs-append s t)

hex_pairs-zeros : (n : ℕ) → hex_pairs (replicate n 0) ≡ replicate (2 * n) b'0'
unfolding hex_pairs hex_digit
hex_pairs-zeros zero = refl
hex_pairs-zeros (suc n) =
    let twice : 2 * suc n ≡ suc (suc (2 * n)) = omega arith in rw (twice, hex_pairs-zeros n) refl

-- On an ASCII text of at most 32 characters, the relayer and the extension build the same bytes32
-- text, though the one reads code units and checks no length, and the other reads UTF-8 bytes.
pub to_utf8_bytes32-eq :
    (s : Text) → All IsAscii s → length s ≤ 32 → string_to_bytes32_hex s ≡ ok (to_utf8_bytes32 s)
unfolding string_to_bytes32_hex to_utf8_bytes32 bytes_to_hex
to_utf8_bytes32-eq s h short =
    let padding : 64 - length (hex_pairs s) ≡ 2 * (32 - length s) =
      omega (arith, length-hex_pairs s) in
    let body : hex_pairs (s ++ replicate (32 - length s) 0)
        ≡ hex_units s ++ replicate (64 - length (hex_units s)) b'0' =
      rw
        (
          hex_units_of_ascii s h,
          padding,
          hex_pairs-append s (replicate (32 - length s) 0),
          hex_pairs-zeros (32 - length s),
        )
        refl in
    rw (encode_of_ascii s h) (grind (arith, body))
