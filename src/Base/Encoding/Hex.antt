-- ===== src/Base/Encoding/Hex.antt =====
-- encoding.ts: what `hexToBytes` accepts, and its round trips with `bytesToHex`.
use xrpl.Prelude.{
  ℕ, ◌*◌, ◌/◌, ◌%◌, ◌<◌, ◌≡◌, refl, sym, ◌↔◌, ap, true, [], ◌∷◌, ◌++◌, some, arith, length, All,
  all,
}
use xrpl.Js.Text.{Text, lit, lower, to_lower_case}
use xrpl.Js.Utf8.{Bytes}
use xrpl.Js.Outcome.{ok}
use xrpl.Base.Encoding.{
  is_hex, hex_value, hex_digit, byte_pairs, hex_pairs, bytes_to_hex, strip_prefix, decode_digits,
  hex_to_bytes,
}

abbrev pub IsByte : ℕ → Type 0
IsByte b = b < 256

digit_lem : (d : ℕ) → d < 16 → (is_hex (hex_digit d) ≡ true) × (hex_value (hex_digit d) ≡ d)
unfolding is_hex hex_digit hex_value
digit_lem d h = ground arith

hex_digit-hex_value : (c : ℕ) → is_hex c ≡ true → hex_digit (hex_value c) ≡ lower c
unfolding is_hex hex_digit hex_value lower
hex_digit-hex_value c h = ground arith

hex_value-lt : (c : ℕ) → is_hex c ≡ true → hex_value c < 16
unfolding is_hex hex_value
hex_value-lt c h = ground arith

-- A character whose lower case is the digit of `d` is a digit of the same value.
digit_of_lower : (c d : ℕ) → d < 16 → hex_digit d ≡ lower c → (is_hex c ≡ true) × (hex_value c ≡ d)
unfolding is_hex hex_digit hex_value lower
digit_of_lower c d h e = ground arith

pub length-hex_pairs : (bs : Bytes) → length (hex_pairs bs) ≡ 2 * length bs
unfolding hex_pairs
length-hex_pairs [] = refl
length-hex_pairs (b ∷ bs) = omega (arith, length-hex_pairs bs)

-- Canonical digits come only from digits, in even number, and these decode to the same bytes.
pairs_of_lower :
    (s : Text) (bs : Bytes)
    → All IsByte bs
    → hex_pairs bs ≡ to_lower_case s
    → (all is_hex s ≡ true) × (byte_pairs s ≡ bs) × (length s ≡ 2 * length bs)
unfolding hex_pairs byte_pairs to_lower_case
pairs_of_lower [] [] h e = (refl, refl, refl)
pairs_of_lower [] (b ∷ bs) h e = cc
pairs_of_lower (a ∷ s) [] h e = cc
pairs_of_lower (a ∷ []) (b ∷ bs) h e = ground arith
pairs_of_lower (a ∷ c ∷ s) (b ∷ bs) (h, hs) e =
    ground (arith, digit_of_lower a (b / 16), digit_of_lower c (b % 16), pairs_of_lower s bs hs)

-- Digits in even number decode to bytes whose print is the text in lower case.
hex_pairs-byte_pairs :
    (s : Text)
    → all is_hex s ≡ true
    → length s % 2 ≡ 0
    → (hex_pairs (byte_pairs s) ≡ to_lower_case s) × All IsByte (byte_pairs s)
unfolding hex_pairs byte_pairs to_lower_case
hex_pairs-byte_pairs [] h e = (refl, tt)
hex_pairs-byte_pairs (a ∷ []) h e = ground arith
hex_pairs-byte_pairs (a ∷ c ∷ s) h e = ground (
  arith,
  hex_value-lt a,
  hex_value-lt c,
  hex_digit-hex_value a,
  hex_digit-hex_value c,
  hex_pairs-byte_pairs s,
)

decode_digits_sound :
    (s : Text) (bs : Bytes)
    → decode_digits s ≡ ok bs
    → All IsByte bs × (hex_pairs bs ≡ to_lower_case s)
unfolding decode_digits hex_pairs to_lower_case
decode_digits_sound [] [] e = (tt, refl)
decode_digits_sound [] (b ∷ bs) e = ground arith
decode_digits_sound (c ∷ s) bs e =
    let digits : all is_hex (c ∷ s) ≡ true = ground arith in
    let even : length (c ∷ s) % 2 ≡ 0 = ground arith in
    let same : byte_pairs (c ∷ s) ≡ bs = ground arith in
    let (print, bytes) = hex_pairs-byte_pairs (c ∷ s) digits even in rw (← same) (bytes, print)

decode_digits_complete :
    (s : Text) (bs : Bytes)
    → All IsByte bs
    → hex_pairs bs ≡ to_lower_case s
    → decode_digits s ≡ ok bs
unfolding decode_digits hex_pairs to_lower_case
decode_digits_complete [] [] h e = refl
decode_digits_complete [] (b ∷ bs) h e = cc
decode_digits_complete (c ∷ s) bs h e =
    let (digits, same, even) = pairs_of_lower (c ∷ s) bs h e in ground arith

-- `hexToBytes` returns `bs` exactly when these are bytes and `bytesToHex` prints them as the text's
-- digits in lower case, behind `0x`.
pub hex_to_bytes-eq_iff :
    (h : Text) (bs : Bytes)
    → (hex_to_bytes (some h) ≡ ok bs)
      ↔ (All IsByte bs × (bytes_to_hex bs ≡ lit "0x" ++ to_lower_case (strip_prefix h)))
unfolding hex_to_bytes bytes_to_hex
hex_to_bytes-eq_iff h bs = (
  λ e.
      let (bytes, print) = decode_digits_sound (strip_prefix h) bs e in
      (bytes, ap (λ t. lit "0x" ++ t) print),
  λ p. decode_digits_complete (strip_prefix h) bs p.0 (cc (p.1)),
)

lower-hex_pairs : (bs : Bytes) → All IsByte bs → to_lower_case (hex_pairs bs) ≡ hex_pairs bs
unfolding hex_pairs to_lower_case lower hex_digit
lower-hex_pairs [] h = refl
lower-hex_pairs (b ∷ bs) h = ground (arith, lower-hex_pairs bs)

-- Bytes are read back from their print.
pub hex_to_bytes-bytes_to_hex :
    (bs : Bytes) → All IsByte bs → hex_to_bytes (some (bytes_to_hex bs)) ≡ ok bs
unfolding bytes_to_hex hex_to_bytes
hex_to_bytes-bytes_to_hex bs h =
    decode_digits_complete (hex_pairs bs) bs h (sym (lower-hex_pairs bs h))
