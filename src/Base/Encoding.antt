-- ===== src/Base/Encoding.antt =====
-- fce-matching-engine/typescript/src/base/encoding.ts: hex and bytes32 texts.
pub mod Hex
pub mod Bytes32
use xrpl.Prelude.{
  ℕ, zero, suc, ◌+◌, ◌-◌, ◌*◌, ◌/◌, ◌%◌, Bool, true, false, ◌&&◌, ◌||◌, List, [], ◌∷◌, ◌++◌, Option,
  none, some, ltb, leb, ◌==◌, if◌then◌else◌, length, get_elem?, take, replicate, all,
}
use xrpl.Js.Text.{Text, lit}
use xrpl.Js.Utf8.{Bytes, encode, decode_text}
use xrpl.Js.Outcome.{Outcome, ok, throw, odd_length, non_hex, too_long, ◌>>=◌}

-- `[0-9a-fA-F]`
unfoldable pub is_hex : ℕ → Bool
is_hex c = (leb b'0' c && leb c b'9') || (leb b'a' c && leb c b'f') || (leb b'A' c && leb c b'F')

-- `parseInt` of one hexadecimal digit
unfoldable pub hex_value : ℕ → ℕ
hex_value c = if leb b'a' c then c - b'a' + 10 else if leb b'A' c then c - b'A' + 10 else c - b'0'

-- The loop of `hexToBytes`: a byte for each two digits.
unfoldable pub byte_pairs : Text → Bytes
unfolding hex_value
byte_pairs [] = []
byte_pairs (a ∷ []) = []
byte_pairs (a ∷ b ∷ s) = (hex_value a * 16 + hex_value b) ∷ byte_pairs s

-- `s.slice(2)` behind `0x` or `0X`
unfoldable pub strip_prefix : Text → Text
strip_prefix [] = []
strip_prefix (a ∷ []) = a ∷ []
strip_prefix (a ∷ b ∷ s) = if (a == b'0') && ((b == b'x') || (b == b'X')) then s else a ∷ b ∷ s

unfoldable pub decode_digits : Text → Outcome Bytes
decode_digits s =
    if length s == 0
    then ok []
    else if length s % 2 == 1
    then throw (odd_length (length s))
    else if all is_hex s
    then ok (byte_pairs s)
    else throw non_hex

-- `none` is `null` or `undefined`.
unfoldable pub hex_to_bytes : Option Text → Outcome Bytes
unfolding strip_prefix decode_digits
hex_to_bytes none = ok []
hex_to_bytes (some h) = decode_digits (strip_prefix h)

unfoldable pub hex_digit : ℕ → ℕ
hex_digit d = if ltb d 10 then b'0' + d else b'a' + (d - 10)

-- `byte.toString(16).padStart(2, "0")` for each byte
unfoldable pub hex_pairs : Bytes → Text
unfolding hex_digit
hex_pairs [] = []
hex_pairs (b ∷ bs) = hex_digit (b / 16) ∷ hex_digit (b % 16) ∷ hex_pairs bs

unfoldable pub bytes_to_hex : Bytes → Text
unfolding hex_pairs
bytes_to_hex bs = lit "0x" ++ hex_pairs bs

unfoldable pub string_to_bytes32_hex : Text → Outcome Text
string_to_bytes32_hex s =
    let encoded = encode s in
    if ltb 32 (length encoded)
    then throw (too_long (length encoded))
    else ok (bytes_to_hex (encoded ++ replicate (32 - length encoded) 0))

abbrev is_zero : Option ℕ → Bool
is_zero none = false
is_zero (some b) = b == 0

-- `while (end > 0 && b[end - 1] === 0) end--`
unfoldable pub trimmed_end : Bytes → ℕ → ℕ
trimmed_end b zero = 0
trimmed_end b (suc n) = if is_zero (get_elem? b n) then trimmed_end b n else suc n

abbrev trim : Outcome Bytes → Text
trim (throw _) = []
trim (ok b) = decode_text (take (trimmed_end b (length b)) b)

unfoldable pub bytes32_hex_to_string : Text → Text
bytes32_hex_to_string h = trim (hex_to_bytes (some h))
