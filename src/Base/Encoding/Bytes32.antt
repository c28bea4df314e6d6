-- ===== src/Base/Encoding/Bytes32.antt =====
-- encoding.ts: identifiers as bytes32 texts.
use xrpl.Prelude.{
  ℕ, zero, suc, ◌+◌, ◌-◌, ◌*◌, ◌≤◌, ◌<◌, ◌≡◌, ◌≢◌, refl, [], ◌∷◌, ◌++◌, some, arith, length, All,
  All-append, get_elem?, take, replicate, length-append, length-replicate,
}
use xrpl.Js.Text.{Text}
use xrpl.Js.Utf8.{Bytes}
use xrpl.Js.Utf8.Ascii.{IsAscii, encode_of_ascii, decode_text_of_ascii}
use xrpl.Js.Outcome.{ok}
use xrpl.Base.Encoding.{trimmed_end, bytes_to_hex, string_to_bytes32_hex, bytes32_hex_to_string}
use xrpl.Base.Encoding.Hex.{IsByte, length-hex_pairs, hex_to_bytes-bytes_to_hex}

-- The last byte, if there is one, is not zero.
abbrev pub EndsNonzero : Bytes → Type 0
EndsNonzero [] = Unit
EndsNonzero (b ∷ []) = b ≢ 0
EndsNonzero (b ∷ c ∷ bs) = EndsNonzero (c ∷ bs)

get_elem?-padding :
    (xs : Bytes) (k i j : ℕ)
    → i < k
    → j ≡ i + length xs
    → get_elem? (xs ++ replicate k 0) j ≡ some 0
get_elem?-padding [] zero i j lt e = absurd (omega arith)
get_elem?-padding [] (suc k) i zero lt e = refl
get_elem?-padding [] (suc k) i (suc j) lt e = get_elem?-padding [] k j j (omega arith) (omega arith)
get_elem?-padding (x ∷ xs) k i zero lt e = absurd (omega arith)
get_elem?-padding (x ∷ xs) k i (suc j) lt e = get_elem?-padding xs k i j lt (omega arith)

get_elem?-last :
    (xs ys : Bytes) (n : ℕ) → EndsNonzero xs → length xs ≡ suc n → get_elem? (xs ++ ys) n ≢ some 0
get_elem?-last [] ys n h e = cc
get_elem?-last (b ∷ []) ys zero h e = ground arith
get_elem?-last (b ∷ []) ys (suc n) h e = absurd (omega arith)
get_elem?-last (b ∷ c ∷ bs) ys zero h e = absurd (omega arith)
get_elem?-last (b ∷ c ∷ bs) ys (suc n) h e = get_elem?-last (c ∷ bs) ys n h (omega arith)

-- The loop stops at the last byte before the padding.
trimmed_end-padding :
    (xs : Bytes) (k n : ℕ)
    → EndsNonzero xs
    → length xs ≤ n
    → n ≤ length xs + k
    → trimmed_end (xs ++ replicate k 0) n ≡ length xs
unfolding trimmed_end
trimmed_end-padding xs k zero h le up = omega arith
trimmed_end-padding xs k (suc n) h le up = ground (
  arith,
  get_elem?-padding xs k (n - length xs) n,
  get_elem?-last xs (replicate k 0) n h,
  trimmed_end-padding xs k n h,
)

take-append : (xs ys : Bytes) → take (length xs) (xs ++ ys) ≡ xs
take-append [] ys = refl
take-append (x ∷ xs) ys = rw (take-append xs ys)

zeros-IsByte : (k : ℕ) → All IsByte (replicate k 0)
zeros-IsByte zero = tt
zeros-IsByte (suc k) = (omega arith, zeros-IsByte k)

ascii-IsByte : (s : Text) → All IsAscii s → All IsByte s
ascii-IsByte [] h = tt
ascii-IsByte (c ∷ s) (a, h) = (omega arith, ascii-IsByte s h)

module _ (s : Text) (ascii : All IsAscii s) (fits : length s ≤ 32) where
  abbrev padded : Bytes
  padded = s ++ replicate (32 - length s) 0

  length-padded : length padded ≡ 32
  length-padded = omega (
    arith,
    length-append s (replicate (32 - length s) 0),
    length-replicate {A = ℕ} (32 - length s) 0,
  )

  padded-IsByte : All IsByte padded
  padded-IsByte =
      All-append IsByte s (replicate (32 - length s) 0) (ascii-IsByte s ascii)
        (zeros-IsByte (32 - length s))

  string_to_bytes32_hex_lem : string_to_bytes32_hex s ≡ ok (bytes_to_hex padded)
  unfolding string_to_bytes32_hex
  string_to_bytes32_hex_lem = rw (encode_of_ascii s ascii) (ground arith)

  trim-padded : EndsNonzero s → bytes32_hex_to_string (bytes_to_hex padded) ≡ s
  unfolding bytes32_hex_to_string
  trim-padded last =
      rw (hex_to_bytes-bytes_to_hex padded padded-IsByte, length-padded)
        (rw (trimmed_end-padding s (32 - length s) 32 last fits (omega arith), take-append)
          (decode_text_of_ascii s ascii))

length-bytes_to_hex : (bs : Bytes) → length (bytes_to_hex bs) ≡ 2 + 2 * length bs
unfolding bytes_to_hex
length-bytes_to_hex bs = omega (arith, length-hex_pairs bs)

-- An ASCII identifier of 32 characters at most, whose last one is not NUL, becomes a text of 66
-- characters, from which it is read back.
pub bytes32_hex_to_string-string_to_bytes32_hex :
    (s : Text)
    → All IsAscii s
    → EndsNonzero s
    → length s ≤ 32
    → (h : Text) × (string_to_bytes32_hex s ≡ ok h)
      × (length h ≡ 66)
      × (bytes32_hex_to_string h ≡ s)
bytes32_hex_to_string-string_to_bytes32_hex s ascii last fits = (
  bytes_to_hex (padded s ascii fits),
  string_to_bytes32_hex_lem s ascii fits,
  omega (arith, length-bytes_to_hex (padded s ascii fits), length-padded s ascii fits),
  trim-padded s ascii fits last,
)
