-- ===== src/Base/Base64.antt =====
-- `Buffer.toString("base64")` and `Buffer.from(s, "base64")`, which the client of the tee-node calls: a
-- character outside the alphabet, `=` included, is skipped.
pub mod RoundTrip
use xrpl.Prelude.{
  ℕ, ◌+◌, ◌-◌, ◌*◌, ◌/◌, ◌%◌, Bool, ◌&&◌, ◌||◌, List, [], ◌∷◌, Option, none, some, ltb, leb, ◌==◌,
  if◌then◌else◌,
}
use xrpl.Js.Text.{Text}
use xrpl.Js.Utf8.{Bytes}

-- The character of six bits.
unfoldable pub digit64 : ℕ → ℕ
digit64 n =
    if ltb n 26
    then b'A' + n
    else if ltb n 52
    then b'a' + (n - 26)
    else if ltb n 62
    then b'0' + (n - 52)
    else if n == 62
    then b'+'
    else b'/'

unfoldable pub encode64 : Bytes → Text
unfolding digit64
encode64 [] = []
encode64 (a ∷ []) = digit64 (a / 4) ∷ digit64 (a % 4 * 16) ∷ b'=' ∷ b'=' ∷ []
encode64 (a ∷ b ∷ []) =
    digit64 (a / 4) ∷ digit64 (a % 4 * 16 + b / 16) ∷ digit64 (b % 16 * 4) ∷ b'=' ∷ []
encode64 (a ∷ b ∷ c ∷ s) =
    digit64 (a / 4)
    ∷ digit64 (a % 4 * 16 + b / 16)
    ∷ digit64 (b % 16 * 4 + c / 64)
    ∷ digit64 (c % 64)
    ∷ encode64 s

-- The six bits of a character; the alphabet of URLs is read too.
unfoldable pub value64 : ℕ → Option ℕ
value64 c =
    if leb b'A' c && leb c b'Z'
    then some (c - b'A')
    else if leb b'a' c && leb c b'z'
    then some (c - b'a' + 26)
    else if leb b'0' c && leb c b'9'
    then some (c - b'0' + 52)
    else if (c == b'+') || (c == b'-')
    then some 62
    else if (c == b'/') || (c == b'_')
    then some 63
    else none

unfoldable pub values64 : Text → List ℕ
unfolding value64
values64 [] = []
values64 (c ∷ s) = let rest = values64 s in elim (value64 c) [ none ↦ rest | some v ↦ v ∷ rest ]

-- Three bytes for each four values, and what is left of the last.
unfoldable pub bytes_of : List ℕ → Bytes
bytes_of [] = []
bytes_of (w ∷ []) = []
bytes_of (w ∷ x ∷ []) = (w * 4 + x / 16) ∷ []
bytes_of (w ∷ x ∷ y ∷ []) = (w * 4 + x / 16) ∷ (x % 16 * 16 + y / 4) ∷ []
bytes_of (w ∷ x ∷ y ∷ z ∷ s) =
    (w * 4 + x / 16) ∷ (x % 16 * 16 + y / 4) ∷ (y % 4 * 64 + z) ∷ bytes_of s

unfoldable pub decode64 : Text → Bytes
unfolding values64 bytes_of
decode64 s = bytes_of (values64 s)
