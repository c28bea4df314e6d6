-- ===== src/Base/Base64/RoundTrip.antt =====
-- The base64 text of bytes is read back as these bytes.
use xrpl.Prelude.{ℕ, ◌+◌, ◌*◌, ◌/◌, ◌%◌, ◌<◌, ◌≡◌, refl, List, [], ◌∷◌, some, arith, All}
use xrpl.Js.Utf8.{Bytes}
use xrpl.Base.Encoding.Hex.{IsByte}
use xrpl.Base.Base64.{digit64, encode64, value64, values64, bytes_of, decode64}

value64-digit64 : (n : ℕ) → n < 64 → value64 (digit64 n) ≡ some n
unfolding value64 digit64
value64-digit64 n h = ground arith

values64-digit : (n : ℕ) (s : List ℕ) → n < 64 → values64 (digit64 n ∷ s) ≡ n ∷ values64 s
unfolding values64
values64-digit n s h = rw (value64-digit64 n h, values64) refl

values64-nil : values64 [] ≡ []
unfolding values64
values64-nil = refl

values64-pad : (s : List ℕ) → values64 (b'=' ∷ s) ≡ values64 s
unfolding values64 value64
values64-pad s = refl

-- The six-bit parts of bytes.
sixes : Bytes → List ℕ
sixes [] = []
sixes (a ∷ []) = (a / 4) ∷ (a % 4 * 16) ∷ []
sixes (a ∷ b ∷ []) = (a / 4) ∷ (a % 4 * 16 + b / 16) ∷ (b % 16 * 4) ∷ []
sixes (a ∷ b ∷ c ∷ s) = (a / 4) ∷ (a % 4 * 16 + b / 16) ∷ (b % 16 * 4 + c / 64) ∷ (c % 64) ∷ sixes s

values64-encode64 : (b : Bytes) → All IsByte b → values64 (encode64 b) ≡ sixes b
unfolding encode64 sixes
values64-encode64 [] h = values64-nil
values64-encode64 (a ∷ []) (ha, _) =
    rw
      (
        values64-digit (a / 4) _ (omega arith),
        values64-digit (a % 4 * 16) _ (omega arith),
        values64-pad (b'=' ∷ []),
        values64-pad [],
        values64-nil,
      )
      refl
values64-encode64 (a ∷ b ∷ []) (ha, (hb, _)) =
    rw
      (
        values64-digit (a / 4) _ (omega arith),
        values64-digit (a % 4 * 16 + b / 16) _ (omega arith),
        values64-digit (b % 16 * 4) _ (omega arith),
        values64-pad [],
        values64-nil,
      )
      refl
values64-encode64 (a ∷ b ∷ c ∷ s) (ha, (hb, (hc, h))) =
    rw
      (
        values64-digit (a / 4) _ (omega arith),
        values64-digit (a % 4 * 16 + b / 16) _ (omega arith),
        values64-digit (b % 16 * 4 + c / 64) _ (omega arith),
        values64-digit (c % 64) _ (omega arith),
        values64-encode64 s h,
      )
      refl

bytes_of-sixes : (b : Bytes) → All IsByte b → bytes_of (sixes b) ≡ b
unfolding bytes_of sixes
bytes_of-sixes [] h = refl
bytes_of-sixes (a ∷ []) (ha, _) = let e : a / 4 * 4 + a % 4 * 16 / 16 ≡ a = omega arith in rw e refl
bytes_of-sixes (a ∷ b ∷ []) (ha, (hb, _)) =
    let e : a / 4 * 4 + (a % 4 * 16 + b / 16) / 16 ≡ a = omega arith in
    let e' : (a % 4 * 16 + b / 16) % 16 * 16 + b % 16 * 4 / 4 ≡ b = omega arith in rw (e, e') refl
bytes_of-sixes (a ∷ b ∷ c ∷ s) (ha, (hb, (hc, h))) =
    let e : a / 4 * 4 + (a % 4 * 16 + b / 16) / 16 ≡ a = omega arith in
    let e' : (a % 4 * 16 + b / 16) % 16 * 16 + (b % 16 * 4 + c / 64) / 4 ≡ b = omega arith in
    let e'' : (b % 16 * 4 + c / 64) % 4 * 64 + c % 64 ≡ c = omega arith in
    rw (e, e', e'', bytes_of-sixes s h) refl

-- Bytes that are written in base64 are read back as they were.
pub decode64-encode64 : (b : Bytes) → All IsByte b → decode64 (encode64 b) ≡ b
unfolding decode64
decode64-encode64 b h = rw (decode64, values64-encode64 b h) (bytes_of-sixes b h)
