-- ===== src/Js/Utf8/Ascii.antt =====
-- An ASCII text is its own UTF-8.
use xrpl.Prelude.{ℕ, ◌<◌, ◌≡◌, refl, [], ◌∷◌, arith, All}
use xrpl.Js.Text.{Text}
use xrpl.Js.Utf8.{
  Bytes, points_from, encode_points, encode, idle, step, decode_from, decode, decode_text,
}

abbrev pub IsAscii : ℕ → Type 0
IsAscii c = c < 0x80

points_from_of_ascii : (s : Text) → All IsAscii s → points_from 0 s ≡ s
unfolding points_from
points_from_of_ascii [] h = refl
points_from_of_ascii (c ∷ s) (a, h) = ground (arith, points_from_of_ascii s h)

encode_points_of_ascii : (s : Text) → All IsAscii s → encode_points s ≡ s
unfolding encode_points
encode_points_of_ascii [] h = refl
encode_points_of_ascii (c ∷ s) (a, h) = ground (arith, encode_points_of_ascii s h)

pub encode_of_ascii : (s : Text) → All IsAscii s → encode s ≡ s
unfolding encode
encode_of_ascii s h = rw (points_from_of_ascii s h) (encode_points_of_ascii s h)

step_of_ascii : (c : ℕ) → IsAscii c → step idle c ≡ (c ∷ [], idle)
unfolding step
step_of_ascii c h = ground arith

decode_from_of_ascii : (s : Text) → All IsAscii s → decode_from idle s ≡ s
unfolding decode_from
decode_from_of_ascii [] h = refl
decode_from_of_ascii (c ∷ s) (a, h) = rw (step_of_ascii c a) (rw (decode_from_of_ascii s h))

pub decode_of_ascii : (s : Bytes) → All IsAscii s → decode s ≡ s
unfolding decode
decode_of_ascii s h = decode_from_of_ascii s h

pub decode_text_of_ascii : (s : Bytes) → All IsAscii s → decode_text s ≡ s
unfolding decode_text
decode_text_of_ascii [] h = refl
decode_text_of_ascii (c ∷ s) h = rw (decode_of_ascii (c ∷ s) h) (ground arith)
