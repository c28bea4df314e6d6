-- ===== src/Js/Utf8.antt =====
-- UTF-8 as `Buffer` and `TextEncoder` write it and `toString("utf-8")` reads it: lone surrogates
-- and malformed bytes become U+FFFD.
pub mod Ascii
use xrpl.Prelude.{
  ℕ, ◌+◌, ◌-◌, ◌*◌, ◌/◌, ◌%◌, Bool, ◌&&◌, List, [], ◌∷◌, ◌++◌, leb, ltb, ◌==◌, if◌then◌else◌,
}
use xrpl.Js.Text.{Text}

abbrev pub Bytes : Type 0
Bytes = List ℕ

abbrev replacement : ℕ
replacement = 0xFFFD

is_high : ℕ → Bool
is_high u = leb 0xD800 u && leb u 0xDBFF

is_low : ℕ → Bool
is_low u = leb 0xDC00 u && leb u 0xDFFF

-- The code points of a text; `held` is a high surrogate that waits for its partner, or 0.
points_from : ℕ → Text → List ℕ
unfolding is_high is_low
points_from held [] = if held == 0 then [] else replacement ∷ []
points_from held (u ∷ s) =
    let paired = points_from 0 s in
    let waiting = points_from u s in
    let out = if held == 0 then [] else replacement ∷ [] in
    if is_low u
    then if held == 0
      then replacement ∷ paired
      else (0x10000 + (held - 0xD800) * 0x400 + (u - 0xDC00)) ∷ paired
    else if is_high u
    then out ++ waiting
    else out ++ u ∷ paired

unfoldable pub encode_point : ℕ → Bytes
encode_point c =
    if ltb c 0x80
    then c ∷ []
    else if ltb c 0x800
    then (0xC0 + c / 0x40) ∷ (0x80 + c % 0x40) ∷ []
    else if ltb c 0x10000
    then (0xE0 + c / 0x1000) ∷ (0x80 + c / 0x40 % 0x40) ∷ (0x80 + c % 0x40) ∷ []
    else (0xF0 + c / 0x40000)
      ∷ (0x80 + c / 0x1000 % 0x40)
      ∷ (0x80 + c / 0x40 % 0x40)
      ∷ (0x80 + c % 0x40)
      ∷ []

encode_points : List ℕ → Bytes
unfolding encode_point
encode_points [] = []
encode_points (c ∷ s) = encode_point c ++ encode_points s

-- `Buffer.from(s, "utf-8")`
unfoldable pub encode : Text → Bytes
unfolding points_from encode_points
encode s = encode_points (points_from 0 s)

-- The code units of a code point.
units : ℕ → Text
units c =
    if ltb c 0x10000
    then c ∷ []
    else (0xD800 + (c - 0x10000) / 0x400) ∷ (0xDC00 + (c - 0x10000) % 0x400) ∷ []

-- The decoder inside a character: how many bytes it waits for, the range that the next one is
-- allowed, and the bits so far.
record Pending : Type 0 where
  need : ℕ
  low : ℕ
  high : ℕ
  bits : ℕ

abbrev idle : Pending
idle = record { need = 0; low = 0x80; high = 0xBF; bits = 0 }

-- The first byte of a character: what it puts out, and what it waits for.
start : ℕ → Text × Pending
start b =
    if ltb b 0x80
    then (b ∷ [], idle)
    else if leb 0xC2 b && leb b 0xDF
    then ([], record idle { need = 1; bits = b - 0xC0 })
    else if leb 0xE0 b && leb b 0xEF
    then (
      [],
      record {
        need = 2;
        low = if b == 0xE0 then 0xA0 else 0x80;
        high = if b == 0xED then 0x9F else 0xBF;
        bits = b - 0xE0;
      },
    )
    else if leb 0xF0 b && leb b 0xF4
    then (
      [],
      record {
        need = 3;
        low = if b == 0xF0 then 0x90 else 0x80;
        high = if b == 0xF4 then 0x8F else 0xBF;
        bits = b - 0xF0;
      },
    )
    else (replacement ∷ [], idle)

-- One byte. A byte that cannot continue the character ends it and starts the next one.
step : Pending → ℕ → Text × Pending
unfolding start units
step p b =
    if p.need == 0
    then start b
    else if leb p.low b && leb b p.high
    then if p.need == 1
      then (units (p.bits * 0x40 + (b - 0x80)), idle)
      else ([], record idle { need = p.need - 1; bits = p.bits * 0x40 + (b - 0x80) })
    else (replacement ∷ (start b).0, (start b).1)

decode_from : Pending → Bytes → Text
unfolding step
decode_from p [] = if p.need == 0 then [] else replacement ∷ []
decode_from p (b ∷ bs) = (step p b).0 ++ decode_from (step p b).1 bs

-- `Buffer.from(bytes).toString("utf-8")`
unfoldable pub decode : Bytes → Text
unfolding decode_from
decode bs = decode_from idle bs

drop_mark : Text → Text
drop_mark [] = []
drop_mark (u ∷ s) = if u == 0xFEFF then s else u ∷ s

-- `new TextDecoder("utf-8").decode`, which also drops a byte order mark.
unfoldable pub decode_text : Bytes → Text
unfolding decode drop_mark
decode_text bs = drop_mark (decode bs)
