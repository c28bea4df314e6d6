-- ===== src/Js/Text.antt =====
-- JavaScript texts, as lists of UTF-16 code units, with the methods that the source calls.
use Prim.Native.Char.{code}
use Prim.Native.String.{String}
use xrpl.Prelude.{
  ℕ, ◌+◌, ◌≡◌, refl, ◌↔◌, Bool, true, false, ◌&&◌, ◌||◌, List, [], ◌∷◌, map, arith, leb, ltb, ◌==◌,
  if◌then◌else◌,
}

abbrev pub Text : Type 0
Text = List ℕ

-- A literal of the source; every literal that the model needs is ASCII.
abbrev pub lit : String → Text
lit String.[] = []
lit (String.◌∷◌ c s) = code c ∷ lit s

-- `===` on texts
unfoldable pub same : Text → Text → Bool
same [] [] = true
same [] (_ ∷ _) = false
same (_ ∷ _) [] = false
same (a ∷ s) (b ∷ t) = (a == b) && same s t

pub same_iff : (s t : Text) → (same s t ≡ true) ↔ (s ≡ t)
unfolding same
same_iff [] [] = ground arith
same_iff [] (_ ∷ _) = ground arith
same_iff (_ ∷ _) [] = ground arith
same_iff (a ∷ s) (b ∷ t) = ground (arith, same_iff s t)

pub same_self : (s : Text) → same s s ≡ true
same_self s = (same_iff s s).1 refl

unfoldable pub is_empty : Text → Bool
is_empty [] = true
is_empty (_ ∷ _) = false

-- `<=` on texts by code units, the order of the default `sort`
unfoldable pub text_leb : Text → Text → Bool
text_leb [] t = true
text_leb (_ ∷ _) [] = false
text_leb (a ∷ s) (b ∷ t) = ltb a b || ((a == b) && text_leb s t)

-- `s.startsWith(p)`, with the prefix first
unfoldable pub starts_with : Text → Text → Bool
starts_with [] s = true
starts_with (_ ∷ _) [] = false
starts_with (a ∷ p) (b ∷ s) = (a == b) && starts_with p s

-- `s.includes(p)`
unfoldable pub includes : Text → Text → Bool
unfolding starts_with
includes p [] = starts_with p []
includes p (b ∷ s) = starts_with p (b ∷ s) || includes p s

-- `toLowerCase` of one code unit; units beyond ASCII are left as they are
unfoldable pub lower : ℕ → ℕ
lower c = if leb b'A' c && leb c b'Z' then c + 32 else c

unfoldable pub to_lower_case : Text → Text
unfolding lower
to_lower_case s = map lower s

pub lower_idem : (c : ℕ) → lower (lower c) ≡ lower c
unfolding lower
lower_idem c = ground arith

pub to_lower_case_idem : (s : Text) → to_lower_case (to_lower_case s) ≡ to_lower_case s
unfolding to_lower_case
to_lower_case_idem [] = refl
to_lower_case_idem (c ∷ s) = ground (arith, lower_idem c, to_lower_case_idem s)

-- `s.split(c)[0]`
unfoldable pub before : ℕ → Text → Text
before c [] = []
before c (d ∷ s) = if d == c then [] else d ∷ before c s
