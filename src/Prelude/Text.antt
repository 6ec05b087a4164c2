-- ===== src/Prelude/Text.antt =====
-- Text as the list of its code points, and what the program uses of `str`, `String` and `char`.
-- The order of texts is that of their UTF-8 bytes, which is the order of the code points.
pub mod Split
pub mod Numbers
pub mod Decimal
use Prim.Native.Char.{code}
use Prim.Native.String.{String}
use Prim.Native.Nat.{ℕ, zero, suc, ◌+◌, ◌≤◌, compare, Ordering}
use mathlib.Core.Path.{◌≡◌, refl, ap}
use mathlib.Core.Logic.{◌↔◌}
use mathlib.Core.Bool.{Bool, true, false, ◌&&◌, ◌||◌}
use mathlib.Core.Option.{Option, none, some}
use mathlib.Core.List.{List, [], ◌∷◌, ◌++◌, map, reverse}
use native.Mathlib.Omega.{arith}
use ferrometer.Prelude.Tests.{ltb, leb, ◌==◌, if◌then◌else◌}
use ferrometer.Prelude.Lists.{sum_by}

abbrev pub Text : Type 0
Text = List ℕ

-- The code points of a literal.
unfoldable pub codes : String → Text
codes String.[] = []
codes (String.◌∷◌ c s) = code c ∷ codes s

-- How many bytes a code point takes.
unfoldable pub utf8_len : ℕ → ℕ
utf8_len c = if ltb c 0x80 then 1 else if ltb c 0x800 then 2 else if ltb c 0x10000 then 3 else 4

-- `s.len()`
unfoldable pub byte_len : Text → ℕ
unfolding utf8_len
byte_len s = sum_by utf8_len s

unfoldable pub text_eq : Text → Text → Bool
text_eq [] [] = true
text_eq [] (d ∷ t) = false
text_eq (c ∷ s) [] = false
text_eq (c ∷ s) (d ∷ t) = c == d && text_eq s t

pub text_eq_iff : (s t : Text) → (text_eq s t ≡ true) ↔ (s ≡ t)
unfolding text_eq
text_eq_iff [] [] = ground arith
text_eq_iff [] (d ∷ t) = ground arith
text_eq_iff (c ∷ s) [] = ground arith
text_eq_iff (c ∷ s) (d ∷ t) = ground (arith, text_eq_iff s t)

unfoldable pub cmp_text : Text → Text → Ordering
cmp_text [] [] = Ordering.eq
cmp_text [] (d ∷ t) = Ordering.lt
cmp_text (c ∷ s) [] = Ordering.gt
cmp_text (c ∷ s) (d ∷ t) =
    let rest = cmp_text s t in
    elim (compare c d) [
      | Ordering.lt ↦ Ordering.lt
      | Ordering.eq ↦ rest
      | Ordering.gt ↦ Ordering.gt
    ]

pub cmp_text_eq : (s t : Text) → (cmp_text s t ≡ Ordering.eq) ↔ (s ≡ t)
unfolding cmp_text
cmp_text_eq [] [] = ground arith
cmp_text_eq [] (d ∷ t) = ground arith
cmp_text_eq (c ∷ s) [] = ground arith
cmp_text_eq (c ∷ s) (d ∷ t) = ground (arith, cmp_text_eq s t)

pub cmp_text_gt : (s t : Text) → cmp_text s t ≡ Ordering.gt → cmp_text t s ≡ Ordering.lt
unfolding cmp_text
cmp_text_gt [] [] h = cc
cmp_text_gt [] (d ∷ t) h = cc
cmp_text_gt (c ∷ s) [] h = refl
cmp_text_gt (c ∷ s) (d ∷ t) h = ground (arith, cmp_text_gt s t)

pub cmp_text_trans :
    (s t u : Text)
    → cmp_text s t ≡ Ordering.lt
    → cmp_text t u ≡ Ordering.lt
    → cmp_text s u ≡ Ordering.lt
unfolding cmp_text
cmp_text_trans [] [] u h k = cc
cmp_text_trans [] (d ∷ t) [] h k = cc
cmp_text_trans [] (d ∷ t) (e ∷ u) h k = refl
cmp_text_trans (c ∷ s) [] u h k = cc
cmp_text_trans (c ∷ s) (d ∷ t) [] h k = cc
cmp_text_trans (c ∷ s) (d ∷ t) (e ∷ u) h k = ground (arith, cmp_text_trans s t u)

-- `s.strip_prefix(p)`: the rest behind `p`.
unfoldable pub strip_prefix : Text → Text → Option Text
strip_prefix s [] = some s
strip_prefix [] (d ∷ p) = none
strip_prefix (c ∷ s) (d ∷ p) = if c == d then strip_prefix s p else none

unfoldable pub starts_with : Text → Text → Bool
starts_with s [] = true
starts_with [] (d ∷ p) = false
starts_with (c ∷ s) (d ∷ p) = c == d && starts_with s p

unfoldable pub strip_suffix : Text → Text → Option Text
unfolding strip_prefix
strip_suffix s p = elim (strip_prefix (reverse s) (reverse p)) [
  | none ↦ none
  | some r ↦ some (reverse r)
]

unfoldable pub ends_with : Text → Text → Bool
unfolding starts_with
ends_with s p = starts_with (reverse s) (reverse p)

-- `s.contains(p)`
unfoldable pub contains : Text → Text → Bool
unfolding starts_with
contains [] p = starts_with [] p
contains (c ∷ s) p = starts_with (c ∷ s) p || contains s p

-- Drops the leading code points that pass the test.
unfoldable pub trim_start_by : (ℕ → Bool) → Text → Text
trim_start_by f [] = []
trim_start_by f (c ∷ s) = let rest = trim_start_by f s in if f c then rest else c ∷ s

unfoldable pub trim_end_by : (ℕ → Bool) → Text → Text
unfolding trim_start_by
trim_end_by f s = reverse (trim_start_by f (reverse s))

-- `char::is_whitespace`: the property White_Space of Unicode.
unfoldable pub is_whitespace : ℕ → Bool
is_whitespace c =
    (leb 9 c && leb c 13)
    || (c == 0x20)
    || (c == 0x85)
    || (c == 0xa0)
    || (c == 0x1680)
    || (leb 0x2000 c && leb c 0x200a)
    || (c == 0x2028)
    || (c == 0x2029)
    || (c == 0x202f)
    || (c == 0x205f)
    || (c == 0x3000)

unfoldable pub trim : Text → Text
unfolding trim_end_by trim_start_by is_whitespace
trim s = trim_end_by is_whitespace (trim_start_by is_whitespace s)

unfoldable pub is_ascii_digit : ℕ → Bool
is_ascii_digit c = leb b'0' c && leb c b'9'

unfoldable pub is_ascii_alphanumeric : ℕ → Bool
unfolding is_ascii_digit
is_ascii_alphanumeric c =
    is_ascii_digit c || (leb b'a' c && leb c b'z') || (leb b'A' c && leb c b'Z')

unfoldable pub to_ascii_lower : ℕ → ℕ
to_ascii_lower c = if leb b'A' c && leb c b'Z' then c + 32 else c

unfoldable pub to_ascii_lowercase : Text → Text
unfolding to_ascii_lower
to_ascii_lowercase s = map to_ascii_lower s
