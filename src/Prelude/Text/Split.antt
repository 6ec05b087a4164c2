-- ===== src/Prelude/Text/Split.antt =====
-- Cutting a text at a separator, and joining the pieces.
use Prim.Native.Nat.{ℕ}
use mathlib.Core.Option.{Option, none, some}
use mathlib.Core.List.{List, [], ◌∷◌, ◌++◌}
use ferrometer.Prelude.Tests.{◌==◌, if◌then◌else◌}
use ferrometer.Prelude.Text.{Text, strip_prefix, is_whitespace}

-- `s.find(p)` with the two slices that the program takes: before `p`, and behind it.
unfoldable pub split_at : Text → Text → Option (Text × Text)
unfolding strip_prefix
split_at [] p = elim (strip_prefix [] p) [ none ↦ none | some r ↦ some ([], r) ]
split_at (c ∷ s) p =
    let rest = split_at s p in
    elim (strip_prefix (c ∷ s) p) [
      | some r ↦ some ([], r)
      | none ↦ elim rest [ none ↦ none | some (a, b) ↦ some (c ∷ a, b) ]
    ]

-- `s.split_once(c)`, and `s.find(c)` with its two slices.
unfoldable pub split_once : Text → ℕ → Option (Text × Text)
split_once [] d = none
split_once (c ∷ s) d =
    let rest = split_once s d in
    if c == d then some ([], s) else elim rest [ none ↦ none | some (a, b) ↦ some (c ∷ a, b) ]

-- Puts `c` before the first piece.
abbrev pub onto_first : ℕ → List Text → List Text
onto_first c [] = (c ∷ []) ∷ []
onto_first c (p ∷ ps) = (c ∷ p) ∷ ps

-- `s.split(d)`: one piece more than there are separators.
unfoldable pub split : Text → ℕ → List Text
split [] d = [] ∷ []
split (c ∷ s) d = let rest = split s d in if c == d then [] ∷ rest else onto_first c rest

-- `s.split_whitespace()`: the maximal runs without whitespace; `cur` is the run being read.
unfoldable pub words : Text → Text → List Text
unfolding is_whitespace
words [] [] = []
words [] (c ∷ cur) = (c ∷ cur) ∷ []
words (c ∷ s) [] = words s (if is_whitespace c then [] else c ∷ [])
words (c ∷ s) (d ∷ cur) =
    let close = (d ∷ cur) ∷ words s [] in
    let more = words s ((d ∷ cur) ++ c ∷ []) in if is_whitespace c then close else more

-- `pieces.join(sep)`
unfoldable pub join : Text → List Text → Text
join sep [] = []
join sep (p ∷ []) = p
join sep (p ∷ q ∷ ps) = p ++ (sep ++ join sep (q ∷ ps))
