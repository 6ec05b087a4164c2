-- ===== src/Prelude/Maps/Groups.antt =====
-- Grouping a list by a key into a map of lists, in the order of the list.
use Prim.Native.Nat.{◌+◌}
use mathlib.Core.Path.{◌≡◌, refl, sym, ap, ◌∙◌}
use mathlib.Core.Bool.{Bool, true, false}
use mathlib.Core.Option.{Option, none, some}
use mathlib.Core.List.{List, [], ◌∷◌, ◌++◌, map, append-nil, append_assoc}
use native.Mathlib.Omega.{arith}
use ferrometer.Prelude.Tests.{if◌then◌else◌}
use ferrometer.Prelude.Lists.{length, length-append, keep}
use ferrometer.Prelude.Maps.{Ord, Map, is, get, insert, get-insert}
use ferrometer.Prelude.Maps.Sorted.{IsSorted, insert-IsSorted, total, weight, total-insert}

abbrev pub entries_of : {A : Type 0} → Option (List A) → List A
entries_of none = []
entries_of (some l) = l

module _ {A B K : Type 0} ⦃o : Ord K⦄ (key : A → K) (val : A → B) where
  -- `m.entry(key(x)).or_default().push(val(x))` for each `x`.
  unfoldable pub group_by : List A → Map K (List B) → Map K (List B)
  unfolding get insert
  group_by [] m = m
  group_by (x ∷ xs) m = group_by xs (insert (key x) (entries_of (get (key x) m) ++ val x ∷ []) m)

  abbrev pub has_key : K → A → Bool
  has_key k x = is k (key x)

  pub group_by-IsSorted : (xs : List A) (m : Map K (List B)) → IsSorted m → IsSorted (group_by xs m)
  unfolding group_by
  group_by-IsSorted [] m s = s
  group_by-IsSorted (x ∷ xs) m s =
      group_by-IsSorted xs _
        (insert-IsSorted (key x) (entries_of (get (key x) m) ++ val x ∷ []) m s)

  push-get :
      (k : K) (x : A) (m : Map K (List B))
      → entries_of (get k (insert (key x) (entries_of (get (key x) m) ++ val x ∷ []) m))
        ≡ entries_of (get k m) ++ (if has_key k x then val x ∷ [] else [])
  push-get k x m = ground (
    arith,
    get-insert k (key x) (entries_of (get (key x) m) ++ val x ∷ []) m,
    o.cmp_eq k (key x),
    append-nil (entries_of (get k m)),
  )

  pub group_by-get :
      (k : K) (xs : List A) (m : Map K (List B))
      → entries_of (get k (group_by xs m)) ≡ entries_of (get k m) ++ map val (keep (has_key k) xs)
  unfolding group_by
  group_by-get k [] m = sym (append-nil (entries_of (get k m)))
  group_by-get k (x ∷ xs) m =
      group_by-get k xs (insert (key x) (entries_of (get (key x) m) ++ val x ∷ []) m)
      ∙ ap (λ t. t ++ map val (keep (has_key k) xs)) (push-get k x m)
      ∙ append_assoc (entries_of (get k m)) (if has_key k x then val x ∷ [] else [])
          (map val (keep (has_key k) xs))
      ∙ ap (λ t. entries_of (get k m) ++ t) (keep_step (has_key k x))
    where
      keep_step :
          (b : Bool)
          → (if b then val x ∷ [] else []) ++ map val (keep (has_key k) xs)
            ≡ map val (elim b [ true ↦ x ∷ keep (has_key k) xs | false ↦ keep (has_key k) xs ])
      keep_step true = refl
      keep_step false = refl

  pub group_by-total :
      (xs : List A) (m : Map K (List B))
      → IsSorted m
      → total length (group_by xs m) ≡ total length m + length xs
  unfolding group_by
  group_by-total [] m s = omega arith
  group_by-total (x ∷ xs) m s =
      let old = entries_of (get (key x) m) in
      omega (
        arith,
        group_by-total xs (insert (key x) (old ++ val x ∷ []) m)
            (insert-IsSorted (key x) (old ++ val x ∷ []) m s),
        total-insert length (key x) (old ++ val x ∷ []) m s,
        length-append old (val x ∷ []),
        weight_old (get (key x) m),
      )
    where
      weight_old : (r : Option (List B)) → weight length r ≡ length (entries_of r)
      weight_old none = refl
      weight_old (some l) = refl
