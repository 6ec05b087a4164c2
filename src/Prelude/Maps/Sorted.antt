-- ===== src/Prelude/Maps/Sorted.antt =====
-- Maps in strictly increasing key order, which every insertion keeps.
use Prim.Native.Nat.{ℕ, ◌+◌, Ordering}
use mathlib.Core.Path.{◌≡◌, refl}
use mathlib.Core.Option.{Option, none, some}
use mathlib.Core.List.{[], ◌∷◌}
use native.Mathlib.Omega.{arith}
use ferrometer.Prelude.Lists.{sum_by}
use ferrometer.Prelude.Maps.{Ord, Map, get, insert}

abbrev pub weight : {V : Type 0} → (V → ℕ) → Option V → ℕ
weight f none = 0
weight f (some v) = f v

module _ {ℓ} {K : Type ℓ} {V : Type 0} ⦃o : Ord K⦄ where
  -- `k` is less than every key.
  abbrev pub Below : K → Map K V → Type 0
  Below k [] = Unit {0}
  Below k ((j, w) ∷ m) = (o.cmp k j ≡ Ordering.lt) × Below k m

  abbrev pub IsSorted : Map K V → Type 0
  IsSorted [] = Unit {0}
  IsSorted ((k, v) ∷ m) = Below k m × IsSorted m

  Below-trans : (i k : K) (m : Map K V) → o.cmp i k ≡ Ordering.lt → Below k m → Below i m
  Below-trans i k [] h b = tt
  Below-trans i k ((j, w) ∷ m) h b = (o.cmp_trans i k j h b.0, Below-trans i k m h b.1)

  insert-Below :
      (i k : K) (v : V) (m : Map K V) → o.cmp i k ≡ Ordering.lt → Below i m → Below i (insert k v m)
  unfolding insert
  insert-Below i k v [] h b = (h, tt)
  insert-Below i k v ((j, w) ∷ m) h b = ground (arith, insert-Below i k v m h b.1)

  pub insert-IsSorted : (k : K) (v : V) (m : Map K V) → IsSorted m → IsSorted (insert k v m)
  unfolding insert
  insert-IsSorted k v [] s = (tt, tt)
  insert-IsSorted k v ((j, w) ∷ m) s =
      ground
        (arith, insert-IsSorted k v m s.1, insert-Below j k v m, Below-trans k j m, o.cmp_gt k j)

  pub get-Below : (k : K) (m : Map K V) → Below k m → get k m ≡ none
  unfolding get
  get-Below k [] b = refl
  get-Below k ((j, w) ∷ m) b = ground (arith, get-Below k m b.1)

  -- The weight of the values of a map.
  abbrev pub total : (V → ℕ) → Map K V → ℕ
  total f m = sum_by (λ e. f e.1) m

  -- An insertion replaces the weight that was there.
  pub total-insert :
      (f : V → ℕ) (k : K) (v : V) (m : Map K V)
      → IsSorted m
      → total f (insert k v m) + weight f (get k m) ≡ total f m + f v
  unfolding insert get
  total-insert f k v [] s = omega arith
  total-insert f k v ((j, w) ∷ m) s =
      ground (arith, total-insert f k v m s.1, get-Below k m, Below-trans k j m, o.cmp_eq k j)
