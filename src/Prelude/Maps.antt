-- ===== src/Prelude/Maps.antt =====
-- `BTreeMap` as an association list in key order, over an instance that compares keys.
pub mod Sorted
pub mod Groups
use Prim.Native.Nat.{ℕ, compare, Ordering}
use mathlib.Core.Path.{◌≡◌, refl}
use mathlib.Core.Logic.{◌↔◌}
use mathlib.Core.Bool.{Bool, true, false}
use mathlib.Core.Option.{Option, none, some}
use mathlib.Core.List.{List, [], ◌∷◌, map}
use native.Mathlib.Omega.{arith}
use ferrometer.Prelude.Tests.{if◌then◌else◌}
use ferrometer.Prelude.Text.{Text, cmp_text, cmp_text_eq, cmp_text_gt, cmp_text_trans}

pub record Ord {ℓ} (K : Type ℓ) : Type ℓ where
  pub cmp : K → K → Ordering
  pub cmp_eq : (a b : K) → (cmp a b ≡ Ordering.eq) ↔ (a ≡ b)
  pub cmp_gt : (a b : K) → cmp a b ≡ Ordering.gt → cmp b a ≡ Ordering.lt
  pub cmp_trans :
      (a b c : K) → cmp a b ≡ Ordering.lt → cmp b c ≡ Ordering.lt → cmp a c ≡ Ordering.lt

instance abbrev pub text_ord : Ord Text
text_ord = record {
  cmp = cmp_text;
  cmp_eq = cmp_text_eq;
  cmp_gt = cmp_text_gt;
  cmp_trans = cmp_text_trans;
}

abbrev pub Map {ℓ κ} : Type ℓ → Type κ → Type (ℓ ⊔ κ)
Map K V = List (K × V)

-- The order of two texts, and then that of the pairs behind them: the order of label sets.
unfoldable pub cmp_labels : Map Text Text → Map Text Text → Ordering
cmp_labels [] [] = Ordering.eq
cmp_labels [] (y ∷ ys) = Ordering.lt
cmp_labels (x ∷ xs) [] = Ordering.gt
cmp_labels ((k, v) ∷ xs) ((j, w) ∷ ys) =
    let rest = cmp_labels xs ys in
    elim (cmp_text k j) [
      | Ordering.lt ↦ Ordering.lt
      | Ordering.gt ↦ Ordering.gt
      | Ordering.eq ↦ elim (cmp_text v w) [
        | Ordering.lt ↦ Ordering.lt
        | Ordering.gt ↦ Ordering.gt
        | Ordering.eq ↦ rest
      ]
    ]

pub cmp_labels_eq : (a b : Map Text Text) → (cmp_labels a b ≡ Ordering.eq) ↔ (a ≡ b)
unfolding cmp_labels
cmp_labels_eq [] [] = ground arith
cmp_labels_eq [] (y ∷ ys) = ground arith
cmp_labels_eq (x ∷ xs) [] = ground arith
cmp_labels_eq ((k, v) ∷ xs) ((j, w) ∷ ys) =
    ground (arith, cmp_text_eq k j, cmp_text_eq v w, cmp_labels_eq xs ys)

pub cmp_labels_gt :
    (a b : Map Text Text) → cmp_labels a b ≡ Ordering.gt → cmp_labels b a ≡ Ordering.lt
unfolding cmp_labels
cmp_labels_gt [] [] h = cc
cmp_labels_gt [] (y ∷ ys) h = cc
cmp_labels_gt (x ∷ xs) [] h = refl
cmp_labels_gt ((k, v) ∷ xs) ((j, w) ∷ ys) h = ground (
  arith,
  cmp_text_gt k j,
  cmp_text_gt v w,
  cmp_text_eq k j,
  cmp_text_eq v w,
  cmp_text_eq j k,
  cmp_text_eq w v,
  cmp_labels_gt xs ys,
)

pub cmp_labels_trans :
    (a b c : Map Text Text)
    → cmp_labels a b ≡ Ordering.lt
    → cmp_labels b c ≡ Ordering.lt
    → cmp_labels a c ≡ Ordering.lt
unfolding cmp_labels
cmp_labels_trans [] [] c h k = cc
cmp_labels_trans [] (y ∷ ys) [] h k = cc
cmp_labels_trans [] (y ∷ ys) (z ∷ zs) h k = refl
cmp_labels_trans (x ∷ xs) [] c h k = cc
cmp_labels_trans (x ∷ xs) (y ∷ ys) [] h k = cc
cmp_labels_trans ((a, b) ∷ xs) ((c, d) ∷ ys) ((e, f) ∷ zs) h k = ground (
  arith,
  cmp_text_trans a c e,
  cmp_text_trans b d f,
  cmp_text_eq a c,
  cmp_text_eq c e,
  cmp_text_eq a e,
  cmp_text_eq b d,
  cmp_text_eq d f,
  cmp_text_eq b f,
  cmp_labels_trans xs ys zs,
)

instance abbrev pub labels_ord : Ord (Map Text Text)
labels_ord = record {
  cmp = cmp_labels;
  cmp_eq = cmp_labels_eq;
  cmp_gt = cmp_labels_gt;
  cmp_trans = cmp_labels_trans;
}

abbrev pub is {ℓ} : {K : Type ℓ} ⦃o : Ord K⦄ → K → K → Bool
is ⦃o⦄ a b = elim (o.cmp a b) [ Ordering.eq ↦ true | _ ↦ false ]

pub is_self {ℓ} : {K : Type ℓ} ⦃o : Ord K⦄ (k : K) → is k k ≡ true
is_self ⦃o⦄ k = ground (arith, o.cmp_eq k k)

module _ {ℓ κ} {K : Type ℓ} {V : Type κ} ⦃o : Ord K⦄ where
  unfoldable pub get : K → Map K V → Option V
  get k [] = none
  get k ((j, v) ∷ m) = if is k j then some v else get k m

  -- The place of a key is before the first greater key.
  unfoldable pub insert : K → V → Map K V → Map K V
  insert k v [] = (k, v) ∷ []
  insert k v ((j, w) ∷ m) =
      let rest = insert k v m in
      elim (o.cmp k j) [
        | Ordering.lt ↦ (k, v) ∷ (j, w) ∷ m
        | Ordering.eq ↦ (j, v) ∷ m
        | Ordering.gt ↦ (j, w) ∷ rest
      ]

  -- What is found under `j` behind a write under `k`.
  pub get-insert :
      (j k : K) (v : V) (m : Map K V) → get j (insert k v m) ≡ (if is j k then some v else get j m)
  unfolding get insert
  get-insert j k v [] = ground arith
  get-insert j k v ((i, w) ∷ m) =
      ground (arith, o.cmp_eq j k, o.cmp_eq k i, o.cmp_eq j i, get-insert j k v m)

  -- `for (k, v) in more { m.insert(k, v) }`
  unfoldable pub insert_all : Map K V → Map K V → Map K V
  insert_all [] m = m
  insert_all ((k, v) ∷ more) m = insert_all more (insert k v m)
