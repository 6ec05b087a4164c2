-- ===== src/Collector/Filesystem/Canonical.antt =====
-- src/collector/unix/filesystem.rs: which of the mounts of a device the table keeps.
use Prim.Native.Nat.{Ordering}
use ferrometer.Prelude.{
  ◌≡◌, ◌≢◌, ◌⊎◌, inl, inr, refl, sym, ap, subst, List, [], ◌∷◌, ◌++◌, append_assoc, append-nil,
  Option, none, some, true, false, All, All-append, if_split, Bool-cases, arith,
}
use ferrometer.Prelude.Text.{Text}
use ferrometer.Prelude.Maps.{
  Map, text_ord, cmp_labels_eq, cmp_labels_trans, is, get, insert, get-insert,
}
use ferrometer.Collector.Filesystem.{
  MountInfo, components, path_lt, is_lt, is_more_canonical, better, dedupe,
}

is_lt-lt : (o : Ordering) → is_lt o ≡ true → o ≡ Ordering.lt
is_lt-lt Ordering.lt h = refl
is_lt-lt Ordering.eq h = absurd cc
is_lt-lt Ordering.gt h = absurd cc

path_lt_trans : (p q r : Text) → path_lt p q ≡ true → path_lt q r ≡ true → path_lt p r ≡ true
unfolding path_lt
path_lt_trans p q r h k =
    ap is_lt
      (cmp_labels_trans (components p) (components q) (components r) (is_lt-lt _ h) (is_lt-lt _ k))

is_more_canonical_trans :
    (a b c : MountInfo)
    → is_more_canonical a b ≡ true
    → is_more_canonical b c ≡ true
    → is_more_canonical a c ≡ true
unfolding is_more_canonical
is_more_canonical_trans a b c h k =
    ground (arith, path_lt_trans a.mount_point b.mount_point c.mount_point)

-- Membership.
pub Has : MountInfo → List MountInfo → Type 0
Has b [] = ⊥
Has b (m ∷ ms) = (m ≡ b) ⊎ Has b ms

Has-left : (b : MountInfo) (xs ys : List MountInfo) → Has b xs → Has b (xs ++ ys)
unfolding Has
Has-left b [] ys h = absurd h
Has-left b (x ∷ xs) ys (inl e) = inl e
Has-left b (x ∷ xs) ys (inr h) = inr (Has-left b xs ys h)

Has-last : (b : MountInfo) (xs : List MountInfo) → Has b (xs ++ b ∷ [])
unfolding Has
Has-last b [] = inl refl
Has-last b (x ∷ xs) = inr (Has-last b xs)

-- The mount of the device `d` that is kept: none if there is none, and otherwise one of its mounts
-- than which no other one is more canonical.
abbrev pub IsBest : Text → List MountInfo → Option MountInfo → Type 0
IsBest d ms none = All (λ m. m.majmin ≢ d) ms
IsBest d ms (some b) =
    Has b ms × (b.majmin ≡ d) × All (λ m. m.majmin ≡ d → is_more_canonical m b ≡ false) ms

path_lt_irrefl : (p : Text) → path_lt p p ≡ false
unfolding path_lt
path_lt_irrefl p = ap is_lt ((cmp_labels_eq (components p) (components p)).1 refl)

is_more_canonical_irrefl : (m : MountInfo) → is_more_canonical m m ≡ false
unfolding is_more_canonical
is_more_canonical_irrefl m = ground (arith, path_lt_irrefl m.mount_point)

pub All-weaken :
    (P Q : MountInfo → Type 0) (ms : List MountInfo)
    → ((m : MountInfo) → P m → Q m)
    → All P ms
    → All Q ms
All-weaken P Q [] f h = tt
All-weaken P Q (m ∷ ms) f h = (f m h.0, All-weaken P Q ms f h.1)

-- A mount of another device changes nothing.
IsBest-other :
    (d : Text) (m : MountInfo) (seen : List MountInfo) (o : Option MountInfo)
    → m.majmin ≢ d
    → IsBest d seen o
    → IsBest d (seen ++ m ∷ []) o
IsBest-other d m seen none other h = All-append _ seen (m ∷ []) h (other, tt)
IsBest-other d m seen (some b) other (has, same, best) = (
  Has-left b seen (m ∷ []) has,
  same,
  All-append _ seen (m ∷ []) best ((λ e. absurd (other e)), tt),
)

IsBest-keep :
    (d : Text) (m b : MountInfo) (seen : List MountInfo)
    → is_more_canonical m b ≡ false
    → IsBest d seen (some b)
    → IsBest d (seen ++ m ∷ []) (some b)
IsBest-keep d m b seen no_better (has, same, best) =
    (Has-left b seen (m ∷ []) has, same, All-append _ seen (m ∷ []) best ((λ e. no_better), tt))

IsBest-first :
    (m : MountInfo) (seen : List MountInfo)
    → IsBest m.majmin seen none
    → IsBest m.majmin (seen ++ m ∷ []) (some m)
IsBest-first m seen h = (
  Has-last m seen,
  refl,
  All-append _ seen (m ∷ [])
      (All-weaken (λ x. x.majmin ≢ m.majmin)
        (λ x. x.majmin ≡ m.majmin → is_more_canonical x m ≡ false) seen
        (λ x other e. absurd (other e)) h)
      ((λ e. is_more_canonical_irrefl m), tt),
)

IsBest-replace :
    (m b : MountInfo) (seen : List MountInfo)
    → is_more_canonical m b ≡ true
    → IsBest m.majmin seen (some b)
    → IsBest m.majmin (seen ++ m ∷ []) (some m)
IsBest-replace m b seen more (has, same, best) = (
  Has-last m seen,
  refl,
  All-append _ seen (m ∷ [])
      (All-weaken (λ x. x.majmin ≡ m.majmin → is_more_canonical x b ≡ false)
        (λ x. x.majmin ≡ m.majmin → is_more_canonical x m ≡ false) seen
        (λ x none_better e. still x (none_better e)) best)
      ((λ e. is_more_canonical_irrefl m), tt),
)
  where
    still : (x : MountInfo) → is_more_canonical x b ≡ false → is_more_canonical x m ≡ false
    still x h = ground (arith, is_more_canonical_trans x m b)

unfoldable pub AllBest : List MountInfo → Map Text MountInfo → Type 0
AllBest seen by_dev = (d : Text) → IsBest d seen (get d by_dev)

insert-AllBest :
    (m : MountInfo) (seen : List MountInfo) (by_dev : Map Text MountInfo)
    → IsBest m.majmin (seen ++ m ∷ []) (some m)
    → AllBest seen by_dev
    → AllBest (seen ++ m ∷ []) (insert m.majmin m by_dev)
unfolding AllBest
insert-AllBest m seen by_dev best h d =
    subst (λ o. IsBest d (seen ++ m ∷ []) o) (sym (get-insert d m.majmin m by_dev))
      (if_split (IsBest d (seen ++ m ∷ [])) (is d m.majmin)
        (λ same.
          let e : m.majmin ≡ d = ground (arith, text_ord.cmp_eq d m.majmin) in
          subst (λ k. IsBest k (seen ++ m ∷ []) (some m)) e best)
        (λ other.
          IsBest-other d m seen (get d by_dev)
            (λ e. ground (arith, text_ord.cmp_eq d m.majmin, sym e)) (h d)))

keep-AllBest :
    (m b : MountInfo) (seen : List MountInfo) (by_dev : Map Text MountInfo)
    → get m.majmin by_dev ≡ some b
    → is_more_canonical m b ≡ false
    → AllBest seen by_dev
    → AllBest (seen ++ m ∷ []) by_dev
unfolding AllBest
keep-AllBest m b seen by_dev e no_better h d = elim (Bool-cases (is d m.majmin)) [
  | inl same ↦
      let e' : m.majmin ≡ d = ground (arith, text_ord.cmp_eq d m.majmin) in
      subst (λ k. IsBest k (seen ++ m ∷ []) (get k by_dev)) e'
        (subst (λ o. IsBest m.majmin (seen ++ m ∷ []) o) (sym e)
          (IsBest-keep m.majmin m b seen no_better
            (subst (λ o. IsBest m.majmin seen o) e (h m.majmin))))
  | inr other ↦
      IsBest-other d m seen (get d by_dev) (λ e. ground (arith, text_ord.cmp_eq d m.majmin, sym e))
        (h d)
]

better-AllBest :
    (m : MountInfo) (seen : List MountInfo) (by_dev : Map Text MountInfo) (o : Option MountInfo)
    → get m.majmin by_dev ≡ o
    → AllBest seen by_dev
    → AllBest (seen ++ m ∷ []) (better m o by_dev)
unfolding AllBest
better-AllBest m seen by_dev none e h =
    insert-AllBest m seen by_dev
      (IsBest-first m seen (subst (λ o. IsBest m.majmin seen o) e (h m.majmin))) h
better-AllBest m seen by_dev (some b) e h =
    if_split (AllBest (seen ++ m ∷ [])) (is_more_canonical m b)
      (λ more.
        insert-AllBest m seen by_dev
          (IsBest-replace m b seen more (subst (λ o. IsBest m.majmin seen o) e (h m.majmin))) h)
      (λ no_better. keep-AllBest m b seen by_dev e no_better h)

pub dedupe-AllBest :
    (ms seen : List MountInfo) (by_dev : Map Text MountInfo)
    → AllBest seen by_dev
    → AllBest (seen ++ ms) (dedupe ms by_dev)
unfolding dedupe
dedupe-AllBest [] seen by_dev h = subst (λ xs. AllBest xs by_dev) (sym (append-nil seen)) h
dedupe-AllBest (m ∷ ms) seen by_dev h =
    subst (λ xs. AllBest xs (dedupe ms (better m (get m.majmin by_dev) by_dev)))
      (append_assoc seen (m ∷ []) ms)
      (dedupe-AllBest ms (seen ++ m ∷ []) _ (better-AllBest m seen by_dev _ refl h))
