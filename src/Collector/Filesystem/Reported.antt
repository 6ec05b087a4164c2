-- ===== src/Collector/Filesystem/Reported.antt =====
-- src/collector/unix/filesystem.rs: which of the mounts of a device is reported.
use ferrometer.Prelude.{
  ◌∙◌, if_true, if_false, ◌↔◌, keep, map, Bool, not, ◌&&◌, if◌then◌else◌, ◌≡◌, ◌≢◌, ◌⊎◌, inl, inr,
  refl, sym, ap, subst, List, [], ◌∷◌, Option, none, some, true, false, All, if_split, Bool-cases,
  arith,
}
use ferrometer.Prelude.Text.{Text, codes, text_eq, text_eq_iff}
use ferrometer.Prelude.Maps.{Map, text_ord, is, get, insert}
use ferrometer.Prelude.Maps.Sorted.{Below, IsSorted, insert-IsSorted, get-Below}
use ferrometer.Collector.Filesystem.{MountInfo, path_lt, is_more_canonical, better, dedupe}
use ferrometer.Collector.Filesystem.Canonical.{Has, IsBest, All-weaken, AllBest, dedupe-AllBest}

abbrev to_list : {A : Type 0} → Option A → List A
to_list none = []
to_list (some a) = a ∷ []

-- A mount of a whole file system.
abbrev pub IsWhole : MountInfo → Type 0
IsWhole m = m.root ≡ codes "/"

-- `b` is a whole file system and `m` is not, or both are or both are not, and the path of `m` is not
-- before that of `b`.
abbrev pub IsFirst : MountInfo → MountInfo → Type 0
IsFirst b m =
    (IsWhole b × ¬ IsWhole m)
    ⊎ ((IsWhole b ↔ IsWhole m) × (path_lt m.mount_point b.mount_point ≡ false))

-- The mount of the device `d` that is reported: none if there is none, and otherwise one of its mounts
-- that is the first of them all.
abbrev pub IsChosen : Text → List MountInfo → List MountInfo → Type 0
IsChosen d ms [] = All (λ m. m.majmin ≢ d) ms
IsChosen d ms (b ∷ []) = Has b ms × (b.majmin ≡ d) × All (λ m. m.majmin ≡ d → IsFirst b m) ms
IsChosen d ms (b ∷ b' ∷ bs) = ⊥

first_of :
    {M B : Type 0} (candidate current lt : Bool)
    → (candidate ≡ true) ↔ M
    → (current ≡ true) ↔ B
    → (if candidate && not current then true else if not candidate && current then false else lt)
      ≡ false
    → (B × ¬ M) ⊎ ((B ↔ M) × (lt ≡ false))
first_of true true lt m b h = inr (((λ w. m.0 refl), (λ w. b.0 refl)), h)
first_of true false lt m b h = absurd cc
first_of false true lt m b h = inl (b.0 refl, (λ w. absurd (false≢true (m.1 w))))
  where
    false≢true : false ≡ true → ⊥
    false≢true e = cc
first_of false false lt m b h =
    inr (((λ w. absurd (false≢true (b.1 w))), (λ w. absurd (false≢true (m.1 w)))), h)
  where
    false≢true : false ≡ true → ⊥
    false≢true e = cc

is_more_canonical-IsFirst : (m b : MountInfo) → is_more_canonical m b ≡ false → IsFirst b m
unfolding is_more_canonical codes
is_more_canonical-IsFirst m b h =
    first_of (text_eq m.root (b'/' ∷ [])) (text_eq b.root (b'/' ∷ []))
      (path_lt m.mount_point b.mount_point) (text_eq_iff m.root (b'/' ∷ []))
      (text_eq_iff b.root (b'/' ∷ [])) h

IsBest-IsChosen :
    (d : Text) (ms : List MountInfo) (o : Option MountInfo)
    → IsBest d ms o
    → IsChosen d ms (to_list o)
IsBest-IsChosen d ms none h = h
IsBest-IsChosen d ms (some b) (has, same, best) =
    (has, same, All-weaken _ _ ms (λ m h e. is_more_canonical-IsFirst m b (h e)) best)

-- Each mount stands under its device.
abbrev IsKeyed : Map Text MountInfo → Type 0
IsKeyed by_dev = All (λ e. e.1.majmin ≡ e.0) by_dev

insert-IsKeyed :
    (m : MountInfo) (by_dev : Map Text MountInfo)
    → IsKeyed by_dev
    → IsKeyed (insert m.majmin m by_dev)
unfolding insert
insert-IsKeyed m [] h = (refl, tt)
insert-IsKeyed m ((j, w) ∷ by_dev) h =
    ground (arith, text_ord.cmp_eq m.majmin j, insert-IsKeyed m by_dev h.1)

record IsTable (by_dev : Map Text MountInfo) : Type 0 where
  sorted : IsSorted by_dev
  keyed : IsKeyed by_dev

insert-IsTable :
    (m : MountInfo) (by_dev : Map Text MountInfo)
    → IsTable by_dev
    → IsTable (insert m.majmin m by_dev)
insert-IsTable m by_dev t = record {
  sorted = insert-IsSorted m.majmin m by_dev t.sorted;
  keyed = insert-IsKeyed m by_dev t.keyed;
}

better-IsTable :
    (m : MountInfo) (o : Option MountInfo) (by_dev : Map Text MountInfo)
    → IsTable by_dev
    → IsTable (better m o by_dev)
better-IsTable m none by_dev t = insert-IsTable m by_dev t
better-IsTable m (some b) by_dev t =
    if_split IsTable (is_more_canonical m b) (λ _. insert-IsTable m by_dev t) (λ _. t)

dedupe-IsTable :
    (ms : List MountInfo) (by_dev : Map Text MountInfo)
    → IsTable by_dev
    → IsTable (dedupe ms by_dev)
unfolding dedupe
dedupe-IsTable [] by_dev t = t
dedupe-IsTable (m ∷ ms) by_dev t =
    dedupe-IsTable ms _ (better-IsTable m (get m.majmin by_dev) by_dev t)

-- The mounts of a device among those that are reported.
abbrev pub of_device : Text → List MountInfo → List MountInfo
of_device d ms = keep (λ m. is d m.majmin) ms

abbrev cons_if : {A : Type 0} → A → List A → Bool → List A
cons_if x xs true = x ∷ xs
cons_if x xs false = xs

keep-cons :
    {A : Type 0} (p : A → Bool) (x : A) (xs : List A) {b : Bool}
    → p x ≡ b
    → keep p (x ∷ xs) ≡ cons_if x (keep p xs) b
keep-cons {A = A} p x xs e = tested (p x) (keep p xs) ∙ ap (cons_if x (keep p xs)) e
  where
    tested :
        (b : Bool) (rest : List A)
        → (elim b as (λ _. List A) [ true ↦ x ∷ rest | false ↦ rest ]) ≡ cons_if x rest b
    tested true rest = refl
    tested false rest = refl

of_device-get :
    (d : Text) (by_dev : Map Text MountInfo)
    → IsTable by_dev
    → of_device d (map (λ e. e.1) by_dev) ≡ to_list (get d by_dev)
unfolding get
of_device-get d [] t = refl
of_device-get d ((k, m) ∷ by_dev) t =
    let rest = of_device-get d by_dev (record { sorted = t.sorted.1; keyed = t.keyed.1 }) in
    elim (Bool-cases (is d k)) [
      | inl same ↦
          let e : d ≡ k = ground (arith, text_ord.cmp_eq d k) in
          let none_left : get d by_dev ≡ none =
            get-Below d by_dev (subst (λ j. Below j by_dev) (sym e) t.sorted.0) in
          keep-cons (λ x. is d x.majmin) m (map (λ e. e.1) by_dev) (ap (is d) t.keyed.0 ∙ same)
          ∙ ap (λ xs. m ∷ xs) (rest ∙ ap to_list none_left)
          ∙ ap to_list (sym (if_true (some m) (get d by_dev) same))
      | inr other ↦
          keep-cons (λ x. is d x.majmin) m (map (λ e. e.1) by_dev) (ap (is d) t.keyed.0 ∙ other)
          ∙ rest
          ∙ ap to_list (sym (if_false (some m) (get d by_dev) other))
    ]

-- Of each device that has a mount exactly one is reported, and of no other device any. It is a mount
-- of a whole file system, if the device has one, and among these, or else among all of its mounts, none
-- has a path before it. So no device is counted twice and none is left out.
pub dedupe-IsChosen :
    (ms : List MountInfo) (d : Text) → IsChosen d ms (of_device d (map (λ e. e.1) (dedupe ms [])))
unfolding AllBest get
dedupe-IsChosen ms d =
    let table = dedupe-IsTable ms [] (record { sorted = tt; keyed = tt }) in
    subst (IsChosen d ms) (sym (of_device-get d (dedupe ms []) table))
      (IsBest-IsChosen d ms _ (dedupe-AllBest ms [] [] (λ k. tt) d))
