-- ===== src/Collector/LabelCache/Merge.antt =====
-- src/collector/label_cache.rs: which labels a metric gets.
use ferrometer.Prelude.{
  ◌≡◌, refl, sym, ap, subst, ◌∙◌, List, [], ◌∷◌, Option, none, some, find, arith,
}
use ferrometer.Prelude.Text.{Text}
use ferrometer.Prelude.Maps.{text_ord, labels_ord, is, get, insert, get-insert, insert_all}
use ferrometer.Prelude.Maps.Sorted.{IsSorted, insert-IsSorted, get-Below}
use ferrometer.Signal.{Labels}
use ferrometer.Collector.LabelCache.{LabelCache, shared_or_new, intern}

-- What the base says, or else what the caller says.
abbrev pub or_else : Option Text → Option Text → Option Text
or_else none o = o
or_else (some v) o = some v

pub get-insert_all :
    (k : Text) (more m : Labels)
    → IsSorted more
    → get k (insert_all more m) ≡ or_else (get k more) (get k m)
unfolding insert_all get
get-insert_all k [] m s = refl
get-insert_all k ((j, v) ∷ more) m s = ground (
  arith,
  get-insert_all k more (insert j v m) s.1,
  get-insert k j v m,
  text_ord.cmp_eq k j,
  get-Below j more s.0,
)

pub insert_all-IsSorted : (more m : Labels) → IsSorted m → IsSorted (insert_all more m)
unfolding insert_all
insert_all-IsSorted [] m s = s
insert_all-IsSorted ((k, v) ∷ more) m s =
    insert_all-IsSorted more (insert k v m) (insert-IsSorted k v m s)

-- A set in the cache is handed out only for itself.
find-is :
    (labels found : Labels) (cache : List Labels)
    → find (is labels) cache ≡ some found
    → found ≡ labels
find-is labels found [] h = cc
find-is labels found (x ∷ cache) h =
    ground (arith, labels_ord.cmp_eq labels x, find-is labels found cache)

shared_or_new-same :
    (labels : Labels) (c : LabelCache) (o : Option Labels)
    → ((found : Labels) → o ≡ some found → found ≡ labels)
    → ((shared_or_new labels c o).0 ≡ labels) × ((shared_or_new labels c o).1.base ≡ c.base)
shared_or_new-same labels c none h = (refl, refl)
shared_or_new-same labels c (some shared) h = (h shared refl, refl)

-- From every cache the set with the base labels in it is handed out.
pub intern-insert_all :
    (labels : Labels) (c : LabelCache)
    → ((intern labels c).0 ≡ insert_all c.base labels) × ((intern labels c).1.base ≡ c.base)
unfolding intern
intern-insert_all labels c =
    shared_or_new-same (insert_all c.base labels) c _
      (λ found. find-is (insert_all c.base labels) found c.cache)

-- Over base labels in the order of their names, a label set that is handed out has under each name
-- the base's value, if the base has that name, and the caller's otherwise; it is in order if the
-- caller's set is; and the base is kept.
pub intern-merges :
    (labels : Labels) (c : LabelCache)
    → IsSorted c.base
    → IsSorted labels
    → ((k : Text) → get k (intern labels c).0 ≡ or_else (get k c.base) (get k labels))
      × IsSorted (intern labels c).0
      × ((intern labels c).1.base ≡ c.base)
intern-merges labels c s s' =
    let (same, kept) = intern-insert_all labels c in
    (
      λ k. ap (get k) same ∙ get-insert_all k c.base labels s,
      subst IsSorted (sym same) (insert_all-IsSorted c.base labels s'),
      kept,
    )
