-- ===== src/Collector/Hwmon/Disks.antt =====
-- src/collector/unix/hwmon.rs: which disk a sensor belongs to.
use ferrometer.Prelude.{
  ◌≡◌, refl, ap, ◌∙◌, List, [], ◌∷◌, map, Option, none, some, true, false, keep, if◌then◌else◌,
  Bool-cases, ◌⊎◌, inl, inr, arith,
}
use ferrometer.Prelude.Text.{Text}
use ferrometer.Prelude.Maps.{Map, text_ord, is, get}
use ferrometer.Prelude.Maps.Sorted.{IsSorted, get-Below}
use ferrometer.Prelude.Maps.Groups.{entries_of, group_by-IsSorted, group_by-get}
use ferrometer.Collector.Hwmon.{only, single, singles, BlockDevice, block_devices_by_path}

get-single :
    (k path : Text) (o : Option Text) (m : Map Text Text)
    → get k (single path o m)
      ≡ (if is k path then elim o [ none ↦ get k m | some d ↦ some d ] else get k m)
unfolding get
get-single k path none m = ground arith
get-single k path (some d) m = refl

get-singles :
    (k : Text) (m : Map Text (List Text))
    → IsSorted m
    → get k (singles m) ≡ only (entries_of (get k m))
unfolding singles get
get-singles k [] s = refl
get-singles k ((path, ds) ∷ m) s =
    get-single k path (only ds) (singles m) ∙ go (Bool-cases (is k path)) (get-singles k m s.1)
  where
    gone :
        (o : Option Text)
        → get k (singles m) ≡ none
        → elim o [ none ↦ get k (singles m) | some d ↦ some d ] ≡ o
    gone none h = h
    gone (some d) h = refl

    go :
        (is k path ≡ true) ⊎ (is k path ≡ false)
        → get k (singles m) ≡ only (entries_of (get k m))
        → (if is k path
            then elim (only ds) [ none ↦ get k (singles m) | some d ↦ some d ]
            else get k (singles m))
          ≡ only (entries_of (if is k path then some ds else get k m))
    go (inl here) ih =
        let e : k ≡ path = ground (arith, text_ord.cmp_eq k path) in
        let none_left : get k m ≡ none = ap (λ j. get j m) e ∙ get-Below path m s.0 in
        rw here (gone (only ds) (ih ∙ ap (λ o. only (entries_of o)) none_left))
    go (inr elsewhere) ih = rw elsewhere ih

-- The block devices of a path, in the order in which they are listed.
abbrev pub devices_at : Text → List BlockDevice → List Text
devices_at path entries = map (λ b. b.name) (keep (λ b. is path b.device) entries)

pub block_devices_by_path-only :
    (entries : List BlockDevice) (path : Text)
    → get path (block_devices_by_path entries) ≡ only (devices_at path entries)
unfolding block_devices_by_path get
block_devices_by_path-only entries path =
    get-singles path _ (group_by-IsSorted (λ b. b.device) (λ b. b.name) entries [] tt)
    ∙ ap only (group_by-get (λ b. b.device) (λ b. b.name) path entries [])
