-- ===== src/Collector/Unix/Refines.antt =====
-- src/collector/unix/mod.rs: the collector of the host against one that keeps nothing between its
-- ticks, and the labels that all of its metrics have.
use ferrometer.Prelude.{
  ◌≡◌, refl, sym, ap, ap₂, ◌∙◌, fun_ext, subst, arith, List, [], ◌∷◌, map, Bool, true, false, All,
  All-append, if◌then◌else◌,
}
use ferrometer.Prelude.Text.{Text}
use ferrometer.Prelude.Maps.{text_ord, insert_all}
use ferrometer.Prelude.Maps.Sorted.{IsSorted}
use ferrometer.Error.{Result, ok, err, Foreign}
use ferrometer.Signal.{Labels, Metric}
use ferrometer.Config.Types.{UnixCollectorConfig}
use ferrometer.Collector.LabelCache.{LabelCache, new_cache}
use ferrometer.Collector.LabelCache.Merge.{insert_all-IsSorted}
use ferrometer.Collector.Emit.{Floats, Collect}
use ferrometer.Collector.Emit.Refines.{Carries, OkAll, Collects, collects}
use ferrometer.Collector.Unix.Parts.{
  memory-Collects, netdev-Collects, loadavg-Collects, uname-Collects, disk-Collects,
  filesystem-Collects,
}
use ferrometer.Collector.Unix.Arrays.{cpu-Collects, md-Collects, hwmon-Collects}
use ferrometer.Collector.Unix.{
  Host, UnixCollector, new_unix, part, also, extended, parts, collect, run,
}

Collects-if :
    {F : Type 0} (base : Labels) (b : Bool) (m k : Collect F)
    → Collects base m
    → Collects base k
    → Collects base (if b then m else k)
Collects-if base true m k p q = p
Collects-if base false m k p q = q

-- What two parts return together.
abbrev join :
    {F : Type 0} → Result (List (Metric F)) → Result (List (Metric F)) → Result (List (Metric F))
join (err e) more = err e
join (ok ms) more = also ms more

join-OkAll :
    {F : Type 0} (base : Labels) (here more : Result (List (Metric F)))
    → OkAll base here
    → OkAll base more
    → OkAll base (join here more)
join-OkAll base (err e) more p q = tt
join-OkAll base (ok ms) (err e) p q = tt
join-OkAll base (ok ms) (ok ns) p q = All-append (Carries base) ms ns p q

extended-Collects :
    {F : Type 0} (base : Labels) (m rest : Collect F)
    → Collects base m
    → Collects base rest
    → Collects base (λ c. extended (m c).0 rest (m c).1)
extended-Collects {F} base m rest (collects here p same) (collects more q same') =
    collects (join here more) (join-OkAll base here more p q) (λ c e.
      let both = go (m c).0 (m c).1 (same c e).1 in
      (both.0 ∙ ap (λ r. join r more) (same c e).0, both.1))
  where
    go :
        (r : Result (List (Metric F))) (c : LabelCache)
        → c.base ≡ base
        → ((extended r rest c).0 ≡ join r more) × ((extended r rest c).1.base ≡ base)
    go (err d) c b = (refl, b)
    go (ok ms) c b = (ap (λ r. also ms r) (same' c b).0, (same' c b).1)

module _ {S F : Type 0} (f : Floats F) (into : S → F) (h : Host S) (u : UnixCollector) where
  module _ (base : Labels) (sorted : IsSorted base) where
    part-Collects : (sub : Text) → Collects base (part f into h u sub)
    unfolding part
    part-Collects sub =
        Collects-if base _ _ _ (cpu-Collects f h.now base sorted _ h.sys h.cpu_times) (
          Collects-if base _ _ _ (memory-Collects f h.now base sorted h.meminfo) (
            Collects-if base _ _ _ (disk-Collects f h.now base sorted h.diskstats u.disk_filter) (
              Collects-if base _ _ _
                (filesystem-Collects f h.now base sorted h.mounts h.statvfs u.fs_mount_filter
                  u.fs_type_filter u.fs_dedupe_devices)
                (Collects-if base _ _ _ (md-Collects f h.now base sorted h.has_mdstat h.blocks) (
                  Collects-if base _ _ _
                    (hwmon-Collects f h.now base sorted h.chips h.block_devices u.hwmon_filter)
                    (Collects-if base _ _ _
                      (netdev-Collects f h.now base sorted h.dev_status u.net_filter)
                      (Collects-if base _ _ _ (loadavg-Collects f h.now base sorted into h.load) (
                        Collects-if base _ _ _ (uname-Collects f h.now base sorted h.uname)
                          (collects (ok []) tt (λ c e. (refl, e)))))))))))

    parts-Collects : (subs : List Text) → Collects base (parts f into h u subs)
    unfolding parts
    parts-Collects [] = collects (ok []) tt (λ c e. (refl, e))
    parts-Collects (sub ∷ subs) =
        extended-Collects base (part f into h u sub) (parts f into h u subs) (part-Collects sub)
          (parts-Collects subs)

  -- The parts do not read the collector's own cache, but the one that they are given.
  parts-cache :
      (d : LabelCache) (subs : List Text) (c : LabelCache)
      → parts f into h (record u { cache = d }) subs c ≡ parts f into h u subs c
  unfolding parts part
  parts-cache d [] c = refl
  parts-cache d (sub ∷ subs) c =
      ap (λ rest. extended (part f into h u sub c).0 rest (part f into h u sub c).1)
        (fun_ext (parts-cache d subs))

new_unix-base :
    (regex : Text → Foreign (Text → Bool)) (name : Text) (cfg : UnixCollectorConfig)
    (u : UnixCollector)
    → new_unix regex name cfg ≡ ok u
    → u.cache.base ≡ insert_all cfg.static_labels []
unfolding new_unix
new_unix-base regex name cfg u built = ground arith

-- The collector as it is built, with nothing in its cache.
abbrev pub fresh : UnixCollector → UnixCollector
fresh u = record u { cache = new_cache u.cache.base }

module _ {S F : Type 0} (f : Floats F) (into : S → F) where
  -- What a collection returns is what the fresh collector returns, and has the base's labels.
  collect-same :
      (h : Host S) (u : UnixCollector)
      → IsSorted u.cache.base
      → ((collect f into h u).0 ≡ (collect f into h (fresh u)).0)
        × OkAll u.cache.base (collect f into h u).0
        × ((collect f into h u).1.cache.base ≡ u.cache.base)
  unfolding collect
  collect-same h u sorted = go (parts-Collects f into h u u.cache.base sorted u.enabled)
    where
      go :
          Collects u.cache.base (parts f into h u u.enabled)
          → ((parts f into h u u.enabled u.cache).0
              ≡ (parts f into h (fresh u) u.enabled (new_cache u.cache.base)).0)
            × OkAll u.cache.base (parts f into h u u.enabled u.cache).0
            × ((parts f into h u u.enabled u.cache).1.base ≡ u.cache.base)
      go (collects r p same) =
          let here = same u.cache refl in
          let there = same (new_cache u.cache.base) refl in
          let again =
            parts-cache f into h u (new_cache u.cache.base) u.enabled (new_cache u.cache.base) in
          (
            here.0 ∙ sym (ap (λ x. x.0) again ∙ there.0),
            subst (OkAll u.cache.base) (sym here.0) p,
            here.1,
          )

  -- Over base labels in the order of their names, and whatever the host answers: the ticks of the
  -- collector, which keeps its cache of label sets from one to the next, return tick by tick just
  -- what a collector with an empty cache returns that is asked once. The base labels are kept.
  pub run-refines :
      (hs : List (Host S)) (u : UnixCollector)
      → IsSorted u.cache.base
      → ((run f into hs u).0 ≡ map (λ h. (collect f into h (fresh u)).0) hs)
        × ((run f into hs u).1.cache.base ≡ u.cache.base)
  unfolding run
  run-refines [] u sorted = (refl, refl)
  run-refines (h ∷ hs) u sorted =
      let first = collect-same h u sorted in
      let rest =
        run-refines hs (collect f into h u).1 (subst (λ b. IsSorted b) (sym first.2) sorted) in
      (
        ap₂ (λ r rs. r ∷ rs) first.0
            (rest.0
              ∙ ap (λ b. map (λ x. (collect f into x (record u { cache = new_cache b })).0) hs)
                  first.2),
        rest.1 ∙ first.2,
      )

  run-OkAll :
      (hs : List (Host S)) (u : UnixCollector)
      → IsSorted u.cache.base
      → All (OkAll u.cache.base) (run f into hs u).0
  unfolding run
  run-OkAll [] u sorted = tt
  run-OkAll (h ∷ hs) u sorted =
      let first = collect-same h u sorted in
      (
        first.1,
        subst (λ b. All (OkAll b) (run f into hs (collect f into h u).1).0) first.2
            (run-OkAll hs (collect f into h u).1 (subst (λ b. IsSorted b) (sym first.2) sorted)),
      )

  -- Every metric that the collector of a configuration returns, in whichever tick and of whichever
  -- part, has every static label of the configuration with the configured value.
  pub run-carries :
      (regex : Text → Foreign (Text → Bool)) (name : Text) (cfg : UnixCollectorConfig)
      (u : UnixCollector)
      → new_unix regex name cfg ≡ ok u
      → (hs : List (Host S)) → All (OkAll (insert_all cfg.static_labels [])) (run f into hs u).0
  run-carries regex name cfg u built hs =
      let e = new_unix-base regex name cfg u built in
      subst (λ b. All (OkAll b) (run f into hs u).0) e
        (run-OkAll hs u
          (subst (λ b. IsSorted b) (sym e) (insert_all-IsSorted cfg.static_labels [] tt)))
