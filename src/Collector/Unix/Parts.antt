-- ===== src/Collector/Unix/Parts.antt =====
-- src/collector/unix: each part of the collector of the host emits what the host and the base labels
-- say, whatever the cache holds.
use ferrometer.Prelude.{ℕ, List, [], ◌∷◌, map, Option, none, some, Bool, All}
use ferrometer.Prelude.Text.{Text}
use ferrometer.Prelude.Maps.{Map, text_ord}
use ferrometer.Prelude.Maps.Sorted.{IsSorted}
use ferrometer.Error.{Foreign}
use ferrometer.Signal.{Labels, gauge, counter, new_gauge, new_counter}
use ferrometer.Collector.Emit.{Floats, each}
use ferrometer.Collector.Emit.Refines.{
  HasBase, Carries, Emits-nothing, Emits-each, Emits-if_some, Emits-if, Emits-with_interned,
  Emits-push_gauge, Collects, Collects-collected,
}
use ferrometer.Collector.Memory
use ferrometer.Collector.Netdev
use ferrometer.Collector.Loadavg
use ferrometer.Collector.Uname
use ferrometer.Collector.Disk
use ferrometer.Collector.Filesystem

module _ {F : Type 0} (f : Floats F) (now : ℕ) (base : Labels) (sorted : IsSorted base) where
  memory_gauges-All :
      (rows : List (Text × Option ℕ)) (l : Labels)
      → HasBase base l
      → All (Carries base) (Memory.gauges f now rows l)
  unfolding Memory.gauges new_gauge
  memory_gauges-All [] l h = tt
  memory_gauges-All ((name, none) ∷ rows) l h = memory_gauges-All rows l h
  memory_gauges-All ((name, some v) ∷ rows) l h = (h, memory_gauges-All rows l h)

  pub memory-Collects : (read : Foreign Memory.Meminfo) → Collects base (Memory.collect f now read)
  unfolding Memory.collect Memory.metrics
  memory-Collects read = Collects-collected base _ (Memory.metrics f now) (λ info.
      Emits-with_interned base sorted [] (Memory.gauges f now (Memory.fields info))
        (memory_gauges-All (Memory.fields info)))

  counters-All :
      (rows : List (Text × ℕ)) (l : Labels)
      → HasBase base l
      → All (Carries base) (map (λ (row : Text × ℕ). new_counter row.0 (f.of row.1) l now) rows)
  unfolding new_counter
  counters-All [] l h = tt
  counters-All (row ∷ rows) l h = (h, counters-All rows l h)

  pub netdev-Collects :
      (read : Foreign (Map Text Netdev.DeviceStatus)) (filter : Text → Bool)
      → Collects base (Netdev.collect f now read filter)
  unfolding Netdev.collect Netdev.device Netdev.device_counters
  netdev-Collects read filter = Collects-collected base _ (each (Netdev.device f now filter)) (
      Emits-each base (Netdev.device f now filter) (λ (name, status).
        Emits-if base (filter name) _ _
          (Emits-with_interned base sorted _ (Netdev.device_counters f now status)
            (λ l h. counters-All (Netdev.counters status) l h))
          (Emits-nothing base)))

  pub loadavg-Collects :
      {S : Type 0} (into : S → F) (read : Foreign (Loadavg.LoadAverage S))
      → Collects base (Loadavg.collect into now read)
  unfolding Loadavg.collect Loadavg.metrics Loadavg.gauges new_gauge
  loadavg-Collects into read = Collects-collected base _ (Loadavg.metrics into now) (λ load.
      Emits-with_interned base sorted [] (Loadavg.gauges into now load) (λ l h. (h, (h, (h, tt)))))

  pub uname-Collects : (read : Foreign Uname.UtsName) → Collects base (Uname.collect f now read)
  unfolding Uname.collect Uname.metrics
  uname-Collects read = Collects-collected base _ _ (λ info. Emits-push_gauge base sorted now _ _ _)

  series-All :
      (rows : List (Disk.Row f)) (l : Labels)
      → HasBase base l
      → All (Carries base) (map (λ (row : Disk.Row f). Disk.typed f now row.2 row.0 row.1 l) rows)
  unfolding new_gauge new_counter
  series-All [] l h = tt
  series-All ((name, value, gauge) ∷ rows) l h = (h, series-All rows l h)
  series-All ((name, value, counter) ∷ rows) l h = (h, series-All rows l h)

  pub disk-Collects :
      (read : Foreign (List Disk.DiskStat)) (filter : Text → Bool)
      → Collects base (Disk.collect f now read filter)
  unfolding Disk.collect Disk.device Disk.series
  disk-Collects read filter = Collects-collected base _ _ (
      Emits-each base _ (λ disk.
        Emits-if base (filter disk.name) _ _
          (Emits-with_interned base sorted _ (Disk.series f now disk)
            (series-All (Disk.pairs f disk)))
          (Emits-nothing base)))

  pub filesystem-Collects :
      (read : Foreign (List Filesystem.MountInfo)) (statvfs : Text → Option Filesystem.Stat)
      (mounts types : Text → Bool) (dedupe : Bool)
      → Collects base (Filesystem.collect f now read statvfs mounts types dedupe)
  unfolding Filesystem.collect Filesystem.measure Filesystem.gauges new_gauge
  filesystem-Collects read statvfs mounts types dedupe =
      Collects-collected base _
        (λ ms. each (Filesystem.measure f now statvfs) (Filesystem.chosen mounts types dedupe ms))
        (λ ms.
          Emits-each base (Filesystem.measure f now statvfs)
            (λ m.
              Emits-if_some base (Filesystem.measured f now m)
                (λ s.
                  Emits-with_interned base sorted (Filesystem.mount_labels m)
                    (Filesystem.gauges f now s) (λ l h. (h, (h, (h, (h, (h, tt)))))))
                (statvfs m.mount_point))
            (Filesystem.chosen mounts types dedupe ms))
