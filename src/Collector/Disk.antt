-- ===== src/Collector/Disk.antt =====
-- src/collector/unix/disk.rs: the statistics of each block device that the filter lets through.
use ferrometer.Prelude.{
  ℕ, ◌*◌, ◌%◌, ◌++◌, List, [], ◌∷◌, map, Option, none, some, Bool, if◌then◌else◌,
}
use ferrometer.Prelude.Words.{u64_mod}
use ferrometer.Prelude.Text.{Text, codes}
use ferrometer.Prelude.Maps.{text_ord, insert}
use ferrometer.Error.{collector, Foreign, map_err}
use ferrometer.Signal.{Labels, Metric, MetricType, gauge, counter, new_gauge, new_counter}
use ferrometer.Collector.Emit.{
  Floats, Emit, Collect, nothing, each, with_interned, collected, after_colon,
}

pub record DiskStat : Type 0 where
  pub name : Text
  pub reads : ℕ
  pub sectors_read : ℕ
  pub time_reading : ℕ
  pub writes : ℕ
  pub sectors_written : ℕ
  pub time_writing : ℕ
  pub in_progress : ℕ
  pub time_in_progress : ℕ
  pub discards : Option ℕ
  pub sectors_discarded : Option ℕ
  pub time_discarding : Option ℕ
  pub flushes : Option ℕ
  pub time_flushing : Option ℕ

module _ {F : Type 0} (f : Floats F) where
  -- A name, a value and a type.
  abbrev pub Row : Type 0
  Row = Text × F × MetricType

  -- `as f64 / 1000.0`
  abbrev seconds : ℕ → F
  seconds millis = f.over (f.of millis) (f.of 1000)

  -- The product of two `u64`, which wraps round in a release build.
  abbrev bytes : ℕ → F
  bytes sectors = f.of (sectors * 512 % u64_mod)

  abbrev pub if_reported : Text → (ℕ → F) → Option ℕ → List Row
  if_reported name value none = []
  if_reported name value (some n) = (name, value n, counter) ∷ []

  unfoldable pub pairs : DiskStat → List Row
  unfolding codes
  pairs disk =
      ((codes "node_disk_reads_completed_total", f.of disk.reads, counter)
        ∷ (codes "node_disk_read_bytes_total", bytes disk.sectors_read, counter)
        ∷ (codes "node_disk_read_time_seconds_total", seconds disk.time_reading, counter)
        ∷ (codes "node_disk_writes_completed_total", f.of disk.writes, counter)
        ∷ (codes "node_disk_written_bytes_total", bytes disk.sectors_written, counter)
        ∷ (codes "node_disk_write_time_seconds_total", seconds disk.time_writing, counter)
        ∷ (codes "node_disk_io_now", f.of disk.in_progress, gauge)
        ∷ (codes "node_disk_io_time_seconds_total", seconds disk.time_in_progress, counter)
        ∷ [])
      ++ (if_reported (codes "node_disk_discards_completed_total") f.of disk.discards
          ++ (if_reported (codes "node_disk_discarded_sectors_total") f.of disk.sectors_discarded
              ++ (if_reported (codes "node_disk_discard_time_seconds_total") seconds
                    disk.time_discarding
                  ++ (if_reported (codes "node_disk_flush_requests_total") f.of disk.flushes
                      ++ if_reported (codes "node_disk_flush_requests_time_seconds_total") seconds
                          disk.time_flushing))))

module _ {F : Type 0} (f : Floats F) (now : ℕ) where
  -- The `match` on the type.
  abbrev pub typed : MetricType → Text → F → Labels → Metric F
  typed gauge name value labels = new_gauge name value labels now
  typed counter name value labels = new_counter name value labels now

  unfoldable pub series : DiskStat → Labels → List (Metric F)
  unfolding pairs new_gauge new_counter
  series disk labels = map (λ row. typed row.2 row.0 row.1 labels) (pairs f disk)

  unfoldable pub device : (Text → Bool) → DiskStat → Emit F
  unfolding series insert codes
  device filter disk =
      if filter disk.name
      then with_interned (insert (codes "device") disk.name []) (series disk)
      else nothing

  unfoldable pub collect : Foreign (List DiskStat) → (Text → Bool) → Collect F
  unfolding device codes
  collect read filter =
      collected (map_err (λ e. collector (after_colon (codes "disk") e)) read)
        (each (device filter))
