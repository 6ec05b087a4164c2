-- ===== src/Collector/Memory.antt =====
-- src/collector/unix/memory.rs: what procfs reads of /proc/meminfo, as gauges.
use ferrometer.Prelude.{ℕ, List, [], ◌∷◌, Option, none, some}
use ferrometer.Prelude.Text.{Text, codes}
use ferrometer.Error.{collector, Foreign, map_err}
use ferrometer.Signal.{Labels, Metric, new_gauge}
use ferrometer.Collector.Emit.{Floats, Emit, Collect, with_interned, collected, after_colon}

pub record Meminfo : Type 0 where
  pub mem_total : ℕ
  pub mem_free : ℕ
  pub mem_available : Option ℕ
  pub buffers : ℕ
  pub cached : ℕ
  pub dirty : ℕ
  pub swap_total : ℕ
  pub swap_free : ℕ
  pub swap_cached : ℕ
  pub shmem : Option ℕ
  pub s_reclaimable : Option ℕ
  pub s_unreclaim : Option ℕ

abbrev pub fields : Meminfo → List (Text × Option ℕ)
fields info =
    (codes "node_memory_MemTotal_bytes", some info.mem_total)
    ∷ (codes "node_memory_MemFree_bytes", some info.mem_free)
    ∷ (codes "node_memory_MemAvailable_bytes", info.mem_available)
    ∷ (codes "node_memory_Buffers_bytes", some info.buffers)
    ∷ (codes "node_memory_Cached_bytes", some info.cached)
    ∷ (codes "node_memory_Dirty_bytes", some info.dirty)
    ∷ (codes "node_memory_SwapTotal_bytes", some info.swap_total)
    ∷ (codes "node_memory_SwapFree_bytes", some info.swap_free)
    ∷ (codes "node_memory_SwapCached_bytes", some info.swap_cached)
    ∷ (codes "node_memory_Shmem_bytes", info.shmem)
    ∷ (codes "node_memory_SReclaimable_bytes", info.s_reclaimable)
    ∷ (codes "node_memory_SUnreclaim_bytes", info.s_unreclaim)
    ∷ []

module _ {F : Type 0} (f : Floats F) (now : ℕ) where
  -- A field that the kernel does not report has no metric.
  unfoldable pub gauges : List (Text × Option ℕ) → Labels → List (Metric F)
  unfolding new_gauge
  gauges [] labels = []
  gauges ((name, none) ∷ rows) labels = gauges rows labels
  gauges ((name, some v) ∷ rows) labels = new_gauge name (f.of v) labels now ∷ gauges rows labels

  unfoldable pub metrics : Meminfo → Emit F
  unfolding gauges codes
  metrics info = with_interned [] (gauges (fields info))

  unfoldable pub collect : Foreign Meminfo → Collect F
  unfolding metrics codes
  collect read = collected (map_err (λ e. collector (after_colon (codes "memory") e)) read) metrics
