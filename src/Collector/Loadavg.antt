-- ===== src/Collector/Loadavg.antt =====
-- src/collector/unix/loadavg.rs: the three load averages, which procfs reads as `f32`; `into` is the
-- conversion to `f64`.
use ferrometer.Prelude.{ℕ, List, [], ◌∷◌}
use ferrometer.Prelude.Text.{codes}
use ferrometer.Error.{collector, Foreign, map_err}
use ferrometer.Signal.{Labels, Metric, new_gauge}
use ferrometer.Collector.Emit.{Emit, Collect, with_interned, collected, after_colon}

pub record LoadAverage (S : Type 0) : Type 0 where
  pub one : S
  pub five : S
  pub fifteen : S

module _ {S F : Type 0} (into : S → F) (now : ℕ) where
  unfoldable pub gauges : LoadAverage S → Labels → List (Metric F)
  unfolding new_gauge codes
  gauges load labels =
      new_gauge (codes "node_load1") (into load.one) labels now
      ∷ new_gauge (codes "node_load5") (into load.five) labels now
      ∷ new_gauge (codes "node_load15") (into load.fifteen) labels now
      ∷ []

  unfoldable pub metrics : LoadAverage S → Emit F
  unfolding gauges
  metrics load = with_interned [] (gauges load)

  unfoldable pub collect : Foreign (LoadAverage S) → Collect F
  unfolding metrics codes
  collect read = collected (map_err (λ e. collector (after_colon (codes "loadavg") e)) read) metrics
