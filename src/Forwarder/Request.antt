-- ===== src/Forwarder/Request.antt =====
-- src/forwarder/otlphttp.rs: the OTLP message of one batch.
pub mod Grouping
mod Tests
use ferrometer.Prelude.{ℕ, ◌%◌, ◌^◌, List, [], ◌∷◌, ◌++◌, map, Option, none, some}
use ferrometer.Prelude.Text.{Text, codes, ends_with, trim_end_by}
use ferrometer.Prelude.Words.{u64_mod}
use ferrometer.Prelude.{◌==◌, if◌then◌else◌}
use ferrometer.Prelude.Maps.{Map, Ord, text_ord, get, insert}
use ferrometer.Signal.{Labels, MetricType, gauge, counter, Metric}

-- The generated messages, with the fields that the program sets.
pub record KeyValue : Type 0 where
  pub key : Text
  pub value : Text

pub record NumberDataPoint (F : Type 0) : Type 0 where
  pub attributes : List KeyValue
  pub time_unix_nano : ℕ
  pub as_double : F

-- `AggregationTemporality::Cumulative` and `is_monotonic: true` on every sum.
pub data Data (F : Type 0) : Type 0 where
  gauge_data : List (NumberDataPoint F) → Data F
  cumulative_monotonic_sum : List (NumberDataPoint F) → Data F

pub record OtlpMetric (F : Type 0) : Type 0 where
  pub name : Text
  pub points : Data F

-- One `ResourceMetrics` with one `ScopeMetrics`.
pub record ExportRequest (F : Type 0) : Type 0 where
  pub resource : List KeyValue
  pub metrics : List (OtlpMetric F)

pub kv : Text → Text → KeyValue
kv key value = record { key = key; value = value }

pub labels_to_attributes : Labels → List KeyValue
unfolding kv
labels_to_attributes labels = map (λ l. kv l.0 l.1) labels

-- Times are nanoseconds since the epoch; the cast keeps 64 bits.
pub system_time_to_nanos : ℕ → ℕ
system_time_to_nanos t = t % u64_mod

-- `or_default()` on a vector.
abbrev pub or_empty : {A : Type 0} → Option (List A) → List A
or_empty none = []
or_empty (some l) = l

module _ {F : Type 0} where
  pub data_point : Metric F → NumberDataPoint F
  unfolding labels_to_attributes system_time_to_nanos
  data_point m = record {
    attributes = labels_to_attributes m.labels;
    time_unix_nano = system_time_to_nanos m.timestamp;
    as_double = m.value;
  }

  -- `by_name.entry(name).or_default().push(m)` for each metric.
  pub group : List (Metric F) → Map Text (List (Metric F)) → Map Text (List (Metric F))
  group [] by_name = by_name
  group (m ∷ ms) by_name =
      group ms (insert m.name (or_empty (get m.name by_name) ++ m ∷ []) by_name)

  -- The type of the first metric is that of the group.
  pub group_data : List (Metric F) → Data F
  unfolding data_point
  group_data [] = gauge_data []
  group_data (m ∷ ms) = elim m.metric_type [
    | gauge ↦ gauge_data (map data_point (m ∷ ms))
    | counter ↦ cumulative_monotonic_sum (map data_point (m ∷ ms))
  ]

  pub build_slice_request : List (Metric F) → List KeyValue → ExportRequest F
  unfolding group group_data
  build_slice_request slice resource_attributes = record {
    resource = resource_attributes;
    metrics = map (λ g. record { name = g.0; points = group_data g.1 }) (group slice []);
  }

-- The endpoint of `new`: no slash at the end, and the path of the metrics API.
pub endpoint_of : Text → Text
endpoint_of raw =
    let endpoint = trim_end_by (λ c. c == b'/') raw in
    if ends_with endpoint (codes "/v1/metrics") then endpoint else endpoint ++ codes "/v1/metrics"
