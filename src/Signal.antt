-- ===== src/Signal.antt =====
-- src/signal.rs: the metric that collectors produce and forwarders ship. The type `F` is `f64`.
use ferrometer.Prelude.{ℕ, List, ◌∷◌, if◌then◌else◌, any}
use ferrometer.Prelude.Text.{Text, text_eq}
use ferrometer.Prelude.Maps.{Map}

abbrev pub Labels : Type 0
Labels = Map Text Text

pub data MetricType : Type 0 where
  gauge counter : MetricType

pub record Metric (F : Type 0) : Type 0 where
  pub name : Text
  pub labels : Labels
  pub value : F
  pub timestamp : ℕ
  pub metric_type : MetricType

-- The pool of names seen so far; `intern_name` adds a name that is not there.
unfoldable pub intern_name : Text → List Text → Text × List Text
intern_name name set = if any (text_eq name) set then (name, set) else (name, name ∷ set)

-- `Metric::gauge` and `Metric::counter`; `now` is `SystemTime::now()`.
unfoldable pub new_gauge : {F : Type 0} → Text → F → Labels → ℕ → Metric F
new_gauge name value labels now = record {
  name = name;
  labels = labels;
  value = value;
  timestamp = now;
  metric_type = gauge;
}

unfoldable pub new_counter : {F : Type 0} → Text → F → Labels → ℕ → Metric F
new_counter name value labels now = record {
  name = name;
  labels = labels;
  value = value;
  timestamp = now;
  metric_type = counter;
}
