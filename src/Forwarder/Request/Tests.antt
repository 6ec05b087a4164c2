-- ===== src/Forwarder/Request/Tests.antt =====
-- src/forwarder/otlphttp.rs: messages of small batches.
use ferrometer.Prelude.{ℕ, ◌≡◌, refl, List, [], ◌∷◌}
use ferrometer.Prelude.Text.{Text, cmp_text}
use ferrometer.Prelude.Maps.{get, insert}
use ferrometer.Signal.{Metric, counter}
use ferrometer.Forwarder.Request.{KeyValue, cumulative_monotonic_sum, build_slice_request}
use ferrometer.Forwarder.Request.Grouping.{IsGrouped, build_slice_request-IsGrouped}

abbrev sample : Text → ℕ → Metric ℕ
sample name value = record {
  name = name;
  labels = [];
  value = value;
  timestamp = 5;
  metric_type = counter;
}

abbrev slice : List (Metric ℕ)
slice = sample (2 ∷ []) 10 ∷ sample (1 ∷ []) 20 ∷ sample (2 ∷ []) 30 ∷ []

two_groups :
    (build_slice_request slice []).metrics
    ≡ record {
      name = 1 ∷ [];
      points =
          cumulative_monotonic_sum
            (record { attributes = []; time_unix_nano = 5; as_double = 20 } ∷ []);
    }
      ∷ record {
        name = 2 ∷ [];
        points = cumulative_monotonic_sum (
            record { attributes = []; time_unix_nano = 5; as_double = 10 }
            ∷ record { attributes = []; time_unix_nano = 5; as_double = 30 }
            ∷ []);
      }
      ∷ []
unfolding build_slice_request get insert cmp_text
two_groups = refl

build_slice_request-IsGrouped_example :
    IsGrouped slice (build_slice_request slice [])
    × ◌≡◌ {A = List KeyValue} (build_slice_request slice []).resource []
build_slice_request-IsGrouped_example = build_slice_request-IsGrouped slice []
