-- ===== src/Start.antt =====
-- src/pipeline.rs, run, and src/main.rs, spawn_logs: what is built from a configuration before the
-- first round. What the operating system and other crates answer is an argument.
pub mod Clients
pub mod Returned
mod Tests
use ferrometer.Prelude.{ℕ, ◌++◌, List, [], ◌∷◌, Option, none, some, Bool, false}
use ferrometer.Prelude.Text.{Text, codes}
use ferrometer.Prelude.Maps.{Map, text_ord, insert, insert_all}
use ferrometer.Error.{collector, forwarder, sink, source, Result, ok, err, Foreign, map_err, ◌>>=◌}
use ferrometer.Auth.{Reply, returned}
use ferrometer.Config.Types.{
  PrometheusCollectorConfig, CollectorConfig, unix, prometheus, OtlphttpForwarderConfig, otlphttp,
  ForwarderConfig, Compression, JournaldSourceConfig, journald, LogSourceConfig, LokiSinkConfig,
  loki, LogSinkConfig, ShipperConfig, Config,
}
use ferrometer.Collector.Unix.{UnixCollector, new_unix}
use ferrometer.Collector.Prometheus.{Scraper, new_scraper}
use ferrometer.Forwarder.Run
use ferrometer.Forwarder.Request.{KeyValue, endpoint_of, labels_to_attributes}
use ferrometer.Log.Journald.{Settings, Source, merge_static}
use ferrometer.Log.Journald.Cursors.{ReadFile, read_saved_cursor}
use ferrometer.Log.Loki.{normalize_endpoint}
use ferrometer.Log.Shipper.{Shipper}
use ferrometer.Pipeline.{Scheduled}
use ferrometer.Start.Clients.{Http, and_then, connect}

-- `regex`, the journal, and the files of the cursors, besides HTTP.
pub record Outside (C I B K : Type 0) : Type 0 where
  pub http : Http C I B K
  pub regex : Text → Foreign (Text → Bool)
  pub open_journal : Bool → Foreign (Unit {0})
  pub journal_fd : Foreign (Unit {0})
  pub register_fd : Foreign (Unit {0})
  pub cursors : Text → ReadFile

-- `Box<dyn Collector>`
pub data Collector (K : Type 0) : Type 0 where
  of_host : UnixCollector → Collector K
  of_target : Option Text → K → Scraper → Collector K

pub record Otlphttp (K : Type 0) : Type 0 where
  pub name : Text
  pub client : K
  pub endpoint : Text
  pub auth_header : Option Text
  pub compression : Compression
  pub limits : Run.Config
  pub resource_attributes : List KeyValue

pub record LokiSink (K : Type 0) : Type 0 where
  pub name : Text
  pub client : K
  pub endpoint : Text
  pub auth_header : Option Text

pub record Journal : Type 0 where
  pub name : Text
  pub cursor_file : Text
  pub batch_wait : ℕ
  pub settings : Settings
  pub state : Source

-- `for` over a map, with `?` in its body.
unfoldable pub build_each : {A B : Type 0} → (A → Reply B) → List A → Reply (List B)
build_each f [] = returned (ok [])
build_each f (a ∷ more) =
    let rest = build_each f more in
    and_then (f a) (λ b. and_then rest (λ bs. returned (ok (b ∷ bs))))

-- `collector_schedule_params`
abbrev pub collector_schedule_params : CollectorConfig → ℕ × ℕ
collector_schedule_params (unix c) = (c.interval, c.max_runtime)
collector_schedule_params (prometheus c) = (c.interval, c.max_runtime)

abbrev pub scheduled : ℕ → Text → CollectorConfig → Scheduled
scheduled now name cc =
    let (interval, max_runtime) = collector_schedule_params cc in
    record {
      name = name;
      interval = interval;
      max_runtime = max_runtime;
      next_run = now;
      active = false;
    }

module _ {C I B K : Type 0} (os : Outside C I B K) where
  -- `PrometheusScraper::new`
  unfoldable pub new_prometheus : Text → PrometheusCollectorConfig → Reply (Collector K)
  unfolding connect new_scraper insert_all
  new_prometheus name c =
      and_then (connect os.http collector (some c.scrape_timeout) c.auth c.tls) (λ (header, client).
        returned
          (ok (of_target header client (new_scraper name c.url (insert_all c.static_labels [])))))

  unfoldable pub build_collector : Text → CollectorConfig → Reply (Collector K)
  unfolding new_unix new_prometheus
  build_collector name (unix c) = returned (new_unix os.regex name c >>= λ u. ok (of_host u))
  build_collector name (prometheus c) = new_prometheus name c

  -- `OtlphttpForwarder::new`
  unfoldable pub new_otlphttp : Text → OtlphttpForwarderConfig → Reply (Otlphttp K)
  unfolding connect
  new_otlphttp name c =
      and_then (connect os.http forwarder (some c.timeout) c.auth c.tls) (λ (header, client).
        returned (
          ok (record {
            name = name;
            client = client;
            endpoint = endpoint_of c.endpoint;
            auth_header = header;
            compression = c.compression;
            limits = record {
              caps = record {
                buffer_max_metrics = c.buffer_max_metrics;
                request_max_metrics = c.request_max_metrics;
              };
              backoff_initial = c.backoff_initial;
              backoff_max = c.backoff_max;
            };
            resource_attributes = labels_to_attributes c.resource_attributes;
          })))

  abbrev pub build_forwarder : Text × ForwarderConfig → Reply (Otlphttp K)
  build_forwarder (name, otlphttp c) = new_otlphttp name c

  abbrev pub build_scheduled : ℕ → Text × CollectorConfig → Reply (Scheduled × Collector K)
  build_scheduled now (name, cc) =
      and_then (build_collector name cc) (λ built. returned (ok (scheduled now name cc, built)))

  -- The head of `pipeline::run`.
  unfoldable pub build_pipeline :
      ℕ → Config → Reply (List (Scheduled × Collector K) × List (Otlphttp K))
  unfolding build_each build_collector new_otlphttp
  build_pipeline now c =
      and_then (build_each (build_scheduled now) c.metrics.collectors) (λ collectors.
        and_then (build_each build_forwarder c.metrics.forwarders)
          (λ forwarders. returned (ok (collectors, forwarders))))

  -- `JournaldSource::new`
  unfoldable pub new_journald : Text → JournaldSourceConfig → Map Text Text → Result Journal
  unfolding read_saved_cursor merge_static codes
  new_journald name c extra = do
    opened ← map_err (λ e. source (codes "open journal: " ++ e)) (os.open_journal c.runtime_only)
    fd ← map_err (λ e. source (codes "journal fd: " ++ e)) os.journal_fd
    registered ← map_err (λ e. source (codes "register journal fd: " ++ e)) os.register_fd
    last_acked ← read_saved_cursor c.cursor_file (os.cursors c.cursor_file)
    ok (record {
      name = name;
      cursor_file = c.cursor_file;
      batch_wait = c.batch_wait;
      settings = record {
        batch_size = c.batch_size;
        batch_max_bytes = c.batch_max_bytes;
        labels_map = c.labels;
        static_labels = merge_static c.static_labels extra;
        metadata_map = c.metadata;
      };
      state = record {
        last_acked = last_acked;
        in_flight = none;
        positioned = false;
        pending = none;
      };
    })

  -- `LokiSink::new`
  unfoldable pub new_loki : Text → LokiSinkConfig → Reply (LokiSink K)
  unfolding connect normalize_endpoint
  new_loki name c = and_then (connect os.http sink none c.auth c.tls) (λ (header, client).
      returned (
        ok (record {
          name = name;
          client = client;
          endpoint = normalize_endpoint c.endpoint;
          auth_header = header;
        })))

  abbrev pub build_source : Text → Text → LogSourceConfig → Result Journal
  build_source name instance_name (journald c) =
      new_journald name c (insert (codes "instance") instance_name [])

  abbrev pub build_sink : Text → LogSinkConfig → Reply (LokiSink K)
  build_sink name (loki c) = new_loki name c

  abbrev pub build_shipper : Text → Text × ShipperConfig → Reply (Journal × LokiSink K × Shipper)
  build_shipper instance_name (name, s) =
      and_then (returned (build_source name instance_name s.source)) (λ journal.
        and_then (build_sink name s.sink) (λ loki_sink. returned (
          ok (
            journal,
            loki_sink,
            record { backoff_initial = s.backoff_initial; backoff_max = s.backoff_max },
          ))))

  unfoldable pub spawn_logs : Config → Reply (List (Journal × LokiSink K × Shipper))
  unfolding build_each new_journald new_loki
  spawn_logs c = build_each (build_shipper c.instance_config.name) c.logs.shippers
