-- ===== src/Config/Resolve.antt =====
-- src/config.rs: the expansion of placeholders over a whole configuration.
pub mod Keeps
pub mod Tests
use ferrometer.Prelude.{ℕ, List, [], ◌∷◌, Option, none, some}
use ferrometer.Prelude.Text.{Text}
use ferrometer.Prelude.Maps.{Map}
use ferrometer.Error.{Error, Result, ok, err, ◌>>=◌, ◌>>◌}
use ferrometer.Config.Placeholders.{Environment, expand_placeholders, expand_path}
use ferrometer.Config.Security.{AuthConfig, TlsConfig, resolve_auth, resolve_tls}
use ferrometer.Config.Types.{
  JournaldSourceConfig, LogSourceConfig, journald, LokiSinkConfig, LogSinkConfig, loki,
  ShipperConfig, PrometheusCollectorConfig, CollectorConfig, unix, prometheus,
  OtlphttpForwarderConfig, ForwarderConfig, otlphttp, Config,
}
use ferrometer.Config.Validate.{Regexes, validate}

-- `for v in map.values_mut() { f(v)?; }`
unfoldable pub over_values : {A : Type 0} → (A → Result A) → Map Text A → Result (Map Text A)
over_values f [] = ok []
over_values f ((k, v) ∷ m) = f v >>= λ w. over_values f m >>= λ n. ok ((k, w) ∷ n)

abbrev pub resolve_collector : Environment → Text → CollectorConfig → Result CollectorConfig
resolve_collector env instance_name (unix c) = ok (unix c)
resolve_collector env instance_name (prometheus c) =
    resolve_auth c.auth env instance_name >>= λ auth. resolve_tls c.tls env instance_name >>= λ tls.
    ok (prometheus (record c { auth = auth; tls = tls }))

abbrev pub resolve_forwarder : Environment → Text → ForwarderConfig → Result ForwarderConfig
resolve_forwarder env instance_name (otlphttp c) = resolve_auth c.auth env instance_name >>= λ auth.
    resolve_tls c.tls env instance_name >>= λ tls.
    over_values (expand_placeholders env instance_name) c.resource_attributes >>= λ attributes.
    ok (otlphttp (record c { auth = auth; tls = tls; resource_attributes = attributes }))

abbrev pub resolve_source : Environment → Text → LogSourceConfig → Result LogSourceConfig
resolve_source env instance_name (journald c) =
    expand_path env instance_name c.cursor_file >>= λ path.
    ok (journald (record c { cursor_file = path }))

abbrev pub resolve_sink : Environment → Text → LogSinkConfig → Result LogSinkConfig
resolve_sink env instance_name (loki c) = resolve_auth c.auth env instance_name >>= λ auth.
    resolve_tls c.tls env instance_name >>= λ tls. ok (loki (record c { auth = auth; tls = tls }))

abbrev pub resolve_shipper : Environment → Text → ShipperConfig → Result ShipperConfig
resolve_shipper env instance_name s = resolve_source env instance_name s.source >>= λ source.
    resolve_sink env instance_name s.sink >>= λ sink. ok (record s { source = source; sink = sink })

unfoldable pub resolve_placeholders : Environment → Config → Result Config
unfolding over_values resolve_auth resolve_tls expand_placeholders
resolve_placeholders env c =
    let name = c.instance_config.name in
    over_values (resolve_collector env name) c.metrics.collectors >>= λ collectors.
    over_values (resolve_forwarder env name) c.metrics.forwarders >>= λ forwarders.
    over_values (resolve_shipper env name) c.logs.shippers >>= λ shippers. ok (record c {
      metrics = record { collectors = collectors; forwarders = forwarders };
      logs = record { shippers = shippers };
    })

-- `load_unresolved` and `load`, on what the file and TOML give.
unfoldable pub load_unresolved : Regexes → Result Config → Result Config
unfolding validate
load_unresolved regex parsed = parsed >>= λ c. validate regex c >> ok c

unfoldable pub load : Regexes → Environment → Result Config → Result Config
unfolding load_unresolved resolve_placeholders
load regex env parsed = load_unresolved regex parsed >>= λ c. resolve_placeholders env c
