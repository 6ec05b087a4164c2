-- ===== src/Config/Validate.antt =====
-- src/config.rs: the validation at load. What the regex crate says of a pattern is a parameter.
pub mod Sound
pub mod Tests
use ferrometer.Prelude.{
  ℕ, List, [], ◌∷◌, ◌++◌, Option, none, some, Bool, true, false, not, any, is_empty, ltb, ◌==◌,
  if◌then◌else◌,
}
use ferrometer.Prelude.Text.{Text, codes, text_eq}
use ferrometer.Prelude.Maps.{Map}
use ferrometer.Error.{Error, config, Result, ok, err, ◌>>=◌, ◌>>◌}
use ferrometer.Config.Security.{AuthConfig, TlsConfig, refuse_if, validate_auth, validate_tls}
use ferrometer.Config.Types.{
  LokiSinkConfig, loki, LogSinkConfig, ShipperConfig, PrometheusCollectorConfig,
  UnixCollectorConfig, CollectorConfig, unix, prometheus, OtlphttpForwarderConfig, ForwarderConfig,
  otlphttp, Config,
}

-- `Regex::new(p)`: why `p` is no pattern, if it is none.
abbrev pub Regexes : Type 0
Regexes = Text → Option Text

abbrev pub check_regex : Text → Text → Option Text → Result (Unit {0})
check_regex name field none = ok tt
check_regex name field (some e) =
    err
      (config (codes "collector " ++ name ++ codes ": invalid " ++ field ++ codes " regex: " ++ e))

abbrev pub sub_collectors : List Text
sub_collectors =
    codes "cpu"
    ∷ codes "memory"
    ∷ codes "disk"
    ∷ codes "filesystem"
    ∷ codes "md"
    ∷ codes "hwmon"
    ∷ codes "netdev"
    ∷ codes "loadavg"
    ∷ codes "uname"
    ∷ []

-- `for x in xs { f(x)?; }`
pub each : {A : Type 0} → (A → Result (Unit {0})) → List A → Result (Unit {0})
each f [] = ok tt
each f (x ∷ xs) = f x >> each f xs

abbrev pub check_sub_collector : Text → Text → Result (Unit {0})
check_sub_collector name c =
    refuse_if (not (any (text_eq c) sub_collectors))
      (codes "collector " ++ name ++ codes ": unknown sub-collector '" ++ c ++ codes "'")

-- With the feature `collector-unix`.
pub validate_unix_collector : Regexes → Text → UnixCollectorConfig → Result (Unit {0})
unfolding each codes text_eq
validate_unix_collector regex name c =
    check_regex name (codes "disk-devices") (regex c.disk_devices)
    >> check_regex name (codes "net-devices") (regex c.net_devices)
    >> check_regex name (codes "filesystem-mount-points") (regex c.filesystem_mount_points)
    >> check_regex name (codes "filesystem-fs-types") (regex c.filesystem_fs_types)
    >> check_regex name (codes "hwmon-chips") (regex c.hwmon_chips)
    >> each (check_sub_collector name) c.collectors

pub validate_prometheus_collector : Text → PrometheusCollectorConfig → Result (Unit {0})
unfolding validate_auth validate_tls codes
validate_prometheus_collector name c =
    refuse_if (is_empty c.url) (codes "collector " ++ name ++ codes ": url must not be empty")
    >> validate_auth c.auth (codes "collector " ++ name)
    >> validate_tls c.tls (codes "collector " ++ name)

pub validate_otlphttp_forwarder : Text → OtlphttpForwarderConfig → Result (Unit {0})
unfolding validate_auth validate_tls codes
validate_otlphttp_forwarder name c =
    refuse_if (is_empty c.endpoint)
      (codes "forwarder " ++ name ++ codes ": endpoint must not be empty")
    >> validate_auth c.auth (codes "forwarder " ++ name)
    >> validate_tls c.tls (codes "forwarder " ++ name)
    >> refuse_if (c.buffer_max_metrics == 0)
        (codes "forwarder " ++ name ++ codes ": buffer-max-metrics must be greater than 0")
    >> refuse_if (c.request_max_metrics == 0)
        (codes "forwarder " ++ name ++ codes ": request-max-metrics must be greater than 0")
    >> refuse_if (ltb c.backoff_max c.backoff_initial)
        (codes "forwarder " ++ name ++ codes ": backoff-initial must not exceed backoff-max")

abbrev pub validate_collector : Regexes → Text × CollectorConfig → Result (Unit {0})
validate_collector regex (name, unix c) = validate_unix_collector regex name c
validate_collector regex (name, prometheus c) = validate_prometheus_collector name c

abbrev pub validate_forwarder : Text × ForwarderConfig → Result (Unit {0})
validate_forwarder (name, otlphttp c) = validate_otlphttp_forwarder name c

abbrev pub sink_name : Text → Text
sink_name name = codes "shipper " ++ name ++ codes " sink"

abbrev pub validate_sink : Text → LogSinkConfig → Result (Unit {0})
validate_sink name (loki c) =
    validate_auth c.auth (sink_name name) >> validate_tls c.tls (sink_name name)

abbrev pub validate_shipper : Text × ShipperConfig → Result (Unit {0})
validate_shipper (name, s) =
    refuse_if (ltb s.backoff_max s.backoff_initial)
      (codes "shipper " ++ name ++ codes ": backoff-initial must not exceed backoff-max")
    >> validate_sink name s.sink

unfoldable pub validate : Regexes → Config → Result (Unit {0})
unfolding each validate_unix_collector validate_prometheus_collector validate_otlphttp_forwarder
    codes
validate regex c =
    refuse_if (is_empty c.instance_config.name) (codes "instance.name must not be empty")
    >> refuse_if (is_empty c.metrics.collectors) (codes "at least one collector must be configured")
    >> refuse_if (is_empty c.metrics.forwarders) (codes "at least one forwarder must be configured")
    >> each (validate_collector regex) c.metrics.collectors
    >> each validate_forwarder c.metrics.forwarders
    >> each validate_shipper c.logs.shippers
