-- ===== src/Config/Types.antt =====
-- src/config.rs: the sections of the configuration and their defaults. A `HashMap` is an association
-- list in the order in which it is iterated.
use ferrometer.Prelude.{ℕ, List, [], ◌∷◌, Bool, true, false}
use ferrometer.Prelude.Text.{Text, codes}
use ferrometer.Prelude.Maps.{Map}
use ferrometer.Config.Parse.{from_secs}
use ferrometer.Config.Security.{AuthConfig, TlsConfig}

pub record JournaldSourceConfig : Type 0 where
  pub batch_size : ℕ
  pub batch_max_bytes : ℕ
  pub batch_wait : ℕ
  pub cursor_file : Text
  pub runtime_only : Bool
  pub labels : Map Text Text
  pub static_labels : Map Text Text
  pub metadata : Map Text Text

pub data LogSourceConfig : Type 0 where
  journald : JournaldSourceConfig → LogSourceConfig

pub record LokiSinkConfig : Type 0 where
  pub endpoint : Text
  pub auth : AuthConfig
  pub tls : TlsConfig

pub data LogSinkConfig : Type 0 where
  loki : LokiSinkConfig → LogSinkConfig

pub record ShipperConfig : Type 0 where
  pub source : LogSourceConfig
  pub sink : LogSinkConfig
  pub backoff_initial : ℕ
  pub backoff_max : ℕ

pub record PrometheusCollectorConfig : Type 0 where
  pub url : Text
  pub interval : ℕ
  pub scrape_timeout : ℕ
  pub max_runtime : ℕ
  pub auth : AuthConfig
  pub tls : TlsConfig
  pub static_labels : Map Text Text

pub record UnixCollectorConfig : Type 0 where
  pub interval : ℕ
  pub max_runtime : ℕ
  pub disk_devices : Text
  pub net_devices : Text
  pub filesystem_mount_points : Text
  pub filesystem_fs_types : Text
  pub filesystem_dedupe_devices : Bool
  pub hwmon_chips : Text
  pub collectors : List Text
  pub static_labels : Map Text Text

pub data CollectorConfig : Type 0 where
  unix : UnixCollectorConfig → CollectorConfig
  prometheus : PrometheusCollectorConfig → CollectorConfig

pub data Compression : Type 0 where
  gzip uncompressed : Compression

pub record OtlphttpForwarderConfig : Type 0 where
  pub endpoint : Text
  pub auth : AuthConfig
  pub tls : TlsConfig
  pub compression : Compression
  pub timeout : ℕ
  pub buffer_max_metrics : ℕ
  pub request_max_metrics : ℕ
  pub backoff_initial : ℕ
  pub backoff_max : ℕ
  pub resource_attributes : Map Text Text

pub data ForwarderConfig : Type 0 where
  otlphttp : OtlphttpForwarderConfig → ForwarderConfig

pub record InstanceConfig : Type 0 where
  pub name : Text

pub record MetricsConfig : Type 0 where
  pub collectors : Map Text CollectorConfig
  pub forwarders : Map Text ForwarderConfig

pub record LogsConfig : Type 0 where
  pub shippers : Map Text ShipperConfig

pub record Config : Type 0 where
  pub instance_config : InstanceConfig
  pub metrics : MetricsConfig
  pub logs : LogsConfig

abbrev pub default_journald_labels : Map Text Text
default_journald_labels =
    (codes "priority", codes "PRIORITY") ∷ (codes "unit", codes "_SYSTEMD_UNIT") ∷ []

abbrev pub default_journald_metadata : Map Text Text
default_journald_metadata =
    (codes "boot_id", codes "_BOOT_ID")
    ∷ (codes "cmdline", codes "_CMDLINE")
    ∷ (codes "hostname", codes "_HOSTNAME")
    ∷ (codes "machine_id", codes "_MACHINE_ID")
    ∷ (codes "pid", codes "_PID")
    ∷ (codes "syslog_facility", codes "SYSLOG_FACILITY")
    ∷ (codes "syslog_identifier", codes "SYSLOG_IDENTIFIER")
    ∷ (codes "transport", codes "_TRANSPORT")
    ∷ []

-- The source's settings when only the name of its table is given.
abbrev pub default_journald : JournaldSourceConfig
default_journald = record {
  batch_size = 1000;
  batch_max_bytes = 1_000_000;
  batch_wait = from_secs 5;
  cursor_file = codes "${env:STATE_DIRECTORY}/journal.cursor";
  runtime_only = false;
  labels = default_journald_labels;
  static_labels = [];
  metadata = default_journald_metadata;
}

abbrev pub default_unix_collectors : List Text
default_unix_collectors =
    codes "cpu"
    ∷ codes "memory"
    ∷ codes "disk"
    ∷ codes "filesystem"
    ∷ codes "md"
    ∷ codes "hwmon"
    ∷ codes "netdev"
    ∷ codes "loadavg"
    ∷ codes "uname"
    ∷ []

abbrev pub default_unix : UnixCollectorConfig
default_unix = record {
  interval = from_secs 15;
  max_runtime = from_secs 5;
  disk_devices = codes "^(nvme\\d+n\\d+|sd[a-z]+|vd[a-z]+)$";
  net_devices = codes "^(eth|en|wl|bond)";
  filesystem_mount_points = [];
  filesystem_fs_types = [];
  filesystem_dedupe_devices = true;
  hwmon_chips = [];
  collectors = default_unix_collectors;
  static_labels = [];
}
