-- ===== src/Config/Validate/Tests.antt =====
-- src/config.rs: a configuration that is accepted, and an instance of the theorem.
use ferrometer.Prelude.{◌≡◌, ◌↔◌, refl, [], ◌∷◌, none}
use ferrometer.Prelude.Text.{codes}
use ferrometer.Error.{ok}
use ferrometer.Config.Parse.{from_secs}
use ferrometer.Config.Security.{AuthConfig, TlsConfig}
use ferrometer.Config.Types.{
  Config, default_unix, default_journald, unix, otlphttp, journald, loki, gzip,
  OtlphttpForwarderConfig, ShipperConfig,
}
use ferrometer.Config.Validate.{Regexes, validate}
use ferrometer.Config.Validate.Sound.{IsConfig, validate-IsConfig}

abbrev pub open_auth : AuthConfig
open_auth = record {
  username = none;
  password = none;
  password_file = none;
  bearer_token = none;
  bearer_token_file = none;
  authorization = none;
}

abbrev pub no_tls : TlsConfig
no_tls = record { client_cert_file = none; client_key_file = none; ca_cert_file = none }

abbrev pub to_otlp : OtlphttpForwarderConfig
to_otlp = record {
  endpoint = codes "http://localhost:4318/v1/metrics";
  auth = open_auth;
  tls = no_tls;
  compression = gzip;
  timeout = from_secs 30;
  buffer_max_metrics = 100_000;
  request_max_metrics = 10_000;
  backoff_initial = from_secs 1;
  backoff_max = from_secs 300;
  resource_attributes = (codes "host", codes "${instance.name}") ∷ [];
}

abbrev pub to_loki : ShipperConfig
to_loki = record {
  source = journald default_journald;
  sink = loki (record { endpoint = codes "http://loki:3100"; auth = open_auth; tls = no_tls });
  backoff_initial = from_secs 1;
  backoff_max = from_secs 300;
}

abbrev pub small : Config
small = record {
  instance_config = record { name = codes "pi" };
  metrics = record {
    collectors = (codes "host", unix default_unix) ∷ [];
    forwarders = (codes "out", otlphttp to_otlp) ∷ [];
  };
  logs = record { shippers = (codes "journal", to_loki) ∷ [] };
}

abbrev pub all_regexes : Regexes
all_regexes p = none

accepts : validate all_regexes small ≡ ok tt
unfolding codes validate
accepts = refl

validate-IsConfig_example : (validate all_regexes small ≡ ok tt) ↔ IsConfig all_regexes small
validate-IsConfig_example = validate-IsConfig all_regexes small
