-- ===== src/Config/Resolve/Tests.antt =====
-- src/config.rs: a configuration that is loaded, and an instance of the theorem.
use ferrometer.Prelude.{◌≡◌, refl, [], ◌∷◌, some}
use ferrometer.Prelude.Text.{codes}
use ferrometer.Error.{ok}
use ferrometer.Config.Placeholders.{Environment}
use ferrometer.Config.Types.{Config, default_journald, default_unix, unix, otlphttp, journald}
use ferrometer.Config.Validate.{validate}
use ferrometer.Config.Validate.Tests.{small, to_otlp, to_loki, all_regexes}
use ferrometer.Config.Resolve.{load}
use ferrometer.Config.Resolve.Keeps.{load-validates}

abbrev pub env : Environment
env = record { var = λ name. some (codes "/var/lib/f"); version = codes "1.0" }

abbrev pub small_resolved : Config
small_resolved = record small {
  metrics = record {
    collectors = (codes "host", unix default_unix) ∷ [];
    forwarders =
        (
          codes "out",
          otlphttp (record to_otlp { resource_attributes = (codes "host", codes "pi") ∷ [] }),
        )
        ∷ [];
  };
  logs = record {
    shippers =
        (
          codes "journal",
          record to_loki {
            source =
                journald
                  (record default_journald { cursor_file = codes "/var/lib/f/journal.cursor" });
          },
        )
        ∷ [];
  };
}

load-validates_example : validate all_regexes small_resolved ≡ ok tt
unfolding codes load
load-validates_example = load-validates all_regexes env (ok small) small_resolved refl
