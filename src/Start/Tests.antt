-- ===== src/Start/Tests.antt =====
-- src/pipeline.rs and src/main.rs: what is built from a small configuration.
use ferrometer.Prelude.{◌≡◌, refl, [], ◌∷◌, none, false}
use ferrometer.Prelude.Text.{Text, codes}
use ferrometer.Error.{ok, done, failed}
use ferrometer.Auth.{returned}
use ferrometer.Config.Validate.Tests.{small, all_regexes, open_auth, no_tls}
use ferrometer.Config.Resolve.{load}
use ferrometer.Config.Resolve.Tests.{env, small_resolved}
use ferrometer.Log.Journald.Cursors.{not_found}
use ferrometer.Start.{Outside, new_loki, build_pipeline, build_shipper, spawn_logs}
use ferrometer.Start.Returned.{BuildsAll, BuildsPipeline, IsShipping, build-BuildsAll}

-- Everything that is asked for is there, but no file.
abbrev os : Outside Text Text Text Text
os = record {
  http = record {
    auth = record { contents = λ path. failed (codes "gone"); base64 = λ t. t };
    reqwest = record {
      from_pem_bundle = λ pem. done (pem ∷ []);
      add_root_certificate = λ b cert. cert;
      from_pem = λ pem. done pem;
      identity = λ b pem. pem;
    };
    read = λ path. failed (codes "gone");
    builder = codes "client";
    timeout = λ t b. b;
    build = λ b. done b;
  };
  regex = λ pattern_text. done (λ t. false);
  open_journal = λ runtime_only. done tt;
  journal_fd = done tt;
  register_fd = done tt;
  cursors = λ path. not_found;
}

appends_path :
    new_loki os
      (codes "a")
      (record { endpoint = codes "http://l/"; auth = open_auth; tls = no_tls })
    ≡ returned (
        ok (record {
          name = codes "a";
          client = codes "client";
          endpoint = codes "http://l/loki/api/v1/push";
          auth_header = none;
        }))
unfolding new_loki codes
appends_path = refl

build-BuildsAll_example :
    BuildsPipeline os 7 small_resolved (build_pipeline os 7 small_resolved)
    × BuildsAll IsShipping
        (build_shipper os small_resolved.instance_config.name)
        small_resolved.logs.shippers
        (spawn_logs os small_resolved)
unfolding codes load
build-BuildsAll_example = build-BuildsAll os 7 all_regexes env (ok small) small_resolved refl
