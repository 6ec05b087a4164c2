-- ===== src/Auth/Tests.antt =====
-- src/auth.rs: a header, and an instance of the theorem.
use ferrometer.Prelude.{◌≡◌, refl, none, some}
use ferrometer.Prelude.Text.{codes}
use ferrometer.Error.{ok, done}
use ferrometer.Config.Security.{AuthConfig, validate_auth}
use ferrometer.Config.Security.Methods.{Method, config_of}
use ferrometer.Auth.{Outside, returned, resolve_header}
use ferrometer.Auth.Total.{header_of, resolve_header-returns}

abbrev with_file : AuthConfig
with_file = record {
  username = none;
  password = none;
  password_file = none;
  bearer_token = none;
  bearer_token_file = some (codes "/run/token");
  authorization = none;
}

-- Every file holds a token and a line end.
abbrev os : Outside
os = record { contents = λ path. done (codes " t0k\n"); base64 = λ t. t }

reads_token : resolve_header os with_file ≡ returned (ok (some (codes "Bearer t0k")))
unfolding codes resolve_header
reads_token = refl

resolve_header-returns_example :
    (m : Method) × (config_of m ≡ with_file)
    × (resolve_header os with_file ≡ returned (header_of os m))
unfolding validate_auth
resolve_header-returns_example = resolve_header-returns os with_file (codes "forwarder a") refl
