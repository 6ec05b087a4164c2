-- ===== src/Config/Security/Tests.antt =====
-- src/config.rs: an instance of the theorem about authorization.
use ferrometer.Prelude.{◌≡◌, ◌↔◌, none, some}
use ferrometer.Prelude.Text.{codes}
use ferrometer.Error.{ok}
use ferrometer.Config.Security.{AuthConfig, validate_auth}
use ferrometer.Config.Security.Methods.{HasMethod, validate_auth-HasMethod}

-- A name without a password.
abbrev half : AuthConfig
half = record {
  username = some (codes "u");
  password = none;
  password_file = none;
  bearer_token = none;
  bearer_token_file = none;
  authorization = none;
}

validate_auth-HasMethod_example : (validate_auth half (codes "x") ≡ ok tt) ↔ HasMethod half
validate_auth-HasMethod_example = validate_auth-HasMethod half (codes "x")
