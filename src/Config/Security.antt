-- ===== src/Config/Security.antt =====
-- src/config.rs: the settings for TLS and for authorization that all HTTP clients share.
pub mod Methods
mod Tests
use ferrometer.Prelude.{
  ℕ, ◌+◌, List, [], ◌∷◌, ◌++◌, Option, none, some, Bool, true, false, not, ◌&&◌, ◌||◌, ltb, is_some,
  is_none, if◌then◌else◌,
}
use ferrometer.Prelude.Text.{Text, codes}
use ferrometer.Error.{Error, config, Result, ok, err, ◌>>=◌, ◌>>◌}
use ferrometer.Config.Placeholders.{Environment, expand_placeholders, expand_path}

pub record TlsConfig : Type 0 where
  pub client_cert_file : Option Text
  pub client_key_file : Option Text
  pub ca_cert_file : Option Text

pub record AuthConfig : Type 0 where
  pub username : Option Text
  pub password : Option Text
  pub password_file : Option Text
  pub bearer_token : Option Text
  pub bearer_token_file : Option Text
  pub authorization : Option Text

-- `if b { return Err(Error::Config(..)) }`
abbrev pub refuse_if : Bool → Text → Result (Unit {0})
refuse_if true why = err (config why)
refuse_if false why = ok tt

abbrev as_u8 : Bool → ℕ
as_u8 true = 1
as_u8 false = 0

unfoldable pub validate_tls : TlsConfig → Text → Result (Unit {0})
unfolding codes
validate_tls c ctx =
    refuse_if (is_some c.client_key_file && not (is_some c.client_cert_file))
      (ctx ++ codes ": client-key-file is set but client-cert-file is not")

-- The checks, on which of the fields are set.
unfoldable pub auth_checks : Text → Bool → Bool → Bool → Bool → Bool → Bool → Result (Unit {0})
unfolding codes
auth_checks ctx username password password_file bearer_token bearer_token_file authorization =
    let basic = username || (password || password_file) in
    let bearer = bearer_token || bearer_token_file in
    let methods = as_u8 basic + as_u8 bearer + as_u8 authorization in
    refuse_if (ltb 1 methods) (
      ctx
      ++ codes
          ": multiple auth methods configured; pick one of username/password[-file], bearer-token[-file], or authorization")
    >> refuse_if (password && password_file)
        (ctx ++ codes ": password and password-file are mutually exclusive")
    >> refuse_if (bearer_token && bearer_token_file)
        (ctx ++ codes ": bearer-token and bearer-token-file are mutually exclusive")
    >> refuse_if (basic && (username && (not password && not password_file)))
        (ctx ++ codes ": username set but no password / password-file")
    >> refuse_if (basic && not username)
        (ctx ++ codes ": password / password-file set but no username")

unfoldable pub validate_auth : AuthConfig → Text → Result (Unit {0})
unfolding auth_checks
validate_auth c ctx =
    auth_checks ctx (is_some c.username) (is_some c.password) (is_some c.password_file)
      (is_some c.bearer_token) (is_some c.bearer_token_file) (is_some c.authorization)

-- `if let Some(s) = x.take() { x = Some(f(s)?); }`
abbrev pub update : (Text → Result Text) → Option Text → Result (Option Text)
update f none = ok none
update f (some s) = f s >>= λ t. ok (some t)

unfoldable pub resolve_tls : TlsConfig → Environment → Text → Result TlsConfig
unfolding expand_placeholders
resolve_tls c env instance_name =
    let path = expand_path env instance_name in
    update path c.client_cert_file >>= λ client_cert_file.
    update path c.client_key_file >>= λ client_key_file.
    update path c.ca_cert_file >>= λ ca_cert_file. ok record {
      client_cert_file = client_cert_file;
      client_key_file = client_key_file;
      ca_cert_file = ca_cert_file;
    }

unfoldable pub resolve_auth : AuthConfig → Environment → Text → Result AuthConfig
unfolding expand_placeholders
resolve_auth c env instance_name =
    let text = expand_placeholders env instance_name in
    let path = expand_path env instance_name in
    update text c.username >>= λ username. update text c.password >>= λ password.
    update path c.password_file >>= λ password_file. update text c.bearer_token >>= λ bearer_token.
    update path c.bearer_token_file >>= λ bearer_token_file.
    update text c.authorization >>= λ authorization. ok record {
      username = username;
      password = password;
      password_file = password_file;
      bearer_token = bearer_token;
      bearer_token_file = bearer_token_file;
      authorization = authorization;
    }
