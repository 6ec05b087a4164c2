-- ===== src/Config/Security/Methods.antt =====
-- src/config.rs: the ways of authorization that a configuration may name.
use ferrometer.Prelude.{◌≡◌, ◌↔◌, refl, subst, Option, none, some, arith}
use ferrometer.Prelude.Text.{Text}
use ferrometer.Error.{ok}
use ferrometer.Config.Security.{AuthConfig, validate_auth}

pub data Method : Type 0 where
  no_auth : Method
  basic basic_file : Text → Text → Method
  bearer bearer_file : Text → Method
  header : Text → Method

-- The fields that name a method, and no others.
unfoldable pub config_of : Method → AuthConfig
config_of m = elim m [
  | no_auth ↦ record {
    username = none;
    password = none;
    password_file = none;
    bearer_token = none;
    bearer_token_file = none;
    authorization = none;
  }
  | basic u p ↦ record {
    username = some u;
    password = some p;
    password_file = none;
    bearer_token = none;
    bearer_token_file = none;
    authorization = none;
  }
  | basic_file u f ↦ record {
    username = some u;
    password = none;
    password_file = some f;
    bearer_token = none;
    bearer_token_file = none;
    authorization = none;
  }
  | bearer t ↦ record {
    username = none;
    password = none;
    password_file = none;
    bearer_token = some t;
    bearer_token_file = none;
    authorization = none;
  }
  | bearer_file f ↦ record {
    username = none;
    password = none;
    password_file = none;
    bearer_token = none;
    bearer_token_file = some f;
    authorization = none;
  }
  | header v ↦ record {
    username = none;
    password = none;
    password_file = none;
    bearer_token = none;
    bearer_token_file = none;
    authorization = some v;
  }
]

-- The configurations that name exactly one method, completely, or none.
unfoldable pub HasMethod : AuthConfig → Type 0
HasMethod c = (m : Method) × (config_of m ≡ c)

has-validate : (ctx : Text) (m : Method) → validate_auth (config_of m) ctx ≡ ok tt
unfolding config_of validate_auth
has-validate ctx no_auth = refl
has-validate ctx (basic u p) = refl
has-validate ctx (basic_file u f) = refl
has-validate ctx (bearer t) = refl
has-validate ctx (bearer_file f) = refl
has-validate ctx (header v) = refl

method_of : (c : AuthConfig) (ctx : Text) → validate_auth c ctx ≡ ok tt → HasMethod c
unfolding config_of HasMethod validate_auth
method_of c ctx h =
    go c.username c.password c.password_file c.bearer_token c.bearer_token_file c.authorization h
  where
    go :
        (u p f t g a : Option Text)
        → validate_auth
            record {
              username = u;
              password = p;
              password_file = f;
              bearer_token = t;
              bearer_token_file = g;
              authorization = a;
            }
            ctx
          ≡ ok tt
        → HasMethod record {
          username = u;
          password = p;
          password_file = f;
          bearer_token = t;
          bearer_token_file = g;
          authorization = a;
        }
    go none none none none none none h = (no_auth, refl)
    go none none none none none (some v) h = (header v, refl)
    go none none none (some t) none none h = (bearer t, refl)
    go none none none none (some f) none h = (bearer_file f, refl)
    go (some u) (some p) none none none none h = (basic u p, refl)
    go (some u) none (some f) none none none h = (basic_file u f, refl)
    go u p f t g a h = absurd (ground arith)

-- The validation of the settings for authorization accepts exactly those that name no method at
-- all, or one method with all that it needs and nothing of another one.
pub validate_auth-HasMethod :
    (c : AuthConfig) (ctx : Text) → (validate_auth c ctx ≡ ok tt) ↔ HasMethod c
unfolding HasMethod
validate_auth-HasMethod c ctx =
    (method_of c ctx, λ (m, e). subst (λ d. validate_auth d ctx ≡ ok tt) e (has-validate ctx m))
