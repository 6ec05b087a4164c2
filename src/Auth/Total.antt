-- ===== src/Auth/Total.antt =====
-- src/auth.rs: the header that a validated configuration gets.
use ferrometer.Prelude.{◌≡◌, refl, ap, sym, ◌∙◌, ◌++◌, Option, none, some}
use ferrometer.Prelude.Text.{Text, codes}
use ferrometer.Error.{Result, ok, ◌>>=◌}
use ferrometer.Config.Security.{AuthConfig, validate_auth}
use ferrometer.Config.Security.Methods.{
  Method, no_auth, basic, basic_file, bearer, bearer_file, header, config_of, HasMethod,
  validate_auth-HasMethod,
}
use ferrometer.Auth.{Outside, returned, read_trimmed, basic_header, resolve_header}

-- The header of each method.
unfoldable pub header_of : Outside → Method → Result (Option Text)
header_of os no_auth = ok none
header_of os (basic u p) = ok (some (basic_header os u p))
header_of os (basic_file u f) = read_trimmed os f >>= λ p. ok (some (basic_header os u p))
header_of os (bearer t) = ok (some (codes "Bearer " ++ t))
header_of os (bearer_file f) = read_trimmed os f >>= λ t. ok (some (codes "Bearer " ++ t))
header_of os (header v) = ok (some v)

resolve_header-config_of :
    (os : Outside) (m : Method) → resolve_header os (config_of m) ≡ returned (header_of os m)
unfolding resolve_header config_of header_of
resolve_header-config_of os no_auth = refl
resolve_header-config_of os (basic u p) = refl
resolve_header-config_of os (basic_file u f) = refl
resolve_header-config_of os (bearer t) = refl
resolve_header-config_of os (bearer_file f) = refl
resolve_header-config_of os (header v) = refl

-- Under settings that the validation accepts the header is that of the one method that they name,
-- with what its file holds, if it has one, or the error of reading that file. So none of the
-- `unreachable!` is reached.
pub resolve_header-returns :
    (os : Outside) (c : AuthConfig) (ctx : Text)
    → validate_auth c ctx ≡ ok tt
    → (m : Method) × (config_of m ≡ c) × (resolve_header os c ≡ returned (header_of os m))
unfolding HasMethod
resolve_header-returns os c ctx h =
    let (m, e) = (validate_auth-HasMethod c ctx).0 h in
    (m, e, ap (resolve_header os) (sym e) ∙ resolve_header-config_of os m)
