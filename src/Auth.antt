-- ===== src/Auth.antt =====
-- src/auth.rs: the value of the header `Authorization`. What the files hold and the Base64 encoding
-- of another crate are parameters.
pub mod Total
mod Tests
use ferrometer.Prelude.{
  List, [], ◌∷◌, ◌++◌, Option, none, some, Bool, true, false, ◌||◌, is_some, if◌then◌else◌,
}
use ferrometer.Prelude.Text.{Text, codes, trim}
use ferrometer.Error.{Error, file_read, Result, ok, err, Foreign, done, failed, map_err, ◌>>=◌}
use ferrometer.Config.Security.{AuthConfig}

-- `read_to_string` of each path, and `base64::encode`.
pub record Outside : Type 0 where
  pub contents : Text → Foreign Text
  pub base64 : Text → Text

-- How a call ends: it returns, or it panics in `unreachable!`.
pub data Reply (A : Type 0) : Type 0 where
  returned : Result A → Reply A
  panicked : Reply A

unfoldable pub read_trimmed : Outside → Text → Result Text
unfolding trim
read_trimmed os path = map_err (file_read path) (os.contents path) >>= λ content. ok (trim content)

-- The two `match`es on a secret and on the file that holds it.
abbrev pub secret : Outside → Option Text → Option Text → Reply Text
secret os (some t) file = returned (ok t)
secret os none (some path) = returned (read_trimmed os path)
secret os none none = panicked

-- `return Ok(Some(f(..)))` behind such a `match`.
abbrev pub some_of : (Text → Text) → Reply Text → Reply (Option Text)
some_of f panicked = panicked
some_of f (returned r) = returned (r >>= λ t. ok (some (f t)))

abbrev pub basic_header : Outside → Text → Text → Text
basic_header os username password = codes "Basic " ++ os.base64 (username ++ b':' ∷ password)

abbrev pub basic_or_none : Outside → AuthConfig → Option Text → Reply (Option Text)
basic_or_none os c none = returned (ok none)
basic_or_none os c (some username) =
    some_of (basic_header os username) (secret os c.password c.password_file)

abbrev pub token_or_basic : Outside → AuthConfig → Option Text → Reply (Option Text)
token_or_basic os c (some value) = returned (ok (some value))
token_or_basic os c none =
    if is_some c.bearer_token || is_some c.bearer_token_file
    then some_of (λ token. codes "Bearer " ++ token) (secret os c.bearer_token c.bearer_token_file)
    else basic_or_none os c c.username

unfoldable pub resolve_header : Outside → AuthConfig → Reply (Option Text)
unfolding read_trimmed codes
resolve_header os c = token_or_basic os c c.authorization
