-- ===== src/Config/Placeholders.antt =====
-- src/config.rs: the placeholders `${..}` in configuration values. The environment and the version
-- of the build, which are not the program's code, are a parameter.
pub mod Templates
mod Tests
use ferrometer.Prelude.{
  ℕ, zero, suc, List, [], ◌∷◌, ◌++◌, Option, none, some, Bool, true, false, length, if◌then◌else◌,
}
use ferrometer.Prelude.Text.{Text, codes, text_eq, strip_prefix}
use ferrometer.Prelude.Text.Split.{split_at, split_once}
use ferrometer.Error.{Error, config, Result, ok, err, Foreign, done, failed, map_err, ◌>>=◌}

-- `std::env::var`, where a value that is no text counts as missing, and `CARGO_PKG_VERSION`.
pub record Environment : Type 0 where
  pub var : Text → Option Text
  pub version : Text

abbrev or_unset : Text → Option Text → Foreign Text
or_unset name (some v) = done v
or_unset name none = failed (
    codes "${env:"
    ++ name
    ++ codes "} referenced but environment variable '"
    ++ name
    ++ codes "' is not set")

abbrev env_var : Environment → Text → Option Text → Foreign Text
env_var env inner (some name) = or_unset name (env.var name)
env_var env inner none = failed (codes "unknown placeholder '${" ++ inner ++ codes "}'")

unfoldable pub resolve_placeholder : Environment → Text → Text → Foreign Text
unfolding strip_prefix codes text_eq
resolve_placeholder env inner instance_name =
    if text_eq inner (codes "instance.name")
    then done instance_name
    else if text_eq inner (codes "version")
    then done env.version
    else env_var env inner (strip_prefix inner (codes "env:"))

abbrev pub unterminated : Text → Error
unterminated s = config (codes "unterminated placeholder in config value '" ++ s ++ codes "'")

abbrev pub in_value : Text → Text → Error
in_value s e = config (codes "in config value '" ++ s ++ codes "': " ++ e)

-- The value of a placeholder, or the error about the whole text `s`.
abbrev pub value_of : Environment → Text → Text → Text → Result Text
value_of env instance_name s inner =
    map_err (in_value s) (resolve_placeholder env inner instance_name)

-- What a round of the loop comes to: a result, or the next `out` and `rest`.
pub data Round : Type 0 where
  finished : Result Text → Round
  again : Text → Text → Round

abbrev pub with_value : Text → Text → Result Text → Round
with_value out rest (err e) = finished (err e)
with_value out rest (ok value) = again (out ++ value) rest

-- At `after.find('}')`: `inner`, and what is behind it.
abbrev pub at_end : Environment → Text → Text → Text → Option (Text × Text) → Round
at_end env instance_name s out none = finished (err (unterminated s))
at_end env instance_name s out (some (inner, rest)) =
    with_value out rest (value_of env instance_name s inner)

-- At `rest.find("${")`: the text before it, and `after`.
abbrev pub at_start : Environment → Text → Text → Text → Text → Option (Text × Text) → Round
at_start env instance_name s out rest none = finished (ok (out ++ rest))
at_start env instance_name s out rest (some (before, after)) =
    at_end env instance_name s (out ++ before) (split_once after b'}')

unfoldable pub expand_round : Environment → Text → Text → Text → Text → Round
unfolding split_at split_once resolve_placeholder codes
expand_round env instance_name s out rest =
    at_start env instance_name s out rest (split_at rest (b'$' ∷ b'{' ∷ []))

-- The loop of `expand_placeholders`, with fuel; `none` if the fuel runs out.
unfoldable pub expand_loop : ℕ → Environment → Text → Text → Text → Text → Option (Result Text)
unfolding expand_round
expand_loop zero env instance_name s out rest = none
expand_loop (suc fuel) env instance_name s out rest =
    elim (expand_round env instance_name s out rest) [
      | finished r ↦ some r
      | again out' rest' ↦ expand_loop fuel env instance_name s out' rest'
    ]

-- A round takes at least the two code points of `${` from the rest, so that the fuel is enough.
unfoldable pub expand_fuelled : Environment → Text → Text → Option (Result Text)
unfolding expand_loop
expand_fuelled env instance_name s = expand_loop (suc (length s)) env instance_name s [] s

abbrev pub or_cut : Text → Option (Result Text) → Result Text
or_cut s none = err (unterminated s)
or_cut s (some r) = r

unfoldable pub expand_placeholders : Environment → Text → Text → Result Text
unfolding expand_fuelled
expand_placeholders env instance_name s = or_cut s (expand_fuelled env instance_name s)

-- Paths come out of a document in UTF-8 and are texts, so that `to_str` gives them back.
abbrev pub expand_path : Environment → Text → Text → Result Text
expand_path env instance_name p = expand_placeholders env instance_name p
