-- ===== src/Config/Parse.antt =====
-- src/config.rs: durations and byte sizes.
pub mod RoundTrip
mod Tests
use ferrometer.Prelude.{
  ℕ, ◌+◌, ◌*◌, ◌%◌, ◌^◌, ◌≤◌, ◌≡◌, List, [], ◌∷◌, ◌++◌, Option, none, some, Bool, true, false, any,
  leb, if◌then◌else◌,
}
use ferrometer.Prelude.Text.{Text, codes, text_eq, trim, to_ascii_lowercase, strip_suffix}
use ferrometer.Prelude.Text.Numbers.{Parsed, num, bad, parse_u64, int_error_text}
use ferrometer.Prelude.Text.Decimal.{split_digits}
use ferrometer.Prelude.Words.{u64_max, u64_mod}
use ferrometer.Error.{Foreign, done, failed}

-- `Duration::from_secs`, in nanoseconds.
abbrev pub from_secs : ℕ → ℕ
from_secs n = n * 1_000_000_000

-- The product of `u64`s wraps round: the release profile has no overflow checks.
abbrev pub scaled : ℕ → Parsed → Foreign ℕ
scaled k (num n) = done (from_secs (n * k % u64_mod))
scaled k (bad e) = failed (int_error_text e)

-- What is before the suffix `s`, or `m`, or `h`, whichever is there.
abbrev pub by_suffix : Text → Option Text → Option Text → Option Text → Foreign ℕ
by_suffix s (some n) minutes hours = scaled 1 (parse_u64 n)
by_suffix s none (some n) hours = scaled 60 (parse_u64 n)
by_suffix s none none (some n) = scaled 3600 (parse_u64 n)
by_suffix s none none none =
    failed (codes "invalid duration '" ++ s ++ codes "': expected suffix s, m, or h")

unfoldable pub parse_duration : Text → Foreign ℕ
unfolding strip_suffix parse_u64 codes
parse_duration s =
    by_suffix s (strip_suffix s (b's' ∷ [])) (strip_suffix s (b'm' ∷ []))
      (strip_suffix s (b'h' ∷ []))

abbrev one_of : List Text → Text → Bool
one_of names s = any (text_eq s) names

-- The `match` on the unit.
unfoldable pub multiplier : Text → Option ℕ
unfolding codes text_eq
multiplier unit =
    if one_of ([] ∷ codes "b" ∷ []) unit
    then some 1
    else if one_of (codes "k" ∷ codes "kb" ∷ []) unit
    then some 1_000
    else if one_of (codes "m" ∷ codes "mb" ∷ []) unit
    then some 1_000_000
    else if one_of (codes "g" ∷ codes "gb" ∷ []) unit
    then some 1_000_000_000
    else if text_eq unit (codes "kib")
    then some (2 ^ 10)
    else if text_eq unit (codes "mib")
    then some (2 ^ 20)
    else if text_eq unit (codes "gib")
    then some (2 ^ 30)
    else none

abbrev pub invalid_size : Text → Text → Text
invalid_size s why = codes "invalid byte size '" ++ s ++ codes "': " ++ why

-- `checked_mul`; `usize::try_from` accepts every `u64`.
abbrev pub sized : Text → ℕ → Text → Option ℕ → Foreign ℕ
sized s n unit none =
    failed (invalid_size s (codes "unknown unit '" ++ unit ++ codes "' (expected K, M, or G)"))
sized s n unit (some mult) =
    if leb (n * mult) u64_max
    then done (n * mult)
    else failed (invalid_size s (codes "out of range"))

abbrev pub counted : Text → Text → Parsed → Foreign ℕ
counted s unit (bad e) = failed (invalid_size s (codes "expected <integer>[K|M|G]"))
counted s unit (num n) = sized s n unit (multiplier unit)

-- Of a trimmed text.
unfoldable pub parse_trimmed : Text → Foreign ℕ
unfolding split_digits to_ascii_lowercase trim multiplier parse_u64 codes
parse_trimmed s =
    let parts = split_digits s in counted s (to_ascii_lowercase (trim parts.1)) (parse_u64 parts.0)

unfoldable pub parse_byte_size : Text → Foreign ℕ
unfolding parse_trimmed trim
parse_byte_size s = parse_trimmed (trim s)
