-- ===== src/Config/Parse/Tests.antt =====
-- src/config.rs: the tests of the source, and instances of the theorems.
use ferrometer.Prelude.{◌*◌, ◌%◌, ◌^◌, ◌≡◌, refl, [], ◌∷◌, ◌++◌, leb, if◌then◌else◌, arith}
use ferrometer.Prelude.Text.{codes, trim, to_ascii_lowercase}
use ferrometer.Prelude.Text.Decimal.{decimal, decimal_before, split_digits}
use ferrometer.Prelude.Words.{u64_max}
use ferrometer.Error.{done, failed}
use ferrometer.Config.Parse.{multiplier, from_secs, parse_duration, parse_byte_size, invalid_size}
use ferrometer.Config.Parse.RoundTrip.{parse_duration-decimal, parse_byte_size-decimal}

mib : parse_byte_size (codes "1MiB") ≡ done 1048576
unfolding codes parse_byte_size
mib = refl

gib : parse_byte_size (codes "1 gib") ≡ done 1073741824
unfolding codes parse_byte_size
gib = refl

-- 2 ^ 62 + 1 minutes are read as one minute.
wraps : parse_duration (codes "4611686018427387905m") ≡ done (from_secs 60)
unfolding codes parse_duration
wraps = refl

parse_duration-decimal_example :
    (parse_duration (decimal 15 ++ b's' ∷ []) ≡ done (from_secs 15))
    × (parse_duration (decimal 15 ++ b'm' ∷ []) ≡ done (from_secs (15 * 60 % 2 ^ 64)))
    × (parse_duration (decimal 15 ++ b'h' ∷ []) ≡ done (from_secs (15 * 3600 % 2 ^ 64)))
parse_duration-decimal_example = parse_duration-decimal 15 (omega arith)

parse_byte_size-decimal_example : parse_byte_size (codes " 2 mB") ≡ (
    if leb (2 * 1000000) u64_max
    then done (2 * 1000000)
    else failed (invalid_size (trim (codes " 2 mB")) (codes "out of range")))
unfolding codes decimal_before trim split_digits multiplier to_ascii_lowercase
parse_byte_size-decimal_example =
    parse_byte_size-decimal (codes " 2 mB") (codes " mB") 2 1000000 (omega arith) refl refl refl
