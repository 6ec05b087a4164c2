-- ===== src/Config/Parse/RoundTrip.antt =====
-- src/config.rs: what is read back from a number printed before its unit.
use ferrometer.Prelude.{
  ℕ, suc, ◌*◌, ◌%◌, ◌^◌, ◌≤◌, ◌≡◌, refl, ap, ◌∙◌, [], ◌∷◌, ◌++◌, none, some, leb, ◌==◌,
  if◌then◌else◌, arith,
}
use mathlib.Core.List.{reverse-append, reverse-reverse}
use ferrometer.Prelude.Text.{Text, codes, trim, to_ascii_lowercase, strip_prefix, strip_suffix}
use ferrometer.Prelude.Text.Decimal.{
  decimal, decimal_before, decimal_before-append, split_digits, split_digits-decimal_before,
  parse_u64-decimal,
}
use ferrometer.Prelude.Words.{u64_max}
use ferrometer.Error.{done, failed}
use ferrometer.Config.Parse.{
  from_secs, by_suffix, parse_duration, multiplier, parse_byte_size, parse_trimmed, invalid_size,
}

strip_suffix-append :
    (s : Text) (c d : ℕ) → strip_suffix (s ++ c ∷ []) (d ∷ []) ≡ (if c == d then some s else none)
unfolding strip_suffix strip_prefix
strip_suffix-append s c d = grind (arith, reverse-append s (c ∷ []), reverse-reverse s)

-- The decimal print of a `u64` before the suffix `s`, `m` or `h` is read as that many seconds,
-- minutes or hours, where the seconds of the last two are taken modulo 2 ^ 64.
pub parse_duration-decimal :
    (n : ℕ)
    → n ≤ u64_max
    → (parse_duration (decimal n ++ b's' ∷ []) ≡ done (from_secs n))
      × (parse_duration (decimal n ++ b'm' ∷ []) ≡ done (from_secs (n * 60 % 2 ^ 64)))
      × (parse_duration (decimal n ++ b'h' ∷ []) ≡ done (from_secs (n * 3600 % 2 ^ 64)))
unfolding parse_duration
parse_duration-decimal n fits = (
  with_suffix b's' ∙ rw (parse_u64-decimal n fits) (ap (λ k. done (from_secs k)) (omega arith)),
  with_suffix b'm' ∙ rw (parse_u64-decimal n fits) refl,
  with_suffix b'h' ∙ rw (parse_u64-decimal n fits) refl,
)
  where
    with_suffix :
        (c : ℕ)
        → parse_duration (decimal n ++ c ∷ [])
          ≡ by_suffix
              (decimal n ++ c ∷ [])
              (if c == b's' then some (decimal n) else none)
              (if c == b'm' then some (decimal n) else none)
              (if c == b'h' then some (decimal n) else none)
    with_suffix c = λ i.
        by_suffix (decimal n ++ c ∷ []) (strip_suffix-append (decimal n) c b's' i)
          (strip_suffix-append (decimal n) c b'm' i) (strip_suffix-append (decimal n) c b'h' i)

-- A text that, without the space around it, is the decimal print of a `u64` and then a unit is read
-- as the product of the number and of the unit's factor if that fits 64 bits, and is refused as out
-- of range otherwise: nothing wraps round. Space before the unit and its case do not matter.
pub parse_byte_size-decimal :
    (s unit : Text) (n mult : ℕ)
    → n ≤ u64_max
    → trim s ≡ decimal n ++ unit
    → (split_digits unit).0 ≡ []
    → multiplier (to_ascii_lowercase (trim (split_digits unit).1)) ≡ some mult
    → parse_byte_size s ≡ (
        if leb (n * mult) u64_max
        then done (n * mult)
        else failed (invalid_size (trim s) (codes "out of range")))
unfolding parse_byte_size parse_trimmed
parse_byte_size-decimal s unit n mult fits e no_digit m =
    rw (parts, parse_u64-decimal n fits, m) refl
  where
    parts : split_digits (trim s) ≡ (decimal n, (split_digits unit).1)
    parts =
        ap split_digits (e ∙ decimal_before-append (suc n) n [] unit)
        ∙ split_digits-decimal_before (suc n) n unit (omega arith)
        ∙ ap (λ t. (decimal_before (suc n) n t, (split_digits unit).1)) no_digit
