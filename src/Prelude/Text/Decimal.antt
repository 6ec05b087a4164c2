-- ===== src/Prelude/Text/Decimal.antt =====
-- Numbers in decimal, and what `str::parse::<u64>` makes of them.
use Prim.Native.Nat.{ℕ, zero, suc, ◌+◌, ◌*◌, ◌/◌, ◌%◌, ◌≤◌, ◌<◌}
use mathlib.Core.Path.{◌≡◌, refl, ◌∙◌}
use mathlib.Core.Bool.{true}
use mathlib.Core.List.{[], ◌∷◌, ◌++◌}
use native.Mathlib.Omega.{arith}
use ferrometer.Prelude.Tests.{ltb, if◌then◌else◌}
use ferrometer.Prelude.Words.{u64_max}
use ferrometer.Prelude.Text.{Text, is_ascii_digit}
use ferrometer.Prelude.Text.Numbers.{num, digits, parse_u64}

-- The digits of `n` before `acc`, with fuel.
unfoldable pub decimal_before : ℕ → ℕ → Text → Text
decimal_before zero n acc = acc
decimal_before (suc fuel) n acc =
    let rest = decimal_before fuel (n / 10) ((b'0' + n % 10) ∷ acc) in
    if ltb n 10 then (b'0' + n) ∷ acc else rest

-- `n.to_string()`
abbrev pub decimal : ℕ → Text
decimal n = decimal_before (suc n) n []

-- The leading digits and what follows: `s.split_at(split)` of `parse_byte_size`.
unfoldable pub split_digits : Text → Text × Text
unfolding is_ascii_digit
split_digits [] = ([], [])
split_digits (c ∷ s) =
    let rest = split_digits s in if is_ascii_digit c then (c ∷ rest.0, rest.1) else ([], c ∷ s)

digit-IsDigit : (n : ℕ) → n < 10 → is_ascii_digit (b'0' + n) ≡ true
unfolding is_ascii_digit
digit-IsDigit n h = ground arith

digits-digit :
    (d : ℕ) (s : Text) (n : ℕ)
    → d < 10
    → n * 10 + d ≤ u64_max
    → digits ((b'0' + d) ∷ s) n ≡ digits s (n * 10 + d)
unfolding digits
digits-digit d s n h fits = ground (arith, digit-IsDigit d h)

pub digits-decimal_before :
    (fuel n : ℕ) (acc : Text)
    → n < fuel
    → n ≤ u64_max
    → digits (decimal_before fuel n acc) 0 ≡ digits acc n
unfolding decimal_before
digits-decimal_before zero n acc f fits = absurd (omega arith)
digits-decimal_before (suc fuel) n acc f fits = ground (
  arith,
  digits-digit n acc 0,
  digits-digit (n % 10) acc (n / 10),
  digits-decimal_before fuel (n / 10) ((b'0' + n % 10) ∷ acc),
)

pub decimal_before-append :
    (fuel n : ℕ) (acc s : Text) → decimal_before fuel n acc ++ s ≡ decimal_before fuel n (acc ++ s)
unfolding decimal_before
decimal_before-append zero n acc s = refl
decimal_before-append (suc fuel) n acc s =
    ground (arith, decimal_before-append fuel (n / 10) ((b'0' + n % 10) ∷ acc) s)

split_digits-digit :
    (d : ℕ) (s : Text)
    → d < 10
    → split_digits ((b'0' + d) ∷ s) ≡ ((b'0' + d) ∷ (split_digits s).0, (split_digits s).1)
unfolding split_digits
split_digits-digit d s h = rw (digit-IsDigit d h) refl

pub split_digits-decimal_before :
    (fuel n : ℕ) (acc : Text)
    → n < fuel
    → split_digits (decimal_before fuel n acc)
      ≡ (decimal_before fuel n (split_digits acc).0, (split_digits acc).1)
unfolding decimal_before
split_digits-decimal_before zero n acc f = absurd (omega arith)
split_digits-decimal_before (suc fuel) n acc f = grind (
  arith,
  split_digits-digit n acc,
  split_digits-digit (n % 10) acc,
  split_digits-decimal_before fuel (n / 10) ((b'0' + n % 10) ∷ acc),
)

parse_u64-digit :
    (c : ℕ) (s : Text) → is_ascii_digit c ≡ true → parse_u64 (c ∷ s) ≡ digits (c ∷ s) 0
unfolding is_ascii_digit parse_u64
parse_u64-digit c [] h = ground arith
parse_u64-digit c (d ∷ s) h = ground arith

parse_u64-decimal_before :
    (fuel n : ℕ) (acc : Text)
    → n < fuel
    → parse_u64 (decimal_before fuel n acc) ≡ digits (decimal_before fuel n acc) 0
unfolding decimal_before
parse_u64-decimal_before zero n acc f = absurd (omega arith)
parse_u64-decimal_before (suc fuel) n acc f = ground (
  arith,
  digit-IsDigit n,
  parse_u64-digit (b'0' + n) acc,
  parse_u64-decimal_before fuel (n / 10) ((b'0' + n % 10) ∷ acc),
)

-- A `u64` is read back from its decimal print.
pub parse_u64-decimal : (n : ℕ) → n ≤ u64_max → parse_u64 (decimal n) ≡ num n
unfolding digits
parse_u64-decimal n fits =
    parse_u64-decimal_before (suc n) n [] (omega arith)
    ∙ digits-decimal_before (suc n) n [] (omega arith) fits
