-- ===== src/Prelude/Text/Numbers.antt =====
-- `str::parse::<u64>` of the language, with the texts of its errors.
use Prim.Native.Nat.{ℕ, zero, suc, ◌+◌, ◌-◌, ◌*◌, ◌^◌, ◌≤◌}
use mathlib.Core.Bool.{◌||◌}
use mathlib.Core.Path.{◌≡◌}
use mathlib.Core.Option.{Option, none, some}
use mathlib.Core.List.{[], ◌∷◌}
use native.Mathlib.Omega.{arith}
use ferrometer.Prelude.Tests.{leb, ◌==◌, if◌then◌else◌}
use ferrometer.Prelude.Words.{u64_max}
use ferrometer.Prelude.Text.{Text, codes, is_ascii_digit}

pub data IntError : Type 0 where
  empty invalid_digit pos_overflow : IntError

-- Either a value, or why there is none.
pub data Parsed : Type 0 where
  num : ℕ → Parsed
  bad : IntError → Parsed

unfoldable pub int_error_text : IntError → Text
int_error_text empty = codes "cannot parse integer from empty string"
int_error_text invalid_digit = codes "invalid digit found in string"
int_error_text pos_overflow = codes "number too large to fit in target type"

-- The digits behind the value `n`; a digit that overflows ends the parse, and so does a code point
-- that is no digit, whichever comes first.
unfoldable pub digits : Text → ℕ → Parsed
unfolding is_ascii_digit
digits [] n = num n
digits (c ∷ s) n =
    let rest = digits s (n * 10 + (c - b'0')) in
    if is_ascii_digit c
    then (if leb (n * 10 + (c - b'0')) u64_max then rest else bad pos_overflow)
    else bad invalid_digit

-- One leading `+` is accepted before at least one digit.
unfoldable pub parse_u64 : Text → Parsed
unfolding digits
parse_u64 [] = bad empty
parse_u64 (c ∷ []) = if c == b'+' then bad invalid_digit else digits (c ∷ []) 0
parse_u64 (c ∷ d ∷ s) = if c == b'+' then digits (d ∷ s) 0 else digits (c ∷ d ∷ s) 0

-- `.ok()`
abbrev pub ok_num : Parsed → Option ℕ
ok_num (num n) = some n
ok_num (bad e) = none

pub digits_bound : (s : Text) (n : ℕ) {r : ℕ} → n ≤ u64_max → digits s n ≡ num r → r ≤ u64_max
unfolding digits
digits_bound [] n fits h = ground arith
digits_bound (c ∷ s) n {r} fits h = ground (arith, digits_bound s (n * 10 + (c - b'0')) {r = r})

pub parse_u64_bound : (s : Text) {r : ℕ} → parse_u64 s ≡ num r → r ≤ u64_max
unfolding parse_u64
parse_u64_bound [] h = cc
parse_u64_bound (c ∷ []) {r} h = ground (arith, digits_bound (c ∷ []) 0 {r = r})
parse_u64_bound (c ∷ d ∷ s) {r} h =
    ground (arith, digits_bound (d ∷ s) 0 {r = r}, digits_bound (c ∷ d ∷ s) 0 {r = r})

-- `negsuc n` is -(n + 1).
pub data ℤ : Type 0 where
  pos : ℕ → ℤ
  negsuc : ℕ → ℤ

abbrev pub pos_of : Parsed → Option ℤ
pos_of (bad e) = none
pos_of (num n) = if leb n (2 ^ 63 - 1) then some (pos n) else none

abbrev pub neg_of : Parsed → Option ℤ
neg_of (bad e) = none
neg_of (num zero) = some (pos 0)
neg_of (num (suc n)) = if leb n (2 ^ 63 - 1) then some (negsuc n) else none

-- `str::parse::<i64>`, without its errors.
unfoldable pub parse_i64 : Text → Option ℤ
unfolding digits
parse_i64 [] = none
parse_i64 (c ∷ []) = if c == b'+' || c == b'-' then none else pos_of (digits (c ∷ []) 0)
parse_i64 (c ∷ d ∷ s) =
    if c == b'-'
    then neg_of (digits (d ∷ s) 0)
    else if c == b'+'
    then pos_of (digits (d ∷ s) 0)
    else pos_of (digits (c ∷ d ∷ s) 0)
