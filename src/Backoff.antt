-- ===== src/Backoff.antt =====
-- The exponential backoff that src/log/shipper.rs and src/forwarder/otlphttp.rs write out alike.
use native.Mathlib.Nat.{pow-suc}
use ferrometer.Prelude.{
  ℕ, zero, suc, ◌-◌, ◌*◌, ◌^◌, ◌≤◌, ◌≡◌, refl, ap, ◌∙◌, min, Option, none, some, leb, ◌==◌,
  if◌then◌else◌, inl, inr, Bool-cases, ==_iff, arith,
}

-- `deadline.checked_duration_since(now)`: nothing to wait for once the deadline has passed.
abbrev pub waits : Option ℕ → ℕ → Option ℕ
waits none now = none
waits (some deadline) now = if leb now deadline then some (deadline - now) else none

-- The backoff behind a failure, from the one before it.
abbrev pub next_backoff : ℕ → ℕ → ℕ → ℕ
next_backoff initial cap backoff = if backoff == 0 then initial else min (backoff * 2) cap

two_pow_pos : (k : ℕ) → 1 ≤ 2 ^ k
two_pow_pos zero = omega arith
two_pow_pos (suc k) = omega (arith, pow-suc 2 k, two_pow_pos k)

next_backoff-min :
    (initial cap t : ℕ)
    → initial ≤ cap
    → (t ≡ 0 → initial ≡ 0)
    → next_backoff initial cap (min t cap) ≡ min (t * 2) cap
next_backoff-min initial cap t h z = elim (Bool-cases (min t cap == 0)) [
  | inl none_yet ↦
      rw none_yet (let m : min t cap ≡ 0 = (==_iff _ 0).0 none_yet in ground (arith, z))
  | inr some_yet ↦ rw some_yet (omega arith)
]

initial_zero : (i k : ℕ) → i * 2 ^ k ≡ 0 → i ≡ 0
initial_zero zero k h = refl
initial_zero (suc i) k h = absurd (grind (arith, two_pow_pos k))

-- The backoff behind one failure and `k` more.
abbrev pub capped : ℕ → ℕ → ℕ → ℕ
capped initial cap k = min (initial * 2 ^ k) cap

pub next_backoff-capped :
    (initial cap k : ℕ)
    → initial ≤ cap
    → next_backoff initial cap (capped initial cap k) ≡ capped initial cap (suc k)
next_backoff-capped initial cap k h =
    next_backoff-min initial cap (initial * 2 ^ k) h (initial_zero initial k)
    ∙ ap (λ t. min t cap) (omega (arith, ap (λ t. initial * t) (pow-suc 2 k)))

pub capped_zero : (initial cap : ℕ) → initial ≤ cap → capped initial cap 0 ≡ initial
capped_zero initial cap h = omega arith
