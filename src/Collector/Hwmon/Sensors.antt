-- ===== src/Collector/Hwmon/Sensors.antt =====
-- src/collector/unix/hwmon.rs: the classes of sensors, and the names of chips.
use ferrometer.Prelude.{
  ℕ, ◌≡◌, refl, ap₂, [], ◌∷◌, ◌++◌, some, true, ◌||◌, All, length, ◌==◌, if◌then◌else◌, if_split,
  arith,
}
use ferrometer.Prelude.Text.{Text, codes, is_ascii_alphanumeric}
use ferrometer.Collector.Hwmon.{SensorType, sensor_types, is_index, sensor_type, sanitize}

-- In every class, a sensor is its prefix and an index.
abbrev pub IsFound : Text → SensorType → Type 0
IsFound index t = sensor_type (t.prefix ++ index) ≡ some t

-- The classes of sensors do not overlap: the prefix of a class, followed by an index of digits, is
-- found as a sensor of this class and of no other.
pub sensor_type-IsFound :
    (index : Text) → is_index (some index) ≡ true → All (IsFound index) sensor_types
unfolding sensor_type codes
sensor_type-IsFound [] h = absurd cc
sensor_type-IsFound (c ∷ index) h = (
  ground arith,
  (
    ground arith,
    (ground arith, (ground arith, (ground arith, (ground arith, (ground arith, tt))))),
  ),
)

-- An ASCII letter, a digit or `_`.
abbrev pub IsPlain : ℕ → Type 0
IsPlain c = (is_ascii_alphanumeric c || (c == b'_')) ≡ true

underscore : IsPlain b'_'
unfolding is_ascii_alphanumeric
underscore = refl

-- The name of a chip has as many characters as what it is made of, and all of them are ASCII letters,
-- digits or `_`; a name that is so already stays the same.
pub sanitize-IsPlain :
    (name : Text)
    → (length (sanitize name) ≡ length name)
      × All IsPlain (sanitize name)
      × (All IsPlain name → sanitize name ≡ name)
unfolding sanitize
sanitize-IsPlain [] = (refl, tt, λ _. refl)
sanitize-IsPlain (c ∷ name) =
    let (same_length, plain, fixed) = sanitize-IsPlain name in
    (
      omega (arith, same_length),
      (plain_char, plain),
      λ h. ap₂ (λ d s. d ∷ s) (kept h.0) (fixed h.1),
    )
  where
    plain_char : IsPlain (if is_ascii_alphanumeric c then c else b'_')
    plain_char = if_split IsPlain (is_ascii_alphanumeric c) (λ e. rw e refl) (λ _. underscore)

    kept : IsPlain c → (if is_ascii_alphanumeric c then c else b'_') ≡ c
    kept h = ground arith
