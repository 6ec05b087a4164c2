-- ===== src/Collector/Hwmon.antt =====
-- src/collector/unix/hwmon.rs: the names of sensors, chips and metrics, and the disks that sensors
-- belong to. What the directories hold is an argument.
pub mod Sensors
pub mod Disks
pub mod Chip
mod Tests
use ferrometer.Prelude.{
  ℕ, List, [], ◌∷◌, ◌++◌, map, Option, none, some, Bool, true, false, not, ◌&&◌, find, keep,
  is_empty, ◌==◌, if◌then◌else◌,
}
use ferrometer.Prelude.Text.{
  Text, codes, text_eq, trim, strip_prefix, is_ascii_digit, is_ascii_alphanumeric,
}
use ferrometer.Prelude.Text.Split.{split_once}
use ferrometer.Prelude.Maps.{Map, text_ord}
use ferrometer.Prelude.Maps.Groups.{group_by}

pub record SensorType : Type 0 where
  pub prefix : Text
  pub scale : ℕ
  pub unit : Text
  pub is_counter : Bool

abbrev sensor : Text → ℕ → Text → Bool → SensorType
sensor prefix scale unit is_counter = record {
  prefix = prefix;
  scale = scale;
  unit = unit;
  is_counter = is_counter;
}

abbrev pub sensor_types : List SensorType
sensor_types =
    sensor (codes "temp") 1000 (codes "celsius") false
    ∷ sensor (codes "fan") 1 (codes "rpm") false
    ∷ sensor (codes "in") 1000 (codes "volts") false
    ∷ sensor (codes "curr") 1000 (codes "amps") false
    ∷ sensor (codes "power") 1_000_000 (codes "watt") false
    ∷ sensor (codes "energy") 1_000_000 (codes "joule") true
    ∷ sensor (codes "humidity") 1 [] false
    ∷ []

-- The properties, and whether the value carries the unit.
abbrev pub properties : List (Text × Bool)
properties =
    (codes "input", true)
    ∷ (codes "min", true)
    ∷ (codes "max", true)
    ∷ (codes "crit", true)
    ∷ (codes "alarm", false)
    ∷ (codes "crit_alarm", false)
    ∷ []

abbrev attr_parts : Option (Text × Text) → Option (Text × Text)
attr_parts none = none
attr_parts (some (s, p)) = if not (is_empty p) then some (s, p) else none

unfoldable pub split_attr : Text → Option (Text × Text)
unfolding split_once
split_attr file = attr_parts (split_once file b'_')

unfoldable pub all_digits : Text → Bool
unfolding is_ascii_digit
all_digits [] = true
all_digits (c ∷ s) = is_ascii_digit c && all_digits s

abbrev pub is_index : Option Text → Bool
is_index none = false
is_index (some index) = not (is_empty index) && all_digits index

unfoldable pub sensor_type : Text → Option SensorType
unfolding strip_prefix all_digits codes
sensor_type s = find (λ t. is_index (strip_prefix s t.prefix)) sensor_types

unfoldable pub metric_name : SensorType → Text → Bool → Text
unfolding codes text_eq
metric_name t property scaled =
    codes "node_hwmon_"
    ++ t.prefix
    ++ (if not (text_eq property (codes "input")) then b'_' ∷ property else [])
    ++ (if scaled && not (is_empty t.unit) then b'_' ∷ t.unit else [])
    ++ (if t.is_counter && text_eq property (codes "input") then codes "_total" else [])

unfoldable pub sanitize : Text → Text
unfolding is_ascii_alphanumeric
sanitize name = map (λ c. if is_ascii_alphanumeric c then c else b'_') name

-- The names that a path to a device ends with, as far as they are there and are text.
pub record Device : Type 0 where
  pub bus : Option Text
  pub name : Option Text

abbrev by_directory : Option Text → Option Text → Text
by_directory (some driver) directory = sanitize (trim driver)
by_directory none (some directory) = sanitize directory
by_directory none none = []

abbrev by_device : Option Text → Option Text → Option Text → Option Text → Text
by_device (some bus) (some name) driver directory = sanitize (bus ++ b'_' ∷ name)
by_device none (some name) driver directory = sanitize name
by_device bus none driver directory = by_directory driver directory

-- From the device, if there is one, or the file `name`, or the directory.
unfoldable pub chip_name : Option Device → Option Text → Option Text → Text
unfolding sanitize trim
chip_name none driver directory = by_directory driver directory
chip_name (some d) driver directory = by_device d.bus d.name driver directory

-- `[disk] => Some(..)`
abbrev pub only : List Text → Option Text
only [] = none
only (d ∷ []) = some d
only (d ∷ e ∷ ds) = none

abbrev pub single : Text → Option Text → Map Text Text → Map Text Text
single path none m = m
single path (some d) m = (path, d) ∷ m

unfoldable pub singles : Map Text (List Text) → Map Text Text
singles [] = []
singles ((path, ds) ∷ m) = single path (only ds) (singles m)

-- An entry of `/sys/block` with the path of its device.
pub record BlockDevice : Type 0 where
  pub name : Text
  pub device : Text

unfoldable pub block_devices_by_path : List BlockDevice → Map Text Text
unfolding group_by singles
block_devices_by_path entries = singles (group_by (λ b. b.device) (λ b. b.name) entries [])
