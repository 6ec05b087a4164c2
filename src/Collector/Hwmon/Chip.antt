-- ===== src/Collector/Hwmon/Chip.antt =====
-- src/collector/unix/hwmon.rs: collect and collect_chip. What the directories hold is an argument;
-- `none` is a directory that cannot be read. Names in a directory are distinct.
use ferrometer.Prelude.{
  ℕ, List, [], ◌∷◌, map, Option, none, some, Bool, true, false, not, ◌&&◌, ◌||◌, find,
  if◌then◌else◌,
}
use ferrometer.Prelude.Text.{Text, codes, text_eq}
use ferrometer.Prelude.Maps.{Map, text_ord, get, insert, insert_all}
use ferrometer.Error.{ok}
use ferrometer.Signal.{Labels}
use ferrometer.Collector.Files.{Directory, read_string}
use ferrometer.Collector.Emit.{
  Floats, Emit, Collect, nothing, in_turn, each, if_some, push_gauge, push_counter, collected,
}
use ferrometer.Collector.Hwmon.{
  SensorType, properties, split_attr, sensor_type, metric_name, Device, chip_name, BlockDevice,
  block_devices_by_path,
}

-- `/sys/class/hwmon/hwmon<n>`: its name, the canonical path of its device, its files and their names.
pub record ChipDir : Type 0 where
  pub directory : Option Text
  pub device : Option (Text × Device)
  pub files : Directory
  pub entries : Option (List Text)

abbrev pub or_empty : {A : Type 0} → Option (List A) → List A
or_empty none = []
or_empty (some xs) = xs

-- `sort()`
unfoldable pub sorted : List Text → List Text
unfolding insert_all insert
sorted names = map (λ (e : Text × Unit {0}). e.0) (insert_all (map (λ n. (n, tt)) names) [])

abbrev place : Option (Text × Device) → Option Device
place none = none
place (some (path, d)) = some d

abbrev pub disk_of : Map Text Text → Option (Text × Device) → Option Text
disk_of disks none = none
disk_of disks (some (path, d)) = get path disks

abbrev pub with_disk : Option Text → Labels → Labels
with_disk none labels = labels
with_disk (some disk) labels = insert (codes "disk") disk labels

abbrev pub chip_labels : Text → Option Text → Labels
chip_labels chip disk = with_disk disk (insert (codes "chip") chip [])

-- `PROPERTIES.iter().find(..)`: whether the value of the property carries the unit.
unfoldable pub property_of : Text → Option (Text × Bool)
unfolding text_eq codes
property_of property = find (λ (p : Text × Bool). text_eq p.0 property) properties

module _ {F : Type 0} (f : Floats F) (now : ℕ) where
  abbrev parsed_f64 : Option Text → Option F
  parsed_f64 none = none
  parsed_f64 (some s) = f.parse_f64 s

  unfoldable pub read_f64 : Directory → Text → Option F
  unfolding read_string
  read_f64 dir file = parsed_f64 (read_string dir file)

  -- `TEMP_SENTINELS.contains(&raw)`
  abbrev pub is_sentinel : F → Bool
  is_sentinel raw = f.is raw (f.minus 273_150) || f.is raw (f.of 65_261_850)

  abbrev pub push : Bool → Text → F → Labels → Emit F
  push true name value labels = push_counter now name value labels
  push false name value labels = push_gauge now name value labels

  -- A reading that stands for an unset limit is dropped.
  unfoldable pub reading : SensorType → Text → Bool → Labels → F → Emit F
  unfolding text_eq codes metric_name
  reading t property scaled labels raw =
      if text_eq t.prefix (codes "temp") && is_sentinel raw
      then nothing
      else push (t.is_counter && text_eq property (codes "input")) (metric_name t property scaled)
          (if scaled then f.over raw (f.of t.scale) else raw) labels

  abbrev pub label_gauge : Labels → Text → Emit F
  label_gauge labels label =
      push_gauge now (codes "node_hwmon_sensor_label") (f.of 1)
        (insert (codes "label") label labels)

  abbrev pub property_file : Directory → Labels → Text → Text → SensorType → Text × Bool → Emit F
  property_file files labels file property t (name, scaled) =
      if_some (reading t property scaled labels) (read_f64 files file)

  unfoldable pub sensor_file : Directory → Labels → Text → Text → Text → SensorType → Emit F
  unfolding text_eq codes read_string insert property_of read_f64 reading
  sensor_file files labels file sensor property t =
      let labels' = insert (codes "sensor") sensor labels in
      if text_eq property (codes "label")
      then if_some (label_gauge labels') (read_string files file)
      else if_some (property_file files labels' file property t) (property_of property)

  abbrev pub typed_file : Directory → Labels → Text → Text × Text → Emit F
  typed_file files labels file (sensor, property) =
      if_some (sensor_file files labels file sensor property) (sensor_type sensor)

  -- A file that is no attribute, or none of a known class, is passed over.
  unfoldable pub attribute : Directory → Labels → Text → Emit F
  unfolding split_attr sensor_type sensor_file
  attribute files labels file = if_some (typed_file files labels file) (split_attr file)

  abbrev pub name_gauge : Labels → Text → Emit F
  name_gauge labels name =
      push_gauge now (codes "node_hwmon_chip_names") (f.of 1)
        (insert (codes "chip_name") name labels)

  unfoldable pub collect_chip : Map Text Text → (Text → Bool) → Text × ChipDir → Emit F
  unfolding chip_name get insert codes read_string attribute sorted
  collect_chip disks filter (path, d) =
      let chip = chip_name (place d.device) (d.files (codes "name")) d.directory in
      let labels = chip_labels chip (disk_of disks d.device) in
      if not (filter chip)
      then nothing
      else in_turn (
          if_some (name_gauge labels) (read_string d.files (codes "name"))
          ∷ each (attribute d.files labels) (sorted (or_empty d.entries))
          ∷ [])

  -- The chips by their paths. Nothing without `/sys/class/hwmon`.
  unfoldable pub collect :
      Option (Map Text ChipDir) → Option (List BlockDevice) → (Text → Bool) → Collect F
  unfolding collect_chip insert_all insert block_devices_by_path
  collect chips blocks filter =
      collected (ok (insert_all (or_empty chips) []))
        (each (collect_chip (block_devices_by_path (or_empty blocks)) filter))
