-- ===== src/Collector/Hwmon/Tests.antt =====
-- src/collector/unix/hwmon.rs: names of sensors and metrics, and instances of the theorems.
use ferrometer.Prelude.{◌≡◌, refl, List, [], ◌∷◌, none, some, true}
use ferrometer.Prelude.Text.{codes}
use ferrometer.Prelude.Maps.{text_ord, get}
use ferrometer.Collector.Hwmon.{
  SensorType, sensor_type, split_attr, metric_name, chip_name, BlockDevice, block_devices_by_path,
  only,
}
use ferrometer.Collector.Hwmon.Disks.{devices_at, block_devices_by_path-only}

splits : split_attr (codes "temp1_crit_alarm") ≡ some (codes "temp1", codes "crit_alarm")
unfolding codes split_attr
splits = refl

abbrev energy : SensorType
energy = record {
  prefix = codes "energy";
  scale = 1_000_000;
  unit = codes "joule";
  is_counter = true;
}

names_total : metric_name energy (codes "input") true ≡ codes "node_hwmon_energy_joule_total"
unfolding codes metric_name
names_total = refl

no_intrusion : sensor_type (codes "intrusion0") ≡ none
unfolding codes sensor_type
no_intrusion = refl

names_chip :
    chip_name (some (record { bus = some (codes "pci"); name = some (codes "0000:01") })) none none
    ≡ codes "pci_0000_01"
unfolding codes chip_name
names_chip = refl

abbrev two_namespaces : List BlockDevice
two_namespaces =
    record { name = codes "nvme0n1"; device = codes "/d/nvme0" }
    ∷ record { name = codes "sda"; device = codes "/d/sd" }
    ∷ record { name = codes "nvme0n2"; device = codes "/d/nvme0" }
    ∷ []

block_devices_by_path-only_example :
    get (codes "/d/nvme0") (block_devices_by_path two_namespaces)
    ≡ only (devices_at (codes "/d/nvme0") two_namespaces)
block_devices_by_path-only_example = block_devices_by_path-only two_namespaces (codes "/d/nvme0")
