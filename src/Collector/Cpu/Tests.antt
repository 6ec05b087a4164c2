-- ===== src/Collector/Cpu/Tests.antt =====
-- src/collector/unix/cpu.rs: two CPUs of one package and one of another.
use ferrometer.Prelude.{ℕ, ◌*◌, ◌/◌, ◌==◌, ◌≡◌, refl, [], ◌∷◌, map, none, some, if◌then◌else◌}
use ferrometer.Prelude.Text.{codes, text_eq}
use ferrometer.Prelude.Text.Numbers.{parse_u64, ok_num}
use ferrometer.Collector.LabelCache.{LabelCache, new_cache}
use ferrometer.Collector.Files.{Directory}
use ferrometer.Collector.Emit.{Floats}
use ferrometer.Collector.Cpu.{CpuTime, package_of, package_count, package_total, cpus}
use ferrometer.Collector.Cpu.Packages.{named, counts_from, cpus-packages}

abbrev whole : Floats ℕ
whole = record {
  of = λ n. n;
  minus = λ n. n;
  times = λ a b. a * b;
  over = λ a b. a / b;
  is = λ a b. a == b;
  parse_f64 = λ s. ok_num (parse_u64 s);
}

abbrev cpu : CpuTime
cpu = record {
  user = 1;
  nice = 2;
  system = 3;
  idle = 4;
  iowait = none;
  irq = none;
  softirq = none;
  steal = none;
}

abbrev sys : Directory
sys path =
    if text_eq path (codes "/sys/devices/system/cpu/cpu0/topology/physical_package_id")
    then some (codes "0\n")
    else if text_eq path (codes "/sys/devices/system/cpu/cpu1/topology/physical_package_id")
    then some (codes "0\n")
    else if text_eq path (codes "/sys/devices/system/cpu/cpu2/topology/physical_package_id")
    then some (codes "1\n")
    else some (codes "17\n")

abbrev cache : LabelCache
cache = new_cache []

counts : counts_from sys 0 (cpu ∷ cpu ∷ cpu ∷ []) ≡ 17 ∷ 17 ∷ []
unfolding package_of package_count text_eq codes
counts = refl

cpus-packages_example :
    named package_total (cpus whole 100 5 sys 0 [] (cpu ∷ cpu ∷ cpu ∷ []) cache).0
    ≡ map whole.of (counts_from sys 0 (cpu ∷ cpu ∷ cpu ∷ []))
cpus-packages_example = cpus-packages whole 100 5 sys (cpu ∷ cpu ∷ cpu ∷ []) cache
