-- ===== src/Collector/Cpu.antt =====
-- src/collector/unix/cpu.rs: the times of each CPU, its frequencies, and how often it was throttled.
-- `sys` is what the files under /sys hold, each by its path.
pub mod Packages
mod Tests
use ferrometer.Prelude.{
  ℕ, ◌+◌, ◌++◌, List, [], ◌∷◌, Option, none, some, Bool, true, false, any, if◌then◌else◌,
}
use ferrometer.Prelude.Text.{Text, codes, text_eq}
use ferrometer.Prelude.Text.Decimal.{decimal, decimal_before}
use ferrometer.Prelude.Maps.{text_ord, insert}
use ferrometer.Error.{collector, Foreign, map_err}
use ferrometer.Signal.{Labels}
use ferrometer.Collector.Files.{Directory, read_string, read_u64}
use ferrometer.Collector.Emit.{
  Floats, Emit, Collect, nothing, in_turn, each, if_some, push_gauge, push_counter, collected,
  after_colon,
}

pub record CpuTime : Type 0 where
  pub user : ℕ
  pub nice : ℕ
  pub system : ℕ
  pub idle : ℕ
  pub iowait : Option ℕ
  pub irq : Option ℕ
  pub softirq : Option ℕ
  pub steal : Option ℕ

abbrev pub or_zero : Option ℕ → ℕ
or_zero none = 0
or_zero (some n) = n

-- `format!("/sys/devices/system/cpu/cpu{i}/..")`
unfoldable pub cpu_file : ℕ → Text → Text
unfolding codes decimal_before
cpu_file i file = codes "/sys/devices/system/cpu/cpu" ++ (decimal i ++ file)

unfoldable pub package_of : Directory → ℕ → Option Text
unfolding read_string cpu_file codes
package_of sys i = read_string sys (cpu_file i (codes "/topology/physical_package_id"))

unfoldable pub package_count : Directory → ℕ → Option ℕ
unfolding read_u64 cpu_file codes
package_count sys i = read_u64 sys (cpu_file i (codes "/thermal_throttle/package_throttle_count"))

abbrev pub package_total : Text
package_total = codes "node_cpu_package_throttles_total"

abbrev pub freq_fields : List (Text × Text)
freq_fields =
    (codes "/cpufreq/scaling_cur_freq", codes "node_cpu_scaling_frequency_hertz")
    ∷ (codes "/cpufreq/scaling_min_freq", codes "node_cpu_scaling_frequency_min_hertz")
    ∷ (codes "/cpufreq/scaling_max_freq", codes "node_cpu_scaling_frequency_max_hertz")
    ∷ (codes "/cpufreq/cpuinfo_min_freq", codes "node_cpu_frequency_min_hertz")
    ∷ (codes "/cpufreq/cpuinfo_max_freq", codes "node_cpu_frequency_max_hertz")
    ∷ []

abbrev pub cpu_labels : ℕ → Labels
cpu_labels i = insert (codes "cpu") (decimal i) []

abbrev pub with_package : Option Text → Labels → Labels
with_package none labels = labels
with_package (some pkg) labels = insert (codes "package") pkg labels

-- `seen_packages` behind the `insert`, and whether the package was new.
abbrev pub saw : Option Text → List Text → List Text
saw none seen = seen
saw (some pkg) seen = pkg ∷ seen

abbrev pub is_seen : Text → List Text → Bool
is_seen pkg seen = any (text_eq pkg) seen

module _ {F : Type 0} (f : Floats F) (tps : F) (now : ℕ) (sys : Directory) where
  abbrev pub modes : CpuTime → List (Text × F)
  modes cpu =
      (codes "user", f.over (f.of cpu.user) tps)
      ∷ (codes "nice", f.over (f.of cpu.nice) tps)
      ∷ (codes "system", f.over (f.of cpu.system) tps)
      ∷ (codes "idle", f.over (f.of cpu.idle) tps)
      ∷ (codes "iowait", f.over (f.of (or_zero cpu.iowait)) tps)
      ∷ (codes "irq", f.over (f.of (or_zero cpu.irq)) tps)
      ∷ (codes "softirq", f.over (f.of (or_zero cpu.softirq)) tps)
      ∷ (codes "steal", f.over (f.of (or_zero cpu.steal)) tps)
      ∷ []

  unfoldable pub mode_time : ℕ → Text × F → Emit F
  unfolding insert codes decimal_before
  mode_time i (mode, value) =
      push_counter now (codes "node_cpu_seconds_total") value
        (insert (codes "mode") mode (cpu_labels i))

  -- The files are in kHz.
  unfoldable pub in_hertz : ℕ → Text → ℕ → Emit F
  unfolding insert codes decimal_before
  in_hertz i name khz = push_gauge now name (f.times (f.of khz) (f.of 1000)) (cpu_labels i)

  unfoldable pub frequency : ℕ → Text × Text → Emit F
  unfolding in_hertz read_u64 cpu_file
  frequency i (file, name) = if_some (in_hertz i name) (read_u64 sys (cpu_file i file))

  unfoldable pub governor : ℕ → Text → Emit F
  unfolding insert codes decimal_before
  governor i name =
      push_gauge now (codes "node_cpu_scaling_governor") (f.of 1)
        (insert (codes "governor") name (cpu_labels i))

  unfoldable pub core_throttles : ℕ → ℕ → Emit F
  unfolding insert codes decimal_before package_of
  core_throttles i count =
      push_counter now (codes "node_cpu_core_throttles_total") (f.of count)
        (with_package (package_of sys i) (cpu_labels i))

  unfoldable pub package_throttles : Text → ℕ → Emit F
  unfolding insert codes
  package_throttles pkg count =
      push_counter now package_total (f.of count) (insert (codes "package") pkg [])

  -- Only for the first CPU of a package.
  unfoldable pub if_new : ℕ → List Text → Text → Emit F
  unfolding package_throttles package_count text_eq
  if_new i seen pkg =
      if is_seen pkg seen then nothing else if_some (package_throttles pkg) (package_count sys i)

  unfoldable pub of_cpu : ℕ → CpuTime → List Text → Emit F
  unfolding mode_time frequency governor core_throttles if_new read_string read_u64 cpu_file codes
      package_of
  of_cpu i cpu seen = in_turn (
      each (mode_time i) (modes cpu)
      ∷ each (frequency i) freq_fields
      ∷ if_some (governor i) (read_string sys (cpu_file i (codes "/cpufreq/scaling_governor")))
      ∷ if_some (core_throttles i)
          (read_u64 sys (cpu_file i (codes "/thermal_throttle/core_throttle_count")))
      ∷ if_some (if_new i seen) (package_of sys i)
      ∷ [])

  -- `for (i, cpu) in stats.cpu_time.iter().enumerate()`
  unfoldable pub cpus : ℕ → List Text → List CpuTime → Emit F
  unfolding of_cpu package_of
  cpus i seen [] c = ([], c)
  cpus i seen (cpu ∷ rest) c =
      let (here, c') = of_cpu i cpu seen c in
      let (more, c'') = cpus (i + 1) (saw (package_of sys i) seen) rest c' in (here ++ more, c'')

  unfoldable pub collect : Foreign (List CpuTime) → Collect F
  unfolding cpus codes
  collect read = collected (map_err (λ e. collector (after_colon (codes "cpu") e)) read) (cpus 0 [])
