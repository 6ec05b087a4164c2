-- ===== src/Collector/Unix.antt =====
-- src/collector/unix/mod.rs: the collector of the host, which runs the parts that are enabled, one
-- behind the other, on one cache.
pub mod Parts
pub mod Arrays
pub mod Refines
mod Tests
use ferrometer.Prelude.{
  ℕ, List, [], ◌∷◌, ◌++◌, Option, none, some, Bool, true, false, if◌then◌else◌,
}
use ferrometer.Prelude.Text.{Text, codes, text_eq}
use ferrometer.Prelude.Maps.{Map, text_ord, insert_all}
use ferrometer.Error.{Error, config, Result, ok, err, ◌>>=◌, Foreign, map_err}
use ferrometer.Signal.{Labels, Metric}
use ferrometer.Config.Types.{UnixCollectorConfig}
use ferrometer.Collector.LabelCache.{LabelCache, new_cache}
use ferrometer.Collector.Emit.{Floats, Collect, after_colon}
use ferrometer.Collector.Files.{Directory}
use ferrometer.Collector.Filesystem.{MountInfo, Stat}
use ferrometer.Collector.Md.Series.{Block}
use ferrometer.Collector.Hwmon.{BlockDevice}
use ferrometer.Collector.Hwmon.Chip.{ChipDir}
use ferrometer.Collector.Memory.{Meminfo}
use ferrometer.Collector.Netdev.{DeviceStatus}
use ferrometer.Collector.Loadavg.{LoadAverage}
use ferrometer.Collector.Uname.{UtsName}
use ferrometer.Collector.Disk.{DiskStat}
use ferrometer.Collector.Cpu.{CpuTime}
use ferrometer.Collector.Filesystem
use ferrometer.Collector.Md.Series
use ferrometer.Collector.Hwmon.Chip
use ferrometer.Collector.Memory
use ferrometer.Collector.Netdev
use ferrometer.Collector.Loadavg
use ferrometer.Collector.Uname
use ferrometer.Collector.Disk
use ferrometer.Collector.Cpu

-- What the host answers during one collection. `S` is `f32`.
pub record Host (S : Type 0) : Type 0 where
  pub now : ℕ
  pub cpu_times : Foreign (List CpuTime)
  pub ticks_per_second : ℕ
  pub sys : Directory
  pub meminfo : Foreign Meminfo
  pub diskstats : Foreign (List DiskStat)
  pub mounts : Foreign (List MountInfo)
  pub statvfs : Text → Option Stat
  pub has_mdstat : Bool
  pub blocks : Option (List (Text × Block))
  pub chips : Option (Map Text ChipDir)
  pub block_devices : Option (List BlockDevice)
  pub dev_status : Foreign (Map Text DeviceStatus)
  pub load : Foreign (LoadAverage S)
  pub uname : Foreign UtsName

pub record UnixCollector : Type 0 where
  pub name : Text
  pub enabled : List Text
  pub disk_filter : Text → Bool
  pub net_filter : Text → Bool
  pub fs_mount_filter : Text → Bool
  pub fs_type_filter : Text → Bool
  pub fs_dedupe_devices : Bool
  pub hwmon_filter : Text → Bool
  pub cache : LabelCache

-- `Regex::new(..).map_err(..)`; the value of `regex` is `is_match`.
abbrev compiled : (Text → Foreign (Text → Bool)) → Text → Text → Result (Text → Bool)
compiled regex what pattern_text =
    map_err (λ e. config (after_colon (codes "invalid " ++ (what ++ codes " regex")) e))
      (regex pattern_text)

-- `UnixCollector::new`
unfoldable pub new_unix :
    (Text → Foreign (Text → Bool)) → Text → UnixCollectorConfig → Result UnixCollector
unfolding insert_all codes
new_unix regex name cfg = do
  disk ← compiled regex (codes "disk-devices") cfg.disk_devices
  net ← compiled regex (codes "net-devices") cfg.net_devices
  mount ← compiled regex (codes "filesystem-mount-points") cfg.filesystem_mount_points
  fs ← compiled regex (codes "filesystem-fs-types") cfg.filesystem_fs_types
  hwmon ← compiled regex (codes "hwmon-chips") cfg.hwmon_chips
  ok (record {
    name = name;
    enabled = cfg.collectors;
    disk_filter = disk;
    net_filter = net;
    fs_mount_filter = mount;
    fs_type_filter = fs;
    fs_dedupe_devices = cfg.filesystem_dedupe_devices;
    hwmon_filter = hwmon;
    cache = new_cache (insert_all cfg.static_labels []);
  })

module _ {F : Type 0} where
  abbrev pub skipped : Collect F
  skipped c = (ok [], c)

  -- What was pushed, with what the parts behind it return.
  abbrev pub also : List (Metric F) → Result (List (Metric F)) → Result (List (Metric F))
  also ms (err e) = err e
  also ms (ok ns) = ok (ms ++ ns)

  -- `all.extend(metrics)`, or the early return of `?`.
  abbrev pub extended : Result (List (Metric F)) → Collect F → Collect F
  extended (err e) rest c = (err e, c)
  extended (ok ms) rest c = let (more, c') = rest c in (also ms more, c')

module _ {S F : Type 0} (f : Floats F) (into : S → F) (h : Host S) where
  -- The rows of the `match` on the name of a part; an unknown name is passed over.
  unfoldable pub part : UnixCollector → Text → Collect F
  unfolding text_eq codes
  part u sub =
      if text_eq sub (codes "cpu")
      then Cpu.collect f (f.of h.ticks_per_second) h.now h.sys h.cpu_times
      else if text_eq sub (codes "memory")
      then Memory.collect f h.now h.meminfo
      else if text_eq sub (codes "disk")
      then Disk.collect f h.now h.diskstats u.disk_filter
      else if text_eq sub (codes "filesystem")
      then Filesystem.collect f h.now h.mounts h.statvfs u.fs_mount_filter u.fs_type_filter
          u.fs_dedupe_devices
      else if text_eq sub (codes "md")
      then Series.collect f h.now h.has_mdstat h.blocks
      else if text_eq sub (codes "hwmon")
      then Chip.collect f h.now h.chips h.block_devices u.hwmon_filter
      else if text_eq sub (codes "netdev")
      then Netdev.collect f h.now h.dev_status u.net_filter
      else if text_eq sub (codes "loadavg")
      then Loadavg.collect into h.now h.load
      else if text_eq sub (codes "uname")
      then Uname.collect f h.now h.uname
      else skipped

  -- `for sub in &self.enabled`
  unfoldable pub parts : UnixCollector → List Text → Collect F
  unfolding part
  parts u [] c = (ok [], c)
  parts u (sub ∷ subs) c = let (here, c') = part u sub c in extended here (parts u subs) c'

  unfoldable pub collect : UnixCollector → Result (List (Metric F)) × UnixCollector
  unfolding parts
  collect u = let (r, c) = parts u u.enabled u.cache in (r, record u { cache = c })

-- One collection behind the other: the ticks of the scheduler.
unfoldable pub run :
    {S F : Type 0}
    → Floats F
    → (S → F)
    → List (Host S)
    → UnixCollector
    → List (Result (List (Metric F))) × UnixCollector
unfolding collect
run f into [] u = ([], u)
run f into (h ∷ hs) u =
    let (r, u') = collect f into h u in let (rs, u'') = run f into hs u' in (r ∷ rs, u'')
