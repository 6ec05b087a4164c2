-- ===== src/Collector/Unix/Tests.antt =====
-- src/collector/unix/mod.rs: a collection of two parts, and instances of the theorems.
use ferrometer.Prelude.{ℕ, ◌*◌, ◌/◌, ◌==◌, ◌≡◌, refl, [], ◌∷◌, map, none, Bool, true, false, All}
use ferrometer.Prelude.Text.{Text, codes, cmp_text}
use ferrometer.Prelude.Text.Numbers.{parse_u64, ok_num}
use ferrometer.Prelude.Maps.{text_ord, insert, insert_all}
use ferrometer.Error.{Error, ok, err, Foreign, done, failed}
use ferrometer.Config.Types.{UnixCollectorConfig, default_unix}
use ferrometer.Collector.LabelCache.{new_cache}
use ferrometer.Collector.Emit.{Floats, collected}
use ferrometer.Collector.Emit.Refines.{OkAll}
use ferrometer.Collector.Loadavg
use ferrometer.Collector.Memory
use ferrometer.Collector.Unix.{Host, UnixCollector, new_unix, collect, run}
use ferrometer.Collector.Unix.Refines.{fresh, run-refines, run-carries}

-- Whole numbers in the place of `f64`.
abbrev whole : Floats ℕ
whole = record {
  of = λ n. n;
  minus = λ n. n;
  times = λ a b. a * b;
  over = λ a b. a / b;
  is = λ a b. a == b;
  parse_f64 = λ s. ok_num (parse_u64 s);
}

abbrev host : Host ℕ
host = record {
  now = 7;
  cpu_times = failed (codes "gone");
  ticks_per_second = 100;
  sys = λ path. none;
  meminfo = failed (codes "gone");
  diskstats = done [];
  mounts = done [];
  statvfs = λ path. none;
  has_mdstat = false;
  blocks = none;
  chips = none;
  block_devices = none;
  dev_status = done [];
  load = done (record { one = 1; five = 2; fifteen = 3 });
  uname = failed (codes "gone");
}

abbrev settings : UnixCollectorConfig
settings = record default_unix {
  collectors = codes "loadavg" ∷ codes "none" ∷ codes "netdev" ∷ [];
  static_labels = (codes "dc", codes "a") ∷ [];
}

abbrev every_text : Text → Foreign (Text → Bool)
every_text t = done (λ (s : Text). true)

abbrev unix : UnixCollector
unix = record {
  name = codes "host";
  enabled = codes "loadavg" ∷ codes "none" ∷ codes "netdev" ∷ [];
  disk_filter = λ s. true;
  net_filter = λ s. true;
  fs_mount_filter = λ s. true;
  fs_type_filter = λ s. true;
  fs_dedupe_devices = true;
  hwmon_filter = λ s. true;
  cache = new_cache ((codes "dc", codes "a") ∷ []);
}

built : new_unix every_text (codes "host") settings ≡ ok unix
unfolding new_unix codes insert cmp_text
built = refl

run-refines_example :
    ((run whole (λ s. s) (host ∷ host ∷ []) unix).0
      ≡ map (λ h. (collect whole (λ s. s) h (fresh unix)).0) (host ∷ host ∷ []))
    × ((run whole (λ s. s) (host ∷ host ∷ []) unix).1.cache.base ≡ unix.cache.base)
run-refines_example = run-refines whole (λ s. s) (host ∷ host ∷ []) unix (tt, tt)

run-carries_example :
    All
      (OkAll (insert_all settings.static_labels []))
      (run whole (λ s. s) (host ∷ host ∷ []) unix).0
run-carries_example =
    run-carries whole (λ s. s) every_text (codes "host") settings unix built (host ∷ host ∷ [])

-- An unknown part is passed over, and one that fails ends the collection with its error.
fails_whole :
    (collect whole
      (λ s. s)
      host
      (record unix { enabled = codes "loadavg" ∷ codes "memory" ∷ codes "netdev" ∷ [] })).0
    ≡ err (Error.collector (codes "memory: gone"))
unfolding collect codes Loadavg.collect Memory.collect collected
fails_whole = refl
