-- ===== src/Collector/Filesystem.antt =====
-- src/collector/unix/filesystem.rs: the file systems of the host. The mounts, `statvfs`, the regular
-- expressions and the arithmetic of `f64` are arguments.
pub mod Canonical
pub mod Reported
mod Tests
use Prim.Native.Nat.{Ordering}
use ferrometer.Prelude.{
  ℕ, List, [], ◌∷◌, ◌++◌, map, Option, none, some, Bool, true, false, not, ◌&&◌, any, keep,
  is_empty, if◌then◌else◌,
}
use ferrometer.Prelude.Text.{Text, codes, text_eq}
use ferrometer.Prelude.Text.Split.{split}
use ferrometer.Prelude.Maps.{Map, text_ord, labels_ord, cmp_labels, get, insert}
use ferrometer.Error.{collector, Foreign, map_err}
use ferrometer.Signal.{Labels, Metric, new_gauge}
use ferrometer.Collector.Emit.{
  Floats, Emit, Collect, each, if_some, with_interned, collected, after_colon,
}

pub record MountInfo : Type 0 where
  pub majmin : Text
  pub root : Text
  pub mount_point : Text
  pub mount_source : Option Text
  pub fs_type : Text

abbrev pub ignored_fs_types : List Text
ignored_fs_types =
    codes "sysfs"
    ∷ codes "proc"
    ∷ codes "devtmpfs"
    ∷ codes "devpts"
    ∷ codes "tmpfs"
    ∷ codes "securityfs"
    ∷ codes "cgroup"
    ∷ codes "cgroup2"
    ∷ codes "pstore"
    ∷ codes "debugfs"
    ∷ codes "hugetlbfs"
    ∷ codes "mqueue"
    ∷ codes "configfs"
    ∷ codes "fusectl"
    ∷ codes "tracefs"
    ∷ codes "bpf"
    ∷ codes "nsfs"
    ∷ codes "ramfs"
    ∷ codes "rpc_pipefs"
    ∷ codes "nfsd"
    ∷ codes "efivarfs"
    ∷ codes "autofs"
    ∷ codes "binfmt_misc"
    ∷ codes "overlay"
    ∷ []

-- The three filters.
unfoldable pub is_candidate : (Text → Bool) → (Text → Bool) → MountInfo → Bool
unfolding codes text_eq
is_candidate type_filter mount_filter m =
    not (any (text_eq m.fs_type) ignored_fs_types)
    && (type_filter m.fs_type && mount_filter m.mount_point)

-- The order of two absolute paths is that of their components, of which `.` and empty ones are none.
-- A component stands before an empty text, so that the order of label sets can serve.
unfoldable pub components : Text → Map Text Text
unfolding split text_eq
components p =
    map (λ c. (c, [])) (keep (λ c. not (is_empty c) && not (text_eq c (b'.' ∷ []))) (split p b'/'))

abbrev pub is_lt : Ordering → Bool
is_lt Ordering.lt = true
is_lt _ = false

unfoldable pub path_lt : Text → Text → Bool
unfolding components cmp_labels
path_lt p q = is_lt (cmp_labels (components p) (components q))

unfoldable pub is_more_canonical : MountInfo → MountInfo → Bool
unfolding path_lt text_eq
is_more_canonical candidate current =
    let cand_root = text_eq candidate.root (b'/' ∷ []) in
    let curr_root = text_eq current.root (b'/' ∷ []) in
    if cand_root && not curr_root
    then true
    else if not cand_root && curr_root
    then false
    else path_lt candidate.mount_point current.mount_point

abbrev pub better : MountInfo → Option MountInfo → Map Text MountInfo → Map Text MountInfo
better m none by_dev = insert m.majmin m by_dev
better m (some existing) by_dev =
    if is_more_canonical m existing then insert m.majmin m by_dev else by_dev

-- The loop of `if dedupe_devices`. The `HashMap` is kept in the order of its keys.
unfoldable pub dedupe : List MountInfo → Map Text MountInfo → Map Text MountInfo
unfolding is_more_canonical get insert
dedupe [] by_dev = by_dev
dedupe (m ∷ ms) by_dev = dedupe ms (better m (get m.majmin by_dev) by_dev)

pub record Stat : Type 0 where
  pub fragment_size : ℕ
  pub blocks : ℕ
  pub blocks_free : ℕ
  pub blocks_available : ℕ
  pub files : ℕ
  pub files_free : ℕ

abbrev or_default : Option Text → Text
or_default none = []
or_default (some t) = t

abbrev pub mount_labels : MountInfo → Labels
mount_labels m = insert (codes "fstype") m.fs_type (
    insert (codes "mountpoint") m.mount_point
      (insert (codes "device") (or_default m.mount_source) []))

-- The mounts that are reported.
unfoldable pub chosen : (Text → Bool) → (Text → Bool) → Bool → List MountInfo → List MountInfo
unfolding dedupe is_candidate
chosen mount_filter type_filter dedupe_devices mounts =
    let candidates = keep (is_candidate type_filter mount_filter) mounts in
    if dedupe_devices then map (λ e. e.1) (dedupe candidates []) else candidates

module _ {F : Type 0} (f : Floats F) (now : ℕ) where
  -- The five metrics of a file system.
  unfoldable pub gauges : Stat → Labels → List (Metric F)
  unfolding new_gauge codes
  gauges s labels =
      let frsize = f.of s.fragment_size in
      new_gauge (codes "node_filesystem_size_bytes") (f.times (f.of s.blocks) frsize) labels now
      ∷ new_gauge (codes "node_filesystem_free_bytes") (f.times (f.of s.blocks_free) frsize) labels
          now
      ∷ new_gauge (codes "node_filesystem_avail_bytes") (f.times (f.of s.blocks_available) frsize)
          labels now
      ∷ new_gauge (codes "node_filesystem_files") (f.of s.files) labels now
      ∷ new_gauge (codes "node_filesystem_files_free") (f.of s.files_free) labels now
      ∷ []

  abbrev pub measured : MountInfo → Stat → Emit F
  measured m s = with_interned (mount_labels m) (gauges s)

  -- `for mount in candidates`; a mount that `statvfs` does not answer for is passed over.
  unfoldable pub measure : (Text → Option Stat) → MountInfo → Emit F
  unfolding gauges insert codes
  measure statvfs m = if_some (measured m) (statvfs m.mount_point)

  unfoldable pub collect :
      Foreign (List MountInfo)
      → (Text → Option Stat)
      → (Text → Bool)
      → (Text → Bool)
      → Bool
      → Collect F
  unfolding measure chosen codes
  collect read statvfs mount_filter type_filter dedupe_devices =
      collected (map_err (λ e. collector (after_colon (codes "filesystem") e)) read)
        (λ (mounts : List MountInfo).
          each (measure statvfs) (chosen mount_filter type_filter dedupe_devices mounts))
