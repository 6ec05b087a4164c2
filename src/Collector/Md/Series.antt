-- ===== src/Collector/Md/Series.antt =====
-- src/collector/unix/md.rs: collect, collect_array and arrays. The entries of the directories are
-- arguments; `none` is a directory that cannot be read.
use ferrometer.Prelude.{
  ℕ, suc, ◌*◌, ◌/◌, ◌%◌, List, [], ◌∷◌, map, Option, none, some, Bool, not, keep, is_empty, length,
  if◌then◌else◌,
}
use ferrometer.Prelude.Words.{u64_mod}
use ferrometer.Prelude.Text.{Text, codes, text_eq, trim, starts_with}
use ferrometer.Prelude.Text.Split.{split}
use ferrometer.Prelude.Text.Numbers.{parse_u64, ok_num, ℤ, pos, negsuc, parse_i64}
use ferrometer.Prelude.Maps.{Map, text_ord, insert}
use ferrometer.Error.{ok}
use ferrometer.Signal.{Labels}
use ferrometer.Collector.Files.{Directory, read_string, read_u64}
use ferrometer.Collector.Emit.{
  Floats, Emit, Collect, in_turn, each, if_some, push_gauge, push_counter, collected,
}
use ferrometer.Collector.Md.{
  md_states, parse_sync_completed, activity_state, members, or_zero, tally_states, no_disks,
}

-- `/sys/block/<device>/md`: its files, and its directories, each with the files in it.
pub record MdDir : Type 0 where
  pub files : Directory
  pub entries : Option (List (Text × Directory))

-- `/sys/block/<device>`: its files, and its directory `md`, if there is one.
pub record Block : Type 0 where
  pub files : Directory
  pub md : Option MdDir

abbrev pub or_empty : {A : Type 0} → Option (List A) → List A
or_empty none = []
or_empty (some xs) = xs

abbrev pub array_of :
    Text → Block → Option MdDir → Map Text (Block × MdDir) → Map Text (Block × MdDir)
array_of name block none found = found
array_of name block (some md) found =
    if starts_with name (codes "md") then insert name (block, md) found else found

-- In the order of their names.
unfoldable pub arrays : List (Text × Block) → Map Text (Block × MdDir)
unfolding starts_with insert codes
arrays [] = []
arrays ((name, block) ∷ entries) = array_of name block block.md (arrays entries)

abbrev pub labels_of : Text → Labels
labels_of device = insert (codes "device") device []

abbrev pub disk_labels : Text → Text → Labels
disk_labels device disk = insert (codes "disk") disk (labels_of device)

-- The attributes that are there, as labels.
unfoldable pub info_labels : Directory → List Text → Labels → Labels
unfolding read_string insert
info_labels md [] labels = labels
info_labels md (attr ∷ attrs) labels =
    info_labels md attrs
      (elim (read_string md attr) [ none ↦ labels | some v ↦ insert attr v labels ])

abbrev halved : Option ℕ → Option ℕ
halved none = none
halved (some sectors) = some (sectors / 2)

abbrev done_of : Option (ℕ × ℕ) → Option ℕ → Option ℕ
done_of none blocks = blocks
done_of (some (completed, total)) blocks = some (completed / 2)

-- `completed.as_deref().and_then(parse_sync_completed).map(..).or(blocks)`
unfoldable pub synced_of : Option Text → Option ℕ → Option ℕ
unfolding parse_sync_completed
synced_of none blocks = blocks
synced_of (some raw) blocks = done_of (parse_sync_completed raw) blocks

-- What is not a number counts as 0; the product of two `u64` wraps round in a release build.
abbrev speed_of : Text → ℕ
speed_of raw = or_zero (ok_num (parse_u64 raw)) * 1024 % u64_mod

-- `state.split(',').map(str::trim).filter(|f| !f.is_empty())`
unfoldable pub flags_of : Text → List Text
unfolding split trim
flags_of state = keep (λ flag. not (is_empty flag)) (map trim (split state b','))

-- The lines that are not blank. An end of line that `lines` drops leaves a blank piece here.
unfoldable pub ranges : Text → ℕ
unfolding split trim
ranges content = length (keep (λ line. not (is_empty (trim line))) (split content b'\n'))

abbrev pub info_attrs : List Text
info_attrs =
    codes "level" ∷ codes "metadata_version" ∷ codes "uuid" ∷ codes "consistency_policy" ∷ []

abbrev pub number_attrs : List (Text × Text)
number_attrs =
    (codes "degraded", codes "node_md_degraded")
    ∷ (codes "raid_disks", codes "node_md_disks_required")
    ∷ (codes "mismatch_cnt", codes "node_md_mismatch_cnt")
    ∷ (codes "chunk_size", codes "node_md_chunk_size_bytes")
    ∷ []

abbrev pub range_attrs : List (Text × Text)
range_attrs =
    (codes "bad_blocks", codes "node_md_disk_bad_blocks")
    ∷ (codes "unacknowledged_bad_blocks", codes "node_md_disk_unacknowledged_bad_blocks")
    ∷ []

module _ {F : Type 0} (f : Floats F) (now : ℕ) where
  abbrev pub numbered : Text → Labels → ℕ → Emit F
  numbered name labels n = push_gauge now name (f.of n) labels

  unfoldable pub state_gauge : Labels → Text → Text → Emit F
  unfolding insert codes text_eq
  state_gauge labels current state =
      push_gauge now (codes "node_md_state") (if text_eq state current then f.of 1 else f.of 0)
        (insert (codes "state") state labels)

  abbrev pub each_state : Labels → Text → Emit F
  each_state labels current = each (state_gauge labels current) md_states

  -- One series for each state, of which the current one is 1.
  unfoldable pub state_series : Labels → Option Text → Emit F
  unfolding state_gauge codes
  state_series labels current = if_some (each_state labels) current

  -- `unwrap_or(-1)`
  abbrev pub slot_of : Option ℤ → F
  slot_of none = f.minus 1
  slot_of (some (pos n)) = f.of n
  slot_of (some (negsuc n)) = f.minus (suc n)

  abbrev pub flag_gauge : Labels → Text → Emit F
  flag_gauge labels flag =
      push_gauge now (codes "node_md_disk_state") (f.of 1) (insert (codes "state") flag labels)

  abbrev pub flag_gauges : Labels → Text → Emit F
  flag_gauges labels state = each (flag_gauge labels) (flags_of state)

  abbrev pub error_counter : Labels → ℕ → Emit F
  error_counter labels errors =
      push_counter now (codes "node_md_disk_errors_total") (f.of errors) labels

  -- The product of two `u64` wraps round in a release build.
  abbrev pub size_gauge : Labels → ℕ → Emit F
  size_gauge labels kib = numbered (codes "node_md_disk_size_bytes") labels (kib * 1024 % u64_mod)

  abbrev pub slot_gauge : Labels → Text → Emit F
  slot_gauge labels raw =
      push_gauge now (codes "node_md_disk_slot") (slot_of (parse_i64 raw)) labels

  abbrev pub range_gauge : Text → Labels → Text → Emit F
  range_gauge name labels content = numbered name labels (ranges content)

  abbrev pub range_gauges : Directory → Labels → Text × Text → Emit F
  range_gauges dir labels (attr, name) = if_some (range_gauge name labels) (read_string dir attr)

  -- The series of one member.
  unfoldable pub member : Text → Text × Directory → Emit F
  unfolding insert codes read_string read_u64 flags_of ranges parse_i64
  member device (disk, dir) =
      let labels = disk_labels device disk in
      in_turn (
        if_some (flag_gauges labels) (read_string dir (codes "state"))
        ∷ if_some (error_counter labels) (read_u64 dir (codes "errors"))
        ∷ if_some (size_gauge labels) (read_u64 dir (codes "size"))
        ∷ if_some (slot_gauge labels) (read_string dir (codes "slot"))
        ∷ each (range_gauges dir labels) range_attrs
        ∷ [])

  abbrev pub bucket_gauge : Labels → Text × ℕ → Emit F
  bucket_gauge labels (state, count) =
      numbered (codes "node_md_disks") (insert (codes "state") state labels) count

  -- `node_md_disks`, zeros included.
  unfoldable pub disk_series : Labels → Map Text ℕ → Emit F
  unfolding insert codes
  disk_series labels tally = each (bucket_gauge labels) tally

  abbrev pub attr_gauge : Directory → Labels → Text × Text → Emit F
  attr_gauge md labels (attr, name) = if_some (numbered name labels) (read_u64 md attr)

  abbrev pub speed_gauge : Labels → Text → Emit F
  speed_gauge labels raw = numbered (codes "node_md_sync_speed_bytes") labels (speed_of raw)

  abbrev pub action_gauge : Labels → Text → Emit F
  action_gauge labels action =
      push_gauge now (codes "node_md_last_sync_action") (f.of 1)
        (insert (codes "action") action labels)

  abbrev pub info_gauge : Directory → Labels → Emit F
  info_gauge md labels =
      push_gauge now (codes "node_md_info") (f.of 1) (info_labels md info_attrs labels)

  unfoldable pub collect_array : Text × (Block × MdDir) → Emit F
  unfolding insert codes read_string read_u64 info_labels synced_of state_series activity_state
      member disk_series tally_states members
  collect_array (device, (block, md)) =
      let labels = labels_of device in
      let blocks = halved (read_u64 block.files (codes "size")) in
      let disks = members (or_empty md.entries) in
      in_turn (
        info_gauge md.files labels
        ∷ each (attr_gauge md.files labels) number_attrs
        ∷ if_some (numbered (codes "node_md_blocks") labels) blocks
        ∷ if_some (numbered (codes "node_md_blocks_synced") labels)
            (synced_of (read_string md.files (codes "sync_completed")) blocks)
        ∷ if_some (speed_gauge labels) (read_string md.files (codes "sync_speed"))
        ∷ state_series labels (
            activity_state (read_string md.files (codes "array_state"))
              (read_string md.files (codes "sync_action")))
        ∷ if_some (action_gauge labels) (read_string md.files (codes "last_sync_action"))
        ∷ each (member device) disks
        ∷ disk_series labels (
            tally_states (map (λ (d : Text × Directory). read_string d.1 (codes "state")) disks)
              no_disks)
        ∷ [])

  -- Nothing without `/proc/mdstat`.
  unfoldable pub collect : Bool → Option (List (Text × Block)) → Collect F
  unfolding collect_array arrays
  collect has_mdstat entries =
      collected (ok (if has_mdstat then arrays (or_empty entries) else [])) (each collect_array)
