-- ===== src/Collector/Md.antt =====
-- src/collector/unix/md.rs: the states of a software RAID array and of its disks. What its files hold
-- is an argument.
pub mod Tally
pub mod Series
pub mod OneHot
mod Tests
use ferrometer.Prelude.{
  ℕ, ◌+◌, ◌*◌, ◌/◌, ◌%◌, ◌^◌, List, [], ◌∷◌, ◌++◌, map, Option, none, some, Bool, true, false, not,
  any, keep, is_empty, length, leb, concat, if◌then◌else◌,
}
use ferrometer.Prelude.Text.{Text, codes, text_eq, trim, strip_prefix}
use ferrometer.Prelude.Text.Split.{split, split_once}
use ferrometer.Prelude.Text.Numbers.{num, bad, parse_u64, ok_num}
use ferrometer.Prelude.Words.{u64_mod}
use ferrometer.Prelude.Maps.{Map, text_ord, get, insert}
use ferrometer.Collector.Files.{Directory}

abbrev pub md_states : List Text
md_states =
    codes "active"
    ∷ codes "inactive"
    ∷ codes "recovering"
    ∷ codes "resync"
    ∷ codes "check"
    ∷ codes "repair"
    ∷ codes "reshape"
    ∷ []

abbrev both : Option ℕ → Option ℕ → Option (ℕ × ℕ)
both (some a) (some b) = some (a, b)
both (some a) none = none
both none o = none

abbrev sync_parts : Option (Text × Text) → Option (ℕ × ℕ)
sync_parts none = none
sync_parts (some (a, b)) = both (ok_num (parse_u64 (trim a))) (ok_num (parse_u64 (trim b)))

unfoldable pub parse_sync_completed : Text → Option (ℕ × ℕ)
unfolding trim parse_u64 split_once
parse_sync_completed raw = sync_parts (split_once raw b'/')

unfoldable pub has_flag : Text → Text → Bool
unfolding trim text_eq split
has_flag state flag = any (λ f. text_eq (trim f) flag) (split state b',')

unfoldable pub disk_bucket : Text → Text
unfolding has_flag codes
disk_bucket state =
    if has_flag state (codes "faulty")
    then codes "failed"
    else if has_flag state (codes "in_sync")
    then codes "active"
    else codes "spare"

abbrev pub running : Option Text → Option Text
running none = none
running (some s) = some (codes "active")

-- The rows of the `match` on `sync_action`.
abbrev pub by_action : Option Text → Option Text → Option Text
by_action array_state none = running array_state
by_action array_state (some a) =
    if text_eq a (codes "resync")
    then some (codes "resync")
    else if text_eq a (codes "recover")
    then some (codes "recovering")
    else if text_eq a (codes "check")
    then some (codes "check")
    else if text_eq a (codes "repair")
    then some (codes "repair")
    else if text_eq a (codes "reshape")
    then some (codes "reshape")
    else running array_state

unfoldable pub activity_state : Option Text → Option Text → Option Text
unfolding text_eq codes
activity_state none sync_action = by_action none sync_action
activity_state (some s) sync_action =
    if text_eq s (codes "inactive") then some (codes "inactive") else by_action (some s) sync_action

-- `members`: the directories `dev-<name>`, by name.
unfoldable pub members : List (Text × Directory) → Map Text Directory
unfolding strip_prefix insert codes
members [] = []
members ((name, dir) ∷ entries) =
    let rest = members entries in
    elim (strip_prefix name (codes "dev-")) [ none ↦ rest | some disk ↦ insert disk dir rest ]

abbrev pub or_zero : Option ℕ → ℕ
or_zero none = 0
or_zero (some n) = n

abbrev pub count_state : Option Text → Map Text ℕ → Map Text ℕ
count_state none tally = tally
count_state (some state) tally =
    insert (disk_bucket state) (or_zero (get (disk_bucket state) tally) + 1) tally

-- `*tally.entry(disk_bucket(&state)).or_default() += 1` for each member with a state.
unfoldable pub tally_states : List (Option Text) → Map Text ℕ → Map Text ℕ
unfolding disk_bucket insert get
tally_states [] tally = tally
tally_states (o ∷ os) tally = tally_states os (count_state o tally)

abbrev pub no_disks : Map Text ℕ
no_disks = (codes "active", 0) ∷ (codes "failed", 0) ∷ (codes "spare", 0) ∷ []
