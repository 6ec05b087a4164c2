-- ===== src/Log/Journald.antt =====
-- src/log/source/journald.rs: the source that reads the system's journal. What libsystemd, the
-- clock and the file system answer is an argument of each operation.
pub mod Batches
pub mod Cursors
pub mod Peek
mod Tests
use ferrometer.Prelude.{
  ℕ, ◌+◌, ◌≡◌, List, [], ◌∷◌, ◌++◌, Option, none, some, Bool, true, false, not, ◌&&◌, ◌||◌, length,
  is_empty, leb, ltb, ◌==◌, if◌then◌else◌,
}
use ferrometer.Prelude.Text.{Text, codes, text_eq, trim}
use ferrometer.Prelude.Maps.{Map, text_ord, get, insert, insert_all}
use ferrometer.Error.{Error, Result, ok, err}
use ferrometer.Log.Source.{LogEntry, Cursor, Batch, empty_batch, push, approx_size}

-- The fields that do not change.
pub record Settings : Type 0 where
  pub batch_size : ℕ
  pub batch_max_bytes : ℕ
  pub labels_map : Map Text Text
  pub static_labels : Map Text Text
  pub metadata_map : Map Text Text

-- `new`: extra labels win over those of the configuration.
unfoldable pub merge_static : Map Text Text → Map Text Text → Map Text Text
unfolding insert_all
merge_static static_labels extra = insert_all extra static_labels

-- The fields that do.
pub record Source : Type 0 where
  pub last_acked : Option Cursor
  pub in_flight : Option Batch
  pub positioned : Bool
  pub pending : Option (LogEntry × Cursor)

-- What the journal answers to a read: an entry with its timestamp and cursor, that there is none, or
-- a failure of one of the three calls.
pub data Answer : Type 0 where
  entry : Map Text Text → ℕ → Cursor → Answer
  nothing : Answer
  unreadable : Error → Answer

-- `record.remove(k)`
unfoldable pub remove : Text → Map Text Text → Map Text Text
unfolding text_eq
remove k [] = []
remove k ((j, v) ∷ m) = let rest = remove k m in if text_eq j k then rest else (j, v) ∷ rest

abbrev or_default : Option Text → Text
or_default none = []
or_default (some t) = t

abbrev insert_if : Text → Option Text → Map Text Text → Map Text Text
insert_if k none m = m
insert_if k (some v) m = insert k v m

-- `for (name, key) in mapping { if let Some(v) = record.get(key) { m.insert(name, v); } }`
unfoldable pub overlay : Map Text Text → Map Text Text → Map Text Text → Map Text Text
unfolding get insert
overlay [] fields m = m
overlay ((name, key) ∷ mapping) fields m =
    overlay mapping fields (insert_if name (get key fields) m)

unfoldable pub record_to_entry : Settings → Map Text Text → ℕ → LogEntry
unfolding overlay remove get codes
record_to_entry s fields timestamp =
    let rest = remove (codes "MESSAGE") fields in
    record {
      timestamp = timestamp;
      message = or_default (get (codes "MESSAGE") fields);
      labels = overlay s.labels_map rest s.static_labels;
      metadata = overlay s.metadata_map rest [];
    }

unfoldable pub batch_has_room : Settings → Batch → Bool
batch_has_room s b =
    ltb (length b.entries) s.batch_size
    && ((s.batch_max_bytes == 0) || ltb b.approx_bytes s.batch_max_bytes)

-- Whether an entry would push a batch that is not empty over the cap.
unfoldable pub is_over : Settings → Batch → LogEntry → Bool
unfolding approx_size
is_over s b e =
    not (s.batch_max_bytes == 0)
    && (not (is_empty b.entries) && ltb s.batch_max_bytes (b.approx_bytes + approx_size e))

-- The batch and the parked entry behind the loop, why it failed, if it did, and the entries that it
-- took from the journal.
pub record Drained : Type 0 where
  pub batch : Batch
  pub pending : Option (LogEntry × Cursor)
  pub error : Option Error
  pub read : List (LogEntry × Cursor)

abbrev pub stop : Batch → Option (LogEntry × Cursor) → Drained
stop b p = record { batch = b; pending = p; error = none; read = [] }

-- The loop of `drain_available` once nothing is parked. The list holds what `next_entry` would
-- answer; behind its end there is no entry.
unfoldable pub drain_journal : Settings → Batch → List Answer → Drained
unfolding batch_has_room is_over push record_to_entry
drain_journal s b [] = stop b none
drain_journal s b (nothing ∷ answers) = stop b none
drain_journal s b (unreadable e ∷ answers) =
    if batch_has_room s b
    then record { batch = b; pending = none; error = some e; read = [] }
    else stop b none
drain_journal s b (entry fields timestamp cursor ∷ answers) =
    let e = record_to_entry s fields timestamp in
    let rest = drain_journal s (push b e cursor) answers in
    if batch_has_room s b
    then (if is_over s b e
        then record { batch = b; pending = some (e, cursor); error = none; read = (e, cursor) ∷ [] }
        else record rest { read = (e, cursor) ∷ rest.read })
    else stop b none

-- The parked entry comes first.
unfoldable pub drain_available :
    Settings → Option (LogEntry × Cursor) → Batch → List Answer → Drained
unfolding drain_journal
drain_available s none b answers = drain_journal s b answers
drain_available s (some (e, cursor)) b answers =
    if batch_has_room s b
    then (if is_over s b e
        then stop b (some (e, cursor))
        else drain_journal s (push b e cursor) answers)
    else stop b (some (e, cursor))
