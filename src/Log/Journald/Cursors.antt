-- ===== src/Log/Journald/Cursors.antt =====
-- src/log/source/journald.rs: the cursor of the last acknowledged batch, in its file.
use ferrometer.Prelude.{
  ◌≡◌, ◌≢◌, refl, ap, ◌∙◌, [], ◌∷◌, Option, none, some, Bool, false, is_empty, if◌then◌else◌,
}
use ferrometer.Prelude.Text.{Text, trim}
use ferrometer.Error.{Error, file_read, Result, ok, err, Foreign, done, failed}
use ferrometer.Log.Source.{Cursor}
use ferrometer.Log.Journald.{Source}

-- The cursor's file and the temporary file beside it; a failed write leaves some part of its text.
pub record Disk : Type 0 where
  pub saved : Option Text
  pub tmp : Option Text

-- The paths, and what the file system answers; `no_parent` says that there is nothing to create.
pub record FileCalls : Type 0 where
  pub parent : Text
  pub tmp_path : Text
  pub path : Text
  pub no_parent : Bool
  pub created : Foreign (Unit {0})
  pub wrote : Foreign (Unit {0})
  pub torn : Option Text
  pub renamed : Foreign (Unit {0})

abbrev at_rename : FileCalls → Cursor → Disk → Foreign (Unit {0}) → Disk × Result (Unit {0})
at_rename f cursor disk (failed e) = (record disk { tmp = some cursor }, err (file_read f.path e))
at_rename f cursor disk (done u) = (record { saved = some cursor; tmp = none }, ok tt)

abbrev at_write : FileCalls → Cursor → Disk → Foreign (Unit {0}) → Disk × Result (Unit {0})
at_write f cursor disk (failed e) = (record disk { tmp = f.torn }, err (file_read f.tmp_path e))
at_write f cursor disk (done u) = at_rename f cursor disk f.renamed

abbrev at_create : FileCalls → Cursor → Disk → Foreign (Unit {0}) → Disk × Result (Unit {0})
at_create f cursor disk (failed e) = (disk, err (file_read f.parent e))
at_create f cursor disk (done u) = at_write f cursor disk f.wrote

unfoldable pub persist_cursor : FileCalls → Cursor → Disk → Disk × Result (Unit {0})
persist_cursor f cursor disk = at_create f cursor disk (if f.no_parent then done tt else f.created)

-- What `read_to_string` gives: the text, that there is no such file, or another failure.
pub data ReadFile : Type 0 where
  contents : Text → ReadFile
  not_found : ReadFile
  unread : Text → ReadFile

unfoldable pub read_saved_cursor : Text → ReadFile → Result (Option Cursor)
unfolding trim
read_saved_cursor path (contents s) = if is_empty (trim s) then ok none else ok (some (trim s))
read_saved_cursor path not_found = ok none
read_saved_cursor path (unread e) = err (file_read path e)

-- A file of the disk as it is read.
abbrev pub file_of : Option Text → ReadFile
file_of none = not_found
file_of (some s) = contents s

abbrev pub acked : Source → Cursor → Result (Unit {0}) → Source
acked src cursor (err e) = src
acked src cursor (ok u) = record src { last_acked = some cursor; in_flight = none }

unfoldable pub ack : FileCalls → Cursor → Source → Disk → Source × Disk × Result (Unit {0})
unfolding persist_cursor
ack f cursor src disk =
    let (disk', r) = persist_cursor f cursor disk in (acked src cursor r, disk', r)

-- What an acknowledgement leaves on the disk and in the source.
pub data Acks (f : FileCalls) (cursor : Cursor) (src : Source) (disk : Disk)
    : Source × Disk × Result (Unit {0}) → Type 0 where
  saves :
      (disk' : Disk)
      → read_saved_cursor f.path (file_of disk'.saved) ≡ ok (some cursor)
      → Acks f cursor src disk
          (record src { last_acked = some cursor; in_flight = none }, disk', ok tt)
  fails :
      (e : Error) (disk' : Disk)
      → disk'.saved ≡ disk.saved
      → Acks f cursor src disk (src, disk', err e)

-- For a cursor that is not empty and has no space around it: an acknowledgement that succeeds drops
-- the batch in flight and leaves the very cursor to be read at the next start. One that fails, in
-- whichever call, leaves the source and the saved cursor as they were.
pub ack-Acks :
    (f : FileCalls) (cursor : Cursor) (src : Source) (disk : Disk)
    → trim cursor ≡ cursor
    → cursor ≢ []
    → Acks f cursor src disk (ack f cursor src disk)
unfolding ack read_saved_cursor
ack-Acks f cursor src disk trimmed nonempty =
    at_creation (if f.no_parent then done tt else f.created)
  where
    not_empty : (c : Text) → c ≢ [] → is_empty c ≡ false
    not_empty [] h = absurd (h refl)
    not_empty (x ∷ c) h = refl

    whole : read_saved_cursor f.path (contents cursor) ≡ ok (some cursor)
    whole =
        ap (λ t. if is_empty t then ok none else ok (some t)) trimmed
        ∙ ap (λ b. if b then ok none else ok (some cursor)) (not_empty cursor nonempty)

    Ends : Disk × Result (Unit {0}) → Type 0
    Ends p = Acks f cursor src disk (acked src cursor p.1, p.0, p.1)

    at_renaming : (r : Foreign (Unit {0})) → Ends (at_rename f cursor disk r)
    at_renaming (failed e) = fails (file_read f.path e) _ refl
    at_renaming (done u) = saves _ whole

    at_writing : (r : Foreign (Unit {0})) → Ends (at_write f cursor disk r)
    at_writing (failed e) = fails (file_read f.tmp_path e) _ refl
    at_writing (done u) = at_renaming f.renamed

    at_creation : (r : Foreign (Unit {0})) → Ends (at_create f cursor disk r)
    at_creation (failed e) = fails (file_read f.parent e) _ refl
    at_creation (done u) = at_writing f.wrote
