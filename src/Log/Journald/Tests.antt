-- ===== src/Log/Journald/Tests.antt =====
-- src/log/source/journald.rs: runs of the source, and instances of its theorems.
use ferrometer.Prelude.{◌≡◌, ◌≢◌, refl, List, [], ◌∷◌, ◌++◌, none, some, false, true}
use ferrometer.Prelude.Text.{codes, byte_len, cmp_text, trim}
use ferrometer.Error.{Error, source, done}
use ferrometer.Log.Source.{Batch, LogEntry, empty_batch, push, approx_size}
use ferrometer.Log.Journald.{
  Settings, Source, Answer, entry, unreadable, batch_has_room, drain_available,
}
use ferrometer.Log.Journald.Batches.{entries_of, Fills, drain_available-Fills}
use ferrometer.Log.Journald.Cursors.{FileCalls, Disk, ack, Acks, ack-Acks}
use ferrometer.Log.Journald.Peek.{Peeking, complete, peek_batch}
use ferrometer.Log.Journald.Peek.Delivered.{Extends, peek_batch-Extends}
use ferrometer.Log.Journald.Peek.Failures.{peek_batch-forgets, peek_batch-starves}

abbrev settings : Settings
settings = record {
  batch_size = 2;
  batch_max_bytes = 100;
  labels_map = (codes "unit", codes "U") ∷ [];
  static_labels = [];
  metadata_map = [];
}

abbrev hello : Answer
hello = entry ((codes "MESSAGE", codes "hello") ∷ (codes "U", codes "ssh") ∷ []) 7 (codes "c1")

abbrev hello_entry : LogEntry
hello_entry = record {
  timestamp = 7;
  message = codes "hello";
  labels = (codes "unit", codes "ssh") ∷ [];
  metadata = [];
}

abbrev three : List Answer
three = hello ∷ hello ∷ hello ∷ []

-- Two of three entries fit the batch, and the third is not read.
two_fit :
    (drain_available settings none empty_batch three).batch.entries ≡ hello_entry ∷ hello_entry ∷ []
unfolding codes byte_len cmp_text drain_available
two_fit = refl

drain_available-Fills_example :
    Fills settings none empty_batch (drain_available settings none empty_batch three)
drain_available-Fills_example = drain_available-Fills settings none empty_batch three

abbrev idle : Source
idle = record { last_acked = none; in_flight = none; positioned = true; pending = none }

abbrev at_once : Peeking
at_once = record {
  shared = false;
  moves = record {
    seek_cursor = done tt;
    seek_tail = done tt;
    next_after = done tt;
    previous = done tt;
  };
  answers = three;
  wakes = [];
  ticks = [];
}

abbrev both : Batch
both = push (push empty_batch hello_entry (codes "c1")) hello_entry (codes "c1")

peek_batch-Extends_example :
    ((peek_batch settings idle at_once).source.in_flight ≡ some both)
    × Extends settings none empty_batch both
        (peek_batch settings idle at_once).source.pending
        (peek_batch settings idle at_once).read
unfolding codes byte_len cmp_text peek_batch push
peek_batch-Extends_example = peek_batch-Extends settings idle at_once both refl

abbrev one : Batch
one = push empty_batch hello_entry (codes "c1")

abbrev broken : Error
broken = source (codes "next_entry")

abbrev retrying : Source
retrying = record idle { in_flight = some one }

abbrev failing : Peeking
failing = record at_once { answers = unreadable broken ∷ [] }

peek_batch-forgets_example :
    ((peek_batch settings retrying failing).source.last_acked ≡ retrying.last_acked)
    × ((peek_batch settings retrying failing).source.positioned ≡ retrying.positioned)
    × ((rest : List LogEntry) × (both.entries ++ rest
          ≡ entries_of
              (peek_batch settings (peek_batch settings retrying failing).source at_once).read))
unfolding peek_batch batch_has_room push approx_size byte_len cmp_text codes
peek_batch-forgets_example =
    peek_batch-forgets settings retrying failing at_once one both broken refl refl refl refl

peek_batch-starves_example :
    (peek_batch (record settings { batch_size = 0 }) idle at_once).outcome ≢ complete both
peek_batch-starves_example =
    peek_batch-starves (record settings { batch_size = 0 }) idle at_once both refl refl

abbrev works : FileCalls
works = record {
  parent = codes "/v";
  tmp_path = codes "/v/j.tmp";
  path = codes "/v/j.cursor";
  no_parent = false;
  created = done tt;
  wrote = done tt;
  torn = none;
  renamed = done tt;
}

abbrev disk : Disk
disk = record { saved = some (codes "c0"); tmp = none }

ack-Acks_example : Acks works (codes "c1") retrying disk (ack works (codes "c1") retrying disk)
unfolding codes trim
ack-Acks_example = ack-Acks works (codes "c1") retrying disk refl λ e. cc
