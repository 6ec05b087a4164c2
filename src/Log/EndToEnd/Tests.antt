-- ===== src/Log/EndToEnd/Tests.antt =====
-- A shipper over the journal: a round that ships one batch, and the instance of the theorem.
use ferrometer.Prelude.{◌≡◌, refl, List, [], ◌∷◌, ◌++◌, none, true, false}
use ferrometer.Prelude.Text.{codes}
use ferrometer.Error.{ok, done}
use ferrometer.Log.Source.{LogEntry}
use ferrometer.Log.Journald.{Settings, entry, nothing}
use ferrometer.Log.Journald.Peek.{expired}
use ferrometer.Log.Shipper.{Shipper, start, ready, next}
use ferrometer.Log.Shipper.Settling.{acknowledged}
use ferrometer.Log.EndToEnd.{Moment, World, reads, ship_journal}
use ferrometer.Log.EndToEnd.Prefix.{ship_journal-settles_first}
use ferrometer.Log.EndToEnd.Settled.{batch_entries}
use ferrometer.Log.Journald.Batches.{parked, entries_of}

abbrev shipper : Shipper
shipper = record { backoff_initial = 1; backoff_max = 8 }

abbrev settings : Settings
settings = record {
  batch_size = 10;
  batch_max_bytes = 0;
  labels_map = [];
  static_labels = [];
  metadata_map = [];
}

abbrev fresh_world : World
fresh_world = record {
  journal = record { last_acked = none; in_flight = none; positioned = true; pending = none };
  disk = record { saved = none; tmp = none };
}

abbrev moment : Moment
moment = record {
  now = 0;
  slept = ready tt;
  peeking = record {
    shared = false;
    moves = record {
      seek_cursor = done tt;
      seek_tail = done tt;
      next_after = done tt;
      previous = done tt;
    };
    answers =
        entry ((codes "MESSAGE", codes "a") ∷ []) 1 (codes "c1")
        ∷ entry ((codes "MESSAGE", codes "b") ∷ []) 2 (codes "c2")
        ∷ nothing
        ∷ [];
    wakes = [];
    ticks = expired ∷ [];
  };
  sent = ready (ok tt);
  files = record {
    parent = codes "/p";
    tmp_path = codes "/p/t";
    path = codes "/p/c";
    no_parent = false;
    created = done tt;
    wrote = done tt;
    torn = none;
    renamed = done tt;
  };
  later = 0;
}

ship_journal-settles_first_example :
    (rest : List LogEntry) × (batch_entries
          (acknowledged [] (ship_journal shipper settings fresh_world (moment ∷ [])).calls)
        ++ rest
      ≡ entries_of (parked fresh_world.journal.pending)
        ++ reads shipper settings (next start) fresh_world (moment ∷ []))
ship_journal-settles_first_example =
    ship_journal-settles_first shipper settings fresh_world (moment ∷ []) refl
