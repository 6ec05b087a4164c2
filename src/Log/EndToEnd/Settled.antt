-- ===== src/Log/EndToEnd/Settled.antt =====
-- src/log/shipper.rs over src/log/source/journald.rs: what the rounds of the shipper make of the entries
-- that the source has in flight, parked and read.
use ferrometer.Prelude.{
  ◌≡◌, refl, sym, ap, subst, ◌∙◌, List, [], ◌∷◌, ◌++◌, append_assoc, map, concat, none, some,
}
use mathlib.Core.List.{map-append}
use ferrometer.Error.{Result, ok}
use ferrometer.Log.Source.{LogEntry, Cursor}
use ferrometer.Log.Journald.{Settings, Source}
use ferrometer.Log.Journald.Batches.{parked, entries_of}
use ferrometer.Log.Journald.Cursors
use ferrometer.Log.Journald.Cursors.{FileCalls, Disk}
use ferrometer.Log.Journald.Peek.Delivered.{in_hand}
use ferrometer.Log.Shipper.{Shipper, Flow, stop}
use ferrometer.Log.Shipper.Ledger.{Honest, acked_batches}
use ferrometer.Log.EndToEnd.{Moment, World, rounds, reads}

abbrev pub batch_entries : List (Cursor × List LogEntry) → List LogEntry
batch_entries bs = concat (map (λ b. b.1) bs)

pub ack_ok :
    (f : FileCalls) (cursor : Cursor) (src : Source) (disk : Disk)
    → (Cursors.ack f cursor src disk).2 ≡ ok tt
    → (Cursors.ack f cursor src disk).0 ≡ record src { last_acked = some cursor; in_flight = none }
unfolding Cursors.ack
ack_ok f cursor src disk h = ap (Cursors.acked src cursor) h

-- What was taken goes on with what is parked.
pub regroup :
    (es : List LogEntry) (a p' p r : List (LogEntry × Cursor)) (more : List LogEntry)
    → a ++ p' ≡ p ++ r
    → (es ++ entries_of a) ++ (entries_of p' ++ more)
      ≡ es ++ (entries_of p ++ (entries_of r ++ more))
regroup es a p' p r more h =
    append_assoc es (entries_of a) (entries_of p' ++ more)
    ∙ ap (λ t. es ++ t)
        (sym (append_assoc (entries_of a) (entries_of p') more)
          ∙ ap (λ t. t ++ more)
              (sym (map-append (λ x. x.0) a p') ∙ ap entries_of h ∙ map-append (λ x. x.0) p r)
          ∙ append_assoc (entries_of p) (entries_of r) more)

-- The entries of the batch in flight.
abbrev pub flying : World → List LogEntry
flying w = (in_hand w.journal.in_flight).entries

-- From here on the source is honest, and the entries acknowledged are a first part of those in flight,
-- parked and read.
pub record Good (sh : Shipper) (s : Settings) (flow : Flow) (w : World) (es : List LogEntry)
    (ms : List Moment) : Type 0 where
  pub honest : Honest sh flow es (rounds sh s flow w ms)
  pub rest : List LogEntry
  pub first :
      batch_entries (acked_batches sh flow es (rounds sh s flow w ms)) ++ rest
      ≡ es ++ (entries_of (parked w.journal.pending) ++ reads sh s flow w ms)

pub over_at :
    (sh : Shipper) (s : Settings) (res : Result (Unit {0})) (flow : Flow) (es : List LogEntry)
    (w : World) (ms : List Moment)
    → flow ≡ stop res
    → Honest sh flow es (rounds sh s flow w ms)
      × (acked_batches sh flow es (rounds sh s flow w ms) ≡ [])
unfolding rounds acked_batches
over_at sh s res flow es w ms e =
    subst
      (λ x. Honest sh x es (rounds sh s x w ms) × (acked_batches sh x es (rounds sh s x w ms) ≡ []))
      (sym e) (stopped ms)
  where
    stopped :
        (ns : List Moment)
        → Honest sh (stop res) es (rounds sh s (stop res) w ns)
          × (acked_batches sh (stop res) es (rounds sh s (stop res) w ns) ≡ [])
    stopped [] = (tt, refl)
    stopped (m ∷ ns) = (tt, refl)
