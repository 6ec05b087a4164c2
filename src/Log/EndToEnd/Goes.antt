-- ===== src/Log/EndToEnd/Goes.antt =====
-- src/log/shipper.rs over src/log/source/journald.rs: what a round makes of the batch that it peeks, and
-- all that follows it.
use ferrometer.Prelude.{
  ◌≡◌, sym, ap, ap₂, ◌∙◌, List, [], ◌∷◌, ◌++◌, append_assoc, none, some, Bool, true,
}
use ferrometer.Error.{ok}
use ferrometer.Log.Source.{LogEntry, Cursor, Batch}
use ferrometer.Log.Journald.{Settings}
use ferrometer.Log.Journald.Cursors
use ferrometer.Log.Journald.Cursors.{FileCalls, Disk}
use ferrometer.Log.Journald.Peek.{peek_batch}
use ferrometer.Log.Journald.Peek.Delivered.{in_hand}
use ferrometer.Log.Shipper.{Shipper, State, Round, Flow, Step, step}
use ferrometer.Log.Shipper.Settling.{served, in_flight}
use ferrometer.Log.Shipper.Ledger.{Honest, acked_batches}
use ferrometer.Log.EndToEnd.{
  Moment, World, peeked, round_of, acking, world_after, read_in, rounds, reads,
}
use ferrometer.Log.EndToEnd.Acks.{Did, held, finished, ended, IsLast}
use ferrometer.Log.EndToEnd.Settled.{batch_entries, ack_ok, regroup, flying, Good, over_at}
use ferrometer.Log.Journald.Batches.{parked, entries_of}

module _ (sh : Shipper) (s : Settings) (st : State) (w : World) (m : Moment) (ms : List Moment)
    (es : List LogEntry) where
  abbrev round : Round
  round = round_of s w m

  abbrev done_in : Step
  done_in = step sh st round

  abbrev world : Bool → World
  world a = world_after s w m a done_in.calls

  abbrev all_from : Bool → List LogEntry
  all_from a =
      es
      ++ (entries_of (parked w.journal.pending)
          ++ (read_in s w m a ++ reads sh s done_in.flow (world a) ms))

  -- What a round does with a batch, and all that follows it.
  pub record Goes (b : Batch) (a : Bool) : Type 0 where
    pub honest :
        Honest sh done_in.flow
          (in_flight b.entries done_in.calls)
          (rounds sh s done_in.flow (world a) ms)
    pub rest : List LogEntry
    pub first :
        batch_entries (
            served b done_in.calls
            ++ acked_batches sh done_in.flow
                (in_flight b.entries done_in.calls)
                (rounds sh s done_in.flow (world a) ms))
          ++ rest
        ≡ all_from a

  pub last-Goes : (b : Batch) (a : Bool) → IsLast b done_in → Goes b a
  last-Goes b a l =
      let over =
        over_at sh s l.result done_in.flow (in_flight b.entries done_in.calls) (world a) ms
          l.stops in
      record {
        honest = over.0;
        rest = all_from a;
        first = ap₂ (λ x y. batch_entries (x ++ y) ++ all_from a) l.serves over.1;
      }

  -- The batch that is peeked: the one in flight with what was admitted behind it.
  module _ (b : Batch) (admitted : List (LogEntry × Cursor))
      (grown : b.entries ≡ es ++ entries_of admitted)
      (kept : admitted ++ parked (peeked s w m).journal.pending
        ≡ parked w.journal.pending ++ (peek_batch s w.journal m.peeking).read)
      (hand : (peeked s w m).journal.in_flight ≡ some b)
      (answer : round.acked ≡ (Cursors.ack m.files b.end_cursor (peeked s w m).journal w.disk).2)
      (go_on : (flow : Flow) (w' : World) (es' : List LogEntry)
        → es' ≡ flying w'
        → Good sh s flow w' es' ms) where
    abbrev pub over : World
    over = world true

    abbrev later : List LogEntry
    later = reads sh s done_in.flow over ms

    abbrev held_back : World → List LogEntry
    held_back x = entries_of (parked x.journal.pending)

    ends : b.entries ++ (held_back (peeked s w m) ++ later) ≡ all_from true
    ends =
        ap (λ t. t ++ (held_back (peeked s w m) ++ later)) grown
        ∙ regroup es admitted _ _ _ later kept

    held-Goes :
        served b done_in.calls ≡ []
        → in_flight b.entries done_in.calls ≡ b.entries
        → over ≡ peeked s w m
        → Goes b true
    held-Goes p q h =
        let flies : flying over ≡ b.entries = ap flying h ∙ ap (λ o. (in_hand o).entries) hand in
        let g = go_on done_in.flow over (in_flight b.entries done_in.calls) (q ∙ sym flies) in
        record {
          honest = g.honest;
          rest = g.rest;
          first =
              ap
                (λ x.
                  batch_entries (
                    x
                    ++ acked_batches sh done_in.flow (in_flight b.entries done_in.calls)
                        (rounds sh s done_in.flow over ms))
                  ++ g.rest)
                p
              ∙ g.first
              ∙ ap₂ (λ x y. x ++ (y ++ later)) q (ap held_back h)
              ∙ ends;
        }

    finished-Goes :
        round.acked ≡ ok tt
        → served b done_in.calls ≡ (b.end_cursor, b.entries) ∷ []
        → in_flight b.entries done_in.calls ≡ []
        → over ≡ acking m.files b.end_cursor (peeked s w m)
        → Goes b true
    finished-Goes r p q h =
        let left : over.journal
            ≡ record ((peeked s w m).journal) { last_acked = some b.end_cursor; in_flight = none } =
          ap (λ x. x.journal) h ∙ ack_ok m.files b.end_cursor _ w.disk (sym answer ∙ r) in
        let g =
          go_on done_in.flow over (in_flight b.entries done_in.calls)
            (q ∙ sym (ap (λ j. (in_hand j.in_flight).entries) left)) in
        let acks = batch_entries (
          acked_batches sh done_in.flow (in_flight b.entries done_in.calls)
            (rounds sh s done_in.flow over ms)) in
        record {
          honest = g.honest;
          rest = g.rest;
          first =
              ap
                (λ x.
                  batch_entries (
                    x
                    ++ acked_batches sh done_in.flow (in_flight b.entries done_in.calls)
                        (rounds sh s done_in.flow over ms))
                  ++ g.rest)
                p
              ∙ append_assoc b.entries acks g.rest
              ∙ ap (λ t. b.entries ++ t)
                  (g.first
                    ∙ ap₂ (λ x y. x ++ (y ++ later)) q
                        (ap (λ j. entries_of (parked j.pending)) left))
              ∙ ends;
        }

    pub did-Goes : Did round.acked b done_in → Goes b true
    did-Goes (ended p res e) = last-Goes b true (record { result = res; serves = p; stops = e })
    did-Goes (held p q h) = held-Goes p q (h m.files (peeked s w m))
    did-Goes (finished r p q h) = finished-Goes r p q (h m.files (peeked s w m))
