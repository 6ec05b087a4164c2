-- ===== src/Log/EndToEnd/Prefix.antt =====
-- src/log/shipper.rs over src/log/source/journald.rs: the source keeps what the shipper relies on, and
-- the entries of the acknowledged batches are a first part of the journal.
use ferrometer.Prelude.{
  ◌≡◌, refl, sym, ap, subst, ◌∙◌, List, [], ◌∷◌, ◌++◌, Option, none, some, Bool, Bool-cases, inl,
  inr,
}
use ferrometer.Error.{Result, ok}
use ferrometer.Backoff.{waits}
use ferrometer.Log.Source.{LogEntry, Batch}
use ferrometer.Log.Journald.{Settings}
use ferrometer.Log.Journald.Peek.{Outcome, complete, failure, blocked, peek_batch}
use ferrometer.Log.Journald.Peek.Delivered.{in_hand, peek_batch-Extends}
use ferrometer.Log.Shipper.{Shipper, State, start, Select, ready, Flow, next, stop, step}
use ferrometer.Log.Shipper.Ledger.{acks-settle_whole_batches}
use ferrometer.Log.Shipper.Settling.{acknowledged}
use ferrometer.Log.Shipper.Ledger.{peeked_batch, acked_batches, Extends}
use ferrometer.Log.EndToEnd.{
  Moment, World, answer_of, ack_answer, peeked, round_of, asks, rounds, reads, ship_journal,
}
use ferrometer.Log.EndToEnd.Acks.{step_batch-Did, IsBatch, unasked-IsLast, no_batch-IsLast}
use ferrometer.Log.EndToEnd.Settled.{batch_entries, flying, Good}
use ferrometer.Log.Journald.Batches.{parked, entries_of, push_all-entries}
use ferrometer.Log.EndToEnd.Goes.{Goes, last-Goes, did-Goes}

module _ (sh : Shipper) (s : Settings) (st : State) (w : World) (m : Moment) (ms : List Moment)
    (es : List LogEntry) (fly : es ≡ flying w)
    (go_on : (flow : Flow) (w' : World) (es' : List LogEntry)
      → es' ≡ flying w'
      → Good sh s flow w' es' ms) where
  abbrev asked : Bool
  asked = asks (waits st.backoff_until m.now) m.slept

  batch-Goes :
      (b : Batch)
      → (peek_batch s w.journal m.peeking).outcome ≡ complete b
      → Goes sh s st w m ms es b asked × Extends es (ready (ok (some b)))
  unfolding step round_of
  batch-Goes b e =
      let (hand, x) = peek_batch-Extends s w.journal m.peeking b e in
      let grown : b.entries ≡ es ++ entries_of x.admitted =
        ap (λ c. c.entries) x.pushed
        ∙ push_all-entries (in_hand w.journal.in_flight) x.admitted
        ∙ ap (λ t. t ++ entries_of x.admitted) (sym fly) in
      (
        elim (Bool-cases asked) [
          | inl e' ↦
              subst (λ a. Goes sh s st w m ms es b a) (sym e')
                (did-Goes sh s st w m ms es b x.admitted grown x.kept hand
                  (ap (ack_answer m.files (peeked s w m)) e) go_on
                  (step_batch-Did sh (round_of s w m) b st (waits st.backoff_until m.now) m.slept
                    (ap answer_of e)))
          | inr e' ↦
              last-Goes sh s st w m ms es b asked
                (unasked-IsLast sh st (round_of s w m) b (waits st.backoff_until m.now) m.slept e')
        ],
        (entries_of x.admitted, sym grown),
      )

  none-Goes : (b : Batch) → (IsBatch (round_of s w m).peeked → ⊥) → Goes sh s st w m ms es b asked
  unfolding step
  none-Goes b h =
      last-Goes sh s st w m ms es b asked (no_batch-IsLast sh st (round_of s w m) b _ _ h)

  Follows : Select (Result (Option Batch)) → Type 0
  Follows p = Goes sh s st w m ms es (peeked_batch es p) asked × Extends es p

  next-Goes :
      (o : Outcome)
      → (peek_batch s w.journal m.peeking).outcome ≡ o
      → Follows (round_of s w m).peeked
  unfolding Follows round_of
  next-Goes (complete b) e = subst (λ p. Follows p) (sym (ap answer_of e)) (batch-Goes b e)
  next-Goes (failure d) e =
      subst (λ p. Follows p) (sym (ap answer_of e))
        (none-Goes _ (subst (λ p. IsBatch p → ⊥) (sym (ap answer_of e)) (λ h. h)), tt)
  next-Goes blocked e =
      subst (λ p. Follows p) (sym (ap answer_of e))
        (none-Goes _ (subst (λ p. IsBatch p → ⊥) (sym (ap answer_of e)) (λ h. h)), tt)

  next-Good : Good sh s (next st) w es (m ∷ ms)
  unfolding Follows rounds reads acked_batches
  next-Good =
      let (g, x) = next-Goes _ refl in
      record { honest = (x, g.honest); rest = g.rest; first = g.first }

good :
    (sh : Shipper) (s : Settings) (ms : List Moment) (flow : Flow) (w : World) (es : List LogEntry)
    → es ≡ flying w
    → Good sh s flow w es ms
unfolding rounds reads acked_batches
good sh s [] (next st) w es e = record { honest = tt; rest = _; first = refl }
good sh s [] (stop res) w es e = record { honest = tt; rest = _; first = refl }
good sh s (m ∷ ms) (next st) w es e = next-Good sh s st w m ms es e (good sh s ms)
good sh s (m ∷ ms) (stop res) w es e = record { honest = tt; rest = _; first = refl }

-- A shipper over the journal, started with no batch in flight, whatever the journal, the sink, the
-- files of the cursor and the clock answer and whenever it is shut down: the entries that the sink
-- settled before each acknowledged cursor, taken together in their order, are a first part of the
-- entry that was parked, if there was one, and of those that were read from the journal, in the order
-- of the journal: none of these is skipped, and none counts twice.
pub ship_journal-settles_first :
    (sh : Shipper) (s : Settings) (w : World) (ms : List Moment)
    → w.journal.in_flight ≡ none
    → (rest : List LogEntry) × (batch_entries (acknowledged [] (ship_journal sh s w ms).calls)
          ++ rest
        ≡ entries_of (parked w.journal.pending) ++ reads sh s (next start) w ms)
unfolding ship_journal
ship_journal-settles_first sh s w ms idle =
    let g = good sh s ms (next start) w [] (sym (ap (λ o. (in_hand o).entries) idle)) in
    (
      g.rest,
      ap (λ x. batch_entries x ++ g.rest)
            (acks-settle_whole_batches sh (rounds sh s (next start) w ms) g.honest)
          ∙ g.first,
    )
