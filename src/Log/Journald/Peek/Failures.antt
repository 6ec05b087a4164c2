-- ===== src/Log/Journald/Peek/Failures.antt =====
-- src/log/source/journald.rs: where `peek_batch` goes wrong.
use mathlib.Core.List.{map-append}
use ferrometer.Prelude.{
  ◌≡◌, ◌≢◌, refl, sym, ap, subst, ◌∙◌, List, [], ◌∷◌, ◌++◌, Option, none, some, false,
  if◌then◌else◌, if_false, arith,
}
use ferrometer.Error.{Error, Result, ok, err}
use ferrometer.Log.Source.{LogEntry, Cursor, Batch, empty_batch, push}
use ferrometer.Log.Journald.{
  Settings, Source, Answer, entry, nothing, unreadable, batch_has_room, drain_available,
  drain_journal, record_to_entry, Drained,
}
use ferrometer.Log.Journald.Batches.{parked, entries_of, push_all-entries}
use ferrometer.Log.Journald.Peek.Delivered.{in_hand, peek_batch-Extends}
use ferrometer.Log.Journald.Peek.{
  Wake, Tick, complete, failure, Building, then_go_on, once_woken, await_entry, Peeking,
  build_batch, after_top_up, fresh_batch, peek_with, peek_batch, Peeked, position_to_start,
}

-- A fill that fails parks nothing.
drain_journal-failed :
    (s : Settings) (b : Batch) (answers : List Answer) (e : Error)
    → (drain_journal s b answers).error ≡ some e
    → (drain_journal s b answers).pending ≡ none
unfolding drain_journal
drain_journal-failed s b [] e h = absurd cc
drain_journal-failed s b (nothing ∷ answers) e h = absurd cc
drain_journal-failed s b (unreadable d ∷ answers) e h = ground arith
drain_journal-failed s b (entry fields timestamp cursor ∷ answers) e h =
    ground
      (arith, drain_journal-failed s (push b (record_to_entry s fields timestamp) cursor) answers e)

drain_available-failed :
    (s : Settings) (p : Option (LogEntry × Cursor)) (b : Batch) (answers : List Answer) (e : Error)
    → (drain_available s p b answers).error ≡ some e
    → (drain_available s p b answers).pending ≡ none
unfolding drain_available
drain_available-failed s none b answers e h = drain_journal-failed s b answers e h
drain_available-failed s (some (x, cursor)) b answers e h =
    ground (arith, drain_journal-failed s (push b x cursor) answers e)

-- With nothing in flight and nothing parked, and with the same cursor acknowledged and the same
-- position in the journal as before.
record IsBare (src : Source) (p : Peeked) : Type 0 where
  idle : p.source.in_flight ≡ none
  bare : p.source.pending ≡ none
  unacked : p.source.last_acked ≡ src.last_acked
  in_place : p.source.positioned ≡ src.positioned

after_top_up-IsBare :
    (src : Source) (d : Drained) (o : Option Error) (e : Error)
    → ((why : Error) → o ≡ some why → d.pending ≡ none)
    → (after_top_up src d o).outcome ≡ failure e
    → IsBare src (after_top_up src d o)
after_top_up-IsBare src d (some why) e h f = record {
  idle = refl;
  bare = h why refl;
  unacked = refl;
  in_place = refl;
}
after_top_up-IsBare src d none e h f = absurd cc

top_up-IsBare :
    (s : Settings) (src : Source) (a : Peeking) (b : Batch) (e : Error)
    → a.shared ≡ false
    → (peek_with s src a (some b)).outcome ≡ failure e
    → IsBare src (peek_with s src a (some b))
top_up-IsBare s src a b e alone f =
    let d = drain_available s src.pending b a.answers in
    let same =
      if_false (record { source = src; outcome = complete b; read = [] })
        (after_top_up src d d.error) alone in
    subst (IsBare src) (sym same) (
      after_top_up-IsBare src d d.error e (drain_available-failed s src.pending b a.answers)
        (sym (ap (λ p. p.outcome) same) ∙ f))

next_batch :
    (s : Settings) (src : Source) (a : Peeking) (b : Batch)
    → src.in_flight ≡ none
    → src.pending ≡ none
    → (peek_batch s src a).outcome ≡ complete b
    → (rest : List LogEntry) × (b.entries ++ rest ≡ entries_of (peek_batch s src a).read)
next_batch s src a b idle bare h =
    let x = (peek_batch-Extends s src a b h).1 in
    (
      entries_of (parked (peek_batch s src a).source.pending),
      ap (λ es. es ++ entries_of (parked (peek_batch s src a).source.pending))
            (ap (λ c. c.entries) x.pushed
              ∙ push_all-entries (in_hand src.in_flight) x.admitted
              ∙ ap (λ o. (in_hand o).entries ++ entries_of x.admitted) idle)
          ∙ sym (map-append (λ e. e.0) x.admitted (parked (peek_batch s src a).source.pending))
          ∙ ap entries_of (x.kept ∙ ap (λ o. parked o ++ (peek_batch s src a).read) bare),
    )

-- With a batch in flight that the caller does not hold any more, if `peek_batch` fails in whichever
-- read while it tops the batch up: this batch is not acknowledged and the source counts as positioned
-- in the journal just as before, but the next batch that is handed out consists only of entries that
-- the later call reads from the journal. So the entries in flight, those that were parked and those
-- that the failed call read are forgotten.
pub peek_batch-forgets :
    (s : Settings) (src : Source) (a a' : Peeking) (b b' : Batch) (e : Error)
    → src.in_flight ≡ some b
    → a.shared ≡ false
    → (peek_batch s src a).outcome ≡ failure e
    → (peek_batch s (peek_batch s src a).source a').outcome ≡ complete b'
    → ((peek_batch s src a).source.last_acked ≡ src.last_acked)
      × ((peek_batch s src a).source.positioned ≡ src.positioned)
      × ((rest : List LogEntry) × (b'.entries ++ rest
            ≡ entries_of (peek_batch s (peek_batch s src a).source a').read))
peek_batch-forgets s src a a' b b' e flying alone fails served =
    let bare : IsBare src (peek_batch s src a) =
      unfold peek_batch in
      subst (λ o. IsBare src (peek_with s src a o)) (sym flying)
        (top_up-IsBare s src a b e alone
          (subst (λ o. (peek_with s src a o).outcome ≡ failure e) flying fails)) in
    (
      bare.unacked,
      bare.in_place,
      next_batch s (peek_batch s src a).source a' b' bare.idle bare.bare served,
    )

full : (s : Settings) (b : Batch) → s.batch_size ≡ 0 → batch_has_room s b ≡ false
unfolding batch_has_room
full s b z = ground arith

-- With `batch-size = 0` nothing is ever read.
no_room :
    (s : Settings) (p : Option (LogEntry × Cursor)) (b : Batch) (answers : List Answer)
    → s.batch_size ≡ 0
    → drain_available s p b answers ≡ record { batch = b; pending = p; error = none; read = [] }
unfolding drain_available drain_journal
no_room s none b [] z = refl
no_room s none b (nothing ∷ answers) z = refl
no_room s none b (unreadable e ∷ answers) z = if_false _ _ (full s b z)
no_room s none b (entry f t c ∷ answers) z = if_false _ _ (full s b z)
no_room s (some x) b answers z = if_false _ _ (full s b z)

-- It is never a batch.
abbrev IsEmpty : Building → Type 0
IsEmpty built = (b : Batch) → built.outcome ≢ complete b

once_woken-IsEmpty :
    (r : Result (Unit {0})) (p : Option (LogEntry × Cursor)) (more : Building)
    → IsEmpty more
    → IsEmpty (once_woken r p more)
once_woken-IsEmpty (ok u) p more h b e = h b e
once_woken-IsEmpty (err e') p more h b e = cc

await_entry-IsEmpty :
    (s : Settings) (p : Option (LogEntry × Cursor)) (wakes : List Wake) (ticks : List Tick)
    → s.batch_size ≡ 0
    → IsEmpty (await_entry s p empty_batch wakes ticks)
unfolding await_entry
await_entry-IsEmpty s p [] ticks z = λ b e. cc
await_entry-IsEmpty s p (w ∷ wakes) ticks z = once_woken-IsEmpty w.woken p _ (
    subst (λ d. IsEmpty (then_go_on d d.error (await_entry s d.pending d.batch wakes ticks)))
      (sym (no_room s p empty_batch w.answers z)) (await_entry-IsEmpty s p wakes ticks z))

-- With `batch-size = 0` and no batch in flight, `peek_batch` never hands out a batch, whatever the
-- journal holds and however often it wakes the source.
pub peek_batch-starves :
    (s : Settings) (src : Source) (a : Peeking) (b : Batch)
    → s.batch_size ≡ 0
    → src.in_flight ≡ none
    → (peek_batch s src a).outcome ≢ complete b
unfolding peek_batch build_batch
peek_batch-starves s src a b z idle =
    subst (λ o. (peek_with s src a o).outcome ≢ complete b) (sym idle)
      (fresh (if src.positioned then ok tt else position_to_start a.moves src))
  where
    built : IsEmpty (build_batch s src.pending a)
    built =
        subst
          (λ d. IsEmpty (then_go_on d d.error (await_entry s d.pending d.batch a.wakes a.ticks)))
          (sym (no_room s src.pending empty_batch a.answers z))
          (await_entry-IsEmpty s src.pending a.wakes a.ticks z)

    fresh : (r : Result (Unit {0})) → (fresh_batch s src a r).outcome ≢ complete b
    fresh (err e) h = cc
    fresh (ok u) h = built b h
