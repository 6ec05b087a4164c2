-- ===== src/Log/Journald/Peek/Delivered.antt =====
-- src/log/source/journald.rs: which batch `peek_batch` hands out.
use ferrometer.Prelude.{
  ◌≡◌, refl, sym, ap, subst, ◌∙◌, List, [], ◌∷◌, ◌++◌, append-nil, append_assoc, Option, none, some,
  is_empty, if_split, arith,
}
use ferrometer.Error.{Error, Result, ok, err}
use ferrometer.Log.Source.{LogEntry, Cursor, Batch, empty_batch, push}
use ferrometer.Log.Journald.{Settings, Source, Drained, batch_has_room, drain_available}
use ferrometer.Log.Journald.Batches.{push_all, parked, IsCapped, Fills, drain_available-Fills}
use ferrometer.Log.Journald.Peek.{
  Wake, Tick, expired, slept, woke, complete, blocked, Building, ending, then_go_on, once_woken,
  coalesce, await_entry, Peeking, build_batch, Peeked, handed_out, after_top_up, fresh_batch,
  peek_with, peek_batch,
}

-- The batch is `b` with entries behind it that were parked or read; what was and is not in the batch
-- is parked still; and the caps are kept.
pub record Extends (s : Settings) (p : Option (LogEntry × Cursor)) (b : Batch) (b' : Batch)
    (p' : Option (LogEntry × Cursor)) (read : List (LogEntry × Cursor)) : Type 0 where
  pub admitted : List (LogEntry × Cursor)
  pub pushed : b' ≡ push_all b admitted
  pub kept : admitted ++ parked p' ≡ parked p ++ read
  pub capped : IsCapped s b → IsCapped s b'

push_all-append :
    (b : Batch) (xs ys : List (LogEntry × Cursor))
    → push_all b (xs ++ ys) ≡ push_all (push_all b xs) ys
push_all-append b [] ys = refl
push_all-append b ((e, c) ∷ xs) ys = push_all-append (push b e c) xs ys

same-Extends : (s : Settings) (p : Option (LogEntry × Cursor)) (b : Batch) → Extends s p b b p []
same-Extends s p b = record {
  admitted = [];
  pushed = refl;
  kept = sym (append-nil (parked p));
  capped = λ c. c;
}

-- If the outcome is a batch, it is such a batch.
abbrev pub Delivers : Settings → Option (LogEntry × Cursor) → Batch → Building → Type 0
Delivers s p b built =
    (b' : Batch) → built.outcome ≡ complete b' → Extends s p b b' built.pending built.read

ending-Delivers :
    (s : Settings) (p : Option (LogEntry × Cursor)) (b : Batch)
    → Delivers s p b (ending (complete b) p)
ending-Delivers s p b b' e = subst (λ c. Extends s p b c p []) (ground arith) (same-Extends s p b)

then_go_on-Delivers :
    (s : Settings) (p : Option (LogEntry × Cursor)) (b : Batch) (d : Drained) (more : Building)
    → Fills s p b d
    → Delivers s d.pending d.batch more
    → Delivers s p b (then_go_on d d.error more)
then_go_on-Delivers s p b d more f g = go d.error
  where
    go : (o : Option Error) → Delivers s p b (then_go_on d o more)
    go (some e) b' h = absurd cc
    go none b' h =
        let x = g b' h in
        record {
          admitted = f.admitted ++ x.admitted;
          pushed =
              x.pushed
              ∙ ap (λ c. push_all c x.admitted) f.pushed
              ∙ sym (push_all-append b f.admitted x.admitted);
          kept =
              append_assoc f.admitted x.admitted (parked more.pending)
              ∙ ap (λ xs. f.admitted ++ xs) x.kept
              ∙ sym (append_assoc f.admitted (parked d.pending) more.read)
              ∙ ap (λ xs. xs ++ more.read) f.kept
              ∙ append_assoc (parked p) d.read more.read;
          capped = λ c. x.capped (f.capped c);
        }

once_woken-Delivers :
    (s : Settings) (p : Option (LogEntry × Cursor)) (b : Batch) (r : Result (Unit {0}))
    (more : Building)
    → Delivers s p b more
    → Delivers s p b (once_woken r p more)
once_woken-Delivers s p b (ok u) more g b' h = g b' h
once_woken-Delivers s p b (err e) more g b' h = absurd cc

blocked-Delivers :
    (s : Settings) (p q : Option (LogEntry × Cursor)) (b : Batch)
    → Delivers s p b (ending blocked q)
blocked-Delivers s p q b b' h = absurd cc

coalesce-Delivers :
    (s : Settings) (p : Option (LogEntry × Cursor)) (b : Batch) (ticks : List Tick)
    → Delivers s p b (coalesce s p b ticks)
unfolding coalesce
coalesce-Delivers s p b [] =
    if_split (Delivers s p b) (batch_has_room s b) (λ _. blocked-Delivers s p p b)
      (λ _. ending-Delivers s p b)
coalesce-Delivers s p b (expired ∷ ticks) = ending-Delivers s p b
coalesce-Delivers s p b (slept ∷ ticks) = ending-Delivers s p b
coalesce-Delivers s p b (woke w ∷ ticks) =
    let d = drain_available s p b w.answers in
    let more = coalesce-Delivers s d.pending d.batch ticks in
    if_split (Delivers s p b) (batch_has_room s b)
      (λ _.
        once_woken-Delivers s p b w.woken _
          (then_go_on-Delivers s p b d _ (drain_available-Fills s p b w.answers) more))
      (λ _. ending-Delivers s p b)

await_entry-Delivers :
    (s : Settings) (p : Option (LogEntry × Cursor)) (b : Batch) (wakes : List Wake)
    (ticks : List Tick)
    → Delivers s p b (await_entry s p b wakes ticks)
unfolding await_entry
await_entry-Delivers s p b [] ticks =
    if_split (Delivers s p b) (is_empty b.entries) (λ _. blocked-Delivers s p p b)
      (λ _. coalesce-Delivers s p b ticks)
await_entry-Delivers s p b (w ∷ wakes) ticks =
    let d = drain_available s p b w.answers in
    let more = await_entry-Delivers s d.pending d.batch wakes ticks in
    if_split (Delivers s p b) (is_empty b.entries)
      (λ _.
        once_woken-Delivers s p b w.woken _
          (then_go_on-Delivers s p b d _ (drain_available-Fills s p b w.answers) more))
      (λ _. coalesce-Delivers s p b ticks)

build_batch-Delivers :
    (s : Settings) (p : Option (LogEntry × Cursor)) (a : Peeking)
    → Delivers s p empty_batch (build_batch s p a)
unfolding build_batch
build_batch-Delivers s p a =
    let d = drain_available s p empty_batch a.answers in
    then_go_on-Delivers s p empty_batch d _ (drain_available-Fills s p empty_batch a.answers)
      (await_entry-Delivers s d.pending d.batch a.wakes a.ticks)

abbrev pub in_hand : Option Batch → Batch
in_hand none = empty_batch
in_hand (some b) = b

abbrev Hands : Settings → Option (LogEntry × Cursor) → Batch → Peeked → Type 0
Hands s p b k =
    (b' : Batch)
    → k.outcome ≡ complete b'
    → (k.source.in_flight ≡ some b') × Extends s p b b' k.source.pending k.read

after_top_up-Hands :
    (s : Settings) (src : Source) (b : Batch) (d : Drained) (o : Option Error)
    → Fills s src.pending b d
    → Hands s src.pending b (after_top_up src d o)
after_top_up-Hands s src b d (some e) f b' h = absurd cc
after_top_up-Hands s src b d none f b' h = (
  ground arith,
  subst (λ c. Extends s src.pending b c d.pending d.read) (ground arith)
      (record { admitted = f.admitted; pushed = f.pushed; kept = f.kept; capped = f.capped }),
)

fresh_batch-Hands :
    (s : Settings) (src : Source) (a : Peeking) (r : Result (Unit {0}))
    → Hands s src.pending empty_batch (fresh_batch s src a r)
fresh_batch-Hands s src a (err e) b' h = absurd cc
fresh_batch-Hands s src a (ok u) b' h = (ap handed_out h, build_batch-Delivers s src.pending a b' h)

peek_with-Hands :
    (s : Settings) (src : Source) (a : Peeking) (o : Option Batch)
    → src.in_flight ≡ o
    → Hands s src.pending (in_hand o) (peek_with s src a o)
peek_with-Hands s src a (some b) e =
    if_split (Hands s src.pending b) a.shared
      (λ _ b' h. (
        e ∙ ground arith,
        subst (λ c. Extends s src.pending b c src.pending []) (ground arith)
            (same-Extends s src.pending b),
      ))
      (λ _. after_top_up-Hands s src b _ _ (drain_available-Fills s src.pending b a.answers))
peek_with-Hands s src a none e = fresh_batch-Hands s src a _

-- When `peek_batch` hands out a batch, that batch is the one in flight, or an empty one if there is
-- none, with entries appended that are a first part of what was parked and of what the call read
-- from the journal, in that order; the batch is remembered as the one in flight, and the rest, at
-- most one entry, is parked. If the batch before was within the caps on number and bytes, so is this
-- one.
pub peek_batch-Extends :
    (s : Settings) (src : Source) (a : Peeking) (b' : Batch)
    → (peek_batch s src a).outcome ≡ complete b'
    → ((peek_batch s src a).source.in_flight ≡ some b')
      × Extends s src.pending
          (in_hand src.in_flight)
          b'
          (peek_batch s src a).source.pending
          (peek_batch s src a).read
unfolding peek_batch
peek_batch-Extends s src a = peek_with-Hands s src a src.in_flight refl
