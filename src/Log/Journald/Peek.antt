-- ===== src/Log/Journald/Peek.antt =====
-- src/log/source/journald.rs: `peek_batch`, with the position in the journal, the wait for entries and
-- the window in which more of them are gathered.
pub mod Delivered
pub mod Failures
use ferrometer.Prelude.{
  ℕ, ◌≡◌, List, [], ◌∷◌, ◌++◌, Option, none, some, Bool, true, false, is_empty, if◌then◌else◌,
}
use ferrometer.Prelude.Text.{Text, codes}
use ferrometer.Error.{Error, source, Result, ok, err, Foreign, done, failed, map_err, ◌>>=◌, ◌>>◌}
use ferrometer.Log.Source.{LogEntry, Cursor, Batch, empty_batch}
use ferrometer.Log.Journald.{Settings, Source, Answer, Drained, batch_has_room, drain_available}

-- What the calls that move the journal answer.
pub record Moves : Type 0 where
  pub seek_cursor : Foreign (Unit {0})
  pub seek_tail : Foreign (Unit {0})
  pub next_after : Foreign (Unit {0})
  pub previous : Foreign (Unit {0})

abbrev in_call : Text → Text → Error
in_call what e = source (what ++ codes ": " ++ e)

abbrev seek : Moves → Option Cursor → Foreign (Unit {0}) → Result (Unit {0})
seek m (some cursor) (done u) = map_err (in_call (codes "next after seek")) m.next_after
seek m (some cursor) (failed e) = map_err (in_call (codes "seek_tail")) m.seek_tail
seek m none answer =
    map_err (in_call (codes "seek_tail")) m.seek_tail
    >> map_err (in_call (codes "previous after seek_tail")) m.previous

unfoldable pub position_to_start : Moves → Source → Result (Unit {0})
unfolding codes
position_to_start m src = seek m src.last_acked m.seek_cursor

-- `wait_for_journal_event`, and what the journal then answers to reads.
pub record Wake : Type 0 where
  pub woken : Result (Unit {0})
  pub answers : List Answer

-- A round of the window: its deadline is over, or the sleep ends first, or the journal wakes it.
pub data Tick : Type 0 where
  expired slept : Tick
  woke : Wake → Tick

-- `blocked`: the call has not returned when the given events are over.
pub data Outcome : Type 0 where
  complete : Batch → Outcome
  failure : Error → Outcome
  blocked : Outcome

pub record Building : Type 0 where
  pub outcome : Outcome
  pub pending : Option (LogEntry × Cursor)
  pub read : List (LogEntry × Cursor)

abbrev pub ending : Outcome → Option (LogEntry × Cursor) → Building
ending o p = record { outcome = o; pending = p; read = [] }

-- `self.drain_available(&mut batch)?` and what follows.
abbrev pub then_go_on : Drained → Option Error → Building → Building
then_go_on d (some e) more = record { outcome = failure e; pending = d.pending; read = d.read }
then_go_on d none more = record more { read = d.read ++ more.read }

abbrev pub once_woken : Result (Unit {0}) → Option (LogEntry × Cursor) → Building → Building
once_woken (err e) p more = ending (failure e) p
once_woken (ok u) p more = more

-- The window.
unfoldable pub coalesce : Settings → Option (LogEntry × Cursor) → Batch → List Tick → Building
unfolding batch_has_room drain_available
coalesce s p b [] = if batch_has_room s b then ending blocked p else ending (complete b) p
coalesce s p b (expired ∷ ticks) = ending (complete b) p
coalesce s p b (slept ∷ ticks) = ending (complete b) p
coalesce s p b (woke w ∷ ticks) =
    let d = drain_available s p b w.answers in
    let more = coalesce s d.pending d.batch ticks in
    if batch_has_room s b
    then once_woken w.woken p (then_go_on d d.error more)
    else ending (complete b) p

-- The wait for a first entry, and the window behind it.
unfoldable pub await_entry :
    Settings → Option (LogEntry × Cursor) → Batch → List Wake → List Tick → Building
unfolding drain_available coalesce
await_entry s p b [] ticks = if is_empty b.entries then ending blocked p else coalesce s p b ticks
await_entry s p b (w ∷ wakes) ticks =
    let d = drain_available s p b w.answers in
    let more = await_entry s d.pending d.batch wakes ticks in
    if is_empty b.entries
    then once_woken w.woken p (then_go_on d d.error more)
    else coalesce s p b ticks

-- All that answers in one call of `peek_batch`; `shared` says whether the caller still holds the batch.
pub record Peeking : Type 0 where
  pub shared : Bool
  pub moves : Moves
  pub answers : List Answer
  pub wakes : List Wake
  pub ticks : List Tick

-- `build_batch` behind the positioning.
unfoldable pub build_batch : Settings → Option (LogEntry × Cursor) → Peeking → Building
unfolding drain_available await_entry
build_batch s p a =
    let d = drain_available s p empty_batch a.answers in
    then_go_on d d.error (await_entry s d.pending d.batch a.wakes a.ticks)

pub record Peeked : Type 0 where
  pub source : Source
  pub outcome : Outcome
  pub read : List (LogEntry × Cursor)

abbrev pub handed_out : Outcome → Option Batch
handed_out (complete b) = some b
handed_out (failure e) = none
handed_out blocked = none

abbrev pub after_top_up : Source → Drained → Option Error → Peeked
after_top_up src d (some e) = record {
  source = record src { in_flight = none; pending = d.pending };
  outcome = failure e;
  read = d.read;
}
after_top_up src d none = record {
  source = record src { in_flight = some d.batch; pending = d.pending };
  outcome = complete d.batch;
  read = d.read;
}

abbrev pub after_build : Source → Building → Peeked
after_build src built = record {
  source = record src {
    in_flight = handed_out built.outcome;
    positioned = true;
    pending = built.pending;
  };
  outcome = built.outcome;
  read = built.read;
}

abbrev pub fresh_batch : Settings → Source → Peeking → Result (Unit {0}) → Peeked
fresh_batch s src a (err e) = record { source = src; outcome = failure e; read = [] }
fresh_batch s src a (ok u) = after_build src (build_batch s src.pending a)

abbrev pub peek_with : Settings → Source → Peeking → Option Batch → Peeked
peek_with s src a (some b) =
    let d = drain_available s src.pending b a.answers in
    if a.shared
    then record { source = src; outcome = complete b; read = [] }
    else after_top_up src d d.error
peek_with s src a none =
    fresh_batch s src a (if src.positioned then ok tt else position_to_start a.moves src)

unfoldable pub peek_batch : Settings → Source → Peeking → Peeked
unfolding drain_available position_to_start build_batch
peek_batch s src a = peek_with s src a src.in_flight
