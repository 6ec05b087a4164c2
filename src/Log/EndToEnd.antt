-- ===== src/Log/EndToEnd.antt =====
-- src/main.rs, spawn_logs: a shipper over the source that reads the journal. What the journal, the
-- clock, the sink and the file system answer in a round is an argument; what the source answers to
-- the shipper is computed by its operations.
pub mod Goes
pub mod Acks
pub mod Prefix
pub mod Settled
mod Tests
use ferrometer.Prelude.{ℕ, List, [], ◌∷◌, ◌++◌, map, Option, none, some, Bool, true, false}
use ferrometer.Error.{Result, ok, err}
use ferrometer.Log.Source.{LogEntry, Cursor, Batch}
use ferrometer.Log.Journald.{Settings, Source}
use ferrometer.Log.Journald.Cursors
use ferrometer.Log.Journald.Cursors.{Disk, FileCalls}
use ferrometer.Log.Journald.Peek.{Peeking, Outcome, complete, failure, blocked, peek_batch}
use ferrometer.Backoff.{waits}
use ferrometer.Log.Shipper.{
  Shipper, State, start, Select, ready, shutdown, Round, Call, sleep, cancelled, send, ack, Flow,
  next, stop, Step, step, run,
}

-- What the environment answers in one round.
pub record Moment : Type 0 where
  pub now : ℕ
  pub slept : Select (Unit {0})
  pub peeking : Peeking
  pub sent : Select (Result (Unit {0}))
  pub files : FileCalls
  pub later : ℕ

-- The source and the files of its cursor.
pub record World : Type 0 where
  pub journal : Source
  pub disk : Disk

-- A call that does not return ends with the shutdown.
abbrev pub answer_of : Outcome → Select (Result (Option Batch))
answer_of (complete b) = ready (ok (some b))
answer_of (failure e) = ready (err e)
answer_of blocked = shutdown

-- What `source.ack` answers, if the batch is acknowledged in this round.
abbrev pub ack_answer : FileCalls → World → Outcome → Result (Unit {0})
ack_answer f w (complete b) = (Cursors.ack f b.end_cursor w.journal w.disk).2
ack_answer f w (failure e) = ok tt
ack_answer f w blocked = ok tt

abbrev pub peeked : Settings → World → Moment → World
peeked s w m = record w { journal = (peek_batch s w.journal m.peeking).source }

unfoldable pub round_of : Settings → World → Moment → Round
round_of s w m =
    let outcome = (peek_batch s w.journal m.peeking).outcome in
    record {
      now = m.now;
      slept = m.slept;
      peeked = answer_of outcome;
      sent = m.sent;
      acked = ack_answer m.files (peeked s w m) outcome;
      later = m.later;
    }

abbrev pub acking : FileCalls → Cursor → World → World
acking f cursor w =
    let (source, disk, r) = Cursors.ack f cursor w.journal w.disk in
    record { journal = source; disk = disk }

abbrev pub apply_call : FileCalls → Call → World → World
apply_call f (sleep wait) w = w
apply_call f (cancelled es) w = w
apply_call f (send es r) w = w
apply_call f (ack cursor r) w = acking f cursor w

unfoldable pub apply_calls : FileCalls → List Call → World → World
unfolding Cursors.ack
apply_calls f [] w = w
apply_calls f (c ∷ cs) w = apply_calls f cs (apply_call f c w)

-- Whether the round gets past its pause.
abbrev pub asks : Option ℕ → Select (Unit {0}) → Bool
asks none s = true
asks (some wait) shutdown = false
asks (some wait) (ready u) = true

abbrev pub world_after : Settings → World → Moment → Bool → List Call → World
world_after s w m false calls = w
world_after s w m true calls = apply_calls m.files calls (peeked s w m)

abbrev pub read_in : Settings → World → Moment → Bool → List LogEntry
read_in s w m false = []
read_in s w m true = map (λ x. x.0) (peek_batch s w.journal m.peeking).read

-- The rounds of the shipper that the moments make.
unfoldable pub rounds : Shipper → Settings → Flow → World → List Moment → List Round
rounds sh s flow w [] = []
rounds sh s (stop res) w (m ∷ ms) = []
rounds sh s (next st) w (m ∷ ms) =
    let r = round_of s w m in
    let k = step sh st r in
    r
    ∷ rounds sh s k.flow (world_after s w m (asks (waits st.backoff_until m.now) m.slept) k.calls)
        ms

-- The entries that are read from the journal in these rounds, in their order.
unfoldable pub reads : Shipper → Settings → Flow → World → List Moment → List LogEntry
reads sh s flow w [] = []
reads sh s (stop res) w (m ∷ ms) = []
reads sh s (next st) w (m ∷ ms) =
    let k = step sh st (round_of s w m) in
    let asked = asks (waits st.backoff_until m.now) m.slept in
    read_in s w m asked ++ reads sh s k.flow (world_after s w m asked k.calls) ms

-- `Shipper::run` over the journal.
unfoldable pub ship_journal : Shipper → Settings → World → List Moment → Step
ship_journal sh s w ms = run sh (rounds sh s (next start) w ms)
