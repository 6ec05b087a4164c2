-- ===== src/Pipeline.antt =====
-- src/pipeline.rs: the scheduler, which starts the collectors, gathers their metrics and submits them
-- to the forwarders. An iteration of its loop is a function of the clock and of the event that
-- `tokio::select!` picks. Metrics are of a type `A`; instants and durations are in nanoseconds.
pub mod Cadence
pub mod Conservation
pub mod Deadline
mod Tests
use ferrometer.Prelude.{
  ℕ, zero, suc, ◌+◌, ◌-◌, ◌*◌, ◌<◌, ◌≤◌, ◌≡◌, min, List, [], ◌∷◌, ◌++◌, map, Option, none, some,
  Bool, true, false, not, ◌&&◌, ◌||◌, is_empty, any, is_some, keep, concat, leb, if◌then◌else◌,
}
use ferrometer.Prelude.Text.{Text, text_eq}
use ferrometer.Error.{Error, Result, ok, err}

-- `SOFT_DEADLINE`: one second.
abbrev pub soft_deadline : ℕ
soft_deadline = 1_000_000_000

-- A collector; `active` says whether a task of it is in flight.
pub record Scheduled : Type 0 where
  pub name : Text
  pub interval : ℕ
  pub max_runtime : ℕ
  pub next_run : ℕ
  pub active : Bool

pub record CollectionResult (A : Type 0) : Type 0 where
  pub name : Text
  pub started_at : ℕ
  pub metrics : Option (List A)

pub record Finished (A : Type 0) : Type 0 where
  pub metrics : List A
  pub soft_deadline_at : ℕ

-- What `tokio::time::timeout(max_runtime, collect_fut)` comes to.
pub data Timeout (A : Type 0) : Type 0 where
  completed : Result (List A) → Timeout A
  elapsed : Timeout A

-- The message that a collector's task sends at its end.
unfoldable pub task_result : {A : Type 0} → Text → ℕ → Timeout A → CollectionResult A
task_result name started_at (completed (ok m)) = record {
  name = name;
  started_at = started_at;
  metrics = some m;
}
task_result name started_at (completed (err e)) = record {
  name = name;
  started_at = started_at;
  metrics = none;
}
task_result name started_at elapsed = record {
  name = name;
  started_at = started_at;
  metrics = none;
}

-- `while s.next_run <= now { s.next_run += s.interval; }` with fuel.
unfoldable pub catch_up : ℕ → ℕ → ℕ → ℕ → Option ℕ
catch_up zero interval next_run now = none
catch_up (suc fuel) interval next_run now =
    let rest = catch_up fuel interval (next_run + interval) now in
    if leb next_run now then rest else some next_run

-- The fuel that is enough for any interval but zero.
abbrev pub rounds : ℕ → ℕ → ℕ
rounds next_run now = suc (suc now - next_run)

abbrev pub is_due : ℕ → Scheduled → Bool
is_due now s = not s.active && leb s.next_run now

abbrev pub with_next_run : Scheduled → Option ℕ → Option Scheduled
with_next_run s none = none
with_next_run s (some t) = some (record s { next_run = t; active = true })

-- One collector of step 1 of the loop; `none` if its `while` does not end.
pub start_one : ℕ → Scheduled → Option Scheduled
start_one now s =
    let started = with_next_run s (catch_up (rounds s.next_run now) s.interval s.next_run now) in
    if is_due now s then started else some s

abbrev pub cons_option : {A : Type 0} → Option A → Option (List A) → Option (List A)
cons_option none xs = none
cons_option (some x) none = none
cons_option (some x) (some xs) = some (x ∷ xs)

-- Step 1: start any due, idle collectors.
pub start_due : ℕ → List Scheduled → Option (List Scheduled)
unfolding start_one
start_due now [] = some []
start_due now (s ∷ ss) = cons_option (start_one now s) (start_due now ss)

-- `iter().min()`
abbrev pub minimum : List ℕ → Option ℕ
minimum [] = none
minimum (t ∷ ts) = elim (minimum ts) [ none ↦ some t | some u ↦ some (min t u) ]

pub any_active : List Scheduled → Bool
any_active ss = any (λ s. s.active) ss

abbrev pub elapsed_by : ℕ → Option ℕ → Bool
elapsed_by now none = false
elapsed_by now (some d) = leb d now

-- `next_due`: the earliest time at which an idle collector is due.
pub next_due : List Scheduled → Option ℕ
next_due ss = minimum (map (λ s. s.next_run) (keep (λ s. not s.active) ss))

module _ {A : Type 0} where
  pub earliest_soft : List (Finished A) → Option ℕ
  earliest_soft fs = minimum (map (λ f. f.soft_deadline_at) fs)

  -- `ready_to_emit`
  pub ready : ℕ → List Scheduled → List (Finished A) → Bool
  unfolding any_active earliest_soft
  ready now ss fs = not (is_empty fs) && (not (any_active ss) || elapsed_by now (earliest_soft fs))

  -- `submit_batch`: the batch that every forwarder gets, if it is not empty.
  pub submit_batch : List (Finished A) → List (List A)
  submit_batch fs =
      let batch = concat (map (λ f. f.metrics) fs) in if is_empty batch then [] else batch ∷ []

-- `s.active = None` at the first collector of that name.
pub release : Text → List Scheduled → List Scheduled
release name [] = []
release name (s ∷ ss) =
    let rest = release name ss in
    if text_eq s.name name then record s { active = false } ∷ ss else s ∷ rest

abbrev pub finished_of : {A : Type 0} → ℕ → Option (List A) → List (Finished A)
finished_of started_at none = []
finished_of started_at (some []) = []
finished_of started_at (some (m ∷ ms)) =
    record { metrics = m ∷ ms; soft_deadline_at = started_at + soft_deadline } ∷ []

pub record State (A : Type 0) : Type 0 where
  pub scheduleds : List Scheduled
  pub finished : List (Finished A)

module _ {A : Type 0} where
  pub handle_result : CollectionResult A → State A → State A
  unfolding release
  handle_result res st = record {
    scheduleds = release res.name st.scheduleds;
    finished = st.finished ++ finished_of res.started_at res.metrics;
  }

abbrev pub or_none : {A : Type 0} → Option (List A) → List A
or_none none = []
or_none (some ms) = ms

-- What `tokio::select!` picks.
pub data Event (A : Type 0) : Type 0 where
  shutdown : Event A
  received : CollectionResult A → Event A
  soft_elapsed due_elapsed : Event A

pub data Flow (A : Type 0) : Type 0 where
  next : State A → Flow A
  returned : Flow A
  stuck : Flow A

-- The metrics that an iteration takes from the channel, the batches that it submits, and how the
-- loop goes on.
pub record Step (A : Type 0) : Type 0 where
  pub taken : List A
  pub emitted : List (List A)
  pub flow : Flow A

module _ {A : Type 0} where
  -- The branches of `tokio::select!`.
  pub handle_event : State A → Event A → Step A
  unfolding handle_result submit_batch
  handle_event st shutdown = record {
    taken = [];
    emitted = if is_empty st.finished then [] else submit_batch st.finished;
    flow = returned;
  }
  handle_event st (received res) = record {
    taken = or_none res.metrics;
    emitted = [];
    flow = next (handle_result res st);
  }
  handle_event st soft_elapsed = record { taken = []; emitted = []; flow = next st }
  handle_event st due_elapsed = record { taken = []; emitted = []; flow = next st }

  -- Steps 2 and 3, once the due collectors are started.
  pub emit_or_wait : ℕ → State A → Event A → Step A
  unfolding ready submit_batch next_due any_active handle_event
  emit_or_wait now st event =
      if ready now st.scheduleds st.finished
      then record {
        taken = [];
        emitted = submit_batch st.finished;
        flow = next (record st { finished = [] });
      }
      else if not (any_active st.scheduleds)
          && (is_empty st.finished && not (is_some (next_due st.scheduleds)))
      then record { taken = []; emitted = []; flow = returned }
      else handle_event st event

  abbrev pub with_started : ℕ → State A → Event A → Option (List Scheduled) → Step A
  with_started now st event none = record { taken = []; emitted = []; flow = stuck }
  with_started now st event (some ss) = emit_or_wait now (record st { scheduleds = ss }) event

  -- One iteration of `scheduler_loop`.
  pub step : ℕ → State A → Event A → Step A
  unfolding start_due emit_or_wait
  step now st event = with_started now st event (start_due now st.scheduleds)

  -- The iterations, each with its clock and its event.
  unfoldable pub go_on : Flow A → List (ℕ × Event A) → Step A
  unfolding step
  go_on flow [] = record { taken = []; emitted = []; flow = flow }
  go_on returned (e ∷ es) = record { taken = []; emitted = []; flow = returned }
  go_on stuck (e ∷ es) = record { taken = []; emitted = []; flow = stuck }
  go_on (next st) ((now, event) ∷ es) =
      let s = step now st event in
      let more = go_on s.flow es in
      record {
        taken = s.taken ++ more.taken;
        emitted = s.emitted ++ more.emitted;
        flow = more.flow;
      }
