-- ===== src/Metrics.antt =====
-- src/pipeline.rs, run: the scheduler and the tasks of the forwarders, which take what it submits in the
-- meantime. How the tasks take turns is an argument: each forwarder's task has a list of moments, which
-- say how many of the batches are submitted before and during each of its rounds.
pub mod Delivered
mod Tests
use ferrometer.Prelude.{ℕ, List, [], ◌∷◌, map, Bool, true, false, take, drop}
use ferrometer.Pipeline.{Scheduled, Event, next, returned, stuck}
use ferrometer.Pipeline
use ferrometer.Forwarder.Run.{Config, Response, Round}
use ferrometer.Forwarder.Run

-- One round of a forwarder's task: how many batches are submitted before it and during its wait or
-- request, and what the clock, the notifications and the backend answer.
pub record Moment : Type 0 where
  pub before : ℕ
  pub during : ℕ
  pub now : ℕ
  pub notified : Bool
  pub response : Response
  pub later : ℕ

-- A forwarder with the moments of its task: those until it is told to shut down, and the last one.
pub record Task : Type 0 where
  pub config : Config
  pub moments : List Moment
  pub last : Moment

-- Whether the scheduler has returned. Only then `fwd.shutdown()` is called.
abbrev pub has_ended : {A : Type 0} → Pipeline.Flow A → Bool
has_ended (next st) = false
has_ended returned = true
has_ended stuck = false

module _ {A : Type 0} where
  abbrev pub round_at : Moment → Bool → List (List A) → List (List A) → Round A
  round_at m shutdown arrived meanwhile = record {
    arrived = arrived;
    shutdown = shutdown;
    now = m.now;
    notified = m.notified;
    meanwhile = meanwhile;
    response = m.response;
    later = m.later;
  }

  -- The batches of the scheduler, dealt out to the rounds of a task. Before the last round all of
  -- them are there.
  unfoldable pub deal : Bool → Moment → List Moment → List (List A) → List (Round A)
  deal false last [] batches = []
  deal true last [] batches = round_at last true batches [] ∷ []
  deal ended last (m ∷ ms) batches =
      let behind = drop m.before batches in
      round_at m false (take m.before batches) (take m.during behind)
      ∷ deal ended last ms (drop m.during behind)

  -- The task that `run` spawns for a forwarder.
  unfoldable pub forward : Bool → List (List A) → Task → Run.Step A
  unfolding deal Run.run
  forward ended batches t = Run.run t.config (deal ended t.last t.moments batches)

-- The scheduler's loop, and what each forwarder has done.
pub record Outcome (A : Type 0) : Type 0 where
  pub scheduler : Pipeline.Step A
  pub forwarders : List (Run.Step A)

-- `run` behind the construction of collectors and forwarders.
unfoldable pub run : {A : Type 0} → List Scheduled → List (ℕ × Event A) → List Task → Outcome A
unfolding forward Pipeline.go_on
run scheduleds events tasks =
    let s = Pipeline.go_on (next (record { scheduleds = scheduleds; finished = [] })) events in
    record { scheduler = s; forwarders = map (forward (has_ended s.flow) s.emitted) tasks }
