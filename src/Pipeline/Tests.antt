-- ===== src/Pipeline/Tests.antt =====
-- src/pipeline.rs: iterations of the scheduler, and instances of its theorems.
use ferrometer.Prelude.{ℕ, ◌≡◌, refl, List, [], ◌∷◌, none, some, false, arith}
use ferrometer.Prelude.Text.{codes, text_eq}
use ferrometer.Error.{ok}
use ferrometer.Pipeline.{
  Scheduled, State, Event, received, due_elapsed, shutdown, next, catch_up, start_due, step, go_on,
  completed, task_result,
}
use ferrometer.Pipeline.Cadence.{AllStarted, catch_up_zero_interval, start_due-AllStarted}
use ferrometer.Pipeline.Conservation.{Balanced, IsGoing, pending, go_on-conserves}
use ferrometer.Pipeline.Deadline.{Does, step-Does}

abbrev cpu : Scheduled
cpu = record { name = codes "cpu"; interval = 10; max_runtime = 5; next_run = 3; active = false }

abbrev starting : State ℕ
starting = record { scheduleds = cpu ∷ []; finished = [] }

-- The collector is started, hands over two metrics, and they are submitted when the loop comes round.
abbrev events : List (ℕ × Event ℕ)
events =
    (4, received (task_result (codes "cpu") 4 (completed (ok (1 ∷ 2 ∷ []))))) ∷ (5, shutdown) ∷ []

submits : (go_on (next starting) events).emitted ≡ (1 ∷ 2 ∷ []) ∷ []
unfolding codes text_eq go_on catch_up task_result
submits = refl

catch_up_zero_interval_example : catch_up 1000 0 3 37 ≡ none
catch_up_zero_interval_example = catch_up_zero_interval 1000 3 37 (omega arith)

start_due-AllStarted_example :
    (ts : List Scheduled) × (start_due 37 (cpu ∷ []) ≡ some ts) × AllStarted 37 (cpu ∷ []) ts
start_due-AllStarted_example = start_due-AllStarted 37 (cpu ∷ []) (omega arith, tt)

go_on-conserves_example :
    Balanced (pending (next starting)) (go_on (next starting) events)
    × IsGoing (go_on (next starting) events).flow
go_on-conserves_example = go_on-conserves (next starting) events (omega arith, tt)

step-Does_example :
    (ts : List Scheduled) × AllStarted 37 (cpu ∷ []) ts
    × Does 37 ts [] due_elapsed (step 37 starting due_elapsed)
step-Does_example = step-Does 37 starting due_elapsed (omega arith, tt)
