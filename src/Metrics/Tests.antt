-- ===== src/Metrics/Tests.antt =====
-- src/pipeline.rs: a run with one collector and one forwarder.
use ferrometer.Prelude.{ℕ, ◌≡◌, refl, List, [], ◌∷◌, map, false, arith}
use ferrometer.Prelude.Text.{codes, text_eq}
use ferrometer.Error.{ok}
use ferrometer.Pipeline.{Scheduled, Event, received, shutdown, completed, task_result, catch_up}
use ferrometer.Forwarder.Buffer.{submit, empty_buffer, pop_for_send}
use ferrometer.Forwarder.Run.{success, drain_and_send}
use ferrometer.Metrics.{Moment, Task, has_ended, run}
use ferrometer.Metrics.Delivered.{AllServed, run-AllServed}

abbrev cpu : Scheduled
cpu = record { name = codes "cpu"; interval = 10; max_runtime = 5; next_run = 3; active = false }

abbrev events : List (ℕ × Event ℕ)
events =
    (4, received (task_result (codes "cpu") 4 (completed (ok (1 ∷ 2 ∷ []))))) ∷ (5, shutdown) ∷ []

abbrev moment : Moment
moment = record { before = 1; during = 0; now = 6; notified = false; response = success; later = 7 }

abbrev task : Task
task = record {
  config = record {
    caps = record { buffer_max_metrics = 5; request_max_metrics = 3 };
    backoff_initial = 1;
    backoff_max = 10;
  };
  moments = moment ∷ [];
  last = moment;
}

delivers :
    map (λ s. s.delivered) (run (cpu ∷ []) events (task ∷ [])).forwarders ≡ ((1 ∷ 2 ∷ []) ∷ []) ∷ []
unfolding run codes text_eq catch_up task_result submit empty_buffer drain_and_send pop_for_send
delivers = refl

run-AllServed_example :
    let out = run (cpu ∷ []) events (task ∷ []) in
    AllServed (has_ended out.scheduler.flow) out.scheduler.taken (task ∷ []) out.forwarders
run-AllServed_example = run-AllServed (cpu ∷ []) events (task ∷ []) (omega arith, tt)
