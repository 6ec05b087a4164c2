-- ===== src/Forwarder/Run/Tests.antt =====
-- src/forwarder/otlphttp.rs: instances of the theorems on the loop of the forwarder.
use mathlib.Core.List.{Sublist}
use ferrometer.Prelude.{ℕ, ◌≡◌, refl, List, [], ◌∷◌, map, none, true, false, arith}
use ferrometer.Forwarder.Buffer.{BufferState, submit, empty_buffer, pop_for_send, requeue}
use ferrometer.Forwarder.Run.{
  Config, Response, success, failure, Round, State, next, start, step, submit_all, settle, go_on,
  run, drain_and_send,
}
use ferrometer.Forwarder.Run.Keeps.{buffer_of, submitted}
use ferrometer.Forwarder.Run.Retained.{IsFrom}
use ferrometer.Forwarder.Run.Order.{run-delivers_in_order}
use ferrometer.Forwarder.Run.Shutdown.{Flushes, farewell, step-Flushes}
use ferrometer.Forwarder.Run.Retry.{Outage, round, IsBackedOff, go_on-survives_outage}

abbrev config : Config
config = record {
  caps = record { buffer_max_metrics = 5; request_max_metrics = 3 };
  backoff_initial = 1;
  backoff_max = 10;
}

abbrev busy_round : Response → Round ℕ
busy_round response = record {
  arrived = (1 ∷ 2 ∷ []) ∷ [];
  shutdown = false;
  now = 0;
  notified = false;
  meanwhile = (3 ∷ []) ∷ [];
  response = response;
  later = 0;
}

abbrev history : List (Round ℕ)
history =
    busy_round (failure [])
    ∷ busy_round success
    ∷ record (busy_round success) { shutdown = true }
    ∷ []

delivers : (run config history).delivered ≡ (1 ∷ 2 ∷ []) ∷ (3 ∷ []) ∷ (1 ∷ 2 ∷ []) ∷ (3 ∷ []) ∷ []
unfolding run submit empty_buffer drain_and_send pop_for_send requeue
delivers = refl

run-delivers_in_order_example :
    IsFrom Sublist config.caps
      (submitted config (next (start config)) history)
      (run config history).delivered
      (buffer_of (run config history).flow)
run-delivers_in_order_example = run-delivers_in_order config history

abbrev kept : BufferState ℕ
kept = record { batches = (1 ∷ 2 ∷ []) ∷ []; total_metrics = 2 }

abbrev down : Outage
down = record { now = 7; response = failure []; later = 8; fails = tt }

go_on-survives_outage_example : IsBackedOff config 2 8 kept (
    go_on config
      (next (record { buffer = kept; backoff = 0; backoff_until = none }))
      (map round (down ∷ down ∷ down ∷ [])))
go_on-survives_outage_example =
    go_on-survives_outage config kept down (down ∷ down ∷ []) (omega arith)
      (record { counted = refl; fits = omega arith; nonempty = omega arith }) refl

abbrev full : State ℕ
full = record {
  buffer = record { batches = (1 ∷ 2 ∷ []) ∷ (3 ∷ 4 ∷ []) ∷ []; total_metrics = 4 };
  backoff = 0;
  backoff_until = none;
}

loses : (step config full (farewell 9)).delivered ≡ (1 ∷ 2 ∷ []) ∷ []
unfolding step submit_all drain_and_send settle pop_for_send
loses = refl

step-Flushes_example : Flushes 3 full.buffer.batches (step config full (farewell 9))
step-Flushes_example =
    step-Flushes config full 9
      (record { counted = refl; fits = omega arith; nonempty = omega arith })
