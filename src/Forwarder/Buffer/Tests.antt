-- ===== src/Forwarder/Buffer/Tests.antt =====
-- src/forwarder/otlphttp.rs: runs of the ring buffer, and instances of its theorems.
use ferrometer.Prelude.{ℕ, ◌≡◌, refl, [], ◌∷◌, arith}
use ferrometer.Forwarder.Buffer.{BufferState, Caps, submit, pop_for_send, requeue}
use ferrometer.Forwarder.Buffer.Bounds.{IsValid, Evicts, Pops, pop_for_send-Pops, requeue-Evicts}
use ferrometer.Forwarder.Buffer.Fifo.{requeue-pop_for_send}

abbrev caps : Caps
caps = record { buffer_max_metrics = 5; request_max_metrics = 3 }

abbrev half_full : BufferState ℕ
half_full = record { batches = (1 ∷ 2 ∷ []) ∷ (3 ∷ []) ∷ []; total_metrics = 3 }

half_full-IsValid : IsValid caps half_full
half_full-IsValid = record { counted = refl; fits = omega arith; nonempty = omega arith }

-- Three more metrics push the oldest batch out.
submit_evicts :
    submit caps (4 ∷ 5 ∷ 6 ∷ []) half_full
    ≡ record { batches = (3 ∷ []) ∷ (4 ∷ 5 ∷ 6 ∷ []) ∷ []; total_metrics = 4 }
unfolding submit
submit_evicts = refl

pop_both : (pop_for_send caps half_full).popped ≡ (1 ∷ 2 ∷ []) ∷ (3 ∷ []) ∷ []
unfolding pop_for_send
pop_both = refl

pop_for_send-Pops_example : Pops 3 half_full.batches 0 (pop_for_send caps half_full)
pop_for_send-Pops_example = pop_for_send-Pops caps half_full half_full-IsValid

requeue-Evicts_example :
    Evicts 5 ((7 ∷ 8 ∷ 9 ∷ []) ∷ half_full.batches) (requeue caps ((7 ∷ 8 ∷ 9 ∷ []) ∷ []) half_full)
requeue-Evicts_example = requeue-Evicts caps ((7 ∷ 8 ∷ 9 ∷ []) ∷ []) half_full half_full-IsValid

requeue-pop_for_send_example :
    requeue caps (pop_for_send caps half_full).popped (pop_for_send caps half_full).left ≡ half_full
requeue-pop_for_send_example = requeue-pop_for_send caps half_full half_full-IsValid
