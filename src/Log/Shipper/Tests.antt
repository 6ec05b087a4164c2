-- ===== src/Log/Shipper/Tests.antt =====
-- src/log/shipper.rs: runs of the loop, as in the unit tests of that file, and instances of its
-- theorems.
use ferrometer.Prelude.{ℕ, ◌≡◌, refl, List, [], ◌∷◌, none, some, arith}
use ferrometer.Error.{sink, sink_payload_too_large, Result, ok, err}
use ferrometer.Log.Source.{LogEntry, Batch}
use ferrometer.Log.Shipper.{Shipper, State, Round, ready, send, ack, next, stop, start, run}
use ferrometer.Log.Shipper.Ledger.{acks-settle_whole_batches}
use ferrometer.Log.Shipper.Settling.{acknowledged, served, in_flight}
use ferrometer.Log.Shipper.Ledger.{acked_batches}
use ferrometer.Log.Shipper.Delivery.{IsSteady, too_large, AcksOne, run-acks_within}
use ferrometer.Log.Shipper.Backoff.{IsFailing, IsBackedOff, run-backs_off_exponentially}

abbrev shipper : Shipper
shipper = record { backoff_initial = 1000000; backoff_max = 3000000 }

abbrev entry : ℕ → LogEntry
entry n = record { timestamp = n; message = n ∷ []; labels = []; metadata = [] }

abbrev three : Batch
three = record {
  entries = entry 1 ∷ entry 2 ∷ entry 3 ∷ [];
  end_cursor = 3 ∷ [];
  approx_bytes = 51;
}

abbrev round : Batch → Result (Unit {0}) → Round
round b result = record {
  now = 0;
  slept = ready tt;
  peeked = ready (ok (some b));
  sent = ready result;
  acked = ok tt;
  later = 0;
}

abbrev refused : Round
refused = round three (err (sink_payload_too_large []))

abbrev delivered : Round
delivered = round three (ok tt)

-- 3 entries are refused, then sent one by one, the second of them dropped.
abbrev splitting : List Round
splitting = refused ∷ delivered ∷ refused ∷ delivered ∷ []

splitting_calls :
    (run shipper splitting).calls
    ≡ send (three.entries) (err (sink_payload_too_large []))
      ∷ send (entry 1 ∷ []) (ok tt)
      ∷ send (entry 2 ∷ []) (err (sink_payload_too_large []))
      ∷ send (entry 3 ∷ []) (ok tt)
      ∷ ack (3 ∷ []) (ok tt)
      ∷ []
unfolding run
splitting_calls = refl

-- The source is exhausted after one batch.
happy_path :
    (run shipper (delivered ∷ record delivered { peeked = ready (ok none) } ∷ [])).flow
    ≡ stop (ok tt)
unfolding run
happy_path = refl

acks-settle_whole_batches_example :
    acknowledged [] (run shipper splitting).calls ≡ acked_batches shipper (next start) [] splitting
unfolding run served in_flight
acks-settle_whole_batches_example =
    acks-settle_whole_batches shipper splitting
      ((three.entries, refl), (([], refl), (([], refl), (([], refl), tt))))

abbrev all_refused : List Round
all_refused = refused ∷ refused ∷ refused ∷ refused ∷ refused ∷ refused ∷ []

refused-IsSteady : IsSteady 3 refused
refused-IsSteady = record {
  awake = refl;
  batch = three;
  serves = refl;
  small = omega arith;
  answer = err (sink_payload_too_large []);
  answers = refl;
  final = too_large [];
  acks = refl;
}

run-acks_within_example : AcksOne all_refused (run shipper all_refused).calls
run-acks_within_example =
    run-acks_within 3 shipper all_refused (omega arith)
      (
        refused-IsSteady,
        (
          refused-IsSteady,
          (refused-IsSteady, (refused-IsSteady, (refused-IsSteady, (refused-IsSteady, tt)))),
        ),
      )
      (omega arith)

abbrev unreachable : Round
unreachable = round three (err (sink []))

unreachable-IsFailing : IsFailing 0 unreachable
unreachable-IsFailing = record {
  awake = refl;
  batch = three;
  serves = refl;
  pending = omega arith;
  error = sink [];
  fails = refl;
  transient = tt;
}

run-backs_off_exponentially_example :
    let s = (run shipper (unreachable ∷ unreachable ∷ unreachable ∷ [])).flow in
    (st : State) × (s ≡ next st) × IsBackedOff shipper 2 start st
run-backs_off_exponentially_example =
    run-backs_off_exponentially shipper unreachable (unreachable ∷ unreachable ∷ []) (omega arith)
      (unreachable-IsFailing, (unreachable-IsFailing, (unreachable-IsFailing, tt)))
