-- ===== src/Log/EndToEnd/Acks.antt =====
-- src/log/shipper.rs: a round acknowledges nothing, or the batch that it peeked, or it is the last.
use ferrometer.Prelude.{
  ℕ, ◌≡◌, refl, List, [], ◌∷◌, Option, none, some, length, leb, ◌==◌, if_split, is_empty, sym,
  subst, take, drop, min, false,
}
use ferrometer.Error.{Result, ok, err, sink_payload_too_large, sink_rejected}
use ferrometer.Log.Source.{LogEntry, Batch}
use ferrometer.Log.Shipper.{
  Shipper, State, Round, Select, ready, shutdown, sleep, send, next, stop, Step, finish_batch,
  finish_if_sent, after_send, request, ship, peek, pause, behind,
}
use ferrometer.Log.Shipper.Settling.{served, in_flight}
use ferrometer.Log.EndToEnd.{World, asks, acking, apply_calls}
use ferrometer.Log.Journald.Cursors.{FileCalls}

-- What the round of a batch did.
pub data Did (acked : Result (Unit {0})) (b : Batch) (k : Step) : Type 0 where
  held :
      served b k.calls ≡ []
      → in_flight b.entries k.calls ≡ b.entries
      → ((f : FileCalls) (w : World) → apply_calls f k.calls w ≡ w)
      → Did acked b k
  finished :
      acked ≡ ok tt
      → served b k.calls ≡ (b.end_cursor, b.entries) ∷ []
      → in_flight b.entries k.calls ≡ []
      → ((f : FileCalls) (w : World) → apply_calls f k.calls w ≡ acking f b.end_cursor w)
      → Did acked b k
  ended : served b k.calls ≡ [] → (res : Result (Unit {0})) → k.flow ≡ stop res → Did acked b k

finish_batch-Did :
    (st : State) (b : Batch) (acked : Result (Unit {0})) → Did acked b (finish_batch st b acked)
unfolding finish_batch served in_flight apply_calls
finish_batch-Did st b (ok u) = finished refl refl refl (λ f w. refl)
finish_batch-Did st b (err e) = ended refl (err e) refl

idle :
    (acked : Result (Unit {0})) (b : Batch) (st : State)
    → Did acked b (record { calls = []; flow = next st })
unfolding served in_flight apply_calls
idle acked b st = held refl refl (λ f w. refl)

finish_if_sent-Did :
    (st : State) (b : Batch) (acked : Result (Unit {0})) → Did acked b (finish_if_sent st b acked)
unfolding finish_if_sent
finish_if_sent-Did st b acked =
    if_split (Did acked b) (leb (length b.entries) st.progress.sent)
      (λ _. finish_batch-Did st b acked) (λ _. idle acked b st)

-- A call that acknowledges nothing changes nothing of this.
module _ (acked : Result (Unit {0})) (b : Batch) (k : Step) where
  behind_send-Did :
      (es : List LogEntry) (r : Result (Unit {0}))
      → Did acked b k
      → Did acked b (behind (send es r ∷ []) k)
  unfolding served in_flight apply_calls
  behind_send-Did es r (held p q h) = held p q h
  behind_send-Did es r (finished a p q h) = finished a p q h
  behind_send-Did es r (ended p res e) = ended p res e

  behind_sleep-Did : (wait : ℕ) → Did acked b k → Did acked b (behind (sleep wait ∷ []) k)
  unfolding served in_flight apply_calls
  behind_sleep-Did wait (held p q h) = held p q h
  behind_sleep-Did wait (finished a p q h) = finished a p q h
  behind_sleep-Did wait (ended p res e) = ended p res e

module _ (sh : Shipper) (r : Round) (b : Batch) where
  after_send-Did :
      (st : State) (n : ℕ) (result : Result (Unit {0}))
      → Did r.acked b (after_send sh st r b n result)
  unfolding after_send
  after_send-Did st n (ok u) = finish_if_sent-Did _ b r.acked
  after_send-Did st n (err (sink_payload_too_large msg)) =
      if_split (Did r.acked b) (n == 1) (λ _. finish_if_sent-Did _ b r.acked)
        (λ _. idle r.acked b _)
  after_send-Did st n (err (sink_rejected msg)) = finish_if_sent-Did _ b r.acked
  after_send-Did st n (err e) = idle r.acked b _

  request-Did :
      (st : State) (n : ℕ) (slice : List LogEntry) (sent : Select (Result (Unit {0})))
      → Did r.acked b (request sh st r b n slice sent)
  unfolding request served
  request-Did st n slice shutdown = ended refl (ok tt) refl
  request-Did st n slice (ready result) =
      behind_send-Did r.acked b _ slice result (after_send-Did _ n result)

  ship-Did : (st : State) → Did r.acked b (ship sh st r b)
  unfolding ship
  ship-Did st =
      let pending = drop (min st.progress.sent (length b.entries)) b.entries in
      let n = min (length pending) st.progress.chunk in
      if_split (Did r.acked b) (is_empty pending) (λ _. finish_batch-Did st b r.acked)
        (λ _. request-Did st n (take n pending) r.sent)

  -- A round that gets a batch.
  pub step_batch-Did :
      (st : State) (wait : Option ℕ) (slept : Select (Unit {0}))
      → r.peeked ≡ ready (ok (some b))
      → Did r.acked b (pause sh st r wait slept)
  unfolding pause served
  step_batch-Did st none slept e = subst (λ p. Did r.acked b (peek sh st r p)) (sym e) (ship-Did st)
  step_batch-Did st (some wait) shutdown e = ended refl (ok tt) refl
  step_batch-Did st (some wait) (ready u) e =
      behind_sleep-Did r.acked b _ wait
        (subst (λ p. Did r.acked b (peek sh st r p)) (sym e) (ship-Did st))

-- A round that acknowledges nothing and is the last one.
pub record IsLast (b : Batch) (k : Step) : Type 0 where
  pub result : Result (Unit {0})
  pub serves : served b k.calls ≡ []
  pub stops : k.flow ≡ stop result

abbrev pub IsBatch : Select (Result (Option Batch)) → Type 0
IsBatch (ready (ok (some b))) = Unit {0}
IsBatch p = ⊥

module _ (sh : Shipper) (st : State) (r : Round) (b : Batch) where
  -- One that does not get past its pause.
  pub unasked-IsLast :
      (wait : Option ℕ) (slept : Select (Unit {0}))
      → asks wait slept ≡ false
      → IsLast b (pause sh st r wait slept)
  unfolding pause served
  unasked-IsLast none slept e = absurd cc
  unasked-IsLast (some wait) shutdown e = record { result = ok tt; serves = refl; stops = refl }
  unasked-IsLast (some wait) (ready u) e = absurd cc

  peek-IsLast :
      (p : Select (Result (Option Batch)))
      → (IsBatch p → ⊥)
      → (IsLast b (peek sh st r p))
        × ((wait : ℕ) → IsLast b (behind (sleep wait ∷ []) (peek sh st r p)))
  unfolding peek served
  peek-IsLast shutdown h = (
    record { result = ok tt; serves = refl; stops = refl },
    λ wait. record { result = ok tt; serves = refl; stops = refl },
  )
  peek-IsLast (ready (err e)) h = (
    record { result = err e; serves = refl; stops = refl },
    λ wait. record { result = err e; serves = refl; stops = refl },
  )
  peek-IsLast (ready (ok none)) h = (
    record { result = ok tt; serves = refl; stops = refl },
    λ wait. record { result = ok tt; serves = refl; stops = refl },
  )
  peek-IsLast (ready (ok (some b'))) h = absurd (h tt)

  -- One that gets no batch.
  pub no_batch-IsLast :
      (wait : Option ℕ) (slept : Select (Unit {0}))
      → (IsBatch r.peeked → ⊥)
      → IsLast b (pause sh st r wait slept)
  unfolding pause served
  no_batch-IsLast none slept h = (peek-IsLast r.peeked h).0
  no_batch-IsLast (some wait) shutdown h = record { result = ok tt; serves = refl; stops = refl }
  no_batch-IsLast (some wait) (ready u) h = (peek-IsLast r.peeked h).1 wait
