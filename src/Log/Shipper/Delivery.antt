-- ===== src/Log/Shipper/Delivery.antt =====
-- src/log/shipper.rs: the loop comes to an end with a batch, however often the sink splits it and even
-- while the source tops it up.
use ferrometer.Prelude.{
  ℕ, ◌+◌, ◌-◌, ◌*◌, ◌%◌, ◌≤◌, ◌<◌, ◌≡◌, refl, sym, subst, min, List, [], ◌∷◌, Option, some, length,
  take, drop, length-drop, is_empty, leb, ◌==◌, ◌⊎◌, inl, inr, All, Bool-cases, none, ◌++◌,
  if◌then◌else◌, arith,
}
use ferrometer.Backoff.{waits}
use ferrometer.Error.{Result, ok, err, sink_payload_too_large, sink_rejected}
use ferrometer.Log.Source.{LogEntry, Batch, Cursor}
use ferrometer.Log.Shipper.{
  Shipper, State, Round, ready, Call, ack, next, Step, finish_batch, finish_if_sent, after_send,
  request, ship, peek, pause, step, go_on, u32_mod, run, start,
}

-- An answer that is no transport error: the request was accepted, or can never be accepted.
pub data IsFinal : Result (Unit {0}) → Type 0 where
  accepted : (u : Unit {0}) → IsFinal (ok u)
  invalid : (msg : List ℕ) → IsFinal (err (sink_rejected msg))
  too_large : (msg : List ℕ) → IsFinal (err (sink_payload_too_large msg))

-- A round without a shutdown, in which the source serves a batch of at most `k` entries, the sink gives
-- such an answer, and an ack succeeds.
pub record IsSteady (k : ℕ) (r : Round) : Type 0 where
  pub awake : r.slept ≡ ready tt
  pub batch : Batch
  pub serves : r.peeked ≡ ready (ok (some batch))
  pub small : length batch.entries ≤ k
  pub answer : Result (Unit {0})
  pub answers : r.sent ≡ ready answer
  pub final : IsFinal answer
  pub acks : r.acked ≡ ok tt

-- An ack of the cursor that succeeded.
pub Acked : Cursor → List Call → Type 0
Acked cursor [] = ⊥
Acked cursor (ack c (ok u) ∷ cs) = (c ≡ cursor) ⊎ Acked cursor cs
Acked cursor (c ∷ cs) = Acked cursor cs

-- The batch that is served in one of the rounds is acknowledged.
pub AcksOne : List Round → List Call → Type 0
AcksOne [] calls = ⊥
AcksOne (r ∷ rs) calls =
    ((b : Batch) × (r.peeked ≡ ready (ok (some b))) × Acked b.end_cursor calls) ⊎ AcksOne rs calls

Acked-left : (c : Cursor) (cs ds : List Call) → Acked c cs → Acked c (cs ++ ds)
unfolding Acked
Acked-left c [] ds h = absurd h
Acked-left c (ack c' (ok u) ∷ cs) ds (inl e) = inl e
Acked-left c (ack c' (ok u) ∷ cs) ds (inr h) = inr (Acked-left c cs ds h)
Acked-left c (ack c' (err e) ∷ cs) ds h = Acked-left c cs ds h
Acked-left c (x ∷ cs) ds h = Acked-left c cs ds h

Acked-right : (c : Cursor) (cs ds : List Call) → Acked c ds → Acked c (cs ++ ds)
unfolding Acked
Acked-right c [] ds h = h
Acked-right c (ack c' (ok u) ∷ cs) ds h = inr (Acked-right c cs ds h)
Acked-right c (ack c' (err e) ∷ cs) ds h = Acked-right c cs ds h
Acked-right c (x ∷ cs) ds h = Acked-right c cs ds h

AcksOne-right : (rs : List Round) (cs ds : List Call) → AcksOne rs ds → AcksOne rs (cs ++ ds)
unfolding AcksOne
AcksOne-right [] cs ds h = h
AcksOne-right (r ∷ rs) cs ds (inl (b, e, h)) = inl (b, e, Acked-right b.end_cursor cs ds h)
AcksOne-right (r ∷ rs) cs ds (inr h) = inr (AcksOne-right rs cs ds h)

-- What is left of `k` entries, and how much of that one request takes at most.
abbrev left : State → ℕ → ℕ
left st k = k - st.progress.sent

abbrev potential : State → ℕ → ℕ
potential st k = left st k + min (left st k) st.progress.chunk

-- The step acknowledges the batch, or goes on with less to do.
Nearer : ℕ → ℕ → Batch → Step → Type 0
Nearer bound k b s =
    Acked b.end_cursor s.calls
    ⊎ ((st : State) × (s.flow ≡ next st)
        × (st.progress.sent < k)
        × (1 ≤ st.progress.chunk)
        × (potential st k < bound))

finish-Acked : (st : State) (b : Batch) → Acked b.end_cursor (finish_batch st b (ok tt)).calls
unfolding finish_batch Acked
finish-Acked st b = inl refl

finish_if_sent-Nearer :
    (k : ℕ) (st : State) (b : Batch) (bound : ℕ)
    → length b.entries ≤ k
    → 1 ≤ st.progress.chunk
    → potential st k < bound
    → Nearer bound k b (finish_if_sent st b (ok tt))
unfolding Nearer finish_if_sent
finish_if_sent-Nearer k st b bound small h p =
    elim (Bool-cases (leb (length b.entries) st.progress.sent)) [
      | inl full ↦ rw full (inl (finish-Acked st b))
      | inr part ↦ rw part (inr (st, refl, ground arith, h, p))
    ]

after_send-Nearer :
    (k : ℕ) (sh : Shipper) (st : State) (r : Round) (b : Batch) (n : ℕ)
    → (answer : Result (Unit {0})) → IsFinal answer
    → r.acked ≡ ok tt
    → length b.entries ≤ k
    → n ≡ min (length b.entries - st.progress.sent) st.progress.chunk
    → 1 ≤ n
    → Nearer (potential st k) k b (after_send sh st r b n answer)
unfolding after_send
after_send-Nearer k sh st r b n answer (accepted u) a small e p =
    rw a (finish_if_sent-Nearer k _ b _ small (omega arith) (omega arith))
after_send-Nearer k sh st r b n answer (invalid msg) a small e p =
    rw a (finish_if_sent-Nearer k _ b _ small (omega arith) (omega arith))
after_send-Nearer k sh st r b n answer (too_large msg) a small e p = elim (Bool-cases (n == 1)) [
  | inl one ↦ rw (one, a) (finish_if_sent-Nearer k _ b _ small (omega arith) (omega arith))
  | inr many ↦
      let big : 2 ≤ n = ground arith in
      rw many (unfold Nearer in inr (_, refl, omega arith, omega arith, omega arith))
]

module _ (k : ℕ) (sh : Shipper) (st : State) (r : Round) (s : IsSteady k r) where
  request-Nearer :
      (n : ℕ) (slice : List LogEntry)
      → n ≡ min (length s.batch.entries - st.progress.sent) st.progress.chunk
      → 1 ≤ n
      → Nearer (potential st k) k s.batch (request sh st r s.batch n slice r.sent)
  unfolding request Nearer Acked
  request-Nearer n slice e p =
      rw (s.answers, request)
        (after_send-Nearer k sh
          (record st {
            progress = record (st.progress) { requests = (st.progress.requests + 1) % u32_mod };
          })
          r s.batch n s.answer s.final s.acks s.small e p)

  ship-Nearer : 1 ≤ st.progress.chunk → Nearer (potential st k) k s.batch (ship sh st r s.batch)
  unfolding ship Nearer
  ship-Nearer h =
      go (drop (min st.progress.sent (length s.batch.entries)) s.batch.entries)
        (omega (arith, length-drop (min st.progress.sent (length s.batch.entries)) s.batch.entries))
    where
      go :
          (pending : List LogEntry)
          → length pending ≡ length s.batch.entries - st.progress.sent
          → Nearer (potential st k) k s.batch (
              if is_empty pending
              then finish_batch st s.batch r.acked
              else request sh st r s.batch
                  (min (length pending) st.progress.chunk)
                  (take (min (length pending) st.progress.chunk) pending)
                  r.sent)
      go [] e = inl (
          subst (λ a. Acked s.batch.end_cursor (finish_batch st s.batch a).calls) (sym s.acks)
            (finish-Acked st s.batch))
      go (x ∷ pending) e =
          let n = min (length (x ∷ pending)) st.progress.chunk in
          request-Nearer n (take n (x ∷ pending)) (omega arith) (omega arith)

  pause-Nearer :
      (w : Option ℕ)
      → 1 ≤ st.progress.chunk
      → Nearer (potential st k) k s.batch (pause sh st r w r.slept)
  unfolding pause peek Nearer Acked
  pause-Nearer none h = rw (s.serves, peek) (ship-Nearer h)
  pause-Nearer (some wait) h = rw (s.awake, pause) (rw (s.serves, peek) (ship-Nearer h))

  step-Nearer : 1 ≤ st.progress.chunk → Nearer (potential st k) k s.batch (step sh st r)
  unfolding step
  step-Nearer h = pause-Nearer (waits st.backoff_until r.now) h

go_on-acks_by :
    (k : ℕ) (sh : Shipper) (st : State) (rs : List Round)
    → All (IsSteady k) rs
    → st.progress.sent < k
    → 1 ≤ st.progress.chunk
    → potential st k ≤ length rs
    → AcksOne rs (go_on sh (next st) rs).calls
unfolding go_on Nearer AcksOne
go_on-acks_by k sh st [] steady q h p = absurd (omega arith)
go_on-acks_by k sh st (r ∷ rs) steady q h p = elim (step-Nearer k sh st r steady.0 h) [
  | inl done ↦ inl (
    steady.0.batch,
    steady.0.serves,
    Acked-left steady.0.batch.end_cursor (step sh st r).calls
        (go_on sh (step sh st r).flow rs).calls done,
  )
  | inr (st', e, q', h', p') ↦ inr (
      AcksOne-right rs (step sh st r).calls (go_on sh (step sh st r).flow rs).calls (
        subst (λ f. AcksOne rs (go_on sh f rs).calls) (sym e)
          (go_on-acks_by k sh st' rs steady.1 q' h' (omega arith))))
]

-- Without a shutdown, with a source that serves batches of at most `k` entries, k > 0, one that it tops
-- up from round to round included, with a sink that answers every request by accepting it or by
-- rejecting it as invalid or as too large, and with acks that succeed: within 2 * k rounds the loop
-- acknowledges, by its cursor, a batch that is served in one of them, however often the sink makes it
-- split its requests.
pub run-acks_within :
    (k : ℕ) (sh : Shipper) (rs : List Round)
    → 1 ≤ k
    → All (IsSteady k) rs
    → 2 * k ≤ length rs
    → AcksOne rs (run sh rs).calls
unfolding run
run-acks_within k sh rs some_entry steady enough =
    go_on-acks_by k sh start rs steady (omega arith) (omega arith) (omega arith)
