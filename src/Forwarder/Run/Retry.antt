-- ===== src/Forwarder/Run/Retry.antt =====
-- src/forwarder/otlphttp.rs: what an outage of the backend does to the buffer and to the backoff.
use ferrometer.Prelude.{
  ℕ, suc, ◌+◌, ◌≤◌, ◌≡◌, refl, sym, ap, ◌∙◌, List, [], ◌∷◌, Option, none, some, subst, false,
  is_empty, length, map, arith,
}
use ferrometer.Prelude.Text.{Text}
use ferrometer.Backoff.{waits, next_backoff, capped, next_backoff-capped, capped_zero}
use ferrometer.Forwarder.Buffer.{BufferState, pop_for_send, requeue}
use ferrometer.Forwarder.Buffer.Bounds.{IsValid, pop_for_send-Pops}
use ferrometer.Forwarder.Buffer.Fifo.{requeue-pop_for_send}
use ferrometer.Forwarder.Run.{
  Config, Response, success, status, failure, error, Drained, submit_all, settle, drain_and_send,
  State, Round, next, Step, after_drain, try_send, wait_or_send, step, go_on,
}

-- Every response but success.
abbrev IsFailure : Response → Type 0
IsFailure success = ⊥
IsFailure _ = Unit {0}

-- A round in which the request fails, nothing is submitted, and nobody notifies the loop.
pub record Outage : Type 0 where
  pub now : ℕ
  pub response : Response
  pub later : ℕ
  pub fails : IsFailure response

abbrev pub round : {A : Type 0} → Outage → Round A
round o = record {
  arrived = [];
  shutdown = false;
  now = o.now;
  notified = false;
  meanwhile = [];
  response = o.response;
  later = o.later;
}

-- The outcome is an error, and the buffer is the given one.
data IsReturned {A : Type 0} (s : BufferState A) (d : Drained A) : Type 0 where
  given_back : (e : Text) → d.outcome ≡ error e → d.buffer ≡ s → d.delivered ≡ [] → IsReturned s d

-- When the last request failed.
abbrev pub failed_at : Outage → List Outage → ℕ
failed_at o [] = o.later
failed_at o (next_one ∷ os) = failed_at next_one os

-- The loop goes on with the given buffer, has delivered nothing, and has set its backoff to that
-- behind one failure and `k` more, and its deadline to as long behind `at`.
pub data IsBackedOff {A : Type 0} (c : Config) (k at : ℕ) (s : BufferState A) (t : Step A)
    : Type 0 where
  still :
      (st : State A)
      → t.flow ≡ next st
      → st.buffer ≡ s
      → st.backoff ≡ capped c.backoff_initial c.backoff_max k
      → st.backoff_until ≡ some (at + capped c.backoff_initial c.backoff_max k)
      → t.delivered ≡ []
      → IsBackedOff c k at s t

module _ {A : Type 0} (c : Config) where
  settle-IsReturned :
      (popped : List (List A)) (s t : BufferState A) (response : Response)
      → IsFailure response
      → requeue c.caps popped s ≡ t
      → IsReturned t (settle c.caps popped s response)
  unfolding settle
  settle-IsReturned popped s t success f e = absurd f
  settle-IsReturned popped s t (status code body) f e = given_back _ refl e refl
  settle-IsReturned popped s t (failure x) f e = given_back _ refl e refl

  busy :
      (s : BufferState A)
      → IsValid c.caps s
      → is_empty s.batches ≡ false
      → is_empty (pop_for_send c.caps s).popped ≡ false
  busy s v full = go (pop_for_send c.caps s).popped (pop_for_send-Pops c.caps s v).moves
    where
      go : (p : List (List A)) → (◌≡◌ {A = ℕ} 0 0 → p ≡ [] → s.batches ≡ []) → is_empty p ≡ false
      go [] m = cc (ap is_empty (m refl refl))
      go (b ∷ p) m = refl

  drain-IsReturned :
      (s : BufferState A) (response : Response)
      → IsValid c.caps s
      → is_empty s.batches ≡ false
      → IsFailure response
      → IsReturned s (drain_and_send c.caps s [] response)
  unfolding drain_and_send submit_all
  drain-IsReturned s response v full f = rw (busy s v full) (
      settle-IsReturned (pop_for_send c.caps s).popped (pop_for_send c.caps s).left s response f
        (requeue-pop_for_send c.caps s v))

  abbrev backed_off : State A → Round A → State A
  backed_off st r =
      let backoff = next_backoff c.backoff_initial c.backoff_max st.backoff in
      record { buffer = st.buffer; backoff = backoff; backoff_until = some (r.later + backoff) }

  after_drain-backs_off :
      (st : State A) (r : Round A) (d : Drained A)
      → IsReturned st.buffer d
      → after_drain c st r d d.outcome ≡ record { delivered = []; flow = next (backed_off st r) }
  unfolding after_drain
  after_drain-backs_off st r d (given_back e o b l) = rw (o, after_drain) (ground (arith, b, l))

  wait_or_send-backs_off :
      (st : State A) (o : Outage) (w : Option ℕ)
      → IsValid c.caps st.buffer
      → is_empty st.buffer.batches ≡ false
      → wait_or_send c st (round o) w
        ≡ record { delivered = []; flow = next (backed_off st (round o)) }
  unfolding wait_or_send try_send
  wait_or_send-backs_off st o none v full =
      after_drain-backs_off st (round o) _ (drain-IsReturned st.buffer o.response v full o.fails)
  wait_or_send-backs_off st o (some wait) v full =
      after_drain-backs_off st (round o) _ (drain-IsReturned st.buffer o.response v full o.fails)

  step-backs_off :
      (st : State A) (o : Outage)
      → IsValid c.caps st.buffer
      → is_empty st.buffer.batches ≡ false
      → step c st (round o) ≡ record { delivered = []; flow = next (backed_off st (round o)) }
  unfolding step submit_all
  step-backs_off st o v full =
      rw full (wait_or_send-backs_off st o (waits st.backoff_until o.now) v full)

  -- A step before that delivers nothing.
  again :
      {k n at : ℕ} {s : BufferState A} {t : Step A}
      → k ≡ n
      → IsBackedOff c k at s t
      → IsBackedOff c n at s (record { delivered = t.delivered; flow = t.flow })
  again {at = at} e (still st f b x u d) =
      let same = ap (capped c.backoff_initial c.backoff_max) e in
      still st f b (x ∙ same) (u ∙ ap (λ d. some (at + d)) same) d

  go_on-backs_off :
      (k : ℕ) (st : State A) (o : Outage) (os : List Outage)
      → c.backoff_initial ≤ c.backoff_max
      → st.backoff ≡ capped c.backoff_initial c.backoff_max k
      → st.backoff_until ≡ some (o.later + capped c.backoff_initial c.backoff_max k)
      → IsValid c.caps st.buffer
      → is_empty st.buffer.batches ≡ false
      → IsBackedOff c (k + length os) (failed_at o os) st.buffer (go_on c (next st) (map round os))
  unfolding go_on
  go_on-backs_off k st o [] h e until v full =
      subst (λ n. IsBackedOff c n o.later st.buffer (record { delivered = []; flow = next st }))
        (omega arith) (still st refl refl e until refl)
  go_on-backs_off k st o (o' ∷ os) h e until v full = rw (step-backs_off st o' v full) (
      let grown =
        ap (next_backoff c.backoff_initial c.backoff_max) e
        ∙ next_backoff-capped c.backoff_initial c.backoff_max k h in
      again (omega arith) (
        go_on-backs_off (suc k) (backed_off st (round o')) o' os h grown
          (ap (λ b. some (o'.later + b)) grown) v full))

-- While the backend is down and nothing new is submitted, the loop keeps its buffer as it is, batch
-- for batch, and delivers nothing. Behind `k + 1` failures in a row its backoff is
-- backoff-initial * 2 ^ k, or backoff-max where that is less, and the deadline that it has set for
-- its next request is as long behind the last failure.
pub go_on-survives_outage :
    {A : Type 0} (c : Config) (s : BufferState A) (o : Outage) (os : List Outage)
    → c.backoff_initial ≤ c.backoff_max
    → IsValid c.caps s
    → is_empty s.batches ≡ false
    → IsBackedOff c (length os) (failed_at o os) s (
        go_on c
          (next (record { buffer = s; backoff = 0; backoff_until = none }))
          (map round (o ∷ os)))
unfolding go_on
go_on-survives_outage {A} c s o os h v full =
    let first : State A = record { buffer = s; backoff = 0; backoff_until = none } in
    let initial = sym (capped_zero c.backoff_initial c.backoff_max h) in
    rw (step-backs_off c first o v full) (
      again c (omega arith) (
        go_on-backs_off c 0 (backed_off c first (round o)) o os h initial
          (ap (λ b. some (o.later + b)) initial) v full))
