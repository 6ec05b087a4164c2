-- ===== src/Log/Shipper/Backoff.antt =====
-- src/log/shipper.rs: what the loop does while the sink cannot be reached.
use ferrometer.Prelude.{
  ℕ, suc, ◌+◌, ◌%◌, ◌≤◌, ◌<◌, ◌≡◌, refl, ap, ◌∙◌, min, List, [], ◌∷◌, Option, none, some, length,
  take, drop, length-drop, is_empty, if◌then◌else◌, All, arith,
}
use ferrometer.Backoff.{waits, capped, next_backoff-capped}
use ferrometer.Error.{Error, sink_payload_too_large, sink_rejected, ok, err}
use ferrometer.Log.Source.{LogEntry, Batch}
use ferrometer.Log.Shipper.{
  Shipper, State, Round, ready, next, after_send, request, ship, peek, pause, step, go_on, delay,
  u32_mod, run, start, finish_batch,
}

-- Every error of a sink but the two that say that a retry cannot succeed.
abbrev IsTransient : Error → Type 0
IsTransient (sink_payload_too_large msg) = ⊥
IsTransient (sink_rejected msg) = ⊥
IsTransient _ = Unit {0}

-- A round in which the source has entries beyond the first `sent`, and the request fails so.
pub record IsFailing (sent : ℕ) (r : Round) : Type 0 where
  pub awake : r.slept ≡ ready tt
  pub batch : Batch
  pub serves : r.peeked ≡ ready (ok (some batch))
  pub pending : sent < length batch.entries
  pub error : Error
  pub fails : r.sent ≡ ready (err error)
  pub transient : IsTransient error

after_send-transient :
    (sh : Shipper) (st : State) (r : Round) (b : Batch) (n : ℕ) (e : Error)
    → IsTransient e
    → (after_send sh st r b n (err e)).flow
      ≡ next (record st {
        backoff = delay sh st.backoff;
        backoff_until = some (r.later + delay sh st.backoff);
      })
unfolding after_send
after_send-transient sh st r b n (sink_payload_too_large msg) t = absurd t
after_send-transient sh st r b n (sink_rejected msg) t = absurd t
after_send-transient sh st r b n _ t = refl

-- What a failing round makes of the state: a longer backoff, counted from the failure.
abbrev backed_off : Shipper → State → Round → State
backed_off sh st r = record {
  backoff = delay sh st.backoff;
  backoff_until = some (r.later + delay sh st.backoff);
  progress = record (st.progress) { requests = (st.progress.requests + 1) % u32_mod };
}

module _ (sh : Shipper) (st : State) (r : Round) (f : IsFailing st.progress.sent r) where
  ship-backs_off : (ship sh st r f.batch).flow ≡ next (backed_off sh st r)
  unfolding ship request
  ship-backs_off = rw (f.fails) (
      go (drop (min st.progress.sent (length f.batch.entries)) f.batch.entries) (
        omega (
          arith,
          f.pending,
          length-drop (min st.progress.sent (length f.batch.entries)) f.batch.entries,
        )))
    where
      go :
          (rest : List LogEntry)
          → 1 ≤ length rest
          → (if is_empty rest
              then finish_batch st f.batch r.acked
              else request sh st r f.batch
                  (min (length rest) st.progress.chunk)
                  (take (min (length rest) st.progress.chunk) rest)
                  (ready (err f.error))).flow
            ≡ next (backed_off sh st r)
      go [] h = absurd (omega arith)
      go (x ∷ rest) h = after_send-transient sh _ r f.batch _ f.error f.transient

  pause-backs_off : (w : Option ℕ) → (pause sh st r w r.slept).flow ≡ next (backed_off sh st r)
  unfolding pause peek
  pause-backs_off none = rw (f.serves, peek) ship-backs_off
  pause-backs_off (some wait) = rw (f.awake, pause) (rw (f.serves, peek) ship-backs_off)

  step-backs_off : (step sh st r).flow ≡ next (backed_off sh st r)
  unfolding step
  step-backs_off = pause-backs_off (waits st.backoff_until r.now)

-- The state behind `k` more failures.
pub record IsBackedOff (sh : Shipper) (k : ℕ) (from to : State) : Type 0 where
  pub backoff : to.backoff ≡ capped sh.backoff_initial sh.backoff_max k
  pub sent : to.progress.sent ≡ from.progress.sent
  pub chunk : to.progress.chunk ≡ from.progress.chunk
  pub dropped : to.progress.dropped ≡ from.progress.dropped

go_on-backs_off :
    (sh : Shipper) (k : ℕ) (st : State) (rs : List Round)
    → sh.backoff_initial ≤ sh.backoff_max
    → st.backoff ≡ capped sh.backoff_initial sh.backoff_max k
    → All (IsFailing st.progress.sent) rs
    → (st' : State) × ((go_on sh (next st) rs).flow ≡ next st')
      × IsBackedOff sh (k + length rs) st st'
unfolding go_on
go_on-backs_off sh k st [] h e fs = (
  st,
  refl,
  record {
    backoff = e ∙ ap (capped sh.backoff_initial sh.backoff_max) (omega arith);
    sent = refl;
    chunk = refl;
    dropped = refl;
  },
)
go_on-backs_off sh k st (r ∷ rs) h e fs =
    let (st', f, b) =
      go_on-backs_off sh (suc k) (backed_off sh st r) rs h
        (ap (delay sh) e ∙ next_backoff-capped sh.backoff_initial sh.backoff_max k h) fs.1 in
    (
      st',
      rw (step-backs_off sh st r fs.0) f,
      record {
        backoff = b.backoff ∙ ap (capped sh.backoff_initial sh.backoff_max) (omega arith);
        sent = b.sent;
        chunk = b.chunk;
        dropped = b.dropped;
      },
    )

-- While every request fails with an error that a retry can mend, nothing is counted as sent or
-- dropped, the request size stays, and the backoff behind `k + 1` failures in a row is
-- backoff-initial * 2 ^ k, or backoff-max where that is less.
pub run-backs_off_exponentially :
    (sh : Shipper) (r : Round) (rs : List Round)
    → sh.backoff_initial ≤ sh.backoff_max
    → All (IsFailing 0) (r ∷ rs)
    → (st : State) × ((run sh (r ∷ rs)).flow ≡ next st) × IsBackedOff sh (length rs) start st
unfolding run go_on
run-backs_off_exponentially sh r rs h fs =
    let (st, f, b) = go_on-backs_off sh 0 (backed_off sh start r) rs h (omega arith) fs.1 in
    (
      st,
      rw (step-backs_off sh start r fs.0) f,
      record {
        backoff = b.backoff ∙ ap (capped sh.backoff_initial sh.backoff_max) (omega arith);
        sent = b.sent;
        chunk = b.chunk;
        dropped = b.dropped;
      },
    )
