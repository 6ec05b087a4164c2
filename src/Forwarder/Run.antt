-- ===== src/Forwarder/Run.antt =====
-- src/forwarder/otlphttp.rs: one request (`drain_and_send`), and the loop of `run`.
pub mod Retained
pub mod Exact
pub mod GoingOn
pub mod Keeps
pub mod Order
pub mod Retry
pub mod Shutdown
mod Tests
use ferrometer.Prelude.{
  ℕ, ◌+◌, ◌≡◌, refl, List, [], ◌∷◌, ◌++◌, Option, none, some, Bool, true, false, is_empty,
  if◌then◌else◌,
}
use ferrometer.Prelude.Text.{Text, codes}
use ferrometer.Backoff.{waits, next_backoff}
use ferrometer.Forwarder.Buffer.{
  BufferState, Caps, Popped, empty_buffer, submit, pop_for_send, requeue,
}
use ferrometer.Forwarder.Buffer.Bounds.{count}

pub record Config : Type 0 where
  pub caps : Caps
  pub backoff_initial : ℕ
  pub backoff_max : ℕ

-- What `req.send()` comes to: a status of success, another status with the body, or no response.
pub data Response : Type 0 where
  success : Response
  status : Text → Text → Response
  failure : Text → Response

pub data Outcome : Type 0 where
  sent : ℕ → Outcome
  error : Text → Outcome

-- The buffer behind a request, its outcome, and the batches that the backend took.
pub record Drained (A : Type 0) : Type 0 where
  pub buffer : BufferState A
  pub outcome : Outcome
  pub delivered : List (List A)

module _ {A : Type 0} where
  -- Submissions of other tasks, in their order.
  pub submit_all : Caps → List (List A) → BufferState A → BufferState A
  submit_all caps [] s = s
  submit_all caps (b ∷ bs) s = submit_all caps bs (submit caps b s)

  -- `match send_result`, with the buffer as it stands when the response is there.
  pub settle : Caps → List (List A) → BufferState A → Response → Drained A
  settle caps popped s success = record {
    buffer = s;
    outcome = sent (count popped);
    delivered = popped;
  }
  settle caps popped s (status code body) = record {
    buffer = requeue caps popped s;
    outcome = error (codes "HTTP " ++ (code ++ (codes ": " ++ body)));
    delivered = [];
  }
  settle caps popped s (failure e) = record {
    buffer = requeue caps popped s;
    outcome = error e;
    delivered = [];
  }

  -- `drain_and_send`; `meanwhile` are the batches submitted while it waits for the response, or
  -- behind it if there is no request.
  unfoldable pub drain_and_send : Caps → BufferState A → List (List A) → Response → Drained A
  unfolding settle submit_all
  drain_and_send caps s meanwhile response =
      let p = pop_for_send caps s in
      if is_empty p.popped
      then record { buffer = submit_all caps meanwhile p.left; outcome = sent 0; delivered = [] }
      else settle caps p.popped (submit_all caps meanwhile p.left) response

-- The variables of `run`, with the buffer that it shares with `submit`.
pub record State (A : Type 0) : Type 0 where
  pub buffer : BufferState A
  pub backoff : ℕ
  pub backoff_until : Option ℕ

-- What happens in one round: the batches that were submitted before it, whether the shutdown flag
-- is set, the clock, whether a notification ends a wait for the backoff, the batches submitted
-- during the request or the wait, the response, and the clock behind it.
pub record Round (A : Type 0) : Type 0 where
  pub arrived : List (List A)
  pub shutdown : Bool
  pub now : ℕ
  pub notified : Bool
  pub meanwhile : List (List A)
  pub response : Response
  pub later : ℕ

pub data Flow (A : Type 0) : Type 0 where
  next : State A → Flow A
  returned : BufferState A → Flow A

pub record Step (A : Type 0) : Type 0 where
  pub delivered : List (List A)
  pub flow : Flow A

module _ {A : Type 0} (c : Config) where
  -- `match self.drain_and_send().await`
  pub after_drain : State A → Round A → Drained A → Outcome → Step A
  after_drain st r d (sent n) = record {
    delivered = d.delivered;
    flow = next (record { buffer = d.buffer; backoff = 0; backoff_until = none });
  }
  after_drain st r d (error e) =
      let backoff = next_backoff c.backoff_initial c.backoff_max st.backoff in
      record {
        delivered = d.delivered;
        flow = next (record {
          buffer = d.buffer;
          backoff = backoff;
          backoff_until = some (r.later + backoff);
        });
      }

  pub try_send : State A → Round A → Step A
  unfolding after_drain
  try_send st r =
      let d = drain_and_send c.caps st.buffer r.meanwhile r.response in after_drain st r d d.outcome

  -- A wait for a notification goes back to the head of the loop.
  abbrev pub waited : State A → Round A → Step A
  waited st r = record {
    delivered = [];
    flow = next (record st { buffer = submit_all c.caps r.meanwhile st.buffer });
  }

  -- A notification also ends the wait for the backoff.
  pub wait_or_send : State A → Round A → Option ℕ → Step A
  unfolding try_send submit_all
  wait_or_send st r none = try_send st r
  wait_or_send st r (some wait) = if r.notified then waited st r else try_send st r

  -- One round of `run`.
  pub step : State A → Round A → Step A
  unfolding wait_or_send submit_all
  step st r =
      let s = record st { buffer = submit_all c.caps r.arrived st.buffer } in
      let last = drain_and_send c.caps s.buffer r.meanwhile r.response in
      if r.shutdown
      then record { delivered = last.delivered; flow = returned last.buffer }
      else if is_empty s.buffer.batches
      then waited s r
      else wait_or_send s r (waits s.backoff_until r.now)

  pub go_on : Flow A → List (Round A) → Step A
  unfolding step
  go_on flow [] = record { delivered = []; flow = flow }
  go_on (returned s) (r ∷ rs) = record { delivered = []; flow = returned s }
  go_on (next st) (r ∷ rs) =
      let s = step st r in
      let more = go_on s.flow rs in
      record { delivered = s.delivered ++ more.delivered; flow = more.flow }

  abbrev pub start : State A
  start = record { buffer = empty_buffer; backoff = 0; backoff_until = none }

  unfoldable pub run : List (Round A) → Step A
  unfolding go_on
  run rs = go_on (next start) rs
