-- ===== src/Log/Shipper.antt =====
-- src/log/shipper.rs: the loop that moves batches from a source to a sink. A round of the loop is a
-- function of what the source, the sink, the clock and the shutdown signal answer in it; it returns
-- the calls that it made.
pub mod Settling
pub mod Ledger
pub mod Delivery
pub mod Backoff
mod Tests
use ferrometer.Prelude.{
  ℕ, zero, suc, ◌+◌, ◌-◌, ◌*◌, ◌/◌, ◌%◌, ◌^◌, min, List, [], ◌∷◌, ◌++◌, Option, none, some, Bool,
  true, false, length, take, drop, is_empty, leb, ltb, ◌==◌, if◌then◌else◌,
}
use ferrometer.Prelude.Text.{Text, codes}
use ferrometer.Prelude.Words.{u64_max}
use ferrometer.Backoff.{waits, next_backoff}
use ferrometer.Error.{Error, sink_payload_too_large, sink_rejected, Result, ok, err}
use ferrometer.Log.Source.{LogEntry, Batch, Cursor}

-- Durations and instants are in nanoseconds.
pub record Shipper : Type 0 where
  pub backoff_initial : ℕ
  pub backoff_max : ℕ

pub record Progress : Type 0 where
  pub sent : ℕ
  pub chunk : ℕ
  pub requests : ℕ
  pub splits : ℕ
  pub dropped : ℕ
  pub rejected : ℕ

-- `Progress::default()`
abbrev pub fresh : Progress
fresh = record { sent = 0; chunk = u64_max; requests = 0; splits = 0; dropped = 0; rejected = 0 }

-- The variables of `run` that live across rounds.
pub record State : Type 0 where
  pub backoff : ℕ
  pub backoff_until : Option ℕ
  pub progress : Progress

abbrev pub start : State
start = record { backoff = 0; backoff_until = none; progress = fresh }

-- `tokio::select!` over a call and the shutdown signal.
pub data Select {ℓ} (A : Type ℓ) : Type ℓ where
  ready : A → Select A
  shutdown : Select A

-- The answers of one round, in the order in which the loop asks for them.
pub record Round : Type 0 where
  pub now : ℕ
  pub slept : Select (Unit {0})
  pub peeked : Select (Result (Option Batch))
  pub sent : Select (Result (Unit {0}))
  pub acked : Result (Unit {0})
  pub later : ℕ

pub data Call : Type 0 where
  sleep : ℕ → Call
  cancelled : List LogEntry → Call
  send : List LogEntry → Result (Unit {0}) → Call
  ack : Cursor → Result (Unit {0}) → Call

pub data Flow : Type 0 where
  next : State → Flow
  stop : Result (Unit {0}) → Flow

pub record Step : Type 0 where
  pub calls : List Call
  pub flow : Flow

abbrev pub u32_mod : ℕ
u32_mod = 2 ^ 32

-- `finish_batch`, and the `?` behind it.
unfoldable pub finish_batch : State → Batch → Result (Unit {0}) → Step
finish_batch st b (ok u) = record {
  calls = ack b.end_cursor (ok u) ∷ [];
  flow = next (record st { progress = fresh });
}
finish_batch st b (err e) = record { calls = ack b.end_cursor (err e) ∷ []; flow = stop (err e) }

-- `if progress.sent >= total { finish_batch } `, and on to the next round.
unfoldable pub finish_if_sent : State → Batch → Result (Unit {0}) → Step
unfolding finish_batch
finish_if_sent st b acked =
    if leb (length b.entries) st.progress.sent
    then finish_batch st b acked
    else record { calls = []; flow = next st }

-- The `if` and the `min` on `backoff`.
abbrev pub delay : Shipper → ℕ → ℕ
delay sh backoff = next_backoff sh.backoff_initial sh.backoff_max backoff

-- `match send_result`, with `n` entries in the request.
unfoldable pub after_send : Shipper → State → Round → Batch → ℕ → Result (Unit {0}) → Step
unfolding finish_if_sent
after_send sh st r b n (ok u) =
    finish_if_sent
      (record {
        backoff = 0;
        backoff_until = none;
        progress = record (st.progress) { sent = st.progress.sent + n };
      })
      b r.acked
after_send sh st r b n (err (sink_payload_too_large msg)) =
    if n == 1
    then finish_if_sent
        (record st {
          progress = record (st.progress) {
            sent = st.progress.sent + 1;
            dropped = st.progress.dropped + 1;
          };
        })
        b r.acked
    else record {
      calls = [];
      flow = next (record st {
        progress = record (st.progress) {
          chunk = n / 2;
          splits = (st.progress.splits + 1) % u32_mod;
        };
      });
    }
after_send sh st r b n (err (sink_rejected msg)) =
    finish_if_sent
      (record {
        backoff = 0;
        backoff_until = none;
        progress = record (st.progress) {
          sent = st.progress.sent + n;
          rejected = st.progress.rejected + n;
        };
      })
      b r.acked
after_send sh st r b n (err e) = record {
  calls = [];
  flow = next (record st {
    backoff = delay sh st.backoff;
    backoff_until = some (r.later + delay sh st.backoff);
  });
}

-- Puts calls before those of a step.
abbrev pub behind : List Call → Step → Step
behind cs s = record s { calls = cs ++ s.calls }

-- The request of a round, and what follows it.
unfoldable pub request :
    Shipper → State → Round → Batch → ℕ → List LogEntry → Select (Result (Unit {0})) → Step
unfolding after_send
request sh st r b n slice shutdown = record { calls = cancelled slice ∷ []; flow = stop (ok tt) }
request sh st r b n slice (ready result) = behind (send slice result ∷ []) (
    after_send sh
      (record st {
        progress = record (st.progress) { requests = (st.progress.requests + 1) % u32_mod };
      })
      r b n result)

-- From `let total` on: the next slice of the batch.
unfoldable pub ship : Shipper → State → Round → Batch → Step
unfolding request
ship sh st r b =
    let total = length b.entries in
    let pending = drop (min st.progress.sent total) b.entries in
    let n = min (length pending) st.progress.chunk in
    if is_empty pending
    then finish_batch st b r.acked
    else request sh st r b n (take n pending) r.sent

-- From `peek_batch` on.
unfoldable pub peek : Shipper → State → Round → Select (Result (Option Batch)) → Step
unfolding ship
peek sh st r shutdown = record { calls = []; flow = stop (ok tt) }
peek sh st r (ready (err e)) = record { calls = []; flow = stop (err e) }
peek sh st r (ready (ok none)) = record { calls = []; flow = stop (ok tt) }
peek sh st r (ready (ok (some b))) = ship sh st r b

unfoldable pub pause : Shipper → State → Round → Option ℕ → Select (Unit {0}) → Step
unfolding peek
pause sh st r none s = peek sh st r r.peeked
pause sh st r (some wait) shutdown = record { calls = sleep wait ∷ []; flow = stop (ok tt) }
pause sh st r (some wait) (ready u) = behind (sleep wait ∷ []) (peek sh st r r.peeked)

-- One round of the loop of `Shipper::run`.
unfoldable pub step : Shipper → State → Round → Step
unfolding pause
step sh st r = pause sh st r (waits st.backoff_until r.now) r.slept

-- The rounds of `run`: the calls made, and how the loop stands.
unfoldable pub go_on : Shipper → Flow → List Round → Step
unfolding step
go_on sh flow [] = record { calls = []; flow = flow }
go_on sh (stop res) (r ∷ rs) = record { calls = []; flow = stop res }
go_on sh (next st) (r ∷ rs) = behind (step sh st r).calls (go_on sh (step sh st r).flow rs)

-- `Shipper::run` over the rounds that the environment grants.
unfoldable pub run : Shipper → List Round → Step
unfolding go_on
run sh rs = go_on sh (next start) rs
