-- ===== src/Forwarder/Run/GoingOn.antt =====
-- src/forwarder/otlphttp.rs: the loop of `run` ends only with a shutdown.
use ferrometer.Prelude.{ℕ, ◌≡◌, refl, Option, none, some, Bool, true, false, if◌then◌else◌}
use ferrometer.Backoff.{waits}
use ferrometer.Forwarder.Run.{
  Config, Outcome, sent, error, Drained, drain_and_send, State, Round, next, Step, after_drain,
  try_send, wait_or_send, step,
}

-- The loop of a forwarder goes on.
abbrev pub IsGoingOn : {A : Type 0} → Step A → Type 0
IsGoingOn {A = A} s = (st : State A) × (s.flow ≡ next st)

module _ {A : Type 0} (c : Config) where
  after_drain-IsGoingOn :
      (st : State A) (r : Round A) (d : Drained A) (o : Outcome)
      → IsGoingOn (after_drain c st r d o)
  unfolding after_drain
  after_drain-IsGoingOn st r d (sent n) = (_, refl)
  after_drain-IsGoingOn st r d (error e) = (_, refl)

  if-IsGoingOn :
      (b : Bool) (x y : Step A) → IsGoingOn x → IsGoingOn y → IsGoingOn (if b then x else y)
  if-IsGoingOn true x y h k = h
  if-IsGoingOn false x y h k = k

  not_shut : (b : Bool) (x y : Step A) → b ≡ false → IsGoingOn y → IsGoingOn (if b then x else y)
  not_shut true x y e k = cc
  not_shut false x y e k = k

  try_send-IsGoingOn : (st : State A) (r : Round A) → IsGoingOn (try_send c st r)
  unfolding try_send
  try_send-IsGoingOn st r =
      let d = drain_and_send c.caps st.buffer r.meanwhile r.response in
      after_drain-IsGoingOn st r d d.outcome

  wait_or_send-IsGoingOn :
      (st : State A) (r : Round A) (w : Option ℕ) → IsGoingOn (wait_or_send c st r w)
  unfolding wait_or_send
  wait_or_send-IsGoingOn st r none = try_send-IsGoingOn st r
  wait_or_send-IsGoingOn st r (some wait) =
      if-IsGoingOn r.notified _ _ (_, refl) (try_send-IsGoingOn st r)

  pub step-IsGoingOn : (st : State A) (r : Round A) → r.shutdown ≡ false → IsGoingOn (step c st r)
  unfolding step
  step-IsGoingOn st r e =
      not_shut r.shutdown _ _ e
        (if-IsGoingOn _ _ _ (_, refl) (wait_or_send-IsGoingOn _ r (waits st.backoff_until r.now)))
