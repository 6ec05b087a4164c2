-- ===== src/Forwarder/Run/Keeps.antt =====
-- src/forwarder/otlphttp.rs: what the loop of `run` delivers and keeps, against what was submitted, for
-- every relation between batches that eviction respects.
use ferrometer.Prelude.{
  ℕ, ◌≡◌, refl, sym, List, [], ◌∷◌, ◌++◌, append-nil, append_assoc, Option, none, some, Bool, true,
  false, is_empty, if◌then◌else◌, subst, subst₂, arith,
}
use ferrometer.Backoff.{waits}
use ferrometer.Forwarder.Buffer.{BufferState, empty_buffer}
use ferrometer.Forwarder.Buffer.Bounds.{IsValid}
use ferrometer.Forwarder.Run.{
  Config, Outcome, sent, error, Drained, submit_all, drain_and_send, State, Round, Flow, next,
  returned, Step, waited, after_drain, try_send, wait_or_send, step, go_on, start, run,
}
use ferrometer.Forwarder.Run.Retained.{Retains, IsFrom, submit_all-IsFrom, drain-IsFrom}

abbrev pub buffer_of : {A : Type 0} → Flow A → BufferState A
buffer_of (next st) = st.buffer
buffer_of (returned s) = s

module _ {A : Type 0} (c : Config) where
  -- Everything that is submitted in the rounds that the loop goes through, in its order.
  unfoldable pub submitted : Flow A → List (Round A) → List (List A)
  submitted flow [] = []
  submitted (returned s) (r ∷ rs) = []
  submitted (next st) (r ∷ rs) = (r.arrived ++ r.meanwhile) ++ submitted (step c st r).flow rs

module _ {A : Type 0} (R : List (List A) → List (List A) → Type 0) (c : Config)
    (laws : Retains c.caps R) where
  abbrev StepFrom : List (List A) → Step A → Type 0
  StepFrom from s = IsFrom R c.caps from s.delivered (buffer_of s.flow)

  after_drain-StepFrom :
      (from : List (List A)) (st : State A) (r : Round A) (d : Drained A) (o : Outcome)
      → IsFrom R c.caps from d.delivered d.buffer
      → StepFrom from (after_drain c st r d o)
  unfolding after_drain
  after_drain-StepFrom from st r d (sent n) h = record { valid = h.valid; kept = h.kept }
  after_drain-StepFrom from st r d (error e) h = record { valid = h.valid; kept = h.kept }

  -- A round that sends nothing.
  waited-StepFrom :
      (st : State A) (r : Round A)
      → IsValid c.caps st.buffer
      → StepFrom (st.buffer.batches ++ r.meanwhile) (waited c st r)
  waited-StepFrom st r v =
      let a = submit_all-IsFrom R c.caps laws r.meanwhile st.buffer v in
      record { valid = a.valid; kept = a.kept }

  if-StepFrom :
      (from : List (List A)) (b : Bool) (x y : Step A)
      → StepFrom from x
      → StepFrom from y
      → StepFrom from (if b then x else y)
  if-StepFrom from true x y h k = h
  if-StepFrom from false x y h k = k

  try_send-StepFrom :
      (st : State A) (r : Round A)
      → IsValid c.caps st.buffer
      → StepFrom (st.buffer.batches ++ r.meanwhile) (try_send c st r)
  unfolding try_send
  try_send-StepFrom st r v =
      let d = drain_and_send c.caps st.buffer r.meanwhile r.response in
      after_drain-StepFrom (st.buffer.batches ++ r.meanwhile) st r d d.outcome
        (drain-IsFrom R c.caps laws st.buffer r.meanwhile r.response v)

  wait_or_send-StepFrom :
      (st : State A) (r : Round A) (w : Option ℕ)
      → IsValid c.caps st.buffer
      → StepFrom (st.buffer.batches ++ r.meanwhile) (wait_or_send c st r w)
  unfolding wait_or_send
  wait_or_send-StepFrom st r none v = try_send-StepFrom st r v
  wait_or_send-StepFrom st r (some wait) v =
      if-StepFrom (st.buffer.batches ++ r.meanwhile) r.notified _ _ (waited-StepFrom st r v)
        (try_send-StepFrom st r v)

  step-StepFrom :
      (st : State A) (r : Round A)
      → IsValid c.caps st.buffer
      → StepFrom (st.buffer.batches ++ (r.arrived ++ r.meanwhile)) (step c st r)
  unfolding step
  step-StepFrom st r v =
      let a = submit_all-IsFrom R c.caps laws r.arrived st.buffer v in
      let s : State A = record st { buffer = submit_all c.caps r.arrived st.buffer } in
      let from = s.buffer.batches ++ r.meanwhile in
      let d = drain-IsFrom R c.caps laws s.buffer r.meanwhile r.response a.valid in
      let k =
        if-StepFrom from r.shutdown _ _ (record { valid = d.valid; kept = d.kept })
          (if-StepFrom from (is_empty s.buffer.batches) _ _ (waited-StepFrom s r a.valid)
            (wait_or_send-StepFrom s r (waits s.backoff_until r.now) a.valid)) in
      record {
        valid = k.valid;
        kept = laws.trans k.kept (
            subst (R (s.buffer.batches ++ r.meanwhile))
              (append_assoc st.buffer.batches r.arrived r.meanwhile)
              (laws.append a.kept (laws.same r.meanwhile)));
      }

  stays :
      (flow : Flow A)
      → IsValid c.caps (buffer_of flow)
      → StepFrom ((buffer_of flow).batches ++ []) (record { delivered = []; flow = flow })
  stays flow v = record {
    valid = v;
    kept =
        subst (R (buffer_of flow).batches) (sym (append-nil (buffer_of flow).batches))
          (laws.same _);
  }

  go_on-StepFrom :
      (flow : Flow A) (rs : List (Round A))
      → IsValid c.caps (buffer_of flow)
      → StepFrom ((buffer_of flow).batches ++ submitted c flow rs) (go_on c flow rs)
  unfolding go_on submitted
  go_on-StepFrom flow [] v = stays flow v
  go_on-StepFrom (returned s) (r ∷ rs) v = stays (returned s) v
  go_on-StepFrom (next st) (r ∷ rs) v =
      let one = step-StepFrom st r v in
      let more = go_on-StepFrom (step c st r).flow rs one.valid in
      record {
        valid = more.valid;
        kept =
            subst (λ t. R t (st.buffer.batches ++ submitted c (next st) (r ∷ rs)))
              (sym (append_assoc (step c st r).delivered _ _))
              (laws.trans (laws.append (laws.same (step c st r).delivered) more.kept) (
                subst2
                  (append_assoc (step c st r).delivered (buffer_of (step c st r).flow).batches
                    (submitted c (step c st r).flow rs))
                  (append_assoc st.buffer.batches (r.arrived ++ r.meanwhile)
                    (submitted c (step c st r).flow rs))
                  (laws.append one.kept (laws.same (submitted c (step c st r).flow rs)))));
      }
    where
      subst2 : {xs ys zs ws : List (List A)} → xs ≡ ys → zs ≡ ws → R xs zs → R ys ws
      subst2 e f h = subst₂ R e f h

  pub run-IsFrom :
      (rs : List (Round A))
      → IsFrom R c.caps
          (submitted c (next (start c)) rs)
          (run c rs).delivered
          (buffer_of (run c rs).flow)
  unfolding run empty_buffer
  run-IsFrom rs =
      go_on-StepFrom (next (start c)) rs
        (record { counted = refl; fits = omega arith; nonempty = tt })
