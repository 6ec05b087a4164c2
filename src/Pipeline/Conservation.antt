-- ===== src/Pipeline/Conservation.antt =====
-- src/pipeline.rs: what is submitted, against what the collectors' tasks hand over.
use ferrometer.Prelude.{
  ℕ, ◌≤◌, ◌≡◌, refl, sym, ap, subst, ◌∙◌, List, [], ◌∷◌, ◌++◌, append-nil, append_assoc, map,
  Option, none, some, Bool, true, false, is_empty, concat, concat-append, All, if◌then◌else◌, arith,
}
use ferrometer.Prelude.Text.{Text}
use ferrometer.Pipeline.{
  Scheduled, Finished, State, Event, shutdown, received, soft_elapsed, due_elapsed, Flow, next,
  returned, stuck, Step, ready, submit_batch, release, finished_of, or_none, handle_result,
  handle_event, emit_or_wait, with_started, step, go_on,
}
use ferrometer.Pipeline.Cadence.{AllStarted, start_due-AllStarted}

abbrev pub IsPositive : Scheduled → Type 0
IsPositive s = 1 ≤ s.interval

release-IsPositive :
    (name : Text) (ss : List Scheduled) → All IsPositive ss → All IsPositive (release name ss)
unfolding release
release-IsPositive name [] h = tt
release-IsPositive name (s ∷ ss) h = ground (arith, release-IsPositive name ss h.1)

module _ {A : Type 0} where
  -- The metrics of the collectors that have finished and are not submitted yet.
  abbrev pub held : List (Finished A) → List A
  held fs = concat (map (λ f. f.metrics) fs)

  abbrev pub pending : Flow A → List A
  pending (next st) = held st.finished
  pending returned = []
  pending stuck = []

  -- What goes out and what is held come, in order, from what was held and what came in. The loop is
  -- not stuck, and its intervals stay positive.
  abbrev pub Balanced : List A → Step A → Type 0
  Balanced before s = concat s.emitted ++ pending s.flow ≡ before ++ s.taken

  abbrev pub IsGoing : Flow A → Type 0
  IsGoing (next st) = All IsPositive st.scheduleds
  IsGoing returned = Unit {0}
  IsGoing stuck = ⊥

  concat-submit_batch : (fs : List (Finished A)) → concat (submit_batch fs) ≡ held fs
  unfolding submit_batch
  concat-submit_batch fs = go (held fs)
    where
      go : (batch : List A) → concat (if is_empty batch then [] else batch ∷ []) ≡ batch
      go [] = refl
      go (m ∷ ms) = append-nil (m ∷ ms)

  held-append : (fs gs : List (Finished A)) → held (fs ++ gs) ≡ held fs ++ held gs
  held-append [] gs = refl
  held-append (f ∷ fs) gs =
      ap (λ t. f.metrics ++ t) (held-append fs gs)
      ∙ sym (append_assoc f.metrics (held fs) (held gs))

  held-finished_of : (t : ℕ) (o : Option (List A)) → held (finished_of t o) ≡ or_none o
  held-finished_of t none = refl
  held-finished_of t (some []) = refl
  held-finished_of t (some (m ∷ ms)) = append-nil (m ∷ ms)

  handle_event-Balanced :
      (st : State A) (event : Event A) → Balanced (held st.finished) (handle_event st event)
  unfolding handle_event handle_result
  handle_event-Balanced st shutdown = go st.finished
    where
      go :
          (fs : List (Finished A))
          → concat (if is_empty fs then [] else submit_batch fs) ++ [] ≡ held fs ++ []
      go [] = refl
      go (f ∷ fs) = ap (λ t. t ++ []) (concat-submit_batch (f ∷ fs))
  handle_event-Balanced st (received res) =
      held-append st.finished (finished_of res.started_at res.metrics)
      ∙ ap (λ t. held st.finished ++ t) (held-finished_of res.started_at res.metrics)
  handle_event-Balanced st soft_elapsed = sym (append-nil (held st.finished))
  handle_event-Balanced st due_elapsed = sym (append-nil (held st.finished))

  handle_event-IsGoing :
      (st : State A) (event : Event A)
      → All IsPositive st.scheduleds
      → IsGoing (handle_event st event).flow
  unfolding handle_event handle_result
  handle_event-IsGoing st shutdown h = tt
  handle_event-IsGoing st (received res) h = release-IsPositive res.name st.scheduleds h
  handle_event-IsGoing st soft_elapsed h = h
  handle_event-IsGoing st due_elapsed h = h

  record IsSound (before : List A) (s : Step A) : Type 0 where
    balanced : Balanced before s
    going : IsGoing s.flow

  if-IsSound :
      (before : List A) (b : Bool) (x y : Step A)
      → (b ≡ true → IsSound before x)
      → (b ≡ false → IsSound before y)
      → IsSound before (if b then x else y)
  if-IsSound before true x y h k = h refl
  if-IsSound before false x y h k = k refl

  emit_or_wait-IsSound :
      (now : ℕ) (st : State A) (event : Event A)
      → All IsPositive st.scheduleds
      → IsSound (held st.finished) (emit_or_wait now st event)
  unfolding emit_or_wait
  emit_or_wait-IsSound now st event h =
      if-IsSound (held st.finished) (ready now st.scheduleds st.finished) _ _
        (λ _. record { balanced = ap (λ t. t ++ []) (concat-submit_batch st.finished); going = h })
        (λ _.
          if-IsSound (held st.finished) _ _ _
            (λ idle. record { balanced = nothing_held st.finished (ground arith); going = tt })
            (λ _. record {
              balanced = handle_event-Balanced st event;
              going = handle_event-IsGoing st event h;
            }))
    where
      nothing_held : (fs : List (Finished A)) → is_empty fs ≡ true → [] ≡ held fs ++ []
      nothing_held [] e = refl
      nothing_held (f ∷ fs) e = cc

AllStarted-IsPositive :
    (now : ℕ) (ss ts : List Scheduled)
    → AllStarted now ss ts
    → All IsPositive ss
    → All IsPositive ts
AllStarted-IsPositive now [] [] k h = tt
AllStarted-IsPositive now [] (t ∷ ts) k h = absurd k
AllStarted-IsPositive now (s ∷ ss) [] k h = absurd k
AllStarted-IsPositive now (s ∷ ss) (t ∷ ts) k h =
    (subst (λ i. 1 ≤ i) (sym k.0.same_interval) h.0, AllStarted-IsPositive now ss ts k.1 h.1)

module _ {A : Type 0} where
  step-IsSound :
      (now : ℕ) (st : State A) (event : Event A)
      → All IsPositive st.scheduleds
      → IsSound (held st.finished) (step now st event)
  unfolding step
  step-IsSound now st event h =
      let (ts, e, k) = start_due-AllStarted now st.scheduleds h in
      subst (λ o. IsSound (held st.finished) (with_started now st event o)) (sym e)
        (emit_or_wait-IsSound now (record st { scheduleds = ts }) event
          (AllStarted-IsPositive now st.scheduleds ts k h))

  -- Over any iterations, with whatever clock and events and with intervals that are not zero: the
  -- metrics submitted so far, followed by those that wait for their batch, are exactly those that
  -- waited at the start followed by those that were received from the channel of the collectors'
  -- tasks, in that order. So no metric that comes out of the channel is lost, sent twice or reordered;
  -- a shutdown submits what waits; and step 1 never hangs.
  pub go_on-conserves :
      (flow : Flow A) (es : List (ℕ × Event A))
      → IsGoing flow
      → Balanced (pending flow) (go_on flow es) × IsGoing (go_on flow es).flow
  unfolding go_on
  go_on-conserves flow [] g = (sym (append-nil (pending flow)), g)
  go_on-conserves returned (e ∷ es) g = (refl, tt)
  go_on-conserves stuck (e ∷ es) g = absurd g
  go_on-conserves (next st) ((now, event) ∷ es) g =
      let one = step-IsSound now st event g in
      let (more, going) = go_on-conserves (step now st event).flow es one.going in
      let s = step now st event in
      let m = go_on s.flow es in
      (
        ap (λ t. t ++ pending m.flow) (concat-append s.emitted m.emitted)
            ∙ append_assoc (concat s.emitted) (concat m.emitted) (pending m.flow)
            ∙ ap (λ t. concat s.emitted ++ t) more
            ∙ sym (append_assoc (concat s.emitted) (pending s.flow) m.taken)
            ∙ ap (λ t. t ++ m.taken) one.balanced
            ∙ append_assoc (held st.finished) s.taken m.taken,
        going,
      )
