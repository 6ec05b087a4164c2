-- ===== src/Pipeline/Deadline.antt =====
-- src/pipeline.rs: what holds when the loop waits in `tokio::select!`.
use ferrometer.Prelude.{
  ℕ, ◌≤◌, ◌<◌, ◌≡◌, ◌≢◌, refl, sym, ap, subst, min, List, [], ◌∷◌, map, Option, none, some, Bool,
  true, false, not, ◌&&◌, ◌||◌, is_empty, is_some, All, keep, ◌⊎◌, inl, inr, Bool-cases, if_split,
  arith,
}
use ferrometer.Pipeline.{
  Scheduled, Finished, State, Event, Step, ready, minimum, earliest_soft, elapsed_by, any_active,
  next_due, submit_batch, handle_event, emit_or_wait, step, is_due, with_started, next, returned,
}
use ferrometer.Pipeline.Cadence.{AllStarted, start_due-AllStarted}

-- No idle collector is due.
abbrev pub NoneDue : ℕ → List Scheduled → Type 0
NoneDue now ss = All (λ s. s.active ≡ false → now < s.next_run) ss

AllStarted-NoneDue : (now : ℕ) (ss ts : List Scheduled) → AllStarted now ss ts → NoneDue now ts
AllStarted-NoneDue now [] [] k = tt
AllStarted-NoneDue now [] (t ∷ ts) k = absurd k
AllStarted-NoneDue now (s ∷ ss) [] k = absurd k
AllStarted-NoneDue now (s ∷ ss) (t ∷ ts) k =
    (started (Bool-cases (is_due now s)), AllStarted-NoneDue now ss ts k.1)
  where
    started : (is_due now s ≡ true) ⊎ (is_due now s ≡ false) → t.active ≡ false → now < t.next_run
    started (inl due) idle = (k.0.when_due due).1.ahead
    started (inr rest) idle =
        let same = k.0.otherwise rest in
        ground (arith, ap (λ u. u.active) same, ap (λ u. u.next_run) same)

minimum-bound :
    (now : ℕ) (ts : List ℕ) → elapsed_by now (minimum ts) ≡ false → All (λ t. now < t) ts
minimum-bound now [] h = tt
minimum-bound now (t ∷ ts) h = go (minimum ts) (minimum-bound now ts) h
  where
    go :
        (o : Option ℕ)
        → (elapsed_by now o ≡ false → All (λ u. now < u) ts)
        → elapsed_by now (elim o [ none ↦ some t | some u ↦ some (min t u) ]) ≡ false
        → (now < t) × All (λ u. now < u) ts
    go none ih k = (ground arith, ih refl)
    go (some u) ih k = (ground arith, ih (ground arith))

minimum-cons : (t : ℕ) (ts : List ℕ) → is_some (minimum (t ∷ ts)) ≡ true
minimum-cons t ts = go (minimum ts)
  where
    go : (o : Option ℕ) → is_some (elim o [ none ↦ some t | some u ↦ some (min t u) ]) ≡ true
    go none = refl
    go (some u) = refl

-- With no collector in flight and no time at which one is due there are no collectors.
no_collectors :
    (ss : List Scheduled) → any_active ss ≡ false → is_some (next_due ss) ≡ false → ss ≡ []
unfolding any_active next_due
no_collectors [] h k = refl
no_collectors (s ∷ ss) h k =
    absurd (
      ground (arith, minimum-cons s.next_run (map (λ t. t.next_run) (keep (λ t. not t.active) ss))))

module _ {A : Type 0} where
  -- The loop waits: no idle collector is due, and what has finished is held back only for a
  -- collector in flight, with every soft deadline ahead.
  pub record IsWaiting (now : ℕ) (ss : List Scheduled) (fs : List (Finished A)) : Type 0 where
    pub none_due : NoneDue now ss
    pub in_time : (fs ≡ []) ⊎ ((any_active ss ≡ true) × All (λ f. now < f.soft_deadline_at) fs)

  -- What an iteration does with the collectors `ss`, once step 1 has started those that are due.
  pub data Does (now : ℕ) (ss : List Scheduled) (fs : List (Finished A)) (event : Event A)
      : Step A → Type 0 where
    emits :
        fs ≢ []
        → (any_active ss ≡ false) ⊎ (elapsed_by now (earliest_soft fs) ≡ true)
        → Does now ss fs event (record {
          taken = [];
          emitted = submit_batch fs;
          flow = next (record { scheduleds = ss; finished = [] });
        })
    ends :
        ss ≡ []
        → fs ≡ []
        → Does now ss fs event (record { taken = []; emitted = []; flow = returned })
    waits :
        IsWaiting now ss fs
        → Does now ss fs event (handle_event (record { scheduleds = ss; finished = fs }) event)

  not_ready :
      (now : ℕ) (ss : List Scheduled) (fs : List (Finished A))
      → ready now ss fs ≡ false
      → (fs ≡ []) ⊎ ((any_active ss ≡ true) × All (λ f. now < f.soft_deadline_at) fs)
  unfolding ready earliest_soft
  not_ready now ss [] h = inl refl
  not_ready now ss (f ∷ fs) h = inr (
    ground arith,
    deadlines (f ∷ fs) (
        minimum-bound now (map (λ f. f.soft_deadline_at) (f ∷ fs))
          (or_false (not (any_active ss)) _ h)),
  )
    where
      or_false : (b c : Bool) → (b || c) ≡ false → c ≡ false
      or_false b c k = ground arith

      deadlines :
          (fs : List (Finished A))
          → All (λ t. now < t) (map (λ f. f.soft_deadline_at) fs)
          → All (λ f. now < f.soft_deadline_at) fs
      deadlines [] h = tt
      deadlines (f ∷ fs) h = (h.0, deadlines fs h.1)

  emit_or_wait-Does :
      (now : ℕ) (ss : List Scheduled) (fs : List (Finished A)) (event : Event A)
      → NoneDue now ss
      → Does now ss fs event (emit_or_wait now (record { scheduleds = ss; finished = fs }) event)
  unfolding emit_or_wait
  emit_or_wait-Does now ss fs event none_due =
      if_split (Does now ss fs event) (ready now ss fs)
        (λ is_ready. emits (has_some fs is_ready) (due_to_go is_ready))
        λ waits_on.
          if_split (Does now ss fs event)
            (not (any_active ss) && (is_empty fs && not (is_some (next_due ss))))
            (λ idle.
              ends (no_collectors ss (ground arith) (ground arith)) (no_batch fs (ground arith)))
            λ _. waits (record { none_due = none_due; in_time = not_ready now ss fs waits_on })
    where
      has_some : (fs : List (Finished A)) → ready now ss fs ≡ true → fs ≢ []
      has_some [] h e = absurd cc
      has_some (f ∷ fs) h e = absurd cc

      due_to_go :
          ready now ss fs ≡ true
          → (any_active ss ≡ false) ⊎ (elapsed_by now (earliest_soft fs) ≡ true)
      due_to_go h = elim (Bool-cases (any_active ss)) [
        | inl active ↦ inr (ground arith)
        | inr inactive ↦ inl inactive
      ]

      no_batch : (fs : List (Finished A)) → is_empty fs ≡ true → fs ≡ []
      no_batch [] e = refl
      no_batch (f ∷ fs) e = absurd cc

-- With intervals that are not zero an iteration starts the due collectors and then does one of
-- three things. It submits what has finished, if there is something and either no collector is in
-- flight or a soft deadline has passed. It ends, if there are no collectors and nothing has
-- finished. Or it waits for an event, and then no idle collector is due and what has finished is
-- held only while a collector is in flight and every soft deadline lies ahead.
pub step-Does :
    {A : Type 0} (now : ℕ) (st : State A) (event : Event A)
    → All (λ s. 1 ≤ s.interval) st.scheduleds
    → (ts : List Scheduled) × AllStarted now st.scheduleds ts
      × Does now ts st.finished event (step now st event)
unfolding step
step-Does now st event h =
    let (ts, e, k) = start_due-AllStarted now st.scheduleds h in
    (
      ts,
      k,
      subst (λ o. Does now ts st.finished event (with_started now st event o)) (sym e)
          (emit_or_wait-Does now ts st.finished event (AllStarted-NoneDue now st.scheduleds ts k)),
    )
