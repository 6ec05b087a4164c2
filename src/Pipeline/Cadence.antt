-- ===== src/Pipeline/Cadence.antt =====
-- src/pipeline.rs: when a collector runs next.
use ferrometer.Prelude.{
  ℕ, zero, suc, ◌+◌, ◌-◌, ◌*◌, ◌≤◌, ◌<◌, ◌≡◌, refl, ap, ◌∙◌, List, [], ◌∷◌, none, some, true, false,
  All, leb, ◌⊎◌, inl, inr, Bool-cases, if_true, if_false, arith,
}
use ferrometer.Pipeline.{Scheduled, catch_up, rounds, start_one, start_due, is_due, with_next_run}

-- A time behind `now`, a whole number of intervals after `next_run`, and the first such one.
pub record IsNext (interval next_run now t : ℕ) : Type 0 where
  pub periods : ℕ
  pub on_grid : t ≡ next_run + periods * interval
  pub ahead : now < t
  pub first : (periods ≡ 0) ⊎ (t ≤ now + interval)

-- With an interval that is not zero and one more round of fuel than `now` lies behind the next run,
-- the `while` of a due collector ends, at the first time ahead of `now` that lies a whole number of
-- intervals behind the run that was due.
pub catch_up-IsNext :
    (fuel interval next_run now : ℕ)
    → 1 ≤ interval
    → suc now - next_run < fuel
    → (t : ℕ) × (catch_up fuel interval next_run now ≡ some t) × IsNext interval next_run now t
unfolding catch_up
catch_up-IsNext zero interval next_run now i f = absurd (omega arith)
catch_up-IsNext (suc fuel) interval next_run now i f = elim (Bool-cases (leb next_run now)) [
  | inl due ↦
      let le : next_run ≤ now = ground arith in
      let (t, e, n) = catch_up-IsNext fuel interval (next_run + interval) now i (omega arith) in
      (
        t,
        rw due e,
        record {
          periods = suc n.periods;
          on_grid = omega (arith, n.on_grid);
          ahead = n.ahead;
          first = elim n.first [
            | inl z ↦ inr (omega (arith, n.on_grid, z, ap (λ p. p * interval) z))
            | inr le' ↦ inr le'
          ];
        },
      )
  | inr ahead ↦ (
    next_run,
    rw ahead refl,
    record { periods = 0; on_grid = omega arith; ahead = ground arith; first = inl refl },
  )
]

-- With an interval of zero the `while` of a due collector goes round for ever: no fuel is enough.
pub catch_up_zero_interval :
    (fuel next_run now : ℕ) → next_run ≤ now → catch_up fuel 0 next_run now ≡ none
unfolding catch_up
catch_up_zero_interval zero next_run now h = refl
catch_up_zero_interval (suc fuel) next_run now h =
    ground (arith, catch_up_zero_interval fuel (next_run + 0) now)

-- What step 1 makes of a collector: it keeps its name and its interval; if it was idle and due, it
-- is started and its next run is the first time on its grid that lies ahead, and otherwise it stays
-- as it was.
pub record IsStarted (now : ℕ) (s t : Scheduled) : Type 0 where
  pub same_name : t.name ≡ s.name
  pub same_interval : t.interval ≡ s.interval
  pub same_max_runtime : t.max_runtime ≡ s.max_runtime
  pub when_due :
      is_due now s ≡ true → (t.active ≡ true) × IsNext s.interval s.next_run now t.next_run
  pub otherwise : is_due now s ≡ false → t ≡ s

start_one-IsStarted :
    (now : ℕ) (s : Scheduled)
    → 1 ≤ s.interval
    → (t : Scheduled) × (start_one now s ≡ some t) × IsStarted now s t
unfolding start_one
start_one-IsStarted now s i = elim (Bool-cases (is_due now s)) [
  | inl due ↦
      let (t, e, n) =
        catch_up-IsNext (rounds s.next_run now) s.interval s.next_run now i (omega arith) in
      (
        record s { next_run = t; active = true },
        if_true _ _ due ∙ ap (with_next_run s) e,
        record {
          same_name = refl;
          same_interval = refl;
          same_max_runtime = refl;
          when_due = λ _. (refl, n);
          otherwise = λ no_due. cc;
        },
      )
  | inr rest ↦ (
    s,
    if_false _ _ rest,
    record {
      same_name = refl;
      same_interval = refl;
      same_max_runtime = refl;
      when_due = λ due. cc;
      otherwise = λ _. refl;
    },
  )
]

abbrev pub AllStarted : ℕ → List Scheduled → List Scheduled → Type 0
AllStarted now [] [] = Unit {0}
AllStarted now (s ∷ ss) (t ∷ ts) = IsStarted now s t × AllStarted now ss ts
AllStarted now _ _ = ⊥

-- With intervals that are not zero, step 1 ends for every clock. Each collector that is idle and due
-- is started, and its next run is set to the first time ahead of `now` that lies a whole number of
-- intervals behind the run that was due, so a late loop neither drifts nor starts it twice to catch
-- up; every other collector stays as it was.
pub start_due-AllStarted :
    (now : ℕ) (ss : List Scheduled)
    → All (λ s. 1 ≤ s.interval) ss
    → (ts : List Scheduled) × (start_due now ss ≡ some ts) × AllStarted now ss ts
unfolding start_due
start_due-AllStarted now [] h = ([], refl, tt)
start_due-AllStarted now (s ∷ ss) h =
    let (t, e, k) = start_one-IsStarted now s h.0 in
    let (ts, es, ks) = start_due-AllStarted now ss h.1 in (t ∷ ts, rw (e, es) refl, (k, ks))
