-- ===== src/Collector/Md/Tally.antt =====
-- src/collector/unix/md.rs: the states of an array, and the count of its disks.
use ferrometer.Prelude.{
  ℕ, ◌+◌, ◌≡◌, refl, ◌∙◌, List, [], ◌∷◌, map, Option, none, some, true, any, is_some, sum_by,
  if◌then◌else◌, if_split, if_true, arith,
}
use ferrometer.Prelude.Text.{Text, codes, text_eq, text_eq_iff, cmp_text}
use ferrometer.Prelude.Maps.{Map, text_ord, get, insert}
use ferrometer.Collector.Md.{
  md_states, running, by_action, activity_state, has_flag, or_zero, tally_states, no_disks,
}

abbrev pub keys : Map Text ℕ → List Text
keys m = map (λ e. e.0) m

abbrev pub total : Map Text ℕ → ℕ
total m = sum_by (λ e. e.1) m

-- The three counts.
abbrev pub counts : ℕ → ℕ → ℕ → Map Text ℕ
counts active failed spare =
    (codes "active", active) ∷ (codes "failed", failed) ∷ (codes "spare", spare) ∷ []

-- The states of the disks that can be read.
abbrev pub readable : List (Option Text) → ℕ
readable os = sum_by (λ o. if is_some o then 1 else 0) os

-- What a tally makes of a map: three counts, whose sum is `n`.
Counts : List (Option Text) → ℕ → Map Text ℕ → Type 0
Counts os n m = (a f s : ℕ) × (tally_states os m ≡ counts a f s) × (a + f + s ≡ n)

recount :
    (os : List (Option Text)) {n k : ℕ} (m : Map Text ℕ) → n ≡ k → Counts os n m → Counts os k m
unfolding Counts
recount os m e (a, f, s, h, sum) = (a, f, s, h, sum ∙ e)

tally-counts :
    (os : List (Option Text)) (a f s : ℕ) → Counts os (a + f + s + readable os) (counts a f s)
unfolding Counts tally_states cmp_text
tally-counts [] a f s = (a, f, s, refl, omega arith)
tally-counts (none ∷ os) a f s = recount os _ (omega arith) (tally-counts os a f s)
tally-counts (some state ∷ os) a f s =
    if_split Rest (has_flag state (codes "faulty"))
      (λ _. recount os _ (omega arith) (tally-counts os a (f + 1) s))
      (λ _.
        if_split Rest (has_flag state (codes "in_sync"))
          (λ _. recount os _ (omega arith) (tally-counts os (a + 1) f s))
          (λ _. recount os _ (omega arith) (tally-counts os a f (s + 1))))
  where
    Rest : Text → Type 0
    Rest bucket =
        Counts os (a + f + s + readable (some state ∷ os))
          (insert bucket (or_zero (get bucket (counts a f s)) + 1) (counts a f s))

-- Whatever the disks report, the tally holds just the three series active, failed and spare, in this
-- order, and their sum is the number of disks whose state can be read: each is counted once.
pub tally_states-counts :
    (os : List (Option Text))
    → (a f s : ℕ) × (tally_states os no_disks ≡ counts a f s) × (a + f + s ≡ readable os)
unfolding Counts
tally_states-counts os = recount os _ (omega arith) (tally-counts os 0 0 0)

-- Nothing, or one of the states that are reported.
abbrev pub IsKnown : Option Text → Type 0
IsKnown none = Unit {0}
IsKnown (some state) = any (text_eq state) md_states ≡ true

running-IsKnown : (array_state : Option Text) → IsKnown (running array_state)
unfolding text_eq codes
running-IsKnown none = tt
running-IsKnown (some s) = refl

by_action-IsKnown :
    (array_state sync_action : Option Text) → IsKnown (by_action array_state sync_action)
unfolding text_eq codes
by_action-IsKnown o none = running-IsKnown o
by_action-IsKnown o (some a) =
    if_split IsKnown (text_eq a (codes "resync")) (λ _. refl)
      (λ _.
        if_split IsKnown (text_eq a (codes "recover")) (λ _. refl)
          (λ _.
            if_split IsKnown (text_eq a (codes "check")) (λ _. refl)
              (λ _.
                if_split IsKnown (text_eq a (codes "repair")) (λ _. refl)
                  (λ _.
                    if_split IsKnown (text_eq a (codes "reshape")) (λ _. refl)
                      (λ _. running-IsKnown o)))))

-- The state that an array is said to be in is always one of the states that are reported, and an
-- inactive array counts as inactive whatever its last action was.
pub activity_state-IsKnown :
    (array_state sync_action : Option Text)
    → IsKnown (activity_state array_state sync_action)
      × (array_state ≡ some (codes "inactive")
          → activity_state array_state sync_action ≡ some (codes "inactive"))
unfolding activity_state
activity_state-IsKnown none action = (by_action-IsKnown none action, λ e. absurd cc)
activity_state-IsKnown (some s) action = (
  if_split IsKnown (text_eq s (codes "inactive")) (λ _. refl)
      (λ _. by_action-IsKnown (some s) action),
  λ e. if_true _ _ ((text_eq_iff s (codes "inactive")).1 (some-inj e)),
)
  where
    some-inj : some s ≡ some (codes "inactive") → s ≡ codes "inactive"
    some-inj e = cc
