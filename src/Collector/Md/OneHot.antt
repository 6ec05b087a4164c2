-- ===== src/Collector/Md/OneHot.antt =====
-- src/collector/unix/md.rs: the series for the states of an array, of which one is 1.
use ferrometer.Prelude.{
  ℕ, ◌≡◌, refl, sym, ap, ap₂, subst, ◌∙◌, List, [], ◌∷◌, ◌++◌, map, Option, none, some, Bool, true,
  false, not, ◌&&◌, any, if◌then◌else◌, Bool-cases, inl, inr, arith,
}
use ferrometer.Prelude.Text.{Text, codes, text_eq, text_eq_iff, cmp_text}
use ferrometer.Prelude.Maps.{text_ord, get, insert, get-insert, insert_all}
use ferrometer.Prelude.Maps.Sorted.{IsSorted}
use ferrometer.Collector.LabelCache.Merge.{or_else, get-insert_all, intern-insert_all}
use ferrometer.Signal.{Labels, Metric, new_gauge}
use ferrometer.Collector.LabelCache.{LabelCache, intern}
use ferrometer.Collector.Emit.{Floats, each, if_some, with_interned, push_gauge}
use ferrometer.Collector.Md.{md_states, activity_state}
use ferrometer.Collector.Md.Tally.{IsKnown, activity_state-IsKnown}
use ferrometer.Collector.Md.Series.{state_gauge, state_series}

-- What a series says: its name, the state that its labels name, and its value.
abbrev pub Entry : Type 0 → Type 0
Entry F = Text × Option Text × F

abbrev pub entry_of : {F : Type 0} → Metric F → Entry F
entry_of m = (m.name, get (codes "state") m.labels, m.value)

abbrev pub entries : {F : Type 0} → List (Metric F) → List (Entry F)
entries ms = map entry_of ms

-- The series of a state. A base label `state` would take the place of the state.
abbrev pub entry_for : {F : Type 0} → Labels → F → Text → Entry F
entry_for base value state =
    (codes "node_md_state", or_else (get (codes "state") base) (some state), value)

-- No two texts of the list are the same.
abbrev distinct : List Text → Bool
distinct [] = true
distinct (x ∷ xs) = not (any (text_eq x) xs) && distinct xs

module _ {F : Type 0} (base : Labels) (hot cold : F) (current : Text) where
  abbrev mark : Text → Entry F
  mark state = entry_for base (if text_eq state current then hot else cold) state

  abbrev all_cold_for : List Text → List (Entry F)
  all_cold_for states = map (entry_for base cold) states

  all_cold : (xs : List Text) → any (text_eq current) xs ≡ false → map mark xs ≡ all_cold_for xs
  all_cold [] h = refl
  all_cold (x ∷ xs) h =
      let differ : text_eq x current ≡ false =
        ground (arith, text_eq_iff current x, text_eq_iff x current) in
      ap₂ (λ b es. entry_for base (if b then hot else cold) x ∷ es) differ
        (all_cold xs (ground arith))

  abbrev pub OneHot : List Text → List (Entry F) → Type 0
  OneHot states es =
      (front back : List Text) × (states ≡ front ++ current ∷ back)
      × (es ≡ all_cold_for front ++ entry_for base hot current ∷ all_cold_for back)

  one_hot :
      (xs : List Text)
      → any (text_eq current) xs ≡ true
      → distinct xs ≡ true
      → OneHot xs (map mark xs)
  one_hot [] h d = absurd cc
  one_hot (x ∷ xs) h d = elim (Bool-cases (text_eq current x)) [
    | inl e ↦
        let same : current ≡ x = (text_eq_iff current x).0 e in
        let hit : text_eq x current ≡ true = ground (arith, same, text_eq_iff x current) in
        (
          [],
          xs,
          ap (λ t. t ∷ xs) (sym same),
          ap₂ (λ a b. a ∷ b)
              (ap (λ b. entry_for base (if b then hot else cold) x) hit
                ∙ ap (entry_for base hot) (sym same))
              (all_cold xs (ap (λ t. any (text_eq t) xs) same ∙ ground arith)),
        )
    | inr e ↦
        let (front, back, p, q) = one_hot xs (ground arith) (ground arith) in
        let miss : text_eq x current ≡ false =
          ground (arith, text_eq_iff current x, text_eq_iff x current) in
        (
          x ∷ front,
          back,
          ap (λ t. x ∷ t) p,
          ap₂ (λ b es. entry_for base (if b then hot else cold) x ∷ es) miss q,
        )
  ]

-- What the series are for an activity.
abbrev pub Shows : {F : Type 0} → Floats F → Labels → Option Text → List (Entry F) → Type 0
Shows f base none es = es ≡ []
Shows f base (some current) es = OneHot base (f.of 1) (f.of 0) current md_states es

module _ {F : Type 0} (f : Floats F) (now : ℕ) (labels : Labels) (current : Text) where
  state_labels :
      (base : Labels) (state : Text)
      → IsSorted base
      → get (codes "state") (insert_all base (insert (codes "state") state labels))
        ≡ or_else (get (codes "state") base) (some state)
  unfolding codes cmp_text
  state_labels base state sorted =
      get-insert_all (codes "state") base (insert (codes "state") state labels) sorted
      ∙ ap (or_else (get (codes "state") base))
          (get-insert (codes "state") (codes "state") state labels)

  entries-each :
      (states : List Text) (c : LabelCache)
      → IsSorted c.base
      → entries (each (state_gauge f now labels current) states c).0
        ≡ map (mark c.base (f.of 1) (f.of 0) current) states
  unfolding each state_gauge push_gauge with_interned new_gauge
  entries-each [] c sorted = refl
  entries-each (x ∷ states) c sorted =
      let merged = intern-insert_all (insert (codes "state") x labels) c in
      ap₂ (λ l es. (codes "node_md_state", l, if text_eq x current then f.of 1 else f.of 0) ∷ es)
        (ap (get (codes "state")) merged.0 ∙ state_labels c.base x sorted)
        (entries-each states (intern (insert (codes "state") x labels) c).1
            (subst IsSorted (sym merged.1) sorted)
          ∙ ap (λ b. map (mark b (f.of 1) (f.of 0) current) states) merged.1)

shown :
    {F : Type 0} (f : Floats F) (now : ℕ) (labels : Labels) (c : LabelCache) (o : Option Text)
    → IsSorted c.base
    → IsKnown o
    → Shows f c.base o (entries (state_series f now labels o c).0)
unfolding state_series if_some codes text_eq
shown f now labels c none sorted h = refl
shown f now labels c (some current) sorted h =
    let (front, back, p, q) =
      one_hot c.base (f.of 1) (f.of 0) current md_states h distinct_states in
    (front, back, p, entries-each f now labels current md_states c sorted ∙ q)
  where
    distinct_states : distinct md_states ≡ true
    distinct_states = refl

-- Whatever the two files of an array say, and from every cache whose base labels are in order: without
-- an activity there is no series for its state. Otherwise there is one for each of the seven states,
-- in their order, with that state as its label `state` unless the base labels set this one; the one of
-- the activity has the value 1 and all others have 0. An inactive array shows as inactive whatever its
-- last action was.
pub state_series-OneHot :
    {F : Type 0} (f : Floats F) (now : ℕ) (labels : Labels) (c : LabelCache)
    → IsSorted c.base
    → (array_state sync_action : Option Text)
    → Shows f c.base
        (activity_state array_state sync_action)
        (entries (state_series f now labels (activity_state array_state sync_action) c).0)
      × (array_state ≡ some (codes "inactive")
          → activity_state array_state sync_action ≡ some (codes "inactive"))
state_series-OneHot f now labels c sorted array_state sync_action =
    let known = activity_state-IsKnown array_state sync_action in
    (shown f now labels c (activity_state array_state sync_action) sorted known.0, known.1)
