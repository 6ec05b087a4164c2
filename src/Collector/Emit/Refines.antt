-- ===== src/Collector/Emit/Refines.antt =====
-- src/collector: a collector as a function of the host alone. The cache is an optimisation: what is
-- emitted depends on its base labels, never on the sets seen before.
use ferrometer.Prelude.{
  ℕ, ◌≡◌, refl, ap, ap₂, ◌∙◌, List, [], ◌∷◌, ◌++◌, Option, none, some, Bool, true, false, All,
  All-append, if◌then◌else◌,
}
use ferrometer.Prelude.Text.{Text}
use ferrometer.Prelude.Maps.{text_ord, labels_ord, get, insert_all}
use ferrometer.Prelude.Maps.Sorted.{IsSorted}
use ferrometer.Error.{Result, ok, err}
use ferrometer.Signal.{Labels, Metric, new_gauge, new_counter}
use ferrometer.Collector.LabelCache.{LabelCache}
use ferrometer.Collector.LabelCache.Merge.{get-insert_all, intern-insert_all}
use ferrometer.Collector.Emit.{
  Emit, Collect, nothing, in_turn, each, if_some, with_interned, push_gauge, push_counter,
  collected,
}

-- Every label of the base, with its value.
abbrev pub HasBase : Labels → Labels → Type 0
HasBase base labels = (k v : Text) → get k base ≡ some v → get k labels ≡ some v

abbrev pub Carries : {F : Type 0} → Labels → Metric F → Type 0
Carries base m = HasBase base m.labels

-- From every cache over the base the same metrics, all with the base's labels.
pub data Emits {F : Type 0} (base : Labels) (m : Emit F) : Type 0 where
  emits :
      (ms : List (Metric F))
      → All (Carries base) ms
      → ((c : LabelCache) → c.base ≡ base → ((m c).0 ≡ ms) × ((m c).1.base ≡ base))
      → Emits base m

module _ {F : Type 0} (base : Labels) where
  pub Emits-nothing : Emits {F = F} base nothing
  unfolding nothing
  Emits-nothing = emits [] tt (λ c h. (refl, h))

  -- One emission behind the other.
  pub Emits-append :
      (m k : Emit F)
      → Emits base m
      → Emits base k
      → Emits base (λ c. ((m c).0 ++ (k (m c).1).0, (k (m c).1).1))
  Emits-append m k (emits ms p same) (emits ns q same') =
      emits (ms ++ ns) (All-append (Carries base) ms ns p q) (λ c h.
        let first = same c h in
        let second = same' (m c).1 first.1 in (ap₂ (λ x y. x ++ y) first.0 second.0, second.1))

  pub Emits-nil : Emits {F = F} base (in_turn [])
  unfolding in_turn
  Emits-nil = emits [] tt (λ c h. (refl, h))

  pub Emits-cons :
      {m : Emit F} (ms : List (Emit F))
      → Emits base m
      → Emits base (in_turn ms)
      → Emits base (in_turn (m ∷ ms))
  unfolding in_turn
  Emits-cons {m} ms p ps = Emits-append m (in_turn ms) p ps

  pub Emits-each :
      {A : Type 0} (f : A → Emit F)
      → ((x : A) → Emits base (f x))
      → (xs : List A) → Emits base (each f xs)
  unfolding each
  Emits-each f rule [] = emits [] tt (λ c h. (refl, h))
  Emits-each f rule (x ∷ xs) = Emits-append (f x) (each f xs) (rule x) (Emits-each f rule xs)

  pub Emits-if_some :
      {A : Type 0} (f : A → Emit F)
      → ((x : A) → Emits base (f x))
      → (o : Option A) → Emits base (if_some f o)
  unfolding if_some
  Emits-if_some f rule none = emits [] tt (λ c h. (refl, h))
  Emits-if_some f rule (some x) = rule x

  pub Emits-if :
      (b : Bool) (m k : Emit F) → Emits base m → Emits base k → Emits base (if b then m else k)
  Emits-if true m k p q = p
  Emits-if false m k p q = q

pub HasBase-merged :
    (base : Labels) → IsSorted base → (labels : Labels) → HasBase base (insert_all base labels)
HasBase-merged base sorted labels k v h = get-insert_all k base labels sorted ∙ rw h

module _ {F : Type 0} (base : Labels) (sorted : IsSorted base) where
  pub Emits-with_interned :
      (labels : Labels) (body : Labels → List (Metric F))
      → ((l : Labels) → HasBase base l → All (Carries base) (body l))
      → Emits base (with_interned labels body)
  unfolding with_interned
  Emits-with_interned labels body rule =
      emits (body (insert_all base labels))
        (rule (insert_all base labels) (HasBase-merged base sorted labels))
        (λ c h. (
          ap body ((intern-insert_all labels c).0 ∙ ap (λ b. insert_all b labels) h),
          (intern-insert_all labels c).1 ∙ h,
        ))

  pub Emits-push_gauge :
      (now : ℕ) (name : Text) (value : F) (labels : Labels)
      → Emits base (push_gauge now name value labels)
  unfolding push_gauge new_gauge
  Emits-push_gauge now name value labels =
      Emits-with_interned labels (λ l. new_gauge name value l now ∷ []) (λ l h. (h, tt))

  pub Emits-push_counter :
      (now : ℕ) (name : Text) (value : F) (labels : Labels)
      → Emits base (push_counter now name value labels)
  unfolding push_counter new_counter
  Emits-push_counter now name value labels =
      Emits-with_interned labels (λ l. new_counter name value l now ∷ []) (λ l h. (h, tt))

-- The same for a collection that may fail: every cache over the base gives the same result.
abbrev pub OkAll : {F : Type 0} → Labels → Result (List (Metric F)) → Type 0
OkAll base (err e) = Unit {0}
OkAll base (ok ms) = All (Carries base) ms

pub data Collects {F : Type 0} (base : Labels) (m : Collect F) : Type 0 where
  collects :
      (r : Result (List (Metric F)))
      → OkAll base r
      → ((c : LabelCache) → c.base ≡ base → ((m c).0 ≡ r) × ((m c).1.base ≡ base))
      → Collects base m

pub Collects-collected :
    {A F : Type 0} (base : Labels) (r : Result A) (body : A → Emit F)
    → ((a : A) → Emits base (body a))
    → Collects base (collected r body)
unfolding collected
Collects-collected base (err e) body rule = collects (err e) tt (λ c h. (refl, h))
Collects-collected base (ok a) body rule = ok_case (rule a)
  where
    ok_case : Emits base (body a) → Collects base (collected (ok a) body)
    ok_case (emits ms p same) = collects (ok ms) p (λ c h. (ap ok (same c h).0, (same c h).1))
