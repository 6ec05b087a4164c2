-- ===== src/Collector/Emit.antt =====
-- src/collector: how a collector pushes metrics, each with a label set from the cache. The code's
-- `&mut LabelCache` is a state that is passed on; `now` is what the clock says during a collection.
pub mod Refines
use ferrometer.Prelude.{ℕ, List, [], ◌∷◌, ◌++◌, Option, none, some, Bool}
use ferrometer.Prelude.Text.{Text}
use ferrometer.Error.{Error, Result, ok, err}
use ferrometer.Signal.{Labels, Metric, new_gauge, new_counter}
use ferrometer.Collector.LabelCache.{LabelCache, intern}

-- What the code does with an `f64`: conversions, arithmetic, the test of two values, and the parser.
pub record Floats (F : Type 0) : Type 0 where
  pub of : ℕ → F
  pub minus : ℕ → F
  pub times : F → F → F
  pub over : F → F → F
  pub is : F → F → Bool
  pub parse_f64 : Text → Option F

-- What is pushed, and the cache behind it.
abbrev pub Emit : Type 0 → Type 0
Emit F = LabelCache → List (Metric F) × LabelCache

unfoldable pub nothing : {F : Type 0} → Emit F
nothing c = ([], c)

-- One push behind the other.
unfoldable pub in_turn : {F : Type 0} → List (Emit F) → Emit F
in_turn [] c = ([], c)
in_turn (m ∷ ms) c = let (here, c') = m c in let (more, c'') = in_turn ms c' in (here ++ more, c'')

unfoldable pub each : {A F : Type 0} → (A → Emit F) → List A → Emit F
each f [] c = ([], c)
each f (x ∷ xs) c = let (here, c') = f x c in let (more, c'') = each f xs c' in (here ++ more, c'')

-- `if let Some(x) = o { .. }`
unfoldable pub if_some : {A F : Type 0} → (A → Emit F) → Option A → Emit F
if_some f none c = ([], c)
if_some f (some x) c = f x c

-- `let labels = cache.intern(labels);` before what shares them.
unfoldable pub with_interned : {F : Type 0} → Labels → (Labels → List (Metric F)) → Emit F
unfolding intern
with_interned labels body c = let (l, c') = intern labels c in (body l, c')

module _ {F : Type 0} (now : ℕ) where
  -- `out.push(Metric::gauge(name, value, cache.intern(labels)))`
  unfoldable pub push_gauge : Text → F → Labels → Emit F
  unfolding with_interned new_gauge
  push_gauge name value labels = with_interned labels (λ l. new_gauge name value l now ∷ [])

  unfoldable pub push_counter : Text → F → Labels → Emit F
  unfolding with_interned new_counter
  push_counter name value labels = with_interned labels (λ l. new_counter name value l now ∷ [])

-- A collection that may fail.
abbrev pub Collect : Type 0 → Type 0
Collect F = LabelCache → Result (List (Metric F)) × LabelCache

-- `let x = read()?; ..; Ok(metrics)`
unfoldable pub collected : {A F : Type 0} → Result A → (A → Emit F) → Collect F
collected (err e) body c = (err e, c)
collected (ok a) body c = let (ms, c') = body a c in (ok ms, c')

-- `format!("{what}: {e}")`
abbrev pub after_colon : Text → Text → Text
after_colon what e = what ++ b':' ∷ b' ' ∷ e
