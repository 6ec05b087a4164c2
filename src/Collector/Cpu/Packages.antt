-- ===== src/Collector/Cpu/Packages.antt =====
-- src/collector/unix/cpu.rs: the throttle counts of packages, of which each CPU of a package has the
-- same.
use ferrometer.Prelude.{
  ℕ, zero, suc, ◌+◌, ◌≡◌, refl, sym, ap, ap₂, subst, ◌∙◌, List, [], ◌∷◌, ◌++◌, map, Option, none,
  some, Bool, true, false, ◌||◌, All, if◌then◌else◌, append-nil, arith,
}
use mathlib.Core.List.{map-append}
use ferrometer.Prelude.Text.{Text, codes, text_eq, text_eq_iff}
use ferrometer.Prelude.Maps.{text_ord}
use ferrometer.Signal.{Labels, Metric, new_gauge, new_counter}
use ferrometer.Collector.Files.{Directory}
use ferrometer.Collector.LabelCache.{LabelCache}
use ferrometer.Collector.Emit.{
  Floats, Emit, nothing, in_turn, each, if_some, with_interned, push_gauge, push_counter,
}
use ferrometer.Collector.Cpu.{
  CpuTime, package_of, package_count, package_total, freq_fields, saw, is_seen, modes, mode_time,
  in_hertz, frequency, governor, core_throttles, package_throttles, if_new, of_cpu, cpus,
}

-- The values of the metrics of one name.
abbrev pub named : {F : Type 0} → Text → List (Metric F) → List F
named name [] = []
named name (m ∷ ms) =
    let rest = named name ms in if text_eq m.name name then m.value ∷ rest else rest

named-append :
    {F : Type 0} (name : Text) (ms ns : List (Metric F))
    → named name (ms ++ ns) ≡ named name ms ++ named name ns
named-append name [] ns = refl
named-append name (m ∷ ms) ns = ground (arith, named-append name ms ns)

-- What an emission pushes of the name, from every cache.
data Pushes {F : Type 0} (name : Text) (vs : List F) (m : Emit F) : Type 0 where
  pushes : ((c : LabelCache) → named name (m c).0 ≡ vs) → Pushes name vs m

module _ {F : Type 0} (name : Text) where
  Pushes-nil : Pushes {F = F} name [] (in_turn [])
  unfolding in_turn
  Pushes-nil = pushes λ c. refl

  Pushes-cons :
      {m : Emit F} (ms : List (Emit F)) (vs ws : List F)
      → Pushes name vs m
      → Pushes name ws (in_turn ms)
      → Pushes name (vs ++ ws) (in_turn (m ∷ ms))
  unfolding in_turn
  Pushes-cons {m} ms vs ws (pushes p) (pushes q) =
      pushes λ c.
        named-append name (m c).0 (in_turn ms (m c).1).0 ∙ ap₂ (λ x y. x ++ y) (p c) (q (m c).1)

  Pushes-each :
      {A : Type 0} (f : A → Emit F) (xs : List A)
      → All (λ x. Pushes name [] (f x)) xs
      → Pushes name [] (each f xs)
  unfolding each
  Pushes-each f [] h = pushes λ c. refl
  Pushes-each f (x ∷ xs) (pushes p, ps) = go (Pushes-each f xs ps)
    where
      go : Pushes name [] (each f xs) → Pushes name [] (each f (x ∷ xs))
      go (pushes q) = pushes λ c.
          named-append name (f x c).0 (each f xs (f x c).1).0
          ∙ ap₂ (λ a b. a ++ b) (p c) (q (f x c).1)

  Pushes-if_some :
      {A : Type 0} (f : A → Emit F) (o : Option A)
      → ((x : A) → Pushes name [] (f x))
      → Pushes name [] (if_some f o)
  unfolding if_some
  Pushes-if_some f none h = pushes λ c. refl
  Pushes-if_some f (some x) h = go (h x)
    where
      go : Pushes name [] (f x) → Pushes name [] (if_some f (some x))
      go (pushes q) = pushes q

  module _ (now : ℕ) (other : Text) (value : F) (labels : Labels)
      (e : text_eq other name ≡ false) where
    Pushes-gauge : Pushes name [] (push_gauge now other value labels)
    unfolding push_gauge with_interned new_gauge
    Pushes-gauge = pushes λ c. ground (arith, e)

    Pushes-counter : Pushes name [] (push_counter now other value labels)
    unfolding push_counter with_interned new_counter
    Pushes-counter = pushes λ c. ground (arith, e)

  Pushes-last : {m : Emit F} (vs : List F) → Pushes name vs m → Pushes name vs (in_turn (m ∷ []))
  unfolding in_turn
  Pushes-last {m} vs (pushes p) = pushes λ c. ap (λ ms. named name ms) (append-nil (m c).0) ∙ p c

Pushes-count :
    {F : Type 0} (now : ℕ) (name : Text) (value : F) (labels : Labels)
    → Pushes name (value ∷ []) (push_counter now name value labels)
unfolding push_counter with_interned new_counter
Pushes-count now name value labels = pushes λ c. ground (arith, text_eq_iff name name)

-- The package that a CPU belongs to, if its file can be read, is `pkg`.
abbrev pub is_of : Text → Option Text → Bool
is_of pkg none = false
is_of pkg (some p) = text_eq pkg p

-- Does a CPU before the one of index `i` belong to the package?
abbrev pub has_earlier : Directory → Text → ℕ → Bool
has_earlier sys pkg zero = false
has_earlier sys pkg (suc j) = is_of pkg (package_of sys j) || has_earlier sys pkg j

abbrev pub listed : Option ℕ → List ℕ
listed none = []
listed (some n) = n ∷ []

abbrev pub count_of : Directory → ℕ → Option Text → List ℕ
count_of sys i none = []
count_of sys i (some pkg) = if has_earlier sys pkg i then [] else listed (package_count sys i)

-- The counts of the packages, each read from its first CPU, from the CPU `i` on.
abbrev pub counts_from : Directory → ℕ → List CpuTime → List ℕ
counts_from sys i [] = []
counts_from sys i (cpu ∷ stats) = count_of sys i (package_of sys i) ++ counts_from sys (i + 1) stats

-- The set of the code holds the packages of the CPUs before.
Seen : Directory → ℕ → List Text → Type 0
Seen sys i seen = (pkg : Text) → is_seen pkg seen ≡ has_earlier sys pkg i

Seen-saw :
    (sys : Directory) (i : ℕ) (seen : List Text)
    → Seen sys i seen
    → Seen sys (i + 1) (saw (package_of sys i) seen)
unfolding Seen
Seen-saw sys i seen h pkg = go (package_of sys i) ∙ ap (λ n. has_earlier sys pkg n) next
  where
    next : suc i ≡ i + 1
    next = omega arith

    go : (o : Option Text) → is_seen pkg (saw o seen) ≡ (is_of pkg o || has_earlier sys pkg i)
    go none = h pkg
    go (some p) = ap (λ b. text_eq pkg p || b) (h pkg)

module _ {F : Type 0} (f : Floats F) (tps : F) (now : ℕ) (sys : Directory) where
  new-Pushes :
      (i : ℕ) (seen : List Text)
      → Seen sys i seen
      → (o : Option Text)
      → Pushes package_total (map f.of (count_of sys i o)) (if_some (if_new f tps now sys i seen) o)
  unfolding Seen if_new if_some package_throttles nothing
  new-Pushes i seen h none = pushes λ c. refl
  new-Pushes i seen h (some pkg) =
      subst
        (λ b. Pushes package_total (map f.of (count_of sys i (some pkg))) (
          if b
          then nothing
          else if_some (package_throttles f tps now sys pkg) (package_count sys i)))
        (sym (h pkg)) (go (has_earlier sys pkg i) (package_count sys i))
    where
      counted :
          {count : ℕ}
          → Pushes package_total (f.of count ∷ []) (package_throttles f tps now sys pkg count)
          → Pushes package_total
              (f.of count ∷ [])
              (if_some (package_throttles f tps now sys pkg) (some count))
      counted (pushes p) = pushes p

      go :
          (b : Bool) (o : Option ℕ)
          → Pushes package_total
              (map f.of (if b then [] else listed o))
              (if b then nothing else if_some (package_throttles f tps now sys pkg) o)
      go true o = pushes λ c. refl
      go false none = pushes λ c. refl
      go false (some count) = counted (Pushes-count now package_total (f.of count) _)

  of_cpu-Pushes :
      (i : ℕ) (cpu : CpuTime) (seen : List Text)
      → Seen sys i seen
      → Pushes package_total
          (map f.of (count_of sys i (package_of sys i)))
          (of_cpu f tps now sys i cpu seen)
  unfolding of_cpu mode_time frequency in_hertz governor core_throttles codes text_eq
  of_cpu-Pushes i cpu seen h =
      Pushes-cons package_total _ [] _
        (Pushes-each package_total (mode_time f tps now sys i) (modes f tps now sys cpu) (
          time _ _,
          (time _ _, (time _ _, (time _ _, (time _ _, (time _ _, (time _ _, (time _ _, tt))))))),
        ))
        (Pushes-cons package_total _ [] _
          (Pushes-each package_total (frequency f tps now sys i) freq_fields (
            hertz _ _ refl,
            (hertz _ _ refl, (hertz _ _ refl, (hertz _ _ refl, (hertz _ _ refl, tt)))),
          ))
          (Pushes-cons package_total _ [] _
            (Pushes-if_some package_total (governor f tps now sys i) _
              (λ name. Pushes-gauge package_total now _ _ _ refl))
            (Pushes-cons package_total _ [] _
              (Pushes-if_some package_total (core_throttles f tps now sys i) _
                (λ count. Pushes-counter package_total now _ _ _ refl))
              (Pushes-last package_total _ (new-Pushes i seen h (package_of sys i))))))
    where
      time :
          (mode : Text) (value : F)
          → Pushes package_total [] (mode_time f tps now sys i (mode, value))
      time mode value = Pushes-counter package_total now _ _ _ refl

      hertz :
          (file name : Text)
          → text_eq name package_total ≡ false
          → Pushes package_total [] (frequency f tps now sys i (file, name))
      hertz file name e =
          Pushes-if_some package_total (in_hertz f tps now sys i name) _
            (λ khz. Pushes-gauge package_total now name _ _ e)

  cpus-Pushes :
      (i : ℕ) (seen : List Text) (stats : List CpuTime)
      → Seen sys i seen
      → (c : LabelCache)
      → named package_total (cpus f tps now sys i seen stats c).0
        ≡ map f.of (counts_from sys i stats)
  unfolding cpus
  cpus-Pushes i seen [] h c = refl
  cpus-Pushes i seen (cpu ∷ stats) h c =
      named-append package_total (of_cpu f tps now sys i cpu seen c).0 _
      ∙ ap₂ (λ x y. x ++ y) (first (of_cpu-Pushes i cpu seen h))
          (cpus-Pushes (i + 1) (saw (package_of sys i) seen) stats (Seen-saw sys i seen h)
            (of_cpu f tps now sys i cpu seen c).1)
      ∙ sym (map-append f.of (count_of sys i (package_of sys i)) (counts_from sys (i + 1) stats))
    where
      first :
          {vs : List F}
          → Pushes package_total vs (of_cpu f tps now sys i cpu seen)
          → named package_total (of_cpu f tps now sys i cpu seen c).0 ≡ vs
      first (pushes p) = p c

  -- From every cache: the values of the throttle counts of packages are, in the order of the CPUs,
  -- the counts that can be read for those CPUs whose package no CPU before them belongs to. So a
  -- package is reported at most once, and never from a later CPU than its first.
  pub cpus-packages :
      (stats : List CpuTime) (c : LabelCache)
      → named package_total (cpus f tps now sys 0 [] stats c).0 ≡ map f.of (counts_from sys 0 stats)
  unfolding Seen
  cpus-packages stats c = cpus-Pushes 0 [] stats (λ pkg. refl) c
