-- ===== src/Collector/Prometheus/Transitions.antt =====
-- src/collector/prometheus.rs: what a run logs and reports about the target.
use ferrometer.Prelude.{
  ℕ, suc, ◌+◌, ◌%◌, ◌≡◌, refl, ap, ap₂, ◌∙◌, List, [], ◌∷◌, ◌++◌, Option, none, some, Bool, true,
  false, length, map, All, arith,
}
use ferrometer.Prelude.Text.{Text, codes}
use ferrometer.Prelude.Words.{u64_mod}
use ferrometer.Error.{Result, ok, err}
use ferrometer.Signal.{Labels, Metric}
use ferrometer.Collector.Prometheus.{
  Sample, Scraper, Logged, quiet, down, recovered, still_failing, Poll, Floats, Tick, on_success,
  on_failure, parsed_samples, health, at_outcome, collect, ticks, samples_to_metrics, new_scraper,
}

-- The outcomes before a tick, the last one first: how many of the last ones are failures.
pub streak : List Bool → ℕ
streak [] = 0
streak (true ∷ past) = 0
streak (false ∷ past) = suc (streak past)

-- What should be logged at an outcome behind such a past.
pub expected : List Bool → Bool → Logged
expected [] true = quiet
expected [] false = down
expected (true ∷ past) true = quiet
expected (true ∷ past) false = down
expected (false ∷ past) true = recovered (streak (false ∷ past) % u64_mod)
expected (false ∷ past) false = still_failing (suc (streak (false ∷ past)) % u64_mod)

abbrev pub last : List Bool → Option Bool
last [] = none
last (b ∷ past) = some b

abbrev pub is_up : {A : Type 0} → Result A → Bool
is_up (ok a) = true
is_up (err e) = false

abbrev pub scraped : {A : Type 0} → Result (List A) → ℕ
scraped (ok samples) = length samples
scraped (err e) = 0

module _ {F : Type 0} (f : Floats F) where
  -- The value of `up`: 1 for a scrape that succeeded.
  abbrev pub up_value : Bool → F
  up_value true = f.of 1
  up_value false = f.of 0

  -- The names and values of the three series about a scrape with `n` samples.
  abbrev pub series : Poll F → Bool → ℕ → List (Text × F)
  series p up n =
      (codes "up", up_value up)
      ∷ (codes "scrape_duration_seconds", f.seconds p.duration)
      ∷ (codes "scrape_samples_scraped", f.of n)
      ∷ []

  -- A tick behind such a past, with the samples that were scraped: what it logs, and that it ends its
  -- metrics with the three series about the scrape, which are all that it reports of a target that is
  -- down.
  pub record IsTick (sc : Scraper) (past : List Bool) (p : Poll F) (r : Result (List (Sample F)))
      (t : Tick F) : Type 0 where
    pub logs : t.logged ≡ expected past (is_up r)
    pub forwarded : List (Metric F)
    pub about : List (Metric F)
    pub reports : t.metrics ≡ forwarded ++ about
    pub shows : map (λ m. (m.name, m.value)) about ≡ series p (is_up r) (scraped r)
    pub labelled : All (λ m. m.labels ≡ sc.health_labels) about
    pub keeps_labels : t.scraper.health_labels ≡ sc.health_labels
    pub none_if_down : is_up r ≡ false → forwarded ≡ []

  -- The same along a run.
  pub AllTicks : Scraper → List Bool → List (Poll F) → List (Tick F) → Type 0
  AllTicks sc past [] [] = Unit
  AllTicks sc past [] (t ∷ ts) = ⊥
  AllTicks sc past (p ∷ ps) [] = ⊥
  AllTicks sc past (p ∷ ps) (t ∷ ts) =
      IsTick sc past p (parsed_samples f sc.url p) t
      × AllTicks t.scraper (is_up (parsed_samples f sc.url p) ∷ past) ps ts

  -- The state behind a past.
  record IsBehind (past : List Bool) (sc : Scraper) : Type 0 where
    last_up : sc.last_up ≡ last past
    failed_ticks : sc.failed_ticks ≡ streak past % u64_mod

  expected-ok :
      (past : List Bool) → on_success (last past) (streak past % u64_mod) ≡ expected past true
  unfolding expected
  expected-ok [] = refl
  expected-ok (true ∷ past) = refl
  expected-ok (false ∷ past) = refl

  expected-err :
      (past : List Bool)
      → on_failure (last past) ((streak past % u64_mod + 1) % u64_mod) ≡ expected past false
  unfolding expected
  expected-err [] = refl
  expected-err (true ∷ past) = refl
  expected-err (false ∷ past) = ap still_failing (omega arith)

  at_outcome-IsTick :
      (sc : Scraper) (past : List Bool) (p : Poll F) (r : Result (List (Sample F)))
      → IsBehind past sc
      → IsTick sc past p r (at_outcome f sc p r)
  unfolding health
  at_outcome-IsTick sc past p (ok samples) b = record {
    logs = ap₂ on_success b.last_up b.failed_ticks ∙ expected-ok past;
    forwarded = (samples_to_metrics p.now samples sc.cache).0;
    about = health f sc p true (length samples);
    reports = refl;
    shows = refl;
    labelled = (refl, (refl, (refl, tt)));
    keeps_labels = refl;
    none_if_down = λ e. absurd cc;
  }
  at_outcome-IsTick sc past p (err why) b = record {
    logs =
        ap₂ on_failure b.last_up (ap (λ n. (n + 1) % u64_mod) b.failed_ticks) ∙ expected-err past;
    forwarded = [];
    about = health f sc p false 0;
    reports = refl;
    shows = refl;
    labelled = (refl, (refl, (refl, tt)));
    keeps_labels = refl;
    none_if_down = λ e. refl;
  }

  at_outcome-IsBehind :
      (sc : Scraper) (past : List Bool) (p : Poll F) (r : Result (List (Sample F)))
      → IsBehind past sc
      → IsBehind (is_up r ∷ past) (at_outcome f sc p r).scraper
  unfolding streak
  at_outcome-IsBehind sc past p (ok samples) b = record { last_up = refl; failed_ticks = refl }
  at_outcome-IsBehind sc past p (err why) b = record {
    last_up = refl;
    failed_ticks = omega (arith, b.failed_ticks);
  }

  ticks-AllTicks :
      (sc : Scraper) (past : List Bool) (ps : List (Poll F))
      → IsBehind past sc
      → AllTicks sc past ps (ticks f sc ps)
  unfolding AllTicks ticks collect
  ticks-AllTicks sc past [] b = tt
  ticks-AllTicks sc past (p ∷ ps) b =
      let r = parsed_samples f sc.url p in
      (
        at_outcome-IsTick sc past p r b,
        ticks-AllTicks (at_outcome f sc p r).scraper (is_up r ∷ past) ps
            (at_outcome-IsBehind sc past p r b),
      )

-- Along a run of a new scraper, whatever the target answers: each tick ends its metrics with the
-- three series about the scrape, under the labels of the scraper, which no tick changes, and reports
-- nothing else of a target that is down. `up` is 1 if this scrape succeeded and 0 if it did not, and
-- `scrape_samples_scraped` is the number of its samples, which is 0 for a scrape that failed. The tick
-- warns just when the target goes down, reports a recovery just when it comes back, with the number of
-- failures in a row before it, and counts the failures while it stays down (both modulo 2 ^ 64).
pub ticks-follow_target :
    {F : Type 0} (f : Floats F) (name url : Text) (static_labels : Labels) (ps : List (Poll F))
    → AllTicks f
        (new_scraper name url static_labels)
        []
        ps
        (ticks f (new_scraper name url static_labels) ps)
unfolding new_scraper streak
ticks-follow_target f name url static_labels ps =
    ticks-AllTicks f (new_scraper name url static_labels) [] ps
      (record { last_up = refl; failed_ticks = refl })
