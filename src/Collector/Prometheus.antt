-- ===== src/Collector/Prometheus.antt =====
-- src/collector/prometheus.rs: the scraper of one Prometheus endpoint. The exchange over HTTP, the
-- parser of another crate, the clock and the conversions to `f64` are arguments.
pub mod Transitions
mod Tests
use ferrometer.Prelude.{
  ℕ, ◌+◌, ◌%◌, ◌^◌, List, [], ◌∷◌, ◌++◌, Option, none, some, Bool, true, false, ◌&&◌, length, leb,
  ltb, if◌then◌else◌,
}
use ferrometer.Prelude.Text.{Text, codes}
use ferrometer.Prelude.Words.{u64_mod}
use ferrometer.Prelude.Maps.{Map, text_ord, insert_all}
use ferrometer.Error.{Error, collector, Result, ok, err, Foreign, done, failed, map_err, ◌>>=◌}
use ferrometer.Signal.{Labels, MetricType, gauge, counter, Metric, new_gauge}
use ferrometer.Collector.LabelCache.{LabelCache, intern}

pub data Value (F : Type 0) : Type 0 where
  counter_value gauge_value untyped : F → Value F
  histogram summary : Value F

-- `timestamp_nanos_opt`: before the epoch, behind it, or out of the range of 64 bits.
pub data Nanos : Type 0 where
  before_epoch : Nanos
  since_epoch : ℕ → Nanos
  out_of_range : Nanos

pub record Sample (F : Type 0) : Type 0 where
  pub metric : Text
  pub labels : Map Text Text
  pub value : Value F
  pub timestamp : Nanos

pub record Scraper : Type 0 where
  pub url : Text
  pub cache : LabelCache
  pub health_labels : Labels
  pub last_up : Option Bool
  pub failed_ticks : ℕ

-- What is logged at a tick, with the count of failures that it reports.
pub data Logged : Type 0 where
  quiet down : Logged
  recovered still_failing : ℕ → Logged

-- `new`, with the static labels of the configuration in order.
unfoldable pub new_scraper : Text → Text → Labels → Scraper
unfolding intern codes
new_scraper name url static_labels =
    let (health, cache) =
      intern ((codes "scraper", name) ∷ []) (record { base = static_labels; cache = [] }) in
    record { url = url; cache = cache; health_labels = health; last_up = none; failed_ticks = 0 }

-- A response: its status, how that is printed, and the body, if it can be read.
pub record Response : Type 0 where
  pub status : ℕ
  pub status_text : Text
  pub body : Foreign Text

abbrev pub in_scrape : Text → Text → Error
in_scrape url why = collector (codes "scrape " ++ url ++ codes ": " ++ why)

abbrev body_of : Text → Response → Result Text
body_of url r =
    if leb 200 r.status && ltb r.status 300
    then map_err (λ why. in_scrape url (codes "body read: " ++ why)) r.body
    else err (in_scrape url (codes "HTTP " ++ r.status_text))

unfoldable pub scrape : Text → Foreign Response → Result Text
unfolding codes
scrape url reply = map_err (in_scrape url) reply >>= λ r. body_of url r

abbrev stamp : ℕ → Nanos → ℕ
stamp now before_epoch = 0
stamp now (since_epoch ns) = ns
stamp now out_of_range = now

module _ {F : Type 0} where
  -- The first `match` of `sample_to_metric`.
  abbrev pub kind_of : Value F → Option (F × MetricType)
  kind_of (counter_value v) = some (v, counter)
  kind_of (gauge_value v) = some (v, gauge)
  kind_of (untyped v) = some (v, counter)
  kind_of histogram = none
  kind_of summary = none

  abbrev metric_of :
      ℕ → Sample F → LabelCache → Option (F × MetricType) → List (Metric F) × LabelCache
  metric_of now s cache none = ([], cache)
  metric_of now s cache (some (v, kind)) =
      let (labels, cache') = intern (insert_all s.labels []) cache in
      (
        record {
          name = s.metric;
          labels = labels;
          value = v;
          timestamp = stamp now s.timestamp;
          metric_type = kind;
        }
            ∷ [],
        cache',
      )

  -- `sample_to_metric`: at most one metric, and the cache behind it.
  unfoldable pub sample_to_metric : ℕ → Sample F → LabelCache → List (Metric F) × LabelCache
  unfolding intern insert_all
  sample_to_metric now s cache = metric_of now s cache (kind_of s.value)

  unfoldable pub samples_to_metrics :
      ℕ → List (Sample F) → LabelCache → List (Metric F) × LabelCache
  unfolding sample_to_metric
  samples_to_metrics now [] cache = ([], cache)
  samples_to_metrics now (s ∷ ss) cache =
      let (here, cache') = sample_to_metric now s cache in
      let (more, cache'') = samples_to_metrics now ss cache' in (here ++ more, cache'')

-- What the world answers at one tick.
pub record Poll (F : Type 0) : Type 0 where
  pub reply : Foreign Response
  pub parse : Text → Foreign (List (Sample F))
  pub now : ℕ
  pub duration : ℕ

-- `as f64` and `as_secs_f64`.
pub record Floats (F : Type 0) : Type 0 where
  pub of : ℕ → F
  pub seconds : ℕ → F

pub record Tick (F : Type 0) : Type 0 where
  pub scraper : Scraper
  pub metrics : List (Metric F)
  pub logged : Logged

-- What is logged when a scrape succeeds, and when it fails.
abbrev pub on_success : Option Bool → ℕ → Logged
on_success (some false) failed_ticks = recovered failed_ticks
on_success (some true) failed_ticks = quiet
on_success none failed_ticks = quiet

abbrev pub on_failure : Option Bool → ℕ → Logged
on_failure (some false) failed_ticks = still_failing failed_ticks
on_failure (some true) failed_ticks = down
on_failure none failed_ticks = down

module _ {F : Type 0} (f : Floats F) where
  -- `scrape_and_parse`, up to the samples.
  unfoldable pub parsed_samples : Text → Poll F → Result (List (Sample F))
  unfolding scrape codes
  parsed_samples url p = scrape url p.reply >>= λ body.
      map_err (λ why. collector (codes "parse scrape " ++ url ++ codes ": " ++ why)) (p.parse body)

  -- The three series about the scrape itself.
  unfoldable pub health : Scraper → Poll F → Bool → ℕ → List (Metric F)
  unfolding new_gauge codes
  health sc p up samples =
      new_gauge (codes "up") (if up then f.of 1 else f.of 0) sc.health_labels p.now
      ∷ new_gauge (codes "scrape_duration_seconds") (f.seconds p.duration) sc.health_labels p.now
      ∷ new_gauge (codes "scrape_samples_scraped") (f.of samples) sc.health_labels p.now
      ∷ []

  abbrev pub at_outcome : Scraper → Poll F → Result (List (Sample F)) → Tick F
  at_outcome sc p (ok samples) =
      let (metrics, cache) = samples_to_metrics p.now samples sc.cache in
      record {
        scraper = record sc { cache = cache; last_up = some true; failed_ticks = 0 };
        metrics = metrics ++ health sc p true (length samples);
        logged = on_success sc.last_up sc.failed_ticks;
      }
  at_outcome sc p (err e) =
      let failed_ticks = (sc.failed_ticks + 1) % u64_mod in
      record {
        scraper = record sc { last_up = some false; failed_ticks = failed_ticks };
        metrics = health sc p false 0;
        logged = on_failure sc.last_up failed_ticks;
      }

  -- One call of `collect`.
  unfoldable pub collect : Scraper → Poll F → Tick F
  unfolding parsed_samples samples_to_metrics health
  collect sc p = at_outcome sc p (parsed_samples sc.url p)

  -- The ticks of a run.
  unfoldable pub ticks : Scraper → List (Poll F) → List (Tick F)
  unfolding collect
  ticks sc [] = []
  ticks sc (p ∷ ps) = let t = collect sc p in t ∷ ticks t.scraper ps
