-- ===== src/Collector/Prometheus/Tests.antt =====
-- src/collector/prometheus.rs: a run of the scraper, and an instance of the theorem.
use ferrometer.Prelude.{ℕ, ◌≡◌, refl, List, [], ◌∷◌, map, length}
use ferrometer.Prelude.Text.{codes, cmp_text}
use ferrometer.Prelude.Maps.{insert}
use ferrometer.Error.{Foreign, done, failed}
use ferrometer.Collector.Prometheus.{
  Sample, counter_value, histogram, since_epoch, Scraper, quiet, down, recovered, still_failing,
  Response, Poll, Floats, new_scraper, ticks,
}
use ferrometer.Collector.Prometheus.Transitions.{AllTicks, ticks-follow_target}

abbrev whole : Floats ℕ
whole = record { of = λ n. n; seconds = λ n. n }

abbrev sample : Sample ℕ
sample = record {
  metric = codes "requests";
  labels = [];
  value = counter_value 3;
  timestamp = since_epoch 5;
}

abbrev poll : Foreign Response → Poll ℕ
poll reply = record {
  reply = reply;
  parse = λ body. done (sample ∷ record sample { value = histogram } ∷ []);
  now = 9;
  duration = 1;
}

abbrev good : Foreign Response
good = done (record { status = 200; status_text = codes "200 OK"; body = done (codes "x") })

abbrev run : List (Poll ℕ)
run = poll good ∷ poll (failed (codes "refused")) ∷ poll (failed (codes "refused")) ∷ poll good ∷ []

abbrev fresh : Scraper
fresh = new_scraper (codes "node") (codes "http://node") []

logs :
    map (λ t. t.logged) (ticks whole fresh run) ≡ quiet ∷ down ∷ still_failing 2 ∷ recovered 2 ∷ []
unfolding codes cmp_text insert new_scraper ticks
logs = refl

sizes : map (λ t. length t.metrics) (ticks whole fresh run) ≡ 4 ∷ 3 ∷ 3 ∷ 4 ∷ []
unfolding codes cmp_text insert new_scraper ticks
sizes = refl

ticks-follow_target_example : AllTicks whole fresh [] run (ticks whole fresh run)
ticks-follow_target_example = ticks-follow_target whole (codes "node") (codes "http://node") [] run
