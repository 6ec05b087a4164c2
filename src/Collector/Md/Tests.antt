-- ===== src/Collector/Md/Tests.antt =====
-- src/collector/unix/md.rs: the tests of the source, and instances of the theorems.
use ferrometer.Prelude.{ℕ, ◌+◌, ◌*◌, ◌/◌, ◌==◌, ◌≡◌, refl, List, [], ◌∷◌, map, Option, none, some}
use ferrometer.Prelude.Text.{Text, codes}
use ferrometer.Collector.Md.{
  activity_state, disk_bucket, parse_sync_completed, tally_states, no_disks,
}
use ferrometer.Collector.Md.Tally.{counts, readable, tally_states-counts}
use ferrometer.Prelude.Text.Numbers.{parse_u64, ok_num, parse_i64, negsuc}
use ferrometer.Collector.LabelCache.{LabelCache, new_cache}
use ferrometer.Collector.Emit.{Floats, each, push_gauge, if_some}
use ferrometer.Collector.Md.Series.{state_series}
use ferrometer.Collector.Md.OneHot.{Shows, entries, state_series-OneHot}

parses : parse_sync_completed (codes "1024 / 4096") ≡ some (1024, 4096)
unfolding codes parse_sync_completed
parses = refl

delayed : parse_sync_completed (codes "delayed") ≡ none
unfolding codes parse_sync_completed
delayed = refl

fails_first : disk_bucket (codes "faulty,in_sync") ≡ codes "failed"
unfolding codes disk_bucket
fails_first = refl

recovers :
    activity_state (some (codes "active")) (some (codes "recover")) ≡ some (codes "recovering")
unfolding codes activity_state
recovers = refl

abbrev disks : List (Option Text)
disks = some (codes "in_sync") ∷ none ∷ some (codes "spare") ∷ []

tally_states-counts_example :
    (a f s : ℕ) × (tally_states disks no_disks ≡ counts a f s) × (a + f + s ≡ readable disks)
tally_states-counts_example = tally_states-counts disks

abbrev whole : Floats ℕ
whole = record {
  of = λ n. n;
  minus = λ n. n;
  times = λ a b. a * b;
  over = λ a b. a / b;
  is = λ a b. a == b;
  parse_f64 = λ s. ok_num (parse_u64 s);
}

abbrev base : LabelCache
base = new_cache []

state_series-OneHot_example :
    Shows whole [] (activity_state (some (codes "inactive")) (some (codes "resync"))) (
      entries
        (state_series whole 5 []
          (activity_state (some (codes "inactive")) (some (codes "resync")))
          base).0)
    × (some (codes "inactive") ≡ some (codes "inactive")
        → activity_state (some (codes "inactive")) (some (codes "resync"))
          ≡ some (codes "inactive"))
state_series-OneHot_example =
    state_series-OneHot whole 5 [] base tt (some (codes "inactive")) (some (codes "resync"))

seven :
    map
      (λ m. m.value)
      (state_series whole 5 []
        (activity_state (some (codes "clean")) (some (codes "check")))
        base).0
    ≡ 0 ∷ 0 ∷ 0 ∷ 0 ∷ 1 ∷ 0 ∷ 0 ∷ []
unfolding state_series each push_gauge if_some codes activity_state
seven = refl

no_slot : parse_i64 (codes "none") ≡ none
unfolding parse_i64 codes
no_slot = refl

negative_slot : parse_i64 (codes "-2") ≡ some (negsuc 1)
unfolding parse_i64 codes
negative_slot = refl
