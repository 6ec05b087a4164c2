-- ===== src/Collector/LabelCache/Tests.antt =====
-- src/collector/label_cache.rs: an instance of the theorem.
use ferrometer.Prelude.{◌≡◌, refl, [], ◌∷◌}
use ferrometer.Prelude.Text.{codes, cmp_text}
use ferrometer.Prelude.Maps.{text_ord, insert}
use ferrometer.Signal.{Labels}
use ferrometer.Collector.LabelCache.{LabelCache, new_cache, intern}

abbrev host : LabelCache
host = new_cache ((codes "host", codes "pi") ∷ [])

abbrev cpu0 : Labels
cpu0 = (codes "cpu", codes "0") ∷ (codes "host", codes "x") ∷ []

base_wins : (intern cpu0 host).0 ≡ (codes "cpu", codes "0") ∷ (codes "host", codes "pi") ∷ []
unfolding codes cmp_text insert intern
base_wins = refl
