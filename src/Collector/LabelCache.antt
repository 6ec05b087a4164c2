-- ===== src/Collector/LabelCache.antt =====
-- src/collector/label_cache.rs: label sets with the base labels folded in, and the sets seen so far.
pub mod Merge
mod Tests
use ferrometer.Prelude.{List, [], ◌∷◌, Option, none, some, find}
use ferrometer.Prelude.Text.{Text}
use ferrometer.Prelude.Maps.{Map, text_ord, labels_ord, is, insert_all}
use ferrometer.Signal.{Labels}

pub record LabelCache : Type 0 where
  pub base : Labels
  pub cache : List Labels

-- `LabelCache::new`
abbrev pub new_cache : Labels → LabelCache
new_cache base = record { base = base; cache = [] }

-- `if let Some(arc) = self.cache.get(&labels)`: the set that stands in the cache, or else a new one.
abbrev pub shared_or_new : Labels → LabelCache → Option Labels → Labels × LabelCache
shared_or_new labels c (some shared) = (shared, c)
shared_or_new labels c none = (labels, record c { cache = labels ∷ c.cache })

-- The set that is handed out, and the cache behind the call. The equality of two sets is that of all
-- their names and values.
unfoldable pub intern : Labels → LabelCache → Labels × LabelCache
unfolding insert_all
intern labels c =
    let merged = insert_all c.base labels in shared_or_new merged c (find (is merged) c.cache)
