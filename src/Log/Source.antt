-- ===== src/Log/Source.antt =====
-- src/log/source.rs: log entries and batches.
use ferrometer.Prelude.{
  ℕ, ◌+◌, ◌≡◌, List, [], ◌∷◌, ◌++◌, length, length-append, sum_by, sum_by-append, arith,
}
use ferrometer.Prelude.Text.{Text, byte_len}
use ferrometer.Prelude.Maps.{Map}

abbrev pub Cursor : Type 0
Cursor = Text

pub record LogEntry : Type 0 where
  pub timestamp : ℕ
  pub message : Text
  pub labels : Map Text Text
  pub metadata : Map Text Text

abbrev field_overhead : ℕ
field_overhead = 4

abbrev entry_overhead : ℕ
entry_overhead = 16

-- The closure `kv`.
kv_size : Map Text Text → ℕ
kv_size m = sum_by (λ kv. byte_len kv.0 + byte_len kv.1 + field_overhead) m

-- `LogEntry::approx_size`
unfoldable pub approx_size : LogEntry → ℕ
unfolding kv_size
approx_size e = entry_overhead + byte_len e.message + kv_size e.labels + kv_size e.metadata

pub record Batch : Type 0 where
  pub entries : List LogEntry
  pub end_cursor : Cursor
  pub approx_bytes : ℕ

-- `Batch::default()`
abbrev pub empty_batch : Batch
empty_batch = record { entries = []; end_cursor = []; approx_bytes = 0 }

unfoldable pub push : Batch → LogEntry → Cursor → Batch
push b entry cursor = record b {
  entries = b.entries ++ entry ∷ [];
  end_cursor = cursor;
  approx_bytes = b.approx_bytes + approx_size entry;
}

-- The running sum is the sum.
pub record IsSummed (b : Batch) : Type 0 where
  pub summed : b.approx_bytes ≡ sum_by approx_size b.entries

pub push-IsSummed : (b : Batch) (e : LogEntry) (c : Cursor) → IsSummed b → IsSummed (push b e c)
unfolding push
push-IsSummed b e c h = record {
  summed = omega (arith, h.summed, sum_by-append approx_size b.entries (e ∷ []));
}

pub length-push :
    (b : Batch) (e : LogEntry) (c : Cursor) → length (push b e c).entries ≡ length b.entries + 1
unfolding push
length-push b e c = omega (arith, length-append b.entries (e ∷ []))
