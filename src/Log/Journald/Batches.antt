-- ===== src/Log/Journald/Batches.antt =====
-- src/log/source/journald.rs: how a batch is filled.
use ferrometer.Prelude.{
  ◌≤◌, ◌≡◌, refl, sym, ap, ◌∙◌, map, List, [], ◌∷◌, ◌++◌, append-nil, append_assoc, Option, none,
  some, true, false, length, is_empty, ◌==◌, if_split, ◌⊎◌, inl, inr, Bool-cases, arith,
}
use ferrometer.Log.Source.{LogEntry, Cursor, Batch, push, length-push}
use ferrometer.Log.Journald.{
  Settings, Answer, entry, nothing, unreadable, record_to_entry, batch_has_room, is_over, Drained,
  stop, drain_journal, drain_available,
}

abbrev pub push_all : Batch → List (LogEntry × Cursor) → Batch
push_all b [] = b
push_all b ((e, c) ∷ xs) = push_all (push b e c) xs

abbrev pub entries_of : List (LogEntry × Cursor) → List LogEntry
entries_of xs = map (λ x. x.0) xs

pub push_all-entries :
    (b : Batch) (xs : List (LogEntry × Cursor))
    → (push_all b xs).entries ≡ b.entries ++ entries_of xs
unfolding push
push_all-entries b [] = sym (append-nil b.entries)
push_all-entries b ((e, c) ∷ xs) =
    push_all-entries (push b e c) xs ∙ append_assoc b.entries (e ∷ []) (entries_of xs)

abbrev pub parked : Option (LogEntry × Cursor) → List (LogEntry × Cursor)
parked none = []
parked (some x) = x ∷ []

-- Within the caps, where a single entry may be larger than the cap on bytes.
pub record IsCapped (s : Settings) (b : Batch) : Type 0 where
  pub counted : length b.entries ≤ s.batch_size
  pub bounded :
      (s.batch_max_bytes ≡ 0) ⊎ ((b.approx_bytes ≤ s.batch_max_bytes) ⊎ (length b.entries ≤ 1))

-- The entries pushed, which with the one parked behind them are those that were parked or read.
pub record Fills (s : Settings) (p : Option (LogEntry × Cursor)) (b : Batch) (d : Drained)
    : Type 0 where
  pub admitted : List (LogEntry × Cursor)
  pub pushed : d.batch ≡ push_all b admitted
  pub kept : admitted ++ parked d.pending ≡ parked p ++ d.read
  pub capped : IsCapped s b → IsCapped s d.batch

stop-Fills : (s : Settings) (p : Option (LogEntry × Cursor)) (b : Batch) → Fills s p b (stop b p)
stop-Fills s p b = record {
  admitted = [];
  pushed = refl;
  kept = sym (append-nil (parked p));
  capped = λ c. c;
}

length-zero : (es : List LogEntry) → is_empty es ≡ true → length es ≡ 0
length-zero [] h = refl
length-zero (e ∷ es) h = absurd cc

push-IsCapped :
    (s : Settings) (b : Batch) (e : LogEntry) (c : Cursor)
    → batch_has_room s b ≡ true
    → is_over s b e ≡ false
    → IsCapped s (push b e c)
unfolding batch_has_room is_over push
push-IsCapped s b e c room fits = record {
  counted = ground (arith, length-push b e c);
  bounded = elim (Bool-cases (s.batch_max_bytes == 0)) [
    | inl unbounded ↦ inl (ground arith)
    | inr capped ↦ elim (Bool-cases (is_empty b.entries)) [
      | inl first ↦ inr (inr (omega (arith, length-push b e c, length-zero b.entries first)))
      | inr more ↦ inr (inl (ground arith))
    ]
  ];
}

drain_journal-Fills :
    (s : Settings) (b : Batch) (answers : List Answer) → Fills s none b (drain_journal s b answers)
unfolding drain_journal
drain_journal-Fills s b [] = stop-Fills s none b
drain_journal-Fills s b (nothing ∷ answers) = stop-Fills s none b
drain_journal-Fills s b (unreadable e ∷ answers) =
    if_split (Fills s none b) (batch_has_room s b)
      (λ room. record { admitted = []; pushed = refl; kept = refl; capped = λ c. c })
      (λ full. stop-Fills s none b)
drain_journal-Fills s b (entry fields timestamp cursor ∷ answers) =
    let e = record_to_entry s fields timestamp in
    let more = drain_journal-Fills s (push b e cursor) answers in
    if_split (Fills s none b) (batch_has_room s b)
      (λ room.
        if_split (Fills s none b) (is_over s b e)
          (λ over. record { admitted = []; pushed = refl; kept = refl; capped = λ c. c })
          (λ fits. record {
            admitted = (e, cursor) ∷ more.admitted;
            pushed = more.pushed;
            kept = ap (λ xs. (e, cursor) ∷ xs) more.kept;
            capped = λ c. more.capped (push-IsCapped s b e cursor room fits);
          }))
      (λ full. stop-Fills s none b)

-- Whatever the journal answers, a fill appends to the batch a first part of the entries that are
-- parked or read from the journal, in that order, and parks at most the next one, even when a
-- read fails; each is pushed with its cursor. A batch within the caps stays within them.
pub drain_available-Fills :
    (s : Settings) (p : Option (LogEntry × Cursor)) (b : Batch) (answers : List Answer)
    → Fills s p b (drain_available s p b answers)
unfolding drain_available
drain_available-Fills s none b answers = drain_journal-Fills s b answers
drain_available-Fills s (some (e, cursor)) b answers =
    let more = drain_journal-Fills s (push b e cursor) answers in
    if_split (Fills s (some (e, cursor)) b) (batch_has_room s b)
      (λ room.
        if_split (Fills s (some (e, cursor)) b) (is_over s b e)
          (λ over. stop-Fills s (some (e, cursor)) b)
          (λ fits. record {
            admitted = (e, cursor) ∷ more.admitted;
            pushed = more.pushed;
            kept = ap (λ xs. (e, cursor) ∷ xs) more.kept;
            capped = λ c. more.capped (push-IsCapped s b e cursor room fits);
          }))
      (λ full. stop-Fills s (some (e, cursor)) b)
