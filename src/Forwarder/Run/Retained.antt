-- ===== src/Forwarder/Run/Retained.antt =====
-- src/forwarder/otlphttp.rs: what one request retains of the batches of the buffer and of those submitted
-- in the meantime, for every relation between batches that eviction respects.
use ferrometer.Prelude.{
  ◌≡◌, refl, sym, ap, ◌∙◌, List, [], ◌∷◌, ◌++◌, append-nil, append_assoc, true, is_empty, subst,
  All, All-left, inl, inr, Bool-cases,
}
use ferrometer.Forwarder.Buffer.{BufferState, Caps, submit, pop_for_send, requeue}
use ferrometer.Forwarder.Buffer.Bounds.{
  IsValid, IsNonempty, Evicts, submit-IsValid, submit-Evicts, requeue-IsValid, requeue-Evicts,
  pop_for_send-Pops, pop_for_send-IsValid,
}
use ferrometer.Forwarder.Run.{
  Response, success, status, failure, submit_all, settle, drain_and_send,
}

-- How the batches that are still there are related to those that there were: eviction is the only
-- loss, and an empty batch counts for nothing.
pub record Retains {A : Type 0} (caps : Caps) (R : List (List A) → List (List A) → Type 0)
    : Type 0 where
  pub same : (xs : List (List A)) → R xs xs
  pub trans : {xs ys zs : List (List A)} → R xs ys → R ys zs → R xs zs
  pub append : {xs ys us vs : List (List A)} → R xs ys → R us vs → R (xs ++ us) (ys ++ vs)
  pub empty : (xs : List (List A)) → R xs (xs ++ [] ∷ [])
  pub evicted :
      (before : List (List A)) (s : BufferState A)
      → Evicts caps.buffer_max_metrics before s
      → R s.batches before

-- A buffer that is valid, and whose batches, behind those delivered, are related to `from`.
pub record IsFrom {A : Type 0} (R : List (List A) → List (List A) → Type 0) (caps : Caps)
    (from delivered : List (List A)) (s : BufferState A) : Type 0 where
  pub valid : IsValid caps s
  pub kept : R (delivered ++ s.batches) from

module _ {A : Type 0} (R : List (List A) → List (List A) → Type 0) (caps : Caps)
    (laws : Retains caps R) where
  submit-IsFrom :
      (m : List A) (s : BufferState A)
      → IsValid caps s
      → IsFrom R caps (s.batches ++ m ∷ []) [] (submit caps m s)
  submit-IsFrom [] s v = record {
    valid = submit-IsValid caps [] s v;
    kept = unfold submit in laws.empty s.batches;
  }
  submit-IsFrom (x ∷ xs) s v =
      let e = submit-Evicts caps x xs s v in
      record {
        valid = submit-IsValid caps (x ∷ xs) s v;
        kept = laws.evicted _ (submit caps (x ∷ xs) s) e;
      }

  pub submit_all-IsFrom :
      (ms : List (List A)) (s : BufferState A)
      → IsValid caps s
      → IsFrom R caps (s.batches ++ ms) [] (submit_all caps ms s)
  unfolding submit_all
  submit_all-IsFrom [] s v = record {
    valid = v;
    kept = subst (R s.batches) (sym (append-nil s.batches)) (laws.same s.batches);
  }
  submit_all-IsFrom (m ∷ ms) s v =
      let one = submit-IsFrom m s v in
      let rest = submit_all-IsFrom ms (submit caps m s) one.valid in
      record {
        valid = rest.valid;
        kept =
            subst (R (submit_all caps ms (submit caps m s)).batches)
              (append_assoc s.batches (m ∷ []) ms)
              (laws.trans rest.kept (laws.append one.kept (laws.same ms)));
      }

  requeued-IsFrom :
      (popped : List (List A)) (s : BufferState A)
      → IsValid caps s
      → All IsNonempty popped
      → IsFrom R caps (popped ++ s.batches) [] (requeue caps popped s)
  requeued-IsFrom popped s v h =
      let e = requeue-Evicts caps popped s v in
      record {
        valid = requeue-IsValid caps popped s v h;
        kept = laws.evicted _ (requeue caps popped s) e;
      }

  settle-IsFrom :
      (popped : List (List A)) (s : BufferState A) (response : Response)
      → IsValid caps s
      → All IsNonempty popped
      → let d = settle caps popped s response in
        IsFrom R caps (popped ++ s.batches) d.delivered d.buffer
  unfolding settle
  settle-IsFrom popped s success v h = record { valid = v; kept = laws.same (popped ++ s.batches) }
  settle-IsFrom popped s (status code body) v h = requeued-IsFrom popped s v h
  settle-IsFrom popped s (failure e) v h = requeued-IsFrom popped s v h

  none_popped : (popped left : List (List A)) → is_empty popped ≡ true → left ≡ popped ++ left
  none_popped [] left e = refl
  none_popped (b ∷ popped) left e = cc

  pub drain-IsFrom :
      (s : BufferState A) (meanwhile : List (List A)) (response : Response)
      → IsValid caps s
      → let d = drain_and_send caps s meanwhile response in
        IsFrom R caps (s.batches ++ meanwhile) d.delivered d.buffer
  unfolding drain_and_send
  drain-IsFrom s meanwhile response v =
      let p = pop_for_send-Pops caps s v in
      let q = pop_for_send caps s in
      let left = pop_for_send-IsValid caps s v in
      elim (Bool-cases (is_empty q.popped)) [
        | inl idle ↦ rw idle (
            let more = submit_all-IsFrom meanwhile q.left left in
            record {
              valid = more.valid;
              kept =
                  subst (λ t. R (submit_all caps meanwhile q.left).batches (t ++ meanwhile))
                    (none_popped q.popped q.left.batches idle ∙ p.split_up) more.kept;
            })
        | inr busy ↦ rw busy (
            let more = submit_all-IsFrom meanwhile q.left left in
            let done =
              settle-IsFrom q.popped (submit_all caps meanwhile q.left) response more.valid (
                All-left IsNonempty q.popped q.left.batches
                  (subst (All IsNonempty) (sym p.split_up) v.nonempty)) in
            record {
              valid = done.valid;
              kept = laws.trans done.kept (
                  subst (R (q.popped ++ (submit_all caps meanwhile q.left).batches))
                    (sym (append_assoc q.popped q.left.batches meanwhile)
                      ∙ ap (λ t. t ++ meanwhile) p.split_up)
                    (laws.append (laws.same q.popped) more.kept));
            })
      ]
