-- ===== src/Forwarder/Buffer/Fifo.antt =====
-- src/forwarder/otlphttp.rs: a failed request gives back what it took.
use ferrometer.Prelude.{
  ℕ, ◌≤◌, ◌≡◌, sym, ap, ◌∙◌, List, [], ◌∷◌, ◌++◌, inl, inr, length, sum_by-append, arith,
}
use ferrometer.Forwarder.Buffer.{BufferState, Caps, pop_for_send, requeue}
use ferrometer.Forwarder.Buffer.Bounds.{
  IsValid, Evicts, count, pop_for_send-Pops, pop_for_send-IsValid, requeue-Evicts,
}

-- Nothing is evicted from what fits.
Evicts-none :
    {A : Type 0} (cap : ℕ) (before : List (List A)) (s : BufferState A)
    → Evicts cap before s
    → count before ≤ cap
    → s.batches ≡ before
Evicts-none cap before s v h = elim v.needed [
  | inl all_kept ↦ ap (λ t. t ++ s.batches) (sym all_kept) ∙ v.split_up
  | inr (pre, b, e, over) ↦ absurd (
      omega (
        arith,
        v.counted,
        ap count v.split_up,
        ap count e,
        sum_by-append length v.dropped s.batches,
        sum_by-append length pre (b ∷ []),
      ))
]

-- A request that is popped from a valid buffer and requeued, with no batch submitted in between,
-- leaves the buffer as it was: every batch at its place, and the counter the same.
pub requeue-pop_for_send :
    {A : Type 0} (caps : Caps) (s : BufferState A)
    → IsValid caps s
    → requeue caps (pop_for_send caps s).popped (pop_for_send caps s).left ≡ s
requeue-pop_for_send caps s v =
    let p = pop_for_send-Pops caps s v in
    let q = pop_for_send caps s in
    let w = requeue-Evicts caps q.popped q.left (pop_for_send-IsValid caps s v) in
    let same : (requeue caps q.popped q.left).batches ≡ s.batches =
      Evicts-none caps.buffer_max_metrics (q.popped ++ q.left.batches) _ w
        (omega (arith, v.fits, v.counted, ap count p.split_up))
      ∙ p.split_up in
    λ i. record { batches = same i; total_metrics = (w.counted ∙ ap count same ∙ sym v.counted) i }
