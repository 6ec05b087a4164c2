-- ===== src/Forwarder/Buffer.antt =====
-- src/forwarder/otlphttp.rs: the ring buffer of batches, and what is taken out of it for a request.
-- The metrics themselves do not matter here: their type is `A`.
pub mod Bounds
pub mod Fifo
mod Tests
use ferrometer.Prelude.{
  ℕ, ◌+◌, ◌-◌, ◌≡◌, refl, List, [], ◌∷◌, ◌++◌, Bool, true, false, ◌&&◌, length, reverse, is_empty,
  ltb, leb, sum_by, if◌then◌else◌,
}

-- The head of the list is the front of the queue.
pub record BufferState (A : Type 0) : Type 0 where
  pub batches : List (List A)
  pub total_metrics : ℕ

-- The two caps of the configuration.
pub record Caps : Type 0 where
  pub buffer_max_metrics : ℕ
  pub request_max_metrics : ℕ

-- The popped batches in FIFO order, and the buffer without them.
pub record Popped (A : Type 0) : Type 0 where
  pub popped : List (List A)
  pub left : BufferState A

module _ {A : Type 0} where
  unfoldable pub empty_buffer : BufferState A
  empty_buffer = record { batches = []; total_metrics = 0 }

  -- `while state.total_metrics > self.buffer_max_metrics`: the oldest batches go.
  unfoldable pub evict : ℕ → List (List A) → ℕ → BufferState A
  evict cap [] total = record { batches = []; total_metrics = total }
  evict cap (b ∷ bs) total =
      let rest = evict cap bs (total - length b) in
      if ltb cap total then rest else record { batches = b ∷ bs; total_metrics = total }

  -- `submit`: an empty batch is ignored, any other goes to the back.
  unfoldable pub submit : Caps → List A → BufferState A → BufferState A
  unfolding evict
  submit caps metrics s =
      if is_empty metrics
      then s
      else evict caps.buffer_max_metrics (s.batches ++ metrics ∷ [])
          (s.total_metrics + length metrics)

  -- `while let Some(front) = state.batches.front()`, with the metrics taken so far.
  unfoldable pub pop_loop : ℕ → List (List A) → ℕ → ℕ → Popped A
  pop_loop cap [] total taken = record {
    popped = [];
    left = record { batches = []; total_metrics = total };
  }
  pop_loop cap (b ∷ bs) total taken =
      let rest = pop_loop cap bs (total - length b) (taken + length b) in
      if ltb 0 taken && ltb cap (taken + length b)
      then record { popped = []; left = record { batches = b ∷ bs; total_metrics = total } }
      else if leb cap (taken + length b)
      then record {
        popped = b ∷ [];
        left = record { batches = bs; total_metrics = total - length b };
      }
      else record { popped = b ∷ rest.popped; left = rest.left }

  unfoldable pub pop_for_send : Caps → BufferState A → Popped A
  unfolding pop_loop
  pop_for_send caps s = pop_loop caps.request_max_metrics s.batches s.total_metrics 0

  -- `for batch in popped.into_iter().rev()`: each goes to the front.
  unfoldable pub push_front_all : List (List A) → List (List A) → ℕ → BufferState A
  push_front_all [] bs total = record { batches = bs; total_metrics = total }
  push_front_all (b ∷ rev) bs total = push_front_all rev (b ∷ bs) (total + length b)

  unfoldable pub requeue : Caps → List (List A) → BufferState A → BufferState A
  unfolding push_front_all evict
  requeue caps popped s =
      let back = push_front_all (reverse popped) s.batches s.total_metrics in
      evict caps.buffer_max_metrics back.batches back.total_metrics
