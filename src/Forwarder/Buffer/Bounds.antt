-- ===== src/Forwarder/Buffer/Bounds.antt =====
-- src/forwarder/otlphttp.rs: the invariant of the ring buffer, and the size of a request.
use ferrometer.Prelude.{
  ℕ, ◌+◌, ◌-◌, ◌≤◌, ◌<◌, ◌≡◌, refl, sym, ap, ◌∙◌, List, [], ◌∷◌, ◌++◌, append_assoc, reverse, false,
  ◌&&◌, ◌⊎◌, inl, inr, length, All, All-append, All-right, subst, ltb, leb, sum_by, sum_by-append,
  Bool-cases, arith,
}
use mathlib.Core.List.{reverse-cons, reverse-reverse}
use ferrometer.Forwarder.Buffer.{
  BufferState, Caps, Popped, evict, submit, pop_loop, pop_for_send, push_front_all, requeue,
}

-- How many metrics are in the batches.
abbrev pub count : {A : Type 0} → List (List A) → ℕ
count bs = sum_by length bs

abbrev pub IsNonempty : {A : Type 0} → List A → Type 0
IsNonempty b = 1 ≤ length b

-- The counter is exact and within the cap, and no batch is empty.
pub record IsValid {A : Type 0} (caps : Caps) (s : BufferState A) : Type 0 where
  pub counted : s.total_metrics ≡ count s.batches
  pub fits : s.total_metrics ≤ caps.buffer_max_metrics
  pub nonempty : All IsNonempty s.batches

-- What is evicted: the oldest batches, and no more of them than the cap makes necessary.
pub record Evicts {A : Type 0} (cap : ℕ) (before : List (List A)) (s : BufferState A) : Type 0 where
  pub dropped : List (List A)
  pub split_up : dropped ++ s.batches ≡ before
  pub counted : s.total_metrics ≡ count s.batches
  pub fits : s.total_metrics ≤ cap
  pub needed :
      (dropped ≡ [])
      ⊎ ((pre : List (List A)) × (b : List A) × (dropped ≡ pre ++ b ∷ [])
          × (cap < length b + s.total_metrics))

module _ {A : Type 0} (cap : ℕ) where
  keep_all :
      (bs : List (List A)) (total : ℕ)
      → total ≡ count bs
      → total ≤ cap
      → Evicts cap bs (record { batches = bs; total_metrics = total })
  keep_all bs total e h = record {
    dropped = [];
    split_up = refl;
    counted = e;
    fits = h;
    needed = inl refl;
  }

  pub evict-Evicts :
      (bs : List (List A)) (total : ℕ) → total ≡ count bs → Evicts cap bs (evict cap bs total)
  unfolding evict
  evict-Evicts [] total e = keep_all [] total e (omega arith)
  evict-Evicts (b ∷ bs) total e = elim (Bool-cases (ltb cap total)) [
    | inl over ↦ rw over (
        drop_first (evict cap bs (total - length b))
          (evict-Evicts bs (total - length b) (omega arith)) (ground arith))
    | inr within ↦ rw within (keep_all (b ∷ bs) total e (ground arith))
  ]
    where
      drop_first :
          (s : BufferState A) → Evicts cap bs s → cap < length b + count bs → Evicts cap (b ∷ bs) s
      drop_first s v over = record {
        dropped = b ∷ v.dropped;
        split_up = ap (λ t. b ∷ t) v.split_up;
        counted = v.counted;
        fits = v.fits;
        needed = elim v.needed [
          | inl all_kept ↦ inr (
            [],
            b,
            ap (λ t. b ∷ t) all_kept,
            (let same : s.batches ≡ bs = ap (λ t. t ++ s.batches) (sym all_kept) ∙ v.split_up in
                omega (arith, v.counted, ap count same)),
          )
          | inr (pre, c, e', o) ↦ inr (b ∷ pre, c, ap (λ t. b ∷ t) e', o)
        ];
      }

module _ {A : Type 0} (caps : Caps) where
  Evicts-IsValid :
      (before : List (List A)) (s : BufferState A)
      → Evicts caps.buffer_max_metrics before s
      → All IsNonempty before
      → IsValid caps s
  Evicts-IsValid before s v h = record {
    counted = v.counted;
    fits = v.fits;
    nonempty = All-right IsNonempty v.dropped s.batches (subst (All IsNonempty) (sym v.split_up) h);
  }

  -- `submit` on a batch that is not empty.
  pub submit-Evicts :
      (x : A) (xs : List A) (s : BufferState A)
      → IsValid caps s
      → Evicts caps.buffer_max_metrics (s.batches ++ (x ∷ xs) ∷ []) (submit caps (x ∷ xs) s)
  unfolding submit
  submit-Evicts x xs s v =
      evict-Evicts caps.buffer_max_metrics (s.batches ++ (x ∷ xs) ∷ []) _
        (omega (arith, v.counted, sum_by-append length s.batches ((x ∷ xs) ∷ [])))

  -- `submit` keeps a buffer valid: the counter is the number of metrics in it and within the cap, and
  -- no batch in it is empty.
  pub submit-IsValid :
      (metrics : List A) (s : BufferState A) → IsValid caps s → IsValid caps (submit caps metrics s)
  submit-IsValid [] s v = unfold submit in v
  submit-IsValid (x ∷ xs) s v =
      Evicts-IsValid _ _ (submit-Evicts x xs s v)
        (All-append IsNonempty s.batches ((x ∷ xs) ∷ []) v.nonempty (omega arith, tt))

-- What a round of `pop_loop` from `taken` on achieves: it cuts the queue in two, takes no more than
-- the cap but for a first batch that is larger on its own, and stops only where it has to.
pub record Pops {A : Type 0} (cap : ℕ) (bs : List (List A)) (taken : ℕ) (p : Popped A)
    : Type 0 where
  pub split_up : p.popped ++ p.left.batches ≡ bs
  pub counted : p.left.total_metrics ≡ count p.left.batches
  pub bounded : (taken + count p.popped ≤ cap) ⊎ ((taken ≡ 0) × (b : List A) × (p.popped ≡ b ∷ []))
  pub stops :
      (p.left.batches ≡ [])
      ⊎ (cap ≤ taken + count p.popped)
      ⊎ ((c : List A) × (rest : List (List A)) × (p.left.batches ≡ c ∷ rest)
          × (cap < taken + count p.popped + length c))
  pub moves : taken ≡ 0 → p.popped ≡ [] → bs ≡ []

module _ {A : Type 0} (cap : ℕ) where
  pop_loop-Pops :
      (bs : List (List A)) (total taken : ℕ)
      → total ≡ count bs
      → taken ≤ cap
      → All IsNonempty bs
      → Pops cap bs taken (pop_loop cap bs total taken)
  unfolding pop_loop
  pop_loop-Pops [] total taken e t h = record {
    split_up = refl;
    counted = e;
    bounded = inl (omega arith);
    stops = inl refl;
    moves = λ _ _. refl;
  }
  pop_loop-Pops (b ∷ bs) total taken e t h =
      elim (Bool-cases (ltb 0 taken && ltb cap (taken + length b))) [
        | inl full ↦ rw full (record {
          split_up = refl;
          counted = e;
          bounded = inl (omega arith);
          stops = inr (inr (b, bs, refl, ground arith));
          moves = λ z _. absurd (ground arith);
        })
        | inr room ↦ rw room (elim (Bool-cases (leb cap (taken + length b))) [
          | inl reached ↦ rw reached (record {
            split_up = refl;
            counted = omega arith;
            bounded = first_or_fits room;
            stops = inr (inl (ground arith));
            moves = λ _ z. cc;
          })
          | inr more ↦ rw more (
              take_first (pop_loop cap bs (total - length b) (taken + length b)) (
                pop_loop-Pops bs (total - length b) (taken + length b) (omega arith) (ground arith)
                  h.1))
        ])
      ]
    where
      first_or_fits :
          (ltb 0 taken && ltb cap (taken + length b)) ≡ false
          → (taken + (length b + 0) ≤ cap) ⊎ ((taken ≡ 0) × (c : List A) × (b ∷ [] ≡ c ∷ []))
      first_or_fits room = elim (Bool-cases (ltb 0 taken)) [
        | inl some_taken ↦ inl (ground arith)
        | inr none_taken ↦ inr (ground arith, b, refl)
      ]

      take_first :
          (p : Popped A)
          → Pops cap bs (taken + length b) p
          → Pops cap (b ∷ bs) taken (record { popped = b ∷ p.popped; left = p.left })
      take_first p v = record {
        split_up = ap (λ t. b ∷ t) v.split_up;
        counted = v.counted;
        bounded = elim v.bounded [
          | inl fits ↦ inl (omega arith)
          | inr (z, c, e') ↦ absurd (omega (arith, h.0))
        ];
        stops = elim v.stops [
          | inl all_taken ↦ inl all_taken
          | inr (inl reached) ↦ inr (inl (omega arith))
          | inr (inr (c, rest, e', o)) ↦ inr (inr (c, rest, e', omega arith))
        ];
        moves = λ _ z. cc;
      }

module _ {A : Type 0} (caps : Caps) (s : BufferState A) (v : IsValid caps s) where
  -- From a valid buffer, `pop_for_send` cuts the queue in two: what it pops, in FIFO order, and what
  -- it leaves, whose counter stays exact. It pops nothing only from an empty buffer; it pops at most
  -- `request_max_metrics` metrics, or else one single batch; and it stops only at the end of the
  -- queue, or with the cap reached, or before a batch that would not fit.
  pub pop_for_send-Pops : Pops caps.request_max_metrics s.batches 0 (pop_for_send caps s)
  unfolding pop_for_send
  pop_for_send-Pops =
      pop_loop-Pops caps.request_max_metrics s.batches s.total_metrics 0 v.counted (omega arith)
        v.nonempty

  pub pop_for_send-IsValid : IsValid caps (pop_for_send caps s).left
  pop_for_send-IsValid =
      let p = pop_for_send-Pops in
      let q = pop_for_send caps s in
      let here : All IsNonempty (q.popped ++ q.left.batches) =
        subst (All IsNonempty) (sym p.split_up) v.nonempty in
      record {
        counted = p.counted;
        fits = omega (
          arith,
          p.counted,
          v.fits,
          v.counted,
          ap count p.split_up,
          sum_by-append length q.popped q.left.batches,
        );
        nonempty = All-right IsNonempty q.popped q.left.batches here;
      }

count-reverse : {A : Type 0} (bs : List (List A)) → count (reverse bs) ≡ count bs
count-reverse [] = refl
count-reverse (b ∷ bs) =
    ap count (reverse-cons b bs)
    ∙ omega (arith, sum_by-append length (reverse bs) (b ∷ []), count-reverse bs)

push_front_all-reverse :
    {A : Type 0} (rev bs : List (List A)) (total : ℕ)
    → push_front_all rev bs total
      ≡ record { batches = reverse rev ++ bs; total_metrics = total + count rev }
unfolding push_front_all
push_front_all-reverse [] bs total = ground arith
push_front_all-reverse (b ∷ rev) bs total =
    push_front_all-reverse rev (b ∷ bs) (total + length b)
    ∙ ground (arith, reverse-cons b rev, append_assoc (reverse rev) (b ∷ []) bs)

push_front_all_back :
    {A : Type 0} (popped bs : List (List A)) (total : ℕ)
    → push_front_all (reverse popped) bs total
      ≡ record { batches = popped ++ bs; total_metrics = total + count popped }
push_front_all_back popped bs total =
    push_front_all-reverse (reverse popped) bs total
    ∙ ground (arith, reverse-reverse popped, count-reverse popped)

module _ {A : Type 0} (caps : Caps) where
  -- On a valid buffer, `requeue` puts the popped batches before the others in their order, and evicts
  -- from the front just as many batches as are needed to get within the cap.
  pub requeue-Evicts :
      (popped : List (List A)) (s : BufferState A)
      → IsValid caps s
      → Evicts caps.buffer_max_metrics (popped ++ s.batches) (requeue caps popped s)
  unfolding requeue
  requeue-Evicts popped s v = rw (push_front_all_back popped s.batches s.total_metrics) (
      evict-Evicts caps.buffer_max_metrics (popped ++ s.batches) _
        (omega (arith, v.counted, sum_by-append length popped s.batches)))

  pub requeue-IsValid :
      (popped : List (List A)) (s : BufferState A)
      → IsValid caps s
      → All IsNonempty popped
      → IsValid caps (requeue caps popped s)
  requeue-IsValid popped s v h =
      Evicts-IsValid caps _ _ (requeue-Evicts popped s v)
        (All-append IsNonempty popped s.batches h v.nonempty)
