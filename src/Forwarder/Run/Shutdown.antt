-- ===== src/Forwarder/Run/Shutdown.antt =====
-- src/forwarder/otlphttp.rs: the last round of `run`, once the shutdown flag is set.
use ferrometer.Prelude.{
  ℕ, ◌≤◌, ◌<◌, ◌≡◌, ◌≢◌, refl, sym, ap, ap₂, ◌∙◌, List, [], ◌∷◌, ◌++◌, true, false, is_empty,
  length, sum_by-append, All, All-right, subst, inl, inr, Bool-cases, arith,
}
use ferrometer.Forwarder.Buffer.{BufferState, Popped, pop_for_send}
use ferrometer.Forwarder.Buffer.Bounds.{count, IsValid, IsNonempty, pop_for_send-Pops}
use ferrometer.Forwarder.Run.{
  Config, success, submit_all, settle, drain_and_send, State, Round, returned, Step, step,
}

-- The last round: the flag is set, nothing more is submitted, and the backend accepts the request.
abbrev pub farewell : {A : Type 0} → ℕ → Round A
farewell now = record {
  arrived = [];
  shutdown = true;
  now = now;
  notified = false;
  meanwhile = [];
  response = success;
  later = now;
}

-- What is delivered then, and what is lost.
pub record Flushes {A : Type 0} (cap : ℕ) (batches : List (List A)) (s : Step A) : Type 0 where
  pub lost : BufferState A
  pub ends : s.flow ≡ returned lost
  pub split_up : s.delivered ++ lost.batches ≡ batches
  pub all_if : count batches ≤ cap → lost.batches ≡ []
  pub not_all_if :
      (b c : List A) (more : List (List A))
      → batches ≡ b ∷ c ∷ more
      → cap < count batches
      → lost.batches ≢ []

module _ {A : Type 0} (c : Config) (st : State A) (now : ℕ) (v : IsValid c.caps st.buffer) where
  abbrev request : Popped A
  request = pop_for_send c.caps st.buffer

  none_left : (batches : List (List A)) → All IsNonempty batches → count batches ≡ 0 → batches ≡ []
  none_left [] h e = refl
  none_left (b ∷ batches) h e = absurd (omega (arith, h.0))

  nothing : (popped : List (List A)) → is_empty popped ≡ true → [] ≡ popped
  nothing [] e = refl
  nothing (b ∷ popped) e = cc

  flushes :
      (s : Step A)
      → s.delivered ≡ request.popped
      → s.flow ≡ returned request.left
      → Flushes c.caps.request_max_metrics st.buffer.batches s
  flushes s d f =
      let p = pop_for_send-Pops c.caps st.buffer v in
      let total = ap count p.split_up in
      let sum = sum_by-append length request.popped request.left.batches in
      let nonempty =
        All-right IsNonempty request.popped request.left.batches
          (subst (All IsNonempty) (sym p.split_up) v.nonempty) in
      record {
        lost = request.left;
        ends = f;
        split_up = ap (λ t. t ++ request.left.batches) d ∙ p.split_up;
        all_if = λ fits. elim p.stops [
          | inl none ↦ none
          | inr (inl full) ↦ none_left request.left.batches nonempty (omega arith)
          | inr (inr (b, rest, e, over)) ↦ absurd (omega (arith, ap count e))
        ];
        not_all_if = λ b b' more e over none. elim p.bounded [
          | inl fits ↦ absurd (omega (arith, ap count none))
          | inr (z, only, alone) ↦
              let same : only ∷ [] ≡ b ∷ b' ∷ more =
                sym (ap₂ (λ x y. x ++ y) alone none) ∙ p.split_up ∙ e in
              absurd (omega (arith, ap length same))
        ];
      }

  -- Told to shut down, with nothing more submitted and a backend that accepts the request, the loop
  -- sends one request and returns. What it delivers is the first part of its buffer. If all of the
  -- buffer fits into one request, nothing is lost; and if it does not, and there are two batches or
  -- more, the rest is lost, although the backend answers.
  pub step-Flushes : Flushes c.caps.request_max_metrics st.buffer.batches (step c st (farewell now))
  unfolding step drain_and_send submit_all settle
  step-Flushes = elim (Bool-cases (is_empty request.popped)) [
    | inl idle ↦ rw idle (flushes _ (nothing request.popped idle) refl)
    | inr busy ↦ rw busy (flushes _ refl refl)
  ]
