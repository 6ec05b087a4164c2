-- ===== src/Forwarder/Run/Exact.antt =====
-- src/forwarder/otlphttp.rs: as long as the buffer does not overflow, the loop of `run` loses nothing.
use ferrometer.Prelude.{
  ◌≤◌, length, concat, concat-append, sum_by-append, length-append, ap₂, ◌≡◌, refl, sym, ap, ◌∙◌,
  List, [], ◌∷◌, ◌++◌, append-nil, inl, inr, arith,
}
use ferrometer.Forwarder.Buffer.{BufferState, Caps}
use ferrometer.Forwarder.Buffer.Bounds.{Evicts}
use ferrometer.Forwarder.Run.{Config, Round, next, start, run}
use ferrometer.Forwarder.Buffer.Bounds.{count}
use ferrometer.Forwarder.Run.Keeps.{buffer_of, submitted, run-IsFrom}
use ferrometer.Forwarder.Run.Retained.{Retains}

-- The same metrics in the same order, if those that there were fit into the buffer.
record IsSame {A : Type 0} (caps : Caps) (xs ys : List (List A)) : Type 0 where
  same_if : count ys ≤ caps.buffer_max_metrics → concat xs ≡ concat ys

pub count-concat : {A : Type 0} (bs : List (List A)) → count bs ≡ length (concat bs)
count-concat [] = refl
count-concat (b ∷ bs) = omega (arith, count-concat bs, length-append b (concat bs))

module _ {A : Type 0} (caps : Caps) where
  IsSame-trans :
      {xs ys zs : List (List A)} → IsSame caps xs ys → IsSame caps ys zs → IsSame caps xs zs
  IsSame-trans {xs = xs} {ys = ys} {zs = zs} h k = record {
    same_if = λ fits.
        let same = k.same_if fits in
        h.same_if (omega (arith, count-concat ys, count-concat zs, ap length same)) ∙ same;
  }

  IsSame-append :
      {xs ys us vs : List (List A)}
      → IsSame caps xs ys
      → IsSame caps us vs
      → IsSame caps (xs ++ us) (ys ++ vs)
  IsSame-append {xs = xs} {ys = ys} {us = us} {vs = vs} h k = record {
    same_if = λ fits.
        let total = sum_by-append length ys vs in
        concat-append xs us
        ∙ ap₂ (λ a b. a ++ b) (h.same_if (omega arith)) (k.same_if (omega arith))
        ∙ sym (concat-append ys vs);
  }

  -- Nothing is evicted, as every eviction is needed.
  IsSame-evicted :
      (before : List (List A)) (s : BufferState A)
      → Evicts caps.buffer_max_metrics before s
      → IsSame caps s.batches before
  IsSame-evicted before s e = record {
    same_if = λ fits. elim e.needed [
      | inl none_dropped ↦
          ap (λ d. concat (d ++ s.batches)) (sym none_dropped) ∙ ap concat e.split_up
      | inr (pre, b, dropped, over) ↦ absurd (
          omega (
            arith,
            e.counted,
            ap count e.split_up,
            ap count dropped,
            sum_by-append length e.dropped s.batches,
            sum_by-append length pre (b ∷ []),
          ))
    ];
  }

  IsSame-Retains : Retains caps (IsSame {A = A} caps)
  IsSame-Retains = record {
    same = λ xs. record { same_if = λ fits. refl };
    trans = IsSame-trans;
    append = IsSame-append;
    empty = λ xs. record {
      same_if = λ fits. sym (concat-append xs ([] ∷ []) ∙ append-nil (concat xs));
    };
    evicted = IsSame-evicted;
  }

-- As long as all that is submitted fits into the buffer together, whatever the backend answers: the
-- metrics delivered, followed by those in the buffer, are exactly those submitted, in their order.
pub run-delivers_or_keeps :
    {A : Type 0} (c : Config) (rs : List (Round A))
    → count (submitted c (next (start c)) rs) ≤ c.caps.buffer_max_metrics
    → concat ((run c rs).delivered ++ (buffer_of (run c rs).flow).batches)
      ≡ concat (submitted c (next (start c)) rs)
run-delivers_or_keeps c rs fits =
    (run-IsFrom (IsSame c.caps) c (IsSame-Retains c.caps) rs).kept.same_if fits
