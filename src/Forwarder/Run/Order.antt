-- ===== src/Forwarder/Run/Order.antt =====
-- src/forwarder/otlphttp.rs: the loop of `run` delivers batches once and in order.
use mathlib.Core.List.{Sublist, sublist-append_left, sublist-append_right}
use mathlib.Core.List.Sublist
use ferrometer.Prelude.{List, [], ◌∷◌, subst}
use ferrometer.Forwarder.Buffer.{Caps}
use ferrometer.Forwarder.Run.{Config, Round, next, start, run}
use ferrometer.Forwarder.Run.Keeps.{buffer_of, submitted, run-IsFrom}
use ferrometer.Forwarder.Run.Retained.{Retains, IsFrom}

-- Eviction drops batches at the front.
sublist-Retains : {A : Type 0} (caps : Caps) → Retains caps (Sublist {A = List A})
sublist-Retains caps = record {
  same = Sublist.refl;
  trans = Sublist.trans;
  append = Sublist.append;
  empty = λ xs. sublist-append_left xs ([] ∷ []);
  evicted =
      λ before s e. subst (Sublist s.batches) e.split_up (sublist-append_right e.dropped s.batches);
}

-- Whatever is submitted and whatever the backend answers, the counter of the buffer stays exact and
-- within its cap, no batch in it is empty, and the batches delivered so far, in requests that the
-- backend answered with success, followed by those in the buffer, are a sublist of those submitted
-- while the loop runs: none is delivered twice in this sense, none out of order, and none that was
-- not submitted.
pub run-delivers_in_order :
    {A : Type 0} (c : Config) (rs : List (Round A))
    → IsFrom Sublist c.caps
        (submitted c (next (start c)) rs)
        (run c rs).delivered
        (buffer_of (run c rs).flow)
run-delivers_in_order c rs = run-IsFrom Sublist c (sublist-Retains c.caps) rs
