-- ===== src/Metrics/Delivered.antt =====
-- src/pipeline.rs, run: what the forwarders deliver, against what the collectors hand over.
use mathlib.Core.List.{Sublist, Sublistᴰ, sublist-append_left, sublist-append_right}
use mathlib.Core.List.Sublist
use mathlib.Core.Logic.{∥∥₁_elim, ∥∥₁_prop}
use ferrometer.Prelude.{
  ℕ, ◌≤◌, ◌≡◌, refl, sym, ap, subst, ◌∙◌, List, [], ◌∷◌, ◌++◌, append_assoc, append-nil, Bool, true,
  false, concat, concat-append, length, map, take, drop, take-append-drop, All, arith,
}
use ferrometer.Pipeline.{Scheduled, Event, next, returned, stuck}
use ferrometer.Pipeline
use ferrometer.Pipeline.Conservation.{IsPositive, pending, go_on-conserves}
use ferrometer.Forwarder.Buffer.Bounds.{count}
use ferrometer.Forwarder.Run.{Config, State, start}
use ferrometer.Forwarder.Run.GoingOn.{step-IsGoingOn}
use ferrometer.Forwarder.Run
use ferrometer.Forwarder.Run.Keeps.{buffer_of, submitted}
use ferrometer.Forwarder.Run.Order.{run-delivers_in_order}
use ferrometer.Forwarder.Run.Exact.{count-concat, run-delivers_or_keeps}
use ferrometer.Metrics.{Moment, Task, has_ended, round_at, deal, forward, run}

module _ {A : Type 0} (c : Config) where
  -- What the rounds take of the batches, and what they leave.
  record Deals (ended : Bool) (batches taken : List (List A)) : Type 0 where
    left : List (List A)
    split_up : taken ++ left ≡ batches
    all_if : ended ≡ true → left ≡ []

  deal-Deals :
      (ended : Bool) (last : Moment) (ms : List Moment) (st : State A) (batches : List (List A))
      → Deals ended batches (submitted c (Run.next st) (deal ended last ms batches))
  unfolding deal submitted
  deal-Deals false last [] st batches = record { left = batches; split_up = refl; all_if = λ e. cc }
  deal-Deals true last [] st batches = record {
    left = [];
    split_up =
        ap (λ t. t ++ []) (append-nil (batches ++ []) ∙ append-nil batches) ∙ append-nil batches;
    all_if = λ e. refl;
  }
  deal-Deals ended last (m ∷ ms) st batches =
      let behind = drop m.before batches in
      let r = round_at m false (take m.before batches) (take m.during behind) in
      let (st', e) = step-IsGoingOn c st r refl in
      let ahead = take m.before batches in
      let within = take m.during behind in
      let rest = deal-Deals ended last ms st' (drop m.during behind) in
      record {
        left = rest.left;
        split_up =
            append_assoc (ahead ++ within) _ rest.left
            ∙ ap (λ t. (ahead ++ within) ++ t)
                (ap (λ f. submitted c f (deal ended last ms (drop m.during behind)) ++ rest.left) e
                  ∙ rest.split_up)
            ∙ append_assoc ahead within (drop m.during behind)
            ∙ ap (λ t. ahead ++ t) (take-append-drop m.during behind)
            ∙ take-append-drop m.before batches;
        all_if = rest.all_if;
      }

concat-Sublistᴰ :
    {A : Type 0} {xs ys : List (List A)} → Sublistᴰ xs ys → Sublist (concat xs) (concat ys)
concat-Sublistᴰ Sublistᴰ.slnil = Sublist.refl []
concat-Sublistᴰ (Sublistᴰ.cons {a = a} h) =
    Sublist.trans (concat-Sublistᴰ h) (sublist-append_right a _)
concat-Sublistᴰ (Sublistᴰ.cons-cons {a = a} e h) =
    Sublist.append (subst (Sublist a) e (Sublist.refl a)) (concat-Sublistᴰ h)

concat-Sublist :
    {A : Type 0} {xs ys : List (List A)} → Sublist xs ys → Sublist (concat xs) (concat ys)
concat-Sublist h = ∥∥₁_elim h ∥∥₁_prop concat-Sublistᴰ

-- What a forwarder delivers, against the metrics taken from the collectors.
pub record IsServed {A : Type 0} (ended : Bool) (taken : List A) (t : Task) (s : Run.Step A)
    : Type 0 where
  pub in_order : Sublist (concat s.delivered) taken
  pub complete :
      ended ≡ true
      → length taken ≤ t.config.caps.buffer_max_metrics
      → concat s.delivered ++ concat (buffer_of s.flow).batches ≡ taken

pub AllServed : {A : Type 0} → Bool → List A → List Task → List (Run.Step A) → Type 0
AllServed ended taken [] [] = Unit {0}
AllServed ended taken (t ∷ ts) (s ∷ ss) = IsServed ended taken t s × AllServed ended taken ts ss
AllServed ended taken [] (s ∷ ss) = ⊥
AllServed ended taken (t ∷ ts) [] = ⊥

module _ {A : Type 0} (ended : Bool) (batches : List (List A)) (waiting taken : List A)
    (balanced : concat batches ++ waiting ≡ taken) (none_waits : ended ≡ true → waiting ≡ []) where
  forward-IsServed : (t : Task) → IsServed ended taken t (forward ended batches t)
  unfolding forward
  forward-IsServed t =
      let given = deal ended t.last t.moments batches in
      let dealt = deal-Deals t.config ended t.last t.moments (start t.config) batches in
      let all = submitted t.config (Run.next (start t.config)) given in
      let first = sublist-append_left all dealt.left in
      let out = Run.run t.config given in
      record {
        in_order =
            Sublist.trans
              (concat-Sublist (
                Sublist.trans (sublist-append_left out.delivered (buffer_of out.flow).batches) (
                  Sublist.trans (run-delivers_in_order t.config given).kept
                    (subst (Sublist all) dealt.split_up first))))
              (subst (Sublist (concat batches)) balanced
                (sublist-append_left (concat batches) waiting));
        complete = λ e fits.
            let reached : all ≡ batches =
              sym (append-nil all) ∙ ap (λ l. all ++ l) (sym (dealt.all_if e)) ∙ dealt.split_up in
            let whole : concat batches ≡ taken =
              sym (append-nil (concat batches))
              ∙ ap (λ l. concat batches ++ l) (sym (none_waits e))
              ∙ balanced in
            sym (concat-append out.delivered (buffer_of out.flow).batches)
            ∙ run-delivers_or_keeps t.config given
                (omega (arith, ap count reached, count-concat batches, ap length whole))
            ∙ ap concat reached
            ∙ whole;
      }

  forward-AllServed : (ts : List Task) → AllServed ended taken ts (map (forward ended batches) ts)
  unfolding AllServed
  forward-AllServed [] = tt
  forward-AllServed (t ∷ ts) = (forward-IsServed t, forward-AllServed ts)

-- Whatever the collectors hand over and whatever the backends answer, with intervals that are not
-- zero and however the tasks take turns: the metrics that each forwarder has delivered, in requests
-- that the backend answered with success, are a sublist of those that the scheduler took from the
-- channel of the collectors' tasks, in their order. None is delivered twice in this sense and none out
-- of order. When the scheduler has returned and all the metrics taken fit into a
-- forwarder's buffer together, that forwarder has delivered each of them or holds it in its buffer
-- at the end.
pub run-AllServed :
    {A : Type 0} (scheduleds : List Scheduled) (events : List (ℕ × Event A)) (tasks : List Task)
    → All IsPositive scheduleds
    → let out = run scheduleds events tasks in
      AllServed (has_ended out.scheduler.flow) out.scheduler.taken tasks out.forwarders
unfolding run
run-AllServed {A = A} scheduleds events tasks h =
    let first : Pipeline.State A = record { scheduleds = scheduleds; finished = [] } in
    let s = Pipeline.go_on (next first) events in
    forward-AllServed (has_ended s.flow) s.emitted (pending s.flow) s.taken
      (go_on-conserves (next first) events h).0 (none_pending s.flow) tasks
  where
    none_pending : {B : Type 0} (f : Pipeline.Flow B) → has_ended f ≡ true → pending f ≡ []
    none_pending (next st) e = cc
    none_pending returned e = refl
    none_pending stuck e = refl
