-- ===== src/Log/Shipper/Ledger.antt =====
-- src/log/shipper.rs: each acknowledgement of a run, against the entries that are settled before it.
use ferrometer.Prelude.{
  ℕ, ◌≡◌, refl, sym, ap, ◌∙◌, subst, ap₂, List, [], ◌∷◌, ◌++◌, append_assoc, append-nil, Option,
  none, some, arith,
}
use ferrometer.Backoff.{waits}
use ferrometer.Error.{Result, ok, err}
use ferrometer.Log.Source.{LogEntry, Batch, Cursor}
use ferrometer.Log.Shipper.{
  Shipper, State, Round, Select, ready, shutdown, sleep, Flow, next, stop, Step, peek, pause, step,
  go_on, behind, run, start,
}
use ferrometer.Log.Shipper.Settling.{
  account, acknowledged, acknowledged-append, served, in_flight, Holds, FlowHolds, Keeps,
  fresh-Holds, ship-Keeps,
}

-- A peeked batch extends what is in flight: the source only appends to a batch before its ack.
abbrev pub Extends : List LogEntry → Select (Result (Option Batch)) → Type 0
Extends es (ready (ok (some b))) = (more : List LogEntry) × (es ++ more ≡ b.entries)
Extends es _ = Unit {0}

-- The batch that the calls of a round are about; where none is peeked, there is no call about one.
abbrev pub peeked_batch : List LogEntry → Select (Result (Option Batch)) → Batch
peeked_batch es (ready (ok (some b))) = b
peeked_batch es _ = record { entries = es; end_cursor = []; approx_bytes = 0 }

grow-Holds :
    (st : State) (settled es more : List LogEntry) {fs : List LogEntry}
    → es ++ more ≡ fs
    → Holds st settled es
    → Holds st settled fs
grow-Holds st settled es more e h = record {
  rest = h.rest ++ more;
  split_up = sym (append_assoc settled h.rest more) ∙ ap (λ t. t ++ more) h.split_up ∙ e;
  counted = h.counted;
  chunk_pos = h.chunk_pos;
}

module _ (sh : Shipper) (st : State) (r : Round) (settled es : List LogEntry)
    (h : Holds st settled es) where
  peek-Keeps :
      (p : Select (Result (Option Batch)))
      → Extends es p
      → Keeps settled (peeked_batch es p) (peek sh st r p)
  unfolding peek acknowledged served account in_flight
  peek-Keeps shutdown x = record { acks = refl; holds = tt }
  peek-Keeps (ready (err e)) x = record { acks = refl; holds = tt }
  peek-Keeps (ready (ok none)) x = record { acks = refl; holds = tt }
  peek-Keeps (ready (ok (some b))) x =
      ship-Keeps sh st r b settled (grow-Holds st settled es x.0 x.1 h)

  behind_sleep-Keeps :
      (wait : ℕ) (b : Batch) (s : Step)
      → Keeps settled b s
      → Keeps settled b (behind (sleep wait ∷ []) s)
  unfolding acknowledged served account in_flight
  behind_sleep-Keeps wait b s k = record {
    acks = subst (λ t. acknowledged t s.calls ≡ served b s.calls) (sym (append-nil settled)) k.acks;
    holds =
        subst (λ t. FlowHolds s.flow (account t s.calls) (in_flight b.entries s.calls))
          (sym (append-nil settled)) k.holds;
  }

  pause-Keeps :
      (w : Option ℕ) (s : Select (Unit {0}))
      → Extends es r.peeked
      → Keeps settled (peeked_batch es r.peeked) (pause sh st r w s)
  unfolding pause acknowledged served account in_flight
  pause-Keeps none s x = peek-Keeps r.peeked x
  pause-Keeps (some wait) shutdown x = record { acks = refl; holds = tt }
  pause-Keeps (some wait) (ready u) x = behind_sleep-Keeps wait _ _ (peek-Keeps r.peeked x)

  step-Keeps : Extends es r.peeked → Keeps settled (peeked_batch es r.peeked) (step sh st r)
  unfolding step
  step-Keeps x = pause-Keeps (waits st.backoff_until r.now) r.slept x

-- The source of a run extends its batch until the ack, round after round.
abbrev pub Honest : Shipper → Flow → List LogEntry → List Round → Type 0
Honest sh flow es [] = Unit {0}
Honest sh (stop res) es (r ∷ rs) = Unit {0}
Honest sh (next st) es (r ∷ rs) =
    Extends es r.peeked
    × Honest sh (step sh st r).flow
        (in_flight (peeked_batch es r.peeked).entries (step sh st r).calls) rs

-- The cursors and the batches that the rounds acknowledge.
unfoldable pub acked_batches :
    Shipper → Flow → List LogEntry → List Round → List (Cursor × List LogEntry)
acked_batches sh flow es [] = []
acked_batches sh (stop res) es (r ∷ rs) = []
acked_batches sh (next st) es (r ∷ rs) =
    let b = peeked_batch es r.peeked in
    served b (step sh st r).calls
    ++ acked_batches sh (step sh st r).flow (in_flight b.entries (step sh st r).calls) rs

pub go_on-acks :
    (sh : Shipper) (flow : Flow) (settled es : List LogEntry) (rs : List Round)
    → FlowHolds flow settled es
    → Honest sh flow es rs
    → acknowledged settled (go_on sh flow rs).calls ≡ acked_batches sh flow es rs
unfolding go_on acked_batches
go_on-acks sh flow settled es [] h x = unfold acknowledged in refl
go_on-acks sh (stop res) settled es (r ∷ rs) h x = unfold acknowledged in refl
go_on-acks sh (next st) settled es (r ∷ rs) h x =
    let k = step-Keeps sh st r settled es h x.0 in
    acknowledged-append settled (step sh st r).calls _
    ∙ ap₂ (λ a b. a ++ b) k.acks (go_on-acks sh (step sh st r).flow _ _ rs k.holds x.1)

-- A source that only appends to the batch it serves until that batch is acknowledged, whatever the
-- sink answers and whenever the run is shut down: each cursor that the run acknowledges is the end
-- cursor of the batch peeked in that round, and the entries settled between the ack before it and
-- it are exactly the entries of that batch, in their order. So no entry is skipped or settled twice.
pub acks-settle_whole_batches :
    (sh : Shipper) (rs : List Round)
    → Honest sh (next start) [] rs
    → acknowledged [] (run sh rs).calls ≡ acked_batches sh (next start) [] rs
unfolding run
acks-settle_whole_batches sh rs x =
    go_on-acks sh (next start) [] [] rs (fresh-Holds start refl (omega arith)) x
