-- ===== src/Log/Shipper/Settling.antt =====
-- src/log/shipper.rs: the calls of one request, and the entries that are settled by them. An entry is
-- settled by a request that the sink accepts or rejects as invalid, or that holds it alone and is too
-- large.
use ferrometer.Prelude.{
  ℕ, ◌+◌, ◌≤◌, ◌≡◌, refl, sym, ap, ◌∙◌, subst, ◌%◌, is_empty, min, List, [], ◌∷◌, ◌++◌,
  append_assoc, append-nil, length, length-append, take, drop, length-take, take-append-drop,
  drop-length_append, leb, ◌==◌, if◌then◌else◌, inl, inr, Bool-cases, ==_iff, arith,
}
use ferrometer.Error.{Result, ok, err, sink_payload_too_large, sink_rejected}
use ferrometer.Log.Source.{LogEntry, Batch, Cursor}
use ferrometer.Log.Shipper.{
  Shipper, State, Round, Select, ready, shutdown, Call, send, ack, Flow, next, stop, Step,
  finish_batch, finish_if_sent, after_send, request, ship, behind, u32_mod,
}

abbrev settles : Call → List LogEntry
settles (send s (ok u)) = s
settles (send s (err (sink_rejected msg))) = s
settles (send s (err (sink_payload_too_large msg))) = if length s == 1 then s else []
settles _ = []

-- The entries settled since the last ack, behind those settled before.
unfoldable pub account : List LogEntry → List Call → List LogEntry
account settled [] = settled
account settled (ack c (ok u) ∷ cs) = account [] cs
account settled (c ∷ cs) = account (settled ++ settles c) cs

-- Each acknowledged cursor, with the entries settled since the ack before it.
unfoldable pub acknowledged : List LogEntry → List Call → List (Cursor × List LogEntry)
acknowledged settled [] = []
acknowledged settled (ack c (ok u) ∷ cs) = (c, settled) ∷ acknowledged [] cs
acknowledged settled (c ∷ cs) = acknowledged (settled ++ settles c) cs

pub acknowledged-append :
    (settled : List LogEntry) (cs ds : List Call)
    → acknowledged settled (cs ++ ds)
      ≡ acknowledged settled cs ++ acknowledged (account settled cs) ds
unfolding acknowledged account
acknowledged-append settled [] ds = refl
acknowledged-append settled (ack c (ok u) ∷ cs) ds =
    ap (λ t. (c, settled) ∷ t) (acknowledged-append [] cs ds)
acknowledged-append settled (ack c (err e) ∷ cs) ds = acknowledged-append (settled ++ []) cs ds
acknowledged-append settled (c ∷ cs) ds = acknowledged-append (settled ++ settles c) cs ds

-- What an ack stands for: the cursor and the entries of the batch that was peeked.
unfoldable pub served : Batch → List Call → List (Cursor × List LogEntry)
served b [] = []
served b (ack c (ok u) ∷ cs) = (b.end_cursor, b.entries) ∷ served b cs
served b (c ∷ cs) = served b cs

-- The entries in flight behind the calls: none once they are acknowledged.
unfoldable pub in_flight : List LogEntry → List Call → List LogEntry
in_flight es [] = es
in_flight es (ack c (ok u) ∷ cs) = in_flight [] cs
in_flight es (c ∷ cs) = in_flight es cs

-- `sent` counts the entries at the front of the batch that are settled.
pub record Holds (st : State) (settled es : List LogEntry) : Type 0 where
  pub rest : List LogEntry
  pub split_up : settled ++ rest ≡ es
  pub counted : length settled ≡ st.progress.sent
  pub chunk_pos : 1 ≤ st.progress.chunk

abbrev pub FlowHolds : Flow → List LogEntry → List LogEntry → Type 0
FlowHolds (next st) settled es = Holds st settled es
FlowHolds (stop res) settled es = Unit {0}

-- A step that acknowledges a batch only when its entries are settled, and keeps the count.
pub record Keeps (settled : List LogEntry) (b : Batch) (s : Step) : Type 0 where
  pub acks : acknowledged settled s.calls ≡ served b s.calls
  pub holds : FlowHolds s.flow (account settled s.calls) (in_flight b.entries s.calls)

pub fresh-Holds : (st : State) → st.progress.sent ≡ 0 → 1 ≤ st.progress.chunk → Holds st [] []
fresh-Holds st z h = record { rest = []; split_up = refl; counted = sym z; chunk_pos = h }

finish-Keeps :
    (st : State) (b : Batch) (acked : Result (Unit {0}))
    → Keeps b.entries b (finish_batch st b acked)
unfolding finish_batch acknowledged served account in_flight
finish-Keeps st b (ok u) = record { acks = refl; holds = fresh-Holds _ refl (omega arith) }
finish-Keeps st b (err e) = record { acks = refl; holds = tt }

no_rest :
    (settled rest : List LogEntry)
    → length (settled ++ rest) ≤ length settled
    → settled ++ rest ≡ settled
no_rest settled [] h = append-nil settled
no_rest settled (x ∷ rest) h = absurd (omega (arith, length-append settled (x ∷ rest)))

finish_if_sent-Keeps :
    (st : State) (b : Batch) (acked : Result (Unit {0})) (settled : List LogEntry)
    → Holds st settled b.entries
    → Keeps settled b (finish_if_sent st b acked)
unfolding finish_if_sent acknowledged served account in_flight
finish_if_sent-Keeps st b acked settled h =
    elim (Bool-cases (leb (length b.entries) st.progress.sent)) [
      | inl full ↦
          let whole : settled ≡ b.entries =
            sym (no_rest settled h.rest (rw h.split_up (ground (arith, h.counted)))) ∙ h.split_up in
          rw full (rw whole (finish-Keeps st b acked))
      | inr part ↦ rw part (record { acks = refl; holds = h })
    ]

-- The next request holds `slice`, the first of the entries that are not settled.
module _ (settled slice more : List LogEntry) (b : Batch) where
  extend-Holds :
      (st : State) (n : ℕ)
      → settled ++ (slice ++ more) ≡ b.entries
      → length (settled ++ slice) ≡ n
      → st.progress.sent ≡ n
      → 1 ≤ st.progress.chunk
      → Holds st (settled ++ slice) b.entries
  extend-Holds st n e l c h = record {
    rest = more;
    split_up = append_assoc settled slice more ∙ e;
    counted = l ∙ sym c;
    chunk_pos = h;
  }

  module _ (sh : Shipper) (st : State) (r : Round) where
    after_send-Keeps :
        (result : Result (Unit {0}))
        → settled ++ (slice ++ more) ≡ b.entries
        → length settled ≡ st.progress.sent
        → 1 ≤ length slice
        → 1 ≤ st.progress.chunk
        → Keeps
            (settled ++ settles (send slice result))
            b
            (after_send sh st r b (length slice) result)
    unfolding after_send acknowledged served account in_flight
    after_send-Keeps (ok u) e l n h =
        finish_if_sent-Keeps _ b r.acked _
          (extend-Holds _ _ e (length-append settled slice ∙ ap (λ t. t + length slice) l) refl h)
    after_send-Keeps (err (sink_rejected msg)) e l n h =
        finish_if_sent-Keeps _ b r.acked _
          (extend-Holds _ _ e (length-append settled slice ∙ ap (λ t. t + length slice) l) refl h)
    after_send-Keeps (err (sink_payload_too_large msg)) e l n h =
        elim (Bool-cases (length slice == 1)) [
          | inl one ↦ rw one (
              finish_if_sent-Keeps _ b r.acked _ (
                extend-Holds _ (st.progress.sent + 1) e
                  (omega (arith, length-append settled slice, l, (==_iff (length slice) 1).0 one))
                  refl h))
          | inr many ↦
              rw (many, append-nil settled)
                (record {
                  acks = refl;
                  holds = record {
                    rest = slice ++ more;
                    split_up = e;
                    counted = l;
                    chunk_pos = ground arith;
                  };
                })
        ]
    after_send-Keeps (err x) e l n h = rw (append-nil settled) (record {
      acks = refl;
      holds = record { rest = slice ++ more; split_up = e; counted = l; chunk_pos = h };
    })

request-Keeps :
    (sh : Shipper) (st : State) (r : Round) (b : Batch) (settled slice more : List LogEntry) (n : ℕ)
    (sel : Select (Result (Unit {0})))
    → settled ++ (slice ++ more) ≡ b.entries
    → length settled ≡ st.progress.sent
    → length slice ≡ n
    → 1 ≤ n
    → 1 ≤ st.progress.chunk
    → Keeps settled b (request sh st r b n slice sel)
unfolding request acknowledged served account in_flight
request-Keeps sh st r b settled slice more n shutdown e l k p h = record { acks = refl; holds = tt }
request-Keeps sh st r b settled slice more n (ready result) e l k p h =
    let kept =
      after_send-Keeps settled slice more b sh
        (record st {
          progress = record (st.progress) { requests = (st.progress.requests + 1) % u32_mod };
        })
        r result e l (omega arith) h in
    subst
      (λ m. Keeps settled b (
        behind (send slice result ∷ []) (
          after_send sh
            (record st {
              progress = record (st.progress) { requests = (st.progress.requests + 1) % u32_mod };
            })
            r b m result)))
      k (record { acks = kept.acks; holds = kept.holds })

-- Behind the settled entries of the batch stand those that are pending.
pending_rest :
    (settled rest es : List LogEntry) (sent : ℕ)
    → settled ++ rest ≡ es
    → length settled ≡ sent
    → drop (min sent (length es)) es ≡ rest
pending_rest settled rest es sent e l =
    let m : min sent (length es) ≡ length settled =
      omega (arith, l, length-append settled rest, ap length e) in
    rw m (rw (← e) (drop-length_append settled rest))

pub ship-Keeps :
    (sh : Shipper) (st : State) (r : Round) (b : Batch) (settled : List LogEntry)
    → Holds st settled b.entries
    → Keeps settled b (ship sh st r b)
unfolding ship
ship-Keeps sh st r b settled h =
    rw (pending_rest settled h.rest b.entries st.progress.sent h.split_up h.counted)
      (go h.rest h.split_up)
  where
    go :
        (rest : List LogEntry)
        → settled ++ rest ≡ b.entries
        → Keeps settled b (
            if is_empty rest
            then finish_batch st b r.acked
            else request sh st r b
                (min (length rest) st.progress.chunk)
                (take (min (length rest) st.progress.chunk) rest)
                r.sent)
    go [] e = rw (sym (append-nil settled) ∙ e) (finish-Keeps st b r.acked)
    go (x ∷ rest) e =
        let n = min (length (x ∷ rest)) st.progress.chunk in
        request-Keeps sh st r b settled (take n (x ∷ rest)) (drop n (x ∷ rest)) n r.sent
          (ap (◌++◌ settled) (take-append-drop n (x ∷ rest)) ∙ e) h.counted
          (omega (arith, length-take n (x ∷ rest))) (omega (arith, h.chunk_pos)) h.chunk_pos
