-- ===== src/Queue/Heap.antt =====
-- odp_queue.c: all queues with the one heap of headers that they share, and what they are to
-- their users: a family of lists.
pub mod Frame
pub mod Refine
use odp.Prelude.{
  ℕ, ◌≡◌, ◌≢◌, Bool, true, false, Option, none, some, List, [], ◌∷◌, ◌++◌, ltb, if◌then◌else◌,
  length, take, drop, update, Apart, NotIn, Distinct,
}
use odp.Queue.{
  Status, status_code, ready, mark_sched, unmark_sched, QueueEntry, queue_enq, queue_enq_multi,
  queue_deq, queue_deq_multi,
}
use odp.Queue.Chain.{Links}

-- The headers' links, and `queue_tbl->queue[]`.
pub record Heap : Type 0 where
  pub links : Links
  pub entries : ℕ → QueueEntry

-- A call on one queue.
pub data Op : Type 0 where
  enq : ℕ → Op
  enq_multi : ℕ → List ℕ → Op
  deq : Op
  deq_multi : ℕ → Op

-- What it returns; an enqueue also whether it goes on to schedule the queue.
pub data Outcome : Type 0 where
  queued : Option ℕ → Bool → Outcome
  got : Option ℕ → Outcome
  got_multi : Option (List ℕ) → Outcome

unfoldable pub run : Op → ℕ → Heap → Outcome × Heap
run (enq b) i s =
    let r = queue_enq s.links (s.entries i) b in
    (queued r.rc r.sched, record { links = r.links; entries = update s.entries i r.entry })
run (enq_multi b bs) i s =
    let r = queue_enq_multi s.links (s.entries i) b bs in
    (queued r.rc r.sched, record { links = r.links; entries = update s.entries i r.entry })
run deq i s =
    let r = queue_deq s.links (s.entries i) in
    (got r.result, record { links = r.links; entries = update s.entries i r.entry })
run (deq_multi n) i s =
    let r = queue_deq_multi s.links (s.entries i) n in
    (got_multi r.result, record { links = r.links; entries = update s.entries i r.entry })

-- A sequence of calls, each on a queue of its own.
unfoldable pub run_all : List (ℕ × Op) → Heap → List Outcome × Heap
unfolding run
run_all [] s = ([], s)
run_all ((i, op) ∷ ops) s = let (o, s') = run op i s in let (os, t) = run_all ops s' in (o ∷ os, t)

-- What a queue promises: a list of buffers, oldest first, and a status.
pub record Fifo : Type 0 where
  pub items : List ℕ
  pub status : Status

abbrev pub is_bad : Status → Bool
is_bad st = ltb (status_code st) (status_code ready)

abbrev pub add_items : List ℕ → ℕ → Fifo → Outcome × Fifo
add_items bs rc q = if is_bad q.status then (queued none false, q) else (
  queued (some rc) (mark_sched q.status).1,
  record { items = q.items ++ bs; status = (mark_sched q.status).0 },
)

abbrev pub take_item : List ℕ → Status → Outcome × Fifo
take_item [] st = (got none, record { items = []; status = unmark_sched st })
take_item (b ∷ bs) st = (got (some b), record { items = bs; status = st })

abbrev pub take_items : ℕ → List ℕ → Status → Outcome × Fifo
take_items n [] st = (got_multi (some []), record { items = []; status = unmark_sched st })
take_items n (b ∷ bs) st =
    (got_multi (some (take n (b ∷ bs))), record { items = drop n (b ∷ bs); status = st })

unfoldable pub spec : Op → Fifo → Outcome × Fifo
spec (enq b) q = add_items (b ∷ []) 0 q
spec (enq_multi b bs) q = add_items (b ∷ bs) (length (b ∷ bs)) q
spec deq q = take_item q.items q.status
spec (deq_multi n) q =
    if is_bad q.status then (got_multi none, q) else take_items n q.items q.status

unfoldable pub spec_all : List (ℕ × Op) → (ℕ → Fifo) → List Outcome × (ℕ → Fifo)
unfolding spec
spec_all [] qs = ([], qs)
spec_all ((i, op) ∷ ops) qs =
    let (o, q) = spec op (qs i) in let (os, ps) = spec_all ops (update qs i q) in (o ∷ os, ps)

-- The buffers that a call enqueues are distinct and on no queue.
abbrev pub IsFresh : Op → (ℕ → Fifo) → Type 0
IsFresh (enq b) qs = (i : ℕ) → NotIn b (qs i).items
IsFresh (enq_multi b bs) qs = Distinct (b ∷ bs) × ((i : ℕ) → Apart (b ∷ bs) (qs i).items)
IsFresh deq qs = Unit
IsFresh (deq_multi n) qs = Unit

abbrev pub AllFresh : List (ℕ × Op) → (ℕ → Fifo) → Type 0
unfolding spec
AllFresh [] qs = Unit
AllFresh ((i, op) ∷ ops) qs = IsFresh op qs × AllFresh ops (update qs i (spec op (qs i)).1)
