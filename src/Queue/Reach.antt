-- ===== src/Queue/Reach.antt =====
-- odp_queue.c: one queue entry under any sequence of its operations, each run under its lock, in
-- any order and by any threads.
use odp.Prelude.{ℕ, ◌≡◌, ◌≢◌, true, false, Option, none, some, List, arith}
use odp.Queue.{
  free, destroyed, ready, QueueType, Param, QueueEntry, queue_enq, queue_enq_multi, queue_deq,
  queue_deq_multi,
}
use odp.Queue.Chain.{Links}
use odp.Queue.Table.{
  Table, is_scheduled, zeroed, open_entry, queue_init, destroy_entry, queue_destroy_finalize,
  schedule_queue_init, schedule_queue_destroy,
}

pub record Cell : Type 0 where
  pub links : Links
  pub entry : QueueEntry

abbrev pub cell_of : Links → QueueEntry → Cell
cell_of h q = record { links = h; entry = q }

-- One critical section. `created` is the slot's part of `odp_queue_create`, `commanded` that of
-- `schedule_queue_init`, and `relinked` stands for changes to the headers by the other queues.
pub data Step : Cell → Cell → Type 0 where
  created :
      (c : Cell) (name : List ℕ) (type : QueueType) (param : Option Param)
      → c.entry.status ≡ free
      → Step c (record c { entry = open_entry name type param c.entry })
  commanded :
      (c : Cell) (cmd_buf : Option ℕ) (t t' : Table) (q : QueueEntry)
      → schedule_queue_init cmd_buf c.entry t ≡ some (q, t')
      → Step c (record c { entry = q })
  enqueued :
      (c : Cell) (buf : ℕ)
      → Step c (cell_of (queue_enq c.links c.entry buf).links (queue_enq c.links c.entry buf).entry)
  enqueued_multi :
      (c : Cell) (buf : ℕ) (bufs : List ℕ)
      → Step c (
          cell_of
            (queue_enq_multi c.links c.entry buf bufs).links
            (queue_enq_multi c.links c.entry buf bufs).entry)
  dequeued :
      (c : Cell)
      → Step c (cell_of (queue_deq c.links c.entry).links (queue_deq c.links c.entry).entry)
  dequeued_multi :
      (c : Cell) (num : ℕ)
      → Step c (
          cell_of
            (queue_deq_multi c.links c.entry num).links
            (queue_deq_multi c.links c.entry num).entry)
  destroyed_by : (c : Cell) (t : Table) → Step c (record c { entry = (destroy_entry c.entry t).1 })
  finalized :
      (c : Cell) (t : Table) → Step c (record c { entry = (queue_destroy_finalize c.entry t).0 })
  relinked : (c : Cell) (h : Links) → Step c (record c { links = h })

pub data Reach (c : Cell) : Cell → Type 0 where
  here : Reach c c
  next : {d e : Cell} → Reach c d → Step d e → Reach c e

-- What holds of an entry at all times: a free or destroyed one is empty, an unscheduled type in
-- use is READY, and a scheduled type never is.
pub record IsSound (q : QueueEntry) : Type 0 where
  pub free_empty : q.status ≡ free → q.head ≡ none
  pub destroyed_empty : q.status ≡ destroyed → q.head ≡ none
  pub plain : is_scheduled q.type ≡ false → q.status ≢ free → q.status ≡ ready
  pub scheduled : is_scheduled q.type ≡ true → q.status ≢ ready

schedule_queue_init-keeps :
    (buf : Option ℕ) (p : QueueEntry) (t : Table) (q : QueueEntry) (t' : Table)
    → schedule_queue_init buf p t ≡ some (q, t')
    → (q.status ≡ p.status) × (q.head ≡ p.head) × (q.type ≡ p.type)
unfolding schedule_queue_init
schedule_queue_init-keeps none p t q t' e = cc
schedule_queue_init-keeps (some b) p t q t' e = ground arith

Step-IsSound : {c d : Cell} → Step c d → IsSound c.entry → IsSound d.entry
unfolding open_entry queue_init schedule_queue_init queue_enq queue_enq_multi queue_deq
    queue_deq_multi destroy_entry queue_destroy_finalize schedule_queue_destroy
Step-IsSound (created c name type param f) v = ground arith
Step-IsSound (commanded c b t t' q e) v =
    ground (arith, schedule_queue_init-keeps b c.entry t q t' e)
Step-IsSound (enqueued c buf) v = ground arith
Step-IsSound (enqueued_multi c buf bufs) v = ground arith
Step-IsSound (dequeued c) v = ground arith
Step-IsSound (dequeued_multi c num) v = ground arith
Step-IsSound (destroyed_by c t) v = ground arith
Step-IsSound (finalized c t) v = ground arith
Step-IsSound (relinked c h) v = v

-- From a zeroed entry, whatever operations run and in whatever order, a queue that is free or
-- destroyed holds no buffer, a poll or pktout queue in use is READY, and a scheduled or pktin
-- queue is never READY.
pub Reach-IsSound :
    (h : Links) (i : ℕ) (c : Cell) → Reach (cell_of h (zeroed i)) c → IsSound c.entry
Reach-IsSound h i c here = ground arith
Reach-IsSound h i c (next r st) = Step-IsSound st (Reach-IsSound h i _ r)
