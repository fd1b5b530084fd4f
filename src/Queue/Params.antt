-- ===== src/Queue/Params.antt =====
-- odp_queue.c: the calls that read an entry of the table by its handle, and the one that sets its
-- context.
--
-- The code indexes the table by the handle less one and checks no bound; a handle outside the
-- table, which is undefined there, gives `none` here.
use odp.Prelude.{
  ℕ, ◌<◌, ◌≡◌, ◌≢◌, refl, Option, none, some, sub32, get_elem?, length, get_elem?-set_self,
  get_elem?-set_ne,
}
use odp.Queue.{QueueType, QueueEntry}
use odp.Queue.Table.{Table, store}

-- `queue_to_qentry`.
abbrev pub queue_to_qentry : ℕ → Table → Option QueueEntry
queue_to_qentry handle t = get_elem? t.queues (sub32 handle 1)

abbrev read {ℓ} : {A : Type ℓ} → (QueueEntry → A) → Option QueueEntry → Option A
read f none = none
read f (some q) = some (f q)

abbrev pub odp_queue_type : ℕ → Table → Option QueueType
odp_queue_type handle t = read (λ q. q.type) (queue_to_qentry handle t)

abbrev pub odp_queue_sched_type : ℕ → Table → Option ℕ
odp_queue_sched_type handle t = read (λ q. q.param.sync) (queue_to_qentry handle t)

abbrev pub odp_queue_sched_prio : ℕ → Table → Option ℕ
odp_queue_sched_prio handle t = read (λ q. q.param.prio) (queue_to_qentry handle t)

abbrev pub odp_queue_sched_group : ℕ → Table → Option ℕ
odp_queue_sched_group handle t = read (λ q. q.param.group) (queue_to_qentry handle t)

abbrev pub odp_queue_context : ℕ → Table → Option ℕ
odp_queue_context handle t = read (λ q. q.param.context) (queue_to_qentry handle t)

-- The entry's part of `odp_queue_context_set`.
abbrev pub set_context : ℕ → QueueEntry → QueueEntry
set_context context q = record q { param = record q.param { context = context } }

unfoldable pub odp_queue_context_set : ℕ → ℕ → Table → Option Table
odp_queue_context_set handle context t = elim (queue_to_qentry handle t) [
  | none ↦ none
  | some q ↦ some (store t (sub32 handle 1) (set_context context q))
]

-- If a handle names an entry of the table, odp_queue_context_set succeeds, odp_queue_context
-- then returns the context that was set, the queue keeps its type and priority, and every other
-- entry stays as it was.
pub odp_queue_context_set_lem :
    (handle context : ℕ) (q : QueueEntry) (t : Table)
    → queue_to_qentry handle t ≡ some q
    → sub32 handle 1 < length t.queues
    → (t' : Table) × (odp_queue_context_set handle context t ≡ some t')
      × (odp_queue_context handle t' ≡ some context)
      × (odp_queue_sched_prio handle t' ≡ odp_queue_sched_prio handle t)
      × (odp_queue_type handle t' ≡ odp_queue_type handle t)
      × ((other : ℕ)
          → sub32 handle 1 ≢ sub32 other 1
          → queue_to_qentry other t' ≡ queue_to_qentry other t)
unfolding odp_queue_context_set
odp_queue_context_set_lem handle context q t e lt =
    let i = sub32 handle 1 in
    let back = get_elem?-set_self t.queues i (set_context context q) lt in
    (
      store t i (set_context context q),
      rw (odp_queue_context_set, e) refl,
      rw back refl,
      rw (back, e) refl,
      rw (back, e) refl,
      λ other ne. get_elem?-set_ne t.queues i (sub32 other 1) (set_context context q) ne,
    )
