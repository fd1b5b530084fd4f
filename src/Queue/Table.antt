-- ===== src/Queue/Table.antt =====
-- odp_queue.c: the table of queues, with create, destroy and lookup; and from odp_schedule.c the
-- part of these that sets up and takes down the scheduling of a queue.
--
-- `odp_buffer_alloc(sched->pool)` belongs to the buffer pools: its result is the argument
-- `cmd_buf`, with `none` for an invalid buffer. A buffer, its event and its header are one number.
use odp.Prelude.{
  ℕ, zero, suc, ◌+◌, ◌-◌, ◌^◌, Bool, true, false, Option, none, some, List, [], ◌∷◌, ◌==◌,
  if◌then◌else◌, get_elem?, set, take, sub32, add32,
}
use odp.Queue.{
  Status, free, destroyed, ready, notsched, sched, QueueType, sched_queue, poll, pktin, pktout,
  Handlers, pktin_ops, pktout_ops, queue_ops, Param, QueueEntry,
}
use odp.Schedule.{Sched, pri_set_queue, pri_clr_queue}

abbrev pub event_invalid : ℕ
event_invalid = 2 ^ 32 - 1

abbrev pub queue_invalid : ℕ
queue_invalid = 0

abbrev pub queue_name_len : ℕ
queue_name_len = 32

-- The table, the scheduler, the queue that each command buffer names, and the events that were
-- given to `odp_event_free`, newest first.
pub record Table : Type 0 where
  pub queues : List QueueEntry
  pub sched : Sched
  pub cmds : ℕ → Option ℕ
  pub freed : List ℕ

abbrev pub is_free : Status → Bool
is_free free = true
is_free destroyed = false
is_free ready = false
is_free notsched = false
is_free sched = false

-- `type == ODP_QUEUE_TYPE_SCHED || type == ODP_QUEUE_TYPE_PKTIN`
abbrev pub is_scheduled : QueueType → Bool
is_scheduled sched_queue = true
is_scheduled poll = false
is_scheduled pktin = true
is_scheduled pktout = false

abbrev pub handlers_of : QueueType → Handlers
handlers_of sched_queue = queue_ops
handlers_of poll = queue_ops
handlers_of pktin = pktin_ops
handlers_of pktout = pktout_ops

-- ODP_SCHED_PRIO_DEFAULT, ODP_SCHED_SYNC_ATOMIC and ODP_SCHED_GROUP_ALL.
abbrev pub default_param : Param
default_param = record { prio = 4; sync = 1; group = 0; context = 0 }

abbrev param_of : Option Param → Param
param_of none = default_param
param_of (some p) = p

-- `strncpy` copies at most ODP_QUEUE_NAME_LEN - 1 characters; the name has no null in it.
unfoldable pub queue_init : List ℕ → QueueType → Option Param → QueueEntry → QueueEntry
queue_init name type param q = record q {
  name = take (queue_name_len - 1) name;
  type = type;
  param = param_of param;
  handlers = handlers_of type;
  head = none;
  tail = none;
  pri_queue = queue_invalid;
  cmd_ev = event_invalid;
}

-- A zeroed entry with its handle, `queue_from_id(i)`: what `odp_queue_init_global` leaves.
abbrev pub zeroed : ℕ → QueueEntry
zeroed i = record {
  head = none;
  tail = none;
  status = free;
  handlers = queue_ops;
  handle = add32 i 1;
  pri_queue = 0;
  cmd_ev = 0;
  type = sched_queue;
  param = record { prio = 0; sync = 0; group = 0; context = 0 };
  name = [];
}

-- `n` entries from index `i`.
unfoldable pub init_queues : ℕ → ℕ → List QueueEntry
init_queues zero i = []
init_queues (suc n) i = zeroed i ∷ init_queues n (i + 1)

-- The first free slot: the index at which the loop of `odp_queue_create` stops.
unfoldable pub free_slot : List QueueEntry → Option ℕ
free_slot [] = none
free_slot (q ∷ qs) =
    let rest = free_slot qs in
    if is_free q.status then some 0 else elim rest [ none ↦ none | some i ↦ some (suc i) ]

-- What the loop makes of the slot.
unfoldable pub open_entry : List ℕ → QueueType → Option Param → QueueEntry → QueueEntry
unfolding queue_init
open_entry name type param q = record (queue_init name type param q) {
  status = if is_scheduled type then notsched else ready;
}

unfoldable pub schedule_queue_init : Option ℕ → QueueEntry → Table → Option (QueueEntry × Table)
unfolding pri_set_queue
schedule_queue_init none q t = none
schedule_queue_init (some buf) q t =
    let (s, pri) = pri_set_queue q.handle q.param.prio t.sched in
    some (
      record q { cmd_ev = buf; pri_queue = pri },
      record t { sched = s; cmds = λ b. if b == buf then some q.handle else t.cmds b },
    )

unfoldable pub schedule_queue_destroy : QueueEntry → Table → QueueEntry × Table
unfolding pri_clr_queue
schedule_queue_destroy q t = (
  record q { cmd_ev = event_invalid; pri_queue = queue_invalid },
  record t { sched = pri_clr_queue q.handle q.param.prio t.sched; freed = q.cmd_ev ∷ t.freed },
)

-- `&queue_tbl->queue[i] = q`
abbrev pub store : Table → ℕ → QueueEntry → Table
store t i q = record t { queues = set t.queues i q }

-- The handle, or ODP_QUEUE_INVALID.
unfoldable pub odp_queue_create : List ℕ → QueueType → Option Param → Option ℕ → Table → ℕ × Table
unfolding free_slot open_entry schedule_queue_init
odp_queue_create name type param cmd_buf t = elim (free_slot t.queues) [
  | none ↦ (queue_invalid, t)
  | some i ↦ elim (get_elem? t.queues i) [
    | none ↦ (queue_invalid, t)
    | some old ↦
        let q = open_entry name type param old in
        if is_scheduled type
        then elim (schedule_queue_init cmd_buf q t) [
          | none ↦ (queue_invalid, store t i q)
          | some (q', t') ↦ (q.handle, store t' i q')
        ]
        else (q.handle, store t i q)
  ]
]

abbrev destroy_by : Status → QueueEntry → Table → Bool × QueueEntry × Table
destroy_by free q t = (false, q, t)
destroy_by destroyed q t = (false, q, t)
destroy_by ready q t = (true, record q { status = free }, t)
destroy_by notsched q t =
    let (q', t') = schedule_queue_destroy (record q { status = free }) t in (true, q', t')
destroy_by sched q t = (true, record q { status = destroyed }, t)

-- The entry's part of `odp_queue_destroy`: true is its return of 0, false the return of -1.
unfoldable pub destroy_entry : QueueEntry → Table → Bool × QueueEntry × Table
unfolding schedule_queue_destroy
destroy_entry q t = elim q.head [ none ↦ destroy_by q.status q t | some _ ↦ (false, q, t) ]

-- The code indexes the table by the handle less one and checks no bound; a handle outside the
-- table, which is undefined there, fails here.
unfoldable pub odp_queue_destroy : ℕ → Table → Bool × Table
unfolding destroy_entry
odp_queue_destroy handle t =
    let i = sub32 handle 1 in
    elim (get_elem? t.queues i) [
      | none ↦ (false, t)
      | some q ↦ let (ok, q', t') = destroy_entry q t in (ok, store t' i q')
    ]

abbrev finalize_by : Status → QueueEntry → Table → QueueEntry × Table
finalize_by free q t = (q, t)
finalize_by destroyed q t = schedule_queue_destroy (record q { status = free }) t
finalize_by ready q t = (q, t)
finalize_by notsched q t = (q, t)
finalize_by sched q t = (q, t)

-- `queue_destroy_finalize`, which the scheduler calls on a queue whose dequeue returned -1.
unfoldable pub queue_destroy_finalize : QueueEntry → Table → QueueEntry × Table
unfolding schedule_queue_destroy
queue_destroy_finalize q t = finalize_by q.status q t

-- `strcmp(name, queue->s.name) == 0`
unfoldable pub same_name : List ℕ → List ℕ → Bool
same_name [] [] = true
same_name [] (b ∷ bs) = false
same_name (a ∷ as') [] = false
same_name (a ∷ as') (b ∷ bs) = let rest = same_name as' bs in if a == b then rest else false

-- The handle of the first queue in use that has the name, or ODP_QUEUE_INVALID.
unfoldable pub odp_queue_lookup : List ℕ → List QueueEntry → ℕ
unfolding same_name
odp_queue_lookup name [] = queue_invalid
odp_queue_lookup name (q ∷ qs) =
    let rest = odp_queue_lookup name qs in
    if is_free q.status then rest else if same_name name q.name then q.handle else rest
