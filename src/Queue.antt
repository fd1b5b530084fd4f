-- ===== src/Queue.antt =====
-- platform/linux-generic/odp_queue.c and include/odp_queue_internal.h: one queue entry, the
-- operations that run under its lock, and the table's create, destroy and lookup.
--
-- A buffer header is a number and a null pointer is `none`; `Links` is the field `next` of all
-- headers. Each function is the whole critical section of its C function; what the C function
-- does after the unlock (`schedule_queue`) is the flag `sched` of its result. A return of -1 is
-- `none`. The lock is not part of the model.
pub mod Chain
pub mod Fifo
pub mod Table
pub mod Life
pub mod Params
pub mod Reach
pub mod Heap
mod Tests
use odp.Prelude.{
  ℕ, zero, suc, ◌+◌, Bool, true, false, Option, none, some, List, [], ◌∷◌, ltb, if◌then◌else◌,
}
use Chain.{Links, set_next, store_next, tail_of, link_all, unlink_run}

-- QUEUE_STATUS_FREE to QUEUE_STATUS_SCHED.
pub data Status : Type 0 where
  free destroyed ready notsched sched : Status

-- The numbers that the header gives them; the code compares these.
abbrev pub status_code : Status → ℕ
status_code free = 0
status_code destroyed = 1
status_code ready = 2
status_code notsched = 3
status_code sched = 4

pub data QueueType : Type 0 where
  sched_queue poll pktin pktout : QueueType

-- The enqueue and dequeue functions that `queue_init` installs, by their family.
pub data Handlers : Type 0 where
  pktin_ops pktout_ops queue_ops : Handlers

-- odp_queue_param_t.
pub record Param : Type 0 where
  pub prio : ℕ
  pub sync : ℕ
  pub group : ℕ
  pub context : ℕ

-- struct queue_entry_s, without the lock; `pktin` and `pktout` are not used by odp_queue.c.
pub record QueueEntry : Type 0 where
  pub head : Option ℕ
  pub tail : Option ℕ
  pub status : Status
  pub handlers : Handlers
  pub handle : ℕ
  pub pri_queue : ℕ
  pub cmd_ev : ℕ
  pub type : QueueType
  pub param : Param
  pub name : List ℕ

-- `queue->s.status < QUEUE_STATUS_READY`
abbrev pub bad_status : QueueEntry → Bool
bad_status q = ltb (status_code q.status) (status_code ready)

abbrev pub mark_sched : Status → Status × Bool
mark_sched free = (free, false)
mark_sched destroyed = (destroyed, false)
mark_sched ready = (ready, false)
mark_sched notsched = (sched, true)
mark_sched sched = (sched, false)

abbrev pub unmark_sched : Status → Status
unmark_sched free = free
unmark_sched destroyed = destroyed
unmark_sched ready = ready
unmark_sched notsched = notsched
unmark_sched sched = notsched

-- What an enqueue leaves: its return value, whether the queue has to be scheduled, the headers
-- and the entry.
pub record Enqueued : Type 0 where
  pub rc : Option ℕ
  pub sched : Bool
  pub links : Links
  pub entry : QueueEntry

unfoldable pub queue_enq : Links → QueueEntry → ℕ → Enqueued
queue_enq h q buf =
    if bad_status q then record { rc = none; sched = false; links = h; entry = q } else record {
      rc = some 0;
      sched = (mark_sched q.status).1;
      links = elim q.head [
        | none ↦ set_next h buf none
        | some _ ↦ set_next (store_next h q.tail (some buf)) buf none
      ];
      entry = record q {
        head = elim q.head [ none ↦ some buf | some b ↦ some b ];
        tail = some buf;
        status = (mark_sched q.status).0;
      };
    }

-- `buf_hdr[0 .. num - 1]` is `buf ∷ bufs`: the C code reads and writes `buf_hdr[num - 1]`, so it
-- must not be called with `num` 0. The headers are chained before the status is tested.
unfoldable pub queue_enq_multi : Links → QueueEntry → ℕ → List ℕ → Enqueued
queue_enq_multi h q buf bufs =
    let (h1, last, num) = link_all h buf bufs in
    if bad_status q then record { rc = none; sched = false; links = h1; entry = q } else record {
      rc = some num;
      sched = (mark_sched q.status).1;
      links = elim q.head [ none ↦ h1 | some _ ↦ store_next h1 q.tail (some buf) ];
      entry = record q {
        head = elim q.head [ none ↦ some buf | some b ↦ some b ];
        tail = some last;
        status = (mark_sched q.status).0;
      };
    }

-- What a dequeue leaves.
pub record Dequeued (A : Type 0) : Type 0 where
  pub result : A
  pub links : Links
  pub entry : QueueEntry

-- A null result is `none`.
unfoldable pub queue_deq : Links → QueueEntry → Dequeued (Option ℕ)
queue_deq h q = elim q.head [
  | none ↦ record { result = none; links = h; entry = record q { status = unmark_sched q.status } }
  | some b ↦ record {
    result = some b;
    links = set_next h b none;
    entry = record q { head = h b; tail = tail_of (h b) q.tail };
  }
]

-- `none` is the return of -1; otherwise the buffers that went to `buf_hdr[]`, whose number is
-- the return value.
unfoldable pub queue_deq_multi : Links → QueueEntry → ℕ → Dequeued (Option (List ℕ))
queue_deq_multi h q num =
    if bad_status q then record { result = none; links = h; entry = q } else elim q.head [
      | none ↦ record {
        result = some [];
        links = h;
        entry = record q { status = unmark_sched q.status };
      }
      | some b ↦
          let (bufs, hdr, h1) = unlink_run num h (some b) in
          record {
            result = some bufs;
            links = h1;
            entry = record q { head = hdr; tail = tail_of hdr q.tail };
          }
    ]
