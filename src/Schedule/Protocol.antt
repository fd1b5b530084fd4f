-- ===== src/Schedule/Protocol.antt =====
-- platform/linux-generic/odp_schedule.c with odp_queue.c: how threads hand on the command event of
-- a scheduled queue.
--
-- A queue is scheduled while its command event is on the priority queue of its priority or with a
-- thread. Each step is one critical section of a function of odp_queue.c, at the place where
-- `schedule` or an enqueue of one buffer or of several calls it. The queues are the lists of
-- Queue/Heap.antt. A queue is created before the first step and not again after it is free. Left
-- out are the dequeue calls of the interface for poll queues, on a scheduled queue.
pub mod Tokens
pub mod Moves
pub mod Effects
pub mod Steps
pub mod Atomic
use odp.Prelude.{
  ℕ, ◌<◌, ◌≡◌, ◌≢◌, Bool, true, false, Option, none, some, List, [], ◌∷◌, if◌then◌else◌, update,
}
use odp.Queue.{Status, free, destroyed, ready, notsched, sched}
use odp.Queue.Heap.{Fifo, Op, enq, enq_multi, deq, deq_multi, Outcome, queued, got, got_multi, spec}

abbrev pub max_deq : ℕ
max_deq = 4

-- What the entries and the table of the scheduler say of each queue: whether its type is
-- scheduled and its synchronization atomic, its command event and its priority queue.
pub record Config : Type 0 where
  pub is_sched : ℕ → Bool
  pub is_atomic : ℕ → Bool
  pub command : ℕ → ℕ
  pub pri : ℕ → ℕ

-- Which command event a thread has, and what it does with it: `schedule` has taken it; the thread
-- holds it for an atomic queue (`sched_local.cmd_ev`); it gives it back; it has found the queue
-- destroyed; or it is that of a packet interface, of the given priority queue.
pub data Hand : Type 0 where
  empty : Hand
  taken : ℕ → Hand
  holding : ℕ → Hand
  returning : ℕ → Hand
  finalizing : ℕ → Hand
  polling : ℕ → ℕ → Hand

-- A thread between `queue_enq` or `queue_enq_multi` and the `schedule_queue` after it has the queue
-- `pending`.
pub record Thread : Type 0 where
  pub hand : Hand
  pub pending : Option ℕ

pub record System : Type 0 where
  pub queues : ℕ → Fifo
  pub threads : ℕ → Thread

-- `sched = 1; /* retval: schedule queue */`
abbrev pub to_schedule : ℕ → Outcome → Option ℕ
to_schedule q (queued rc flag) = if flag then some q else none
to_schedule q (got b) = none
to_schedule q (got_multi bs) = none

-- What `schedule` does after `queue_deq_multi`.
abbrev pub after_deq : Bool → ℕ → Outcome → Hand
after_deq is_atomic q (got_multi none) = finalizing q
after_deq is_atomic q (got_multi (some [])) = empty
after_deq is_atomic q (got_multi (some (b ∷ bs))) = if is_atomic then holding q else returning q
after_deq is_atomic q (got b) = empty
after_deq is_atomic q (queued rc flag) = empty

-- The status that `odp_queue_destroy` and `queue_destroy_finalize` leave.
abbrev pub destroyed_status : Status → Status
destroyed_status free = free
destroyed_status destroyed = destroyed
destroyed_status ready = free
destroyed_status notsched = free
destroyed_status sched = destroyed

abbrev pub destroy : Fifo → Fifo
destroy f = elim f.items [
  | [] ↦ record { items = []; status = destroyed_status f.status }
  | b ∷ bs ↦ f
]

abbrev pub finalized_status : Status → Status
finalized_status free = free
finalized_status destroyed = free
finalized_status ready = ready
finalized_status notsched = notsched
finalized_status sched = sched

abbrev pub finalize : Fifo → Fifo
finalize f = record f { status = finalized_status f.status }

-- One queue and one thread change.
abbrev pub moved : System → ℕ → Fifo → ℕ → Thread → System
moved s k f x t = record { queues = update s.queues k f; threads = update s.threads x t }

unfoldable pub put_back : System → ℕ → ℕ → ℕ → Thread → System
unfolding spec
put_back s p e x t = moved s p (spec (enq e) (s.queues p)).1 x t

-- One of `count` threads runs a critical section.
pub data Step (c : Config) (count : ℕ) (s : System) : System → Type 0 where
  enqueued :
      (x r b : ℕ)
      → x < count
      → c.is_sched r ≡ true
      → (s.threads x).pending ≡ none
      → Step c count s (
          moved s r
            (spec (enq b) (s.queues r)).1
            x
            (record (s.threads x) { pending = to_schedule r (spec (enq b) (s.queues r)).0 }))
  enqueued_multi :
      (x r b : ℕ) (bs : List ℕ)
      → x < count
      → c.is_sched r ≡ true
      → (s.threads x).pending ≡ none
      → Step c count s (
          moved s r (spec (enq_multi b bs) (s.queues r)).1 x (record (s.threads x) {
            pending = to_schedule r (spec (enq_multi b bs) (s.queues r)).0;
          }))
  scheduled :
      (x r : ℕ)
      → x < count
      → (s.threads x).pending ≡ some r
      → Step c count s
          (put_back s (c.pri r) (c.command r) x (record (s.threads x) { pending = none }))
  took :
      (x p r : ℕ)
      → x < count
      → c.is_sched p ≡ false
      → c.is_sched r ≡ true
      → (s.threads x).hand ≡ empty
      → (spec deq (s.queues p)).0 ≡ got (some (c.command r))
      → Step c count s
          (moved s p (spec deq (s.queues p)).1 x (record (s.threads x) { hand = taken r }))
  took_pktio :
      (x p e : ℕ)
      → x < count
      → c.is_sched p ≡ false
      → ((q : ℕ) → c.command q ≢ e)
      → (s.threads x).hand ≡ empty
      → (spec deq (s.queues p)).0 ≡ got (some e)
      → Step c count s
          (moved s p (spec deq (s.queues p)).1 x (record (s.threads x) { hand = polling p e }))
  took_none :
      (x p : ℕ)
      → x < count
      → c.is_sched p ≡ false
      → (s.threads x).hand ≡ empty
      → (spec deq (s.queues p)).0 ≡ got none
      → Step c count s (moved s p (spec deq (s.queues p)).1 x (s.threads x))
  dequeued :
      (x r : ℕ)
      → x < count
      → c.is_sched r ≡ true
      → (s.threads x).hand ≡ taken r
      → Step c count s (
          moved s r (spec (deq_multi max_deq) (s.queues r)).1 x (record (s.threads x) {
            hand = after_deq (c.is_atomic r) r (spec (deq_multi max_deq) (s.queues r)).0;
          }))
  returned :
      (x r : ℕ)
      → x < count
      → ((s.threads x).hand ≡ returning r)
      → Step c count s
          (put_back s (c.pri r) (c.command r) x (record (s.threads x) { hand = empty }))
  released :
      (x r : ℕ)
      → x < count
      → (s.threads x).hand ≡ holding r
      → Step c count s
          (put_back s (c.pri r) (c.command r) x (record (s.threads x) { hand = empty }))
  polled_again :
      (x p e : ℕ)
      → x < count
      → (s.threads x).hand ≡ polling p e
      → Step c count s (put_back s p e x (record (s.threads x) { hand = empty }))
  polled_last :
      (x p e : ℕ)
      → x < count
      → (s.threads x).hand ≡ polling p e
      → Step c count s (moved s p (s.queues p) x (record (s.threads x) { hand = empty }))
  finalized :
      (x r : ℕ)
      → x < count
      → c.is_sched r ≡ true
      → (s.threads x).hand ≡ finalizing r
      → Step c count s (moved s r (finalize (s.queues r)) x (record (s.threads x) { hand = empty }))
  destroyed_by :
      (x r : ℕ)
      → x < count
      → c.is_sched r ≡ true
      → Step c count s (moved s r (destroy (s.queues r)) x (s.threads x))

-- Every queue empty, the scheduled ones in use NOTSCHED and the priority queues READY; each thread
-- outside of the scheduler.
pub record IsStart (c : Config) (s : System) : Type 0 where
  pub no_items : (q : ℕ) → (s.queues q).items ≡ []
  pub scheduled_status : (q : ℕ) → c.is_sched q ≡ true → (s.queues q).status ≡ notsched
  pub pri_status : (q : ℕ) → c.is_sched q ≡ false → (s.queues q).status ≡ ready
  pub outside : (x : ℕ) → s.threads x ≡ record { hand = empty; pending = none }

pub data Reach (c : Config) (count : ℕ) : System → Type 0 where
  begin : {s : System} → IsStart c s → Reach c count s
  next : {s t : System} → Reach c count s → Step c count s t → Reach c count t

-- Two queues have two command events, and the queue of commands is no scheduled one.
pub record IsConfig (c : Config) : Type 0 where
  pub one_command : (q r : ℕ) → c.command q ≡ c.command r → q ≡ r
  pub pri_plain : (q : ℕ) → c.is_sched (c.pri q) ≡ false
