-- ===== src/Schedule/Loop.antt =====
-- platform/linux-generic/odp_schedule.c: `schedule` and what it calls, run by one thread without
-- another in between.
--
-- The heap of queues is that of Queue/Heap.antt; an entry is known by its index and its handle is
-- the index and one. An event, its buffer and its header are one number. ODP_ABORT is `none`. The
-- argument `poll` is `pktin_poll` of odp_packet_io.c: whether it returned an error, and the heap
-- after the packets that it enqueued.
pub mod Safety
pub mod Order
use Prim.Native.Nat.{bit_and}
use odp.Prelude.{
  ℕ, zero, suc, ◌+◌, ◌-◌, ◌^◌, ◌&&◌, not, Bool, true, false, Option, none, some, List, [], ◌∷◌,
  ◌==◌, leb, if◌then◌else◌, get_elem?, length, sub32, update,
}
use odp.Queue.{QueueEntry}
use odp.Queue.Heap.{Heap, Op, enq, deq, deq_multi, Outcome, queued, got, got_multi, run}
use odp.Queue.Table.{queue_invalid, event_invalid, Table, queue_destroy_finalize}
use odp.Schedule.{Sched, sched_prios, queues_per_prio, pri_clr_pktio}

-- sched_cmd_t.
pub data Cmd : Type 0 where
  dequeue : (qe : ℕ) → Cmd
  poll_pktin : (pktio pe prio : ℕ) → Cmd

-- sched_local_t; the array `buf_hdr` is a function.
pub record Local : Type 0 where
  pub pri_queue : ℕ
  pub cmd_ev : ℕ
  pub buf_hdr : ℕ → ℕ
  pub qe : ℕ
  pub num : ℕ
  pub index : ℕ
  pub pause : Bool

abbrev pub sched_local_init : Local
sched_local_init = record {
  pri_queue = queue_invalid;
  cmd_ev = event_invalid;
  buf_hdr = λ i. 0;
  qe = 0;
  num = 0;
  index = 0;
  pause = false;
}

-- `freed` are the events and buffers that were given back to their pool, newest first.
pub record World : Type 0 where
  pub heap : Heap
  pub sched : Sched
  pub cmds : ℕ → Cmd
  pub freed : List ℕ
  pub loc : Local

-- ODP_SCHED_SYNC_ATOMIC.
abbrev pub queue_is_atomic : QueueEntry → Bool
queue_is_atomic q = q.param.sync == 1

abbrev pub queue_to_index : ℕ → ℕ
queue_to_index handle = sub32 handle 1

-- What follows the critical section of an enqueue: `none` is its return of -1, and the flag tells
-- whether `schedule_queue` has to be called.
abbrev pub enqueued : Outcome × Heap → Option (Bool × Heap)
enqueued (queued none flag, h) = none
enqueued (queued (some rc) flag, h) = some (flag, h)
enqueued (got b, h) = none
enqueued (got_multi bs, h) = none

-- `schedule_queue(queue)`, whose failure aborts. The queue that it enqueues to is a priority queue,
-- which is never NOTSCHED, so that no further one has to be scheduled.
unfoldable pub schedule_queue : ℕ → Heap → Option Heap
unfolding run
schedule_queue i h =
    elim (enqueued (run (enq (h.entries i).cmd_ev) (queue_to_index (h.entries i).pri_queue) h)) [
      | none ↦ none
      | some (flag, h') ↦ some h'
    ]

-- `odp_queue_enq(handle, ev)`, where the caller aborts on an error.
unfoldable pub odp_queue_enq : ℕ → ℕ → Heap → Option Heap
unfolding schedule_queue run
odp_queue_enq handle ev h = elim (enqueued (run (enq ev) (queue_to_index handle) h)) [
  | none ↦ none
  | some (flag, h') ↦ elim flag [
    | true ↦ schedule_queue (queue_to_index handle) h'
    | false ↦ some h'
  ]
]

abbrev pub released : World → Option Heap → Option World
released w none = none
released w (some h) = some (record w { heap = h; loc = record w.loc { pri_queue = queue_invalid } })

unfoldable pub release_if : Bool → World → Option World
unfolding odp_queue_enq
release_if false w = some w
release_if true w = released w (odp_queue_enq w.loc.pri_queue w.loc.cmd_ev w.heap)

unfoldable pub odp_schedule_release_atomic : World → Option World
unfolding release_if
odp_schedule_release_atomic w =
    release_if (not (w.loc.pri_queue == queue_invalid) && w.loc.num == 0) w

-- The events that went to `out_ev`, whose number is the result.
unfoldable pub copy_events : ℕ → Local → List ℕ × Local
copy_events zero l = ([], l)
copy_events (suc max) l =
    let (evs, l') = copy_events max (record l { index = l.index + 1; num = l.num - 1 }) in
    if l.num == 0 then ([], l) else (l.buf_hdr l.index ∷ evs, l')

-- What one round of the inner loop leaves.
pub data Tried : Type 0 where
  aborted : Tried
  continue : World → Tried
  found : List ℕ → ℕ → World → Tried

abbrev pub continue_with : Option World → Tried
continue_with none = aborted
continue_with (some w) = continue w

-- `continue` in a loop: what is next, unless something was found.
abbrev pub and_then : Tried → (World → Tried) → Tried
and_then aborted next = aborted
and_then (continue w) next = next w
and_then (found evs q w) next = found evs q w

abbrev pub skip_if : Bool → World → Tried → Tried
skip_if true w r = continue w
skip_if false w r = r

abbrev pub with_heap : World → Option Heap → Option World
with_heap w none = none
with_heap w (some h) = some (record w { heap = h })

-- `buf_hdr[i]` after the dequeue of the listed buffers.
abbrev pub stored : List ℕ → (ℕ → ℕ) → ℕ → ℕ
stored bs old = λ i. elim (get_elem? bs i) [ none ↦ old i | some b ↦ b ]

-- `queue_destroy_finalize(qe)`, with the scheduler's tables as those of Queue/Table.antt.
unfoldable pub finalize : ℕ → World → World
unfolding queue_destroy_finalize
finalize q w =
    let (e, t) =
      queue_destroy_finalize (w.heap.entries q)
        (record { queues = []; sched = w.sched; cmds = λ b. none; freed = w.freed }) in
    record w {
      heap = record w.heap { entries = update w.heap.entries q e };
      sched = t.sched;
      freed = t.freed;
    }

abbrev pub found_with : List ℕ → ℕ → World → Option Heap → Tried
found_with evs handle w none = aborted
found_with evs handle w (some h) = found evs handle (record w { heap = h })

-- Hold an atomic queue, or continue scheduling the queue; then return what was found.
unfoldable pub hand_over : Bool → ℕ → ℕ → List ℕ → ℕ → World → Tried
unfolding odp_queue_enq
hand_over true pri_q ev evs handle w =
    found evs handle (record w { loc = record w.loc { pri_queue = pri_q; cmd_ev = ev } })
hand_over false pri_q ev evs handle w = found_with evs handle w (odp_queue_enq pri_q ev w.heap)

-- The rest of a round, once the queue `q` gave the buffers.
unfoldable pub deliver : ℕ → ℕ → ℕ → ℕ → List ℕ → World → Tried
unfolding copy_events hand_over
deliver max_num pri_q ev q bs w =
    let (evs, loc) =
      copy_events max_num
        (record w.loc { num = length bs; index = 0; qe = q; buf_hdr = stored bs w.loc.buf_hdr }) in
    let e = w.heap.entries q in
    hand_over (queue_is_atomic e) pri_q ev evs e.handle (record w { loc = loc })

-- What a round does with the answer of `queue_deq_multi` on the queue `q`.
unfoldable pub after_deq : ℕ → ℕ → ℕ → ℕ → Outcome → World → Tried
unfolding finalize deliver
after_deq max_num pri_q ev q (got_multi none) w = continue (finalize q w)
after_deq max_num pri_q ev q (got_multi (some [])) w = continue w
after_deq max_num pri_q ev q (got_multi (some (b ∷ bs))) w = deliver max_num pri_q ev q (b ∷ bs) w
after_deq max_num pri_q ev q (got b) w = continue w
after_deq max_num pri_q ev q (queued rc flag) w = continue w

-- Stop scheduling the packet interface, or continue to.
unfoldable pub poll_end : Bool → ℕ → ℕ → ℕ → ℕ → World → Tried
unfolding odp_queue_enq pri_clr_pktio
poll_end true pri_q ev pktio prio w =
    continue (record w { sched = pri_clr_pktio pktio prio w.sched; freed = ev ∷ w.freed })
poll_end false pri_q ev pktio prio w = continue_with (with_heap w (odp_queue_enq pri_q ev w.heap))

module _ (poll : ℕ → Heap → Bool × Heap) where
  -- What a round does with the command that the event `ev` names.
  unfoldable pub obey : ℕ → ℕ → ℕ → ℕ → Cmd → World → Tried
  unfolding after_deq poll_end
  obey max_num max_deq pri_q ev (poll_pktin pktio pe prio) w =
      let (stop, h) = poll pe w.heap in poll_end stop pri_q ev pktio prio (record w { heap = h })
  obey max_num max_deq pri_q ev (dequeue q) w =
      let (o, h) = run (deq_multi max_deq) q w.heap in
      after_deq max_num pri_q ev q o (record w { heap = h })

  unfoldable pub take_command : ℕ → ℕ → ℕ → Outcome → World → Tried
  unfolding obey
  take_command max_num max_deq pri_q (got (some ev)) w = obey max_num max_deq pri_q ev (w.cmds ev) w
  take_command max_num max_deq pri_q (got none) w = continue w
  take_command max_num max_deq pri_q (got_multi bs) w = continue w
  take_command max_num max_deq pri_q (queued rc flag) w = continue w

  -- One round of the inner loop, at priority `i` and sub queue `id`.
  unfoldable pub try_queue : ℕ → ℕ → ℕ → ℕ → World → Tried
  unfolding take_command run
  try_queue max_num max_deq i id w =
      let pri_q = w.sched.pri_queue i id in
      let (o, h) = run deq (queue_to_index pri_q) w.heap in
      skip_if (bit_and (w.sched.pri_mask i) (2 ^ id) == 0) w
        (take_command max_num max_deq pri_q o (record w { heap = h }))

  -- The inner loop, with `j` rounds to go.
  unfoldable pub scan_queues : ℕ → ℕ → ℕ → ℕ → ℕ → World → Tried
  unfolding try_queue
  scan_queues max_num max_deq i zero id w = continue w
  scan_queues max_num max_deq i (suc j) id w =
      let id' = if leb queues_per_prio id then 0 else id in
      and_then (try_queue max_num max_deq i id' w)
        (λ w'. scan_queues max_num max_deq i j (id' + 1) w')

  -- The outer loop, with `n` priorities to go, from `i`.
  unfoldable pub scan_prios : ℕ → ℕ → ℕ → ℕ → ℕ → World → Tried
  unfolding scan_queues
  scan_prios max_num max_deq thr zero i w = continue w
  scan_prios max_num max_deq thr (suc n) i w =
      and_then
        (skip_if (w.sched.pri_mask i == 0) w
          (scan_queues max_num max_deq i queues_per_prio (bit_and thr (queues_per_prio - 1)) w))
        (λ w'. scan_prios max_num max_deq thr n (i + 1) w')

  unfoldable pub after_release : ℕ → ℕ → ℕ → Option World → Tried
  unfolding scan_prios
  after_release max_num max_deq thr none = aborted
  after_release max_num max_deq thr (some w) =
      skip_if w.loc.pause w (scan_prios max_num max_deq thr sched_prios 0 w)

  -- Whether there are events left from the last dequeue.
  unfoldable pub schedule_by : Bool → ℕ → ℕ → ℕ → World → Tried
  unfolding copy_events odp_schedule_release_atomic after_release
  schedule_by true max_num max_deq thr w =
      let (evs, l) = copy_events max_num w.loc in
      found evs (w.heap.entries w.loc.qe).handle (record w { loc = l })
  schedule_by false max_num max_deq thr w =
      after_release max_num max_deq thr (odp_schedule_release_atomic w)

  -- The thread `thr` calls `schedule`. The results are the events and the queue put to `out_queue`;
  -- a result without events leaves `out_queue` as it was.
  unfoldable pub schedule : ℕ → ℕ → ℕ → World → Tried
  unfolding schedule_by
  schedule max_num max_deq thr w = schedule_by (not (w.loc.num == 0)) max_num max_deq thr w

abbrev pub odp_schedule_pause : World → World
odp_schedule_pause w = record w { loc = record w.loc { pause = true } }

abbrev pub odp_schedule_resume : World → World
odp_schedule_resume w = record w { loc = record w.loc { pause = false } }

-- False is the return of -1; `none` is an abort.
abbrev pub odp_schedule_term_local : World → Option (Bool × World)
unfolding odp_schedule_release_atomic
odp_schedule_term_local w = elim w.loc.num [
  | suc n ↦ some (false, w)
  | zero ↦ elim (odp_schedule_release_atomic w) [
    | none ↦ none
    | some w' ↦ some (true, record w' { loc = sched_local_init })
  ]
]
