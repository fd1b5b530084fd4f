-- ===== src/Schedule/Loop/Safety.antt =====
-- odp_schedule.c: `schedule` never aborts, and never leaves the array of its dequeued buffers.
use odp.Prelude.{
  ℕ, zero, suc, ◌+◌, ◌-◌, ◌^◌, ◌≤◌, ◌<◌, ◌≡◌, ◌≢◌, refl, sym, ap, ◌∙◌, ◌⊎◌, inl, inr, Bool, true,
  false, Option, none, some, List, [], ◌∷◌, ◌==◌, leb, if◌then◌else◌, arith, length, update,
  update_self, update-ne, ℕ_discrete, not, ◌&&◌,
}
use Prim.Native.Nat.{bit_and}
use odp.Queue.{ready, QueueEntry, queue_enq, queue_enq_multi, queue_deq, queue_deq_multi}
use odp.Queue.Chain.{Links, unlink_run, set_next}
use odp.Queue.Heap.{Heap, Op, enq, enq_multi, deq, deq_multi, Outcome, queued, got, got_multi, run}
use odp.Queue.Table.{queue_invalid, queue_destroy_finalize, schedule_queue_destroy, Table}
use odp.Schedule.{sched_prios, queues_per_prio, pri_clr_pktio, pri_clr_queue, pri_clr}
use odp.Schedule.Loop.{
  Cmd, dequeue, poll_pktin, Local, World, queue_is_atomic, queue_to_index, released, release_if,
  odp_queue_enq, odp_schedule_release_atomic, copy_events, Tried, and_then, skip_if, poll_end,
  aborted, continue, found, continue_with, with_heap, stored, finalize, hand_over, deliver,
  after_deq, obey, take_command, try_queue, scan_queues, scan_prios, after_release, schedule_by,
  schedule,
}

-- No operation takes a READY queue out of that status.
module _ (h : Links) (q : QueueEntry) (r : q.status ≡ ready) where
  enq-ready :
      (b : ℕ)
      → ((queue_enq h q b).entry.status ≡ ready)
        × ((queue_enq h q b).rc ≡ some 0)
        × ((queue_enq h q b).sched ≡ false)
  unfolding queue_enq
  enq-ready b = ground (arith, r)

  enq_multi-ready : (b : ℕ) (bs : List ℕ) → (queue_enq_multi h q b bs).entry.status ≡ ready
  unfolding queue_enq_multi
  enq_multi-ready b bs = ground (arith, r)

  deq-ready : (queue_deq h q).entry.status ≡ ready
  unfolding queue_deq
  deq-ready = ground (arith, r)

  deq_multi-ready : (n : ℕ) → (queue_deq_multi h q n).entry.status ≡ ready
  unfolding queue_deq_multi
  deq_multi-ready n = ground (arith, r)

ready_update :
    (es : ℕ → QueueEntry) (k : ℕ) (e : QueueEntry) (j : ℕ)
    → ((es k).status ≡ ready → e.status ≡ ready)
    → (es j).status ≡ ready
    → (update es k e j).status ≡ ready
ready_update es k e j f r = elim (ℕ_discrete j k) [
  | yes p ↦ rw (p, update_self es k e) (f (sym (ap (λ z. (es z).status) p) ∙ r))
  | no n ↦ rw (update-ne es k e j n) r
]

pub run-ready :
    (op : Op) (k : ℕ) (h : Heap) (j : ℕ)
    → (h.entries j).status ≡ ready
    → ((run op k h).1.entries j).status ≡ ready
unfolding run
run-ready (enq b) k h j r =
    ready_update h.entries k _ j (λ e. (enq-ready h.links (h.entries k) e b).0) r
run-ready (enq_multi b bs) k h j r =
    ready_update h.entries k _ j (λ e. enq_multi-ready h.links (h.entries k) e b bs) r
run-ready deq k h j r = ready_update h.entries k _ j (λ e. deq-ready h.links (h.entries k) e) r
run-ready (deq_multi n) k h j r =
    ready_update h.entries k _ j (λ e. deq_multi-ready h.links (h.entries k) e n) r

odp_queue_enq-ready :
    (handle ev : ℕ) (h : Heap)
    → (h.entries (queue_to_index handle)).status ≡ ready
    → odp_queue_enq handle ev h ≡ some (run (enq ev) (queue_to_index handle) h).1
unfolding odp_queue_enq run
odp_queue_enq-ready handle ev h r =
    let (_, rc, fl) = enq-ready h.links (h.entries (queue_to_index handle)) r ev in
    rw (odp_queue_enq, rc, fl) refl

unlink_run-length : (n : ℕ) (h : Links) (hdr : Option ℕ) → length (unlink_run n h hdr).0 ≤ n
unfolding unlink_run
unlink_run-length zero h hdr = omega arith
unlink_run-length (suc n) h none = omega arith
unlink_run-length (suc n) h (some b) = omega (arith, unlink_run-length n (set_next h b none) (h b))

-- A dequeue answers with at most as many buffers as it was asked for.
abbrev pub IsAtMost : ℕ → Outcome → Type 0
IsAtMost n (queued rc flag) = Unit
IsAtMost n (got b) = Unit
IsAtMost n (got_multi none) = Unit
IsAtMost n (got_multi (some bs)) = length bs ≤ n

deq_multi-IsAtMost : (n q : ℕ) (h : Heap) → IsAtMost n (run (deq_multi n) q h).0
unfolding run queue_deq_multi
deq_multi-IsAtMost n q h = ground (arith, unlink_run-length n h.links (h.entries q).head)

copy_events-keeps :
    (max bound : ℕ) (l : Local)
    → l.index + l.num ≤ bound
    → let l' = (copy_events max l).1 in (l'.index + l'.num ≤ bound) × (l'.pri_queue ≡ l.pri_queue)
unfolding copy_events
copy_events-keeps zero bound l b = (b, refl)
copy_events-keeps (suc max) bound l b = elim (ℕ_discrete l.num 0) [
  | yes e ↦ ground (arith, e)
  | no n ↦
      let ih =
        copy_events-keeps max bound (record l { index = l.index + 1; num = l.num - 1 })
          (omega arith) in
      ground (arith, n, ih)
]

-- What holds whenever no thread is inside `schedule`: the queues of the table `t` of priority
-- queues are READY, the atomic queue held is of the table, and the buffers not yet given out lie
-- within the `bound` places of `buf_hdr`.
pub record IsSafe (t : ℕ → ℕ → ℕ) (bound : ℕ) (w : World) : Type 0 where
  pub table : w.sched.pri_queue ≡ t
  pub all_ready :
      (i id : ℕ)
      → i < sched_prios
      → id < queues_per_prio
      → (w.heap.entries (queue_to_index (t i id))).status ≡ ready
  pub held :
      (w.loc.pri_queue ≡ queue_invalid)
      ⊎ ((i : ℕ) × (id : ℕ) × (i < sched_prios)
          × (id < queues_per_prio)
          × (w.loc.pri_queue ≡ t i id))
  pub inside : w.loc.index + w.loc.num ≤ bound

abbrev pub IsSafeTried : (ℕ → ℕ → ℕ) → ℕ → Tried → Type 0
IsSafeTried t bound aborted = ⊥
IsSafeTried t bound (continue w) = IsSafe t bound w
IsSafeTried t bound (found evs q w) = IsSafe t bound w

-- A change of the heap that leaves every READY queue so.
abbrev KeepsReady : Heap → Heap → Type 0
KeepsReady h h' = (j : ℕ) → (h.entries j).status ≡ ready → (h'.entries j).status ≡ ready

finalize-table :
    (q : QueueEntry) (t : Table)
    → (queue_destroy_finalize q t).1.sched.pri_queue ≡ t.sched.pri_queue
unfolding queue_destroy_finalize schedule_queue_destroy pri_clr_queue pri_clr
finalize-table q t = ground arith

finalize-ready :
    (q : QueueEntry) (t : Table) → q.status ≡ ready → (queue_destroy_finalize q t).0.status ≡ ready
unfolding queue_destroy_finalize schedule_queue_destroy
finalize-ready q t e = ground (arith, e)

module _ (t : ℕ → ℕ → ℕ) (bound : ℕ) where
  with_heap-IsSafe :
      (w : World) (h : Heap)
      → IsSafe t bound w
      → KeepsReady w.heap h
      → IsSafe t bound (record w { heap = h })
  with_heap-IsSafe w h v k = record {
    table = v.table;
    all_ready = λ i id a b. k (queue_to_index (t i id)) (v.all_ready i id a b);
    held = v.held;
    inside = v.inside;
  }

  -- The command event goes back to its priority queue.
  back-IsSafe :
      (w : World) (i id ev : ℕ)
      → IsSafe t bound w
      → i < sched_prios
      → id < queues_per_prio
      → IsSafeTried t bound (continue_with (with_heap w (odp_queue_enq (t i id) ev w.heap)))
  back-IsSafe w i id ev v a b =
      rw (odp_queue_enq-ready (t i id) ev w.heap (v.all_ready i id a b))
        (with_heap-IsSafe w _ v (λ j r. run-ready (enq ev) (queue_to_index (t i id)) w.heap j r))

  with_local-IsSafe :
      (w : World) (l : Local)
      → IsSafe t bound w
      → l.pri_queue ≡ w.loc.pri_queue
      → l.index + l.num ≤ bound
      → IsSafe t bound (record w { loc = l })
  with_local-IsSafe w l v e b = record {
    table = v.table;
    all_ready = v.all_ready;
    held = rw e v.held;
    inside = b;
  }

  release_if-IsSafe :
      (r : Bool) (w : World)
      → (r ≡ true → w.loc.pri_queue ≢ queue_invalid)
      → IsSafe t bound w
      → (w' : World) × (release_if r w ≡ some w') × IsSafe t bound w'
  unfolding release_if
  release_if-IsSafe false w valid v = (w, refl, v)
  release_if-IsSafe true w valid v = elim v.held [
    | inl e ↦ absurd (valid refl e)
    | inr (i, id, a, b, e) ↦
        let k = queue_to_index w.loc.pri_queue in
        let r : (w.heap.entries k).status ≡ ready = rw e (v.all_ready i id a b) in
        let h = (run (enq w.loc.cmd_ev) k w.heap).1 in
        (
          record w { heap = h; loc = record w.loc { pri_queue = queue_invalid } },
          ap (released w) (odp_queue_enq-ready w.loc.pri_queue w.loc.cmd_ev w.heap r),
          record {
            table = v.table;
            all_ready = λ x y c d.
                run-ready (enq w.loc.cmd_ev) k w.heap (queue_to_index (t x y))
                  (v.all_ready x y c d);
            held = inl refl;
            inside = v.inside;
          },
        )
  ]

  release-IsSafe :
      (w : World)
      → IsSafe t bound w
      → (w' : World) × (odp_schedule_release_atomic w ≡ some w') × IsSafe t bound w'
  unfolding odp_schedule_release_atomic
  release-IsSafe w v =
      release_if-IsSafe (not (w.loc.pri_queue == queue_invalid) && w.loc.num == 0) w
        (λ c e. ground (arith, c, e)) v

  finalize-IsSafe : (q : ℕ) (w : World) → IsSafe t bound w → IsSafe t bound (finalize q w)
  unfolding finalize
  finalize-IsSafe q w v = record {
    table = finalize-table (w.heap.entries q) _ ∙ v.table;
    all_ready = λ i id a b.
        ready_update w.heap.entries q _ (queue_to_index (t i id))
          (finalize-ready (w.heap.entries q) _) (v.all_ready i id a b);
    held = v.held;
    inside = v.inside;
  }

  hand_over-IsSafe :
      (atomic : Bool) (i id ev : ℕ) (evs : List ℕ) (handle : ℕ) (w : World)
      → IsSafe t bound w
      → i < sched_prios
      → id < queues_per_prio
      → IsSafeTried t bound (hand_over atomic (t i id) ev evs handle w)
  unfolding hand_over
  hand_over-IsSafe true i id ev evs handle w v a b = record {
    table = v.table;
    all_ready = v.all_ready;
    held = inr (i, id, a, b, refl);
    inside = v.inside;
  }
  hand_over-IsSafe false i id ev evs handle w v a b =
      rw (odp_queue_enq-ready (t i id) ev w.heap (v.all_ready i id a b))
        (with_heap-IsSafe w _ v (λ j r. run-ready (enq ev) (queue_to_index (t i id)) w.heap j r))

  deliver-IsSafe :
      (max_num i id ev q : ℕ) (bs : List ℕ) (w : World)
      → IsSafe t bound w
      → i < sched_prios
      → id < queues_per_prio
      → length bs ≤ bound
      → IsSafeTried t bound (deliver max_num (t i id) ev q bs w)
  unfolding deliver
  deliver-IsSafe max_num i id ev q bs w v a b l =
      let loc = record w.loc {
        num = length bs;
        index = 0;
        qe = q;
        buf_hdr = stored bs w.loc.buf_hdr;
      } in
      let (c, p) = copy_events-keeps max_num bound loc (omega arith) in
      hand_over-IsSafe (queue_is_atomic (w.heap.entries q)) i id ev _ _ _
        (with_local-IsSafe w (copy_events max_num loc).1 v p c) a b

  after_deq-IsSafe :
      (max_num i id ev q : ℕ) (o : Outcome) (w : World)
      → IsSafe t bound w
      → i < sched_prios
      → id < queues_per_prio
      → IsAtMost bound o
      → IsSafeTried t bound (after_deq max_num (t i id) ev q o w)
  unfolding after_deq
  after_deq-IsSafe max_num i id ev q (got_multi none) w v a b l = finalize-IsSafe q w v
  after_deq-IsSafe max_num i id ev q (got_multi (some [])) w v a b l = v
  after_deq-IsSafe max_num i id ev q (got_multi (some (c ∷ bs))) w v a b l =
      deliver-IsSafe max_num i id ev q (c ∷ bs) w v a b l
  after_deq-IsSafe max_num i id ev q (got o) w v a b l = v
  after_deq-IsSafe max_num i id ev q (queued rc flag) w v a b l = v

  poll_end-IsSafe :
      (stop : Bool) (i id ev pktio prio : ℕ) (w : World)
      → IsSafe t bound w
      → i < sched_prios
      → id < queues_per_prio
      → IsSafeTried t bound (poll_end stop (t i id) ev pktio prio w)
  unfolding poll_end pri_clr_pktio pri_clr
  poll_end-IsSafe true i id ev pktio prio w v a b = record {
    table = v.table;
    all_ready = v.all_ready;
    held = v.held;
    inside = v.inside;
  }
  poll_end-IsSafe false i id ev pktio prio w v a b = back-IsSafe w i id ev v a b

  and_then-IsSafe :
      (r : Tried) (next : World → Tried)
      → IsSafeTried t bound r
      → ((w : World) → IsSafe t bound w → IsSafeTried t bound (next w))
      → IsSafeTried t bound (and_then r next)
  and_then-IsSafe aborted next v f = v
  and_then-IsSafe (continue w) next v f = f w v
  and_then-IsSafe (found evs q w) next v f = v

  skip_if-IsSafe :
      (skip : Bool) (w : World) (r : Tried)
      → IsSafe t bound w
      → IsSafeTried t bound r
      → IsSafeTried t bound (skip_if skip w r)
  skip_if-IsSafe true w r v u = v
  skip_if-IsSafe false w r v u = u

  module _ (poll : ℕ → Heap → Bool × Heap)
      (kp : (pe : ℕ) (h : Heap) → KeepsReady h (poll pe h).1) where
    obey-IsSafe :
        (max_num i id ev : ℕ) (c : Cmd) (w : World)
        → IsSafe t bound w
        → i < sched_prios
        → id < queues_per_prio
        → IsSafeTried t bound (obey poll max_num bound (t i id) ev c w)
    unfolding obey
    obey-IsSafe max_num i id ev (dequeue q) w v a b =
        after_deq-IsSafe max_num i id ev q (run (deq_multi bound) q w.heap).0
          (record w { heap = (run (deq_multi bound) q w.heap).1 })
          (with_heap-IsSafe w (run (deq_multi bound) q w.heap).1 v
            (λ j r. run-ready (deq_multi bound) q w.heap j r))
          a b (deq_multi-IsAtMost bound q w.heap)
    obey-IsSafe max_num i id ev (poll_pktin pktio pe prio) w v a b =
        poll_end-IsSafe (poll pe w.heap).0 i id ev pktio prio _
          (with_heap-IsSafe w _ v (kp pe w.heap)) a b

    take_command-IsSafe :
        (max_num i id : ℕ) (o : Outcome) (w : World)
        → IsSafe t bound w
        → i < sched_prios
        → id < queues_per_prio
        → IsSafeTried t bound (take_command poll max_num bound (t i id) o w)
    unfolding take_command
    take_command-IsSafe max_num i id (got (some ev)) w v a b =
        obey-IsSafe max_num i id ev (w.cmds ev) w v a b
    take_command-IsSafe max_num i id (got none) w v a b = v
    take_command-IsSafe max_num i id (got_multi bs) w v a b = v
    take_command-IsSafe max_num i id (queued rc flag) w v a b = v

    try_queue-IsSafe :
        (max_num i id : ℕ) (w : World)
        → IsSafe t bound w
        → i < sched_prios
        → id < queues_per_prio
        → IsSafeTried t bound (try_queue poll max_num bound i id w)
    unfolding try_queue
    try_queue-IsSafe max_num i id w v a b =
        skip_if-IsSafe (bit_and (w.sched.pri_mask i) (2 ^ id) == 0) w _ v (
          rw (ap (λ f. f i id) v.table) (
            take_command-IsSafe max_num i id (run deq (queue_to_index (t i id)) w.heap).0
              (record w { heap = (run deq (queue_to_index (t i id)) w.heap).1 })
              (with_heap-IsSafe w (run deq (queue_to_index (t i id)) w.heap).1 v
                (λ j r. run-ready deq (queue_to_index (t i id)) w.heap j r))
              a b))

    scan_queues-IsSafe :
        (max_num i j id : ℕ) (w : World)
        → IsSafe t bound w
        → i < sched_prios
        → IsSafeTried t bound (scan_queues poll max_num bound i j id w)
    unfolding scan_queues
    scan_queues-IsSafe max_num i zero id w v a = v
    scan_queues-IsSafe max_num i (suc j) id w v a =
        let id' = if leb queues_per_prio id then 0 else id in
        and_then-IsSafe (try_queue poll max_num bound i id' w) _
          (try_queue-IsSafe max_num i id' w v a (ground arith))
          (λ w' v'. scan_queues-IsSafe max_num i j (id' + 1) w' v' a)

    scan_prios-IsSafe :
        (max_num thr n i : ℕ) (w : World)
        → IsSafe t bound w
        → n + i ≤ sched_prios
        → IsSafeTried t bound (scan_prios poll max_num bound thr n i w)
    unfolding scan_prios
    scan_prios-IsSafe max_num thr zero i w v a = v
    scan_prios-IsSafe max_num thr (suc n) i w v a =
        and_then-IsSafe _ _
          (skip_if-IsSafe (w.sched.pri_mask i == 0) w _ v (
            scan_queues-IsSafe max_num i queues_per_prio (bit_and thr (queues_per_prio - 1)) w v
              (omega arith)))
          (λ w' v'. scan_prios-IsSafe max_num thr n (i + 1) w' v' (omega arith))

    schedule_by-IsSafe :
        (left : Bool) (max_num thr : ℕ) (w : World)
        → IsSafe t bound w
        → IsSafeTried t bound (schedule_by poll left max_num bound thr w)
    unfolding schedule_by after_release
    schedule_by-IsSafe true max_num thr w v =
        let (c, p) = copy_events-keeps max_num bound w.loc v.inside in
        with_local-IsSafe w (copy_events max_num w.loc).1 v p c
    schedule_by-IsSafe false max_num thr w v =
        let (w', e, v') = release-IsSafe w v in
        rw e (
          skip_if-IsSafe w'.loc.pause w' _ v'
            (scan_prios-IsSafe max_num thr sched_prios 0 w' v' (omega arith)))

-- If the priority queues are READY, the atomic queue held is one of them, the events not yet
-- given out lie within the first max_deq places of buf_hdr, and polling leaves READY queues
-- READY, a call of schedule, whatever it finds, does not abort and keeps all this.
pub schedule-IsSafe :
    (poll : ℕ → Heap → Bool × Heap) (t : ℕ → ℕ → ℕ) (max_num max_deq thr : ℕ) (w : World)
    → ((pe : ℕ) (h : Heap) → KeepsReady h (poll pe h).1)
    → IsSafe t max_deq w
    → IsSafeTried t max_deq (schedule poll max_num max_deq thr w)
unfolding schedule
schedule-IsSafe poll t max_num max_deq thr w kp v =
    schedule_by-IsSafe t max_deq poll kp (not (w.loc.num == 0)) max_num thr w v
