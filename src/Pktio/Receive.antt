-- ===== src/Pktio/Receive.antt =====
-- odp_packet_io.c: what `pktin_dequeue`, `pktin_deq_multi` and `pktin_poll` do with the packets that
-- an interface received.
--
-- The queues are those of one heap of headers, by index. `decide` gives the queue of the class of
-- service that `packet_classifier` selects for a packet, `none` if it selects none. `received` is
-- what `odp_pktio_recv` returned, at most 8 packets, `none` for a negative value.
use odp.Prelude.{
  ℕ, Bool, true, false, Option, none, some, List, [], ◌∷◌, ◌==◌, if◌then◌else◌, length, sub32,
}
use odp.Queue.Heap.{Heap, enq, enq_multi, deq, deq_multi, Outcome, queued, got, got_multi, run}
use odp.Pktio.{Entry}

-- Whether `queue_enq`, and so `packet_classifier`, returned a negative value.
abbrev pub failed : Outcome → Bool
failed (queued none sched) = true
failed (queued (some rc) sched) = false
failed (got b) = false
failed (got_multi bs) = false

-- `cmd_ev` and the index of `pri_queue` of each entry, which no call here changes.
pub record Commands : Type 0 where
  pub command : ℕ → ℕ
  pub pri : ℕ → ℕ

unfoldable pub schedule_queue : Commands → ℕ → Heap → Heap
unfolding run
schedule_queue c q s = (run (enq (c.command q)) (c.pri q) s).1

-- The end of `queue_enq` and of `queue_enq_multi`: `if (sched) schedule_queue(queue)`. Where the code
-- aborts, on a priority queue that is not in use, nothing is enqueued here.
abbrev pub then_schedule : Commands → ℕ → Outcome × Heap → Heap
then_schedule c q (queued rc true, s) = schedule_queue c q s
then_schedule c q (queued rc false, s) = s
then_schedule c q (got b, s) = s
then_schedule c q (got_multi bs, s) = s

abbrev pub keep_if : Bool → ℕ → List ℕ × Heap → List ℕ × Heap
keep_if true p (kept, s) = (p ∷ kept, s)
keep_if false p (kept, s) = (kept, s)

-- The loop over the packets received: those that were put on no queue, and the queues.
unfoldable pub sort_packets : Commands → (ℕ → Option ℕ) → List ℕ → Heap → List ℕ × Heap
unfolding run schedule_queue
sort_packets c decide [] s = ([], s)
sort_packets c decide (p ∷ ps) s = elim (decide p) [
  | none ↦ keep_if true p (sort_packets c decide ps s)
  | some q ↦
      keep_if (failed (run (enq p) q s).0) p
        (sort_packets c decide ps (then_schedule c q (run (enq p) q s)))
]

-- `if (j) queue_enq_multi(qentry, hdr_tbl, j)`
unfoldable pub enqueue_kept : Commands → ℕ → List ℕ × Heap → Heap
unfolding run schedule_queue
enqueue_kept c q ([], s) = s
enqueue_kept c q (b ∷ bs, s) = then_schedule c q (run (enq_multi b bs) q s)

abbrev pub first_kept : Commands → ℕ → List ℕ × Heap → Option ℕ × Heap
first_kept c q ([], s) = (none, s)
first_kept c q (b ∷ bs, s) = (some b, enqueue_kept c q (bs, s))

abbrev pub arrived : Option (List ℕ) → List ℕ
arrived none = []
arrived (some ps) = ps

abbrev pub or_received :
    Commands → (ℕ → Option ℕ) → Option (List ℕ) → ℕ → Outcome × Heap → Option ℕ × Heap
or_received c decide received q (got (some b), s) = (some b, s)
or_received c decide received q (got none, s) =
    first_kept c q (sort_packets c decide (arrived received) s)
or_received c decide received q (queued rc sched, s) = (none, s)
or_received c decide received q (got_multi bs, s) = (none, s)

unfoldable pub pktin_dequeue :
    Commands → (ℕ → Option ℕ) → Option (List ℕ) → ℕ → Heap → Option ℕ × Heap
unfolding run sort_packets enqueue_kept
pktin_dequeue c decide received q s = or_received c decide received q (run deq q s)

-- How many buffers `queue_deq_multi` returned are as many as were asked for.
abbrev pub is_full : ℕ → Option (List ℕ) → Bool
is_full num none = false
is_full num (some bs) = length bs == num

abbrev pub and_received :
    Commands → (ℕ → Option ℕ) → Option (List ℕ) → ℕ → ℕ → Outcome × Heap → Option (List ℕ) × Heap
and_received c decide received q num (got_multi bs, s) =
    if is_full num bs
    then (bs, s)
    else (bs, enqueue_kept c q (sort_packets c decide (arrived received) s))
and_received c decide received q num (got b, s) = (none, s)
and_received c decide received q num (queued rc sched, s) = (none, s)

unfoldable pub pktin_deq_multi :
    Commands → (ℕ → Option ℕ) → Option (List ℕ) → ℕ → ℕ → Heap → Option (List ℕ) × Heap
unfolding run sort_packets enqueue_kept
pktin_deq_multi c decide received q num s =
    and_received c decide received q num (run (deq_multi num) q s)

-- What the poll of an interface in use does with the packets.
abbrev pub poll_received :
    Commands → (ℕ → Option ℕ) → Bool → Option (List ℕ) → ℕ → Heap → Bool × Heap
poll_received c decide cls_enabled none q s = (false, s)
poll_received c decide cls_enabled (some ps) q s =
    (true, enqueue_kept c q (if cls_enabled then sort_packets c decide ps s else (ps, s)))

-- Whether it returns 0, and the queues.
unfoldable pub pktin_poll : Commands → (ℕ → Option ℕ) → Option (List ℕ) → Entry → Heap → Bool × Heap
unfolding sort_packets enqueue_kept
pktin_poll c decide received e s =
    if e.taken
    then (if e.inq_default == 0
        then (false, s)
        else if e.stopped
        then (true, s)
        else poll_received c decide e.cls_enabled received (sub32 e.inq_default 1) s)
    else (false, s)
