-- ===== src/Queue/Tests.antt =====
-- odp_queue.c: the theorems at concrete queues.
use odp.Prelude.{List, ℕ, ◌≡◌, refl, Option, none, some, [], ◌∷◌, arith, update}
use odp.Queue.{Status, destroyed, ready, notsched, sched, poll, QueueEntry, queue_enq}
use odp.Queue.Chain.{Links}
use odp.Queue.Fifo.{Contains, queue_enq-Contains}
use odp.Queue.Table.{Table, zeroed, open_entry}
use odp.Queue.Reach.{Cell, cell_of, created, Reach, here, next, IsSound, Reach-IsSound}
use odp.Schedule.{Sched}
use odp.Queue.Heap.{
  Heap, Op, enq, enq_multi, deq, deq_multi, Fifo, run_all, spec, spec_all, AllFresh,
}
use odp.Queue.Heap.Refine.{Represents, run_all-Represents}

-- Buffer 4 links to buffer 7.
abbrev two_links : Links
two_links = update (λ x. none) 4 (some 7)

abbrev no_links : Links
no_links = λ x. none

abbrev entry_of : Status → Option ℕ → Option ℕ → QueueEntry
entry_of s head tail = record (zeroed 0) { status = s; head = head; tail = tail }

abbrev queue_two : QueueEntry
queue_two = entry_of notsched (some 4) (some 7)

abbrev queue_none : QueueEntry
queue_none = entry_of sched none none

queue_two-Contains : Contains two_links queue_two (4 ∷ 7 ∷ [])
queue_two-Contains = record {
  chain = (7, refl, refl, (refl, (refl, refl)));
  distinct = ground arith;
}

queue_none-Contains : Contains no_links queue_none []
queue_none-Contains = record { chain = (refl, refl); distinct = tt }

queue_enq-Contains_example :
    Contains
      (queue_enq two_links queue_two 9).links
      (queue_enq two_links queue_two 9).entry
      (4 ∷ 7 ∷ 9 ∷ [])
queue_enq-Contains_example =
    (queue_enq-Contains two_links queue_two (4 ∷ 7 ∷ []) 9 queue_two-Contains (ground arith) refl).1

abbrev sched_none : Sched
sched_none = record { pri_queue = λ p i. 0; pri_mask = λ p. 0; pri_count = λ p i. 0 }

abbrev table_two : Table
table_two = record {
  queues = record (zeroed 0) { status = ready } ∷ zeroed 1 ∷ [];
  sched = sched_none;
  cmds = λ b. none;
  freed = [];
}

abbrev queue_gone : QueueEntry
queue_gone = entry_of destroyed none none

abbrev opened_cell : Cell
opened_cell = record (cell_of no_links (zeroed 0)) { entry = open_entry [] poll none (zeroed 0) }

opened-Reach : Reach (cell_of no_links (zeroed 0)) opened_cell
opened-Reach = next here (created (cell_of no_links (zeroed 0)) [] poll none refl)

Reach-IsSound_example : IsSound opened_cell.entry
Reach-IsSound_example = Reach-IsSound no_links 0 opened_cell opened-Reach

-- Two READY queues and four calls on the first.
abbrev two_queues : Heap
two_queues = record { links = no_links; entries = λ i. entry_of ready none none }

abbrev two_lists : ℕ → Fifo
two_lists = λ i. record { items = []; status = ready }

abbrev four_calls : List (ℕ × Op)
four_calls = (0, enq 5) ∷ (0, enq_multi 6 (7 ∷ [])) ∷ (0, deq) ∷ (0, deq_multi 4) ∷ []

two_queues-Represents : Represents two_queues two_lists
two_queues-Represents = record {
  holds = λ i. record { chain = (refl, refl); distinct = tt };
  status = λ i. refl;
  apart = λ i j n. tt;
}

four_calls-AllFresh : AllFresh four_calls two_lists
unfolding spec
four_calls-AllFresh =
    ((λ i. tt), (((((λ e. omega arith), tt), (tt, tt)), (λ i. ground arith)), (tt, (tt, tt))))

run_all-Represents_example :
    ((run_all four_calls two_queues).0 ≡ (spec_all four_calls two_lists).0)
    × Represents (run_all four_calls two_queues).1 (spec_all four_calls two_lists).1
run_all-Represents_example =
    run_all-Represents four_calls two_queues two_lists two_queues-Represents four_calls-AllFresh
