-- ===== src/Schedule/Tests.antt =====
-- odp_schedule.c: the theorems at a concrete scheduler.
use odp.Prelude.{
  Bool, false, inr, take, List, ◌+◌, ◌==◌, true, none, some, [], ◌∷◌, if◌then◌else◌, ℕ, zero, suc,
  ◌≡◌, ◌≢◌, ◌<◌, ◌↔◌, refl, arith,
}
use odp.Schedule.{Sched}
use odp.Queue.{ready, notsched, sched}
use odp.Queue.Heap.{Heap}
use odp.Queue.Table.{zeroed}
use odp.Schedule.Loop.{Local, World, dequeue, schedule, deliver}
use odp.Schedule.Loop.Safety.{IsSafe, IsSafeTried, schedule-IsSafe}
use odp.Schedule.Loop.Order.{deliver_lem}
use odp.Schedule.Protocol.{Config, empty, taken, holding, Thread, System, moved}
use odp.Schedule.Masks.{Agrees, bit}

abbrev idle : Sched
idle = record { pri_queue = λ p i. 0; pri_mask = λ p. 0; pri_count = λ p i. 0 }

-- Two queues in each sub queue 1.
abbrev busy : Sched
busy = record { pri_queue = λ p i. 0; pri_mask = λ p. 15; pri_count = λ p i. 2 }

idle-Agrees : Agrees idle
unfolding bit
idle-Agrees = record {
  narrow = λ p. omega arith;
  small = λ p i. omega arith;
  set_iff = λ p i h. ground arith;
}

abbrev two : ℕ
two = 2

all_set : (i : ℕ) → i < 4 → (bit 15 i ≡ 1) ↔ (two ≢ 0)
unfolding bit
all_set zero h = ((λ e. λ q. omega arith), λ n. refl)
all_set (suc zero) h = ((λ e. λ q. omega arith), λ n. refl)
all_set (suc (suc zero)) h = ((λ e. λ q. omega arith), λ n. refl)
all_set (suc (suc (suc zero))) h = ((λ e. λ q. omega arith), λ n. refl)
all_set (suc (suc (suc (suc i)))) h = absurd (omega arith)

busy-Agrees : Agrees busy
busy-Agrees = record {
  narrow = λ p. omega arith;
  small = λ p i. omega arith;
  set_iff = λ p i h. all_set i h;
}

-- Queue 1 is scheduled on the priority queue 0.
abbrev one_queue : Config
one_queue = record {
  is_sched = λ q. q == 1;
  is_atomic = λ q. true;
  command = λ q. q + 100;
  pri = λ q. 0;
}

abbrev idle_thread : Thread
idle_thread = record { hand = empty; pending = none }

abbrev created : System
created = record {
  queues = λ q. record { items = []; status = if q == 1 then notsched else ready };
  threads = λ x. idle_thread;
}

-- Thread 0 enqueues 7 and schedules the queue.
abbrev fed : System
fed =
    moved created 1 (record { items = 7 ∷ []; status = sched }) 0
      (record idle_thread { pending = some 1 })

abbrev waiting : System
waiting = moved fed 0 (record { items = 101 ∷ []; status = ready }) 0 idle_thread

-- Thread 1 takes the command event, and then the buffer.
abbrev chosen : System
chosen =
    moved waiting 0 (record { items = []; status = ready }) 1
      (record idle_thread { hand = taken 1 })

abbrev working : System
working =
    moved chosen 1 (record { items = []; status = sched }) 1
      (record idle_thread { hand = holding 1 })

abbrev thread_1 : ℕ
thread_1 = 1

-- Every queue is READY; the atomic queue 9 has given out the first of three buffers.
abbrev heap_ready : Heap
heap_ready = record {
  links = λ x. none;
  entries = λ i. record (zeroed i) {
    status = ready;
    param = record { prio = 0; sync = 1; group = 0; context = 0 };
  };
}

abbrev three_left : Local
three_left = record {
  pri_queue = 1;
  cmd_ev = 101;
  buf_hdr = λ i. i + 50;
  qe = 9;
  num = 2;
  index = 1;
  pause = false;
}

abbrev world_ready : World
world_ready = record {
  heap = heap_ready;
  sched = record idle { pri_queue = λ p i. p + 1 };
  cmds = λ b. dequeue 9;
  freed = [];
  loc = three_left;
}

abbrev no_poll : ℕ → Heap → Bool × Heap
no_poll pe h = (false, h)

world_ready-IsSafe : IsSafe (λ p i. p + 1) 4 world_ready
world_ready-IsSafe = record {
  table = refl;
  all_ready = λ i id a b. refl;
  held = inr (0, 0, omega arith, omega arith, refl);
  inside = omega arith;
}

schedule-IsSafe_example : IsSafeTried (λ p i. p + 1) 4 (schedule no_poll 1 4 0 world_ready)
schedule-IsSafe_example =
    schedule-IsSafe no_poll (λ p i. p + 1) 1 4 0 world_ready (λ pe h j r. r) world_ready-IsSafe

deliver_lem_example : ◌≡◌ {A = List ℕ} (7 ∷ []) (take 1 (7 ∷ 8 ∷ []))
unfolding deliver
deliver_lem_example = (deliver_lem 1 1 101 9 (7 ∷ 8 ∷ []) world_ready (7 ∷ []) 10 _ refl).0
