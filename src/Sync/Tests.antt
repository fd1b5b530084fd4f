-- ===== src/Sync/Tests.antt =====
-- The theorems at locks and at a barrier that two threads use.
use odp.Prelude.{ℕ, ◌+◌, ◌≤◌, ◌<◌, ◌≢◌, if◌then◌else◌, ◌≡◌, refl, true, arith, update}
use odp.Sync.{
  System, moved, outside, loaded, free_seen, inside, load_next, load_cur, win, Reach, begin, next,
  start, IsTimely,
}
use odp.Sync.Exclusion.{Reach-exclusive}
use odp.Sync.Rwlock
use odp.Sync.Rwlock.Exclusion.{rwlock_exclusive}
use odp.Sync.Spinlock
use odp.Sync.Spinlock.Exclusion.{spinlock_exclusive}
use odp.Sync.Barrier
use odp.Sync.Barrier.Rounds.{rounds, in_wait, IsFree, barrier_rounds, barrier_progress}

-- Thread 0 has got past the lock by `trylock`.
abbrev held : System
held = record {
  lock = record { next_ticket = 1; cur_ticket = 0 };
  phases = update (update (update (λ x. outside) 0 (loaded 0 0)) 0 (free_seen 0 0)) 0 inside;
  tickets = 1;
  turns = 0;
}

abbrev read_once : System
read_once = moved start 0 (loaded 0 0)

abbrev read_twice : System
read_twice = moved read_once 0 (free_seen 0 0)

held-Reach : Reach 2 held
held-Reach =
    next read_twice held
      (next read_once read_twice (next start read_once begin (load_next 0 (omega arith) refl))
        (load_cur 0 0 0 refl refl))
      (win 0 0 0 (omega arith) refl refl)

held-IsTimely : IsTimely 2 held held-Reach
unfolding held-Reach
held-IsTimely = (((tt, tt), omega arith), omega arith)

abbrev thread_0 : ℕ
thread_0 = 0

Reach-exclusive_example : thread_0 ≡ thread_0
Reach-exclusive_example =
    Reach-exclusive 2 held 0 0 (omega arith) held-Reach held-IsTimely refl refl

-- Thread 0 writes.
abbrev write_read : Rwlock.System
write_read = record {
  cnt = 0;
  phases = update (update (λ x. Rwlock.outside) 0 Rwlock.write_loop) 0 Rwlock.write_loaded;
}

abbrev written : Rwlock.System
written = record { cnt = Rwlock.write_locked; phases = update write_read.phases 0 Rwlock.writing }

written-Reach : Rwlock.Reach 2 written
written-Reach =
    Rwlock.next
      (Rwlock.next (Rwlock.next Rwlock.begin (Rwlock.access 0 (omega arith) Rwlock.write_lock))
        (Rwlock.access 0 (omega arith) (Rwlock.write_load refl)))
      (Rwlock.access 0 (omega arith) (Rwlock.write_won refl))

rwlock_exclusive_example : (written.phases 1 ≢ Rwlock.reading) × (written.phases 1 ≢ Rwlock.writing)
rwlock_exclusive_example =
    rwlock_exclusive 2 written 0 1 (omega arith) written-Reach (omega arith) (omega arith)
      (λ e. omega arith) refl

-- Thread 1 is past the loops of the spinlock.
abbrev spun : Spinlock.System
spun = record {
  flag = true;
  phases = update (update (λ x. Spinlock.outside) 1 Spinlock.trying) 1 Spinlock.inside;
}

spun-Reach : Spinlock.Reach 2 spun
spun-Reach =
    Spinlock.next (Spinlock.next Spinlock.begin (Spinlock.access 1 (omega arith) Spinlock.lock))
      (Spinlock.access 1 (omega arith) (Spinlock.won refl))

abbrev thread_1 : ℕ
thread_1 = 1

spinlock_exclusive_example : thread_1 ≡ thread_1
spinlock_exclusive_example =
    spinlock_exclusive 2 spun 1 1 spun-Reach (omega arith) (omega arith) refl refl

-- Thread 0 waits at a barrier for two; then thread 1 arrives and thread 0 leaves.
abbrev half_way : Barrier.System
half_way = record { bar = 1; phases = update (λ x. Barrier.outside 0) 0 (Barrier.waiting true 0) }

abbrev left : Barrier.System
left = record {
  bar = 2;
  phases = update (update half_way.phases 1 (Barrier.waiting true 0)) 0 (Barrier.outside 1);
}

half_way-Reach : Barrier.Reach 2 half_way
half_way-Reach =
    Barrier.next Barrier.begin (Barrier.access 0 (omega arith) (Barrier.enter (λ e. omega arith)))

left-Reach : Barrier.Reach 2 left
left-Reach =
    Barrier.next
      (Barrier.next half_way-Reach
        (Barrier.access 1 (omega arith) (Barrier.enter (λ e. omega arith))))
      (Barrier.access 0 (omega arith) (Barrier.leave (λ e. cc)))

barrier_rounds_example :
    rounds (left.phases 0) ≤ rounds (left.phases 1) + (if in_wait (left.phases 1) then 1 else 0)
barrier_rounds_example =
    barrier_rounds 2 left 0 1 (omega arith) left-Reach (omega arith) (omega arith)

barrier_progress_example : (x : ℕ) × (x < 2) × IsFree 2 half_way.bar (half_way.phases x)
barrier_progress_example = barrier_progress 2 half_way (omega arith) (omega arith) half_way-Reach
