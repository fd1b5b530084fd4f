-- ===== src/Timer/Tests.antt =====
-- odp_timer.c: the theorems at a concrete timer pool.
use odp.Prelude.{ℕ, ◌+◌, ◌≡◌, refl, true, none, some, [], ◌∷◌, arith, update}
use odp.Timer.{TimerPool, Timeout, Param, timer_pool_expire, tmo_unused}
use odp.Timer.FreeList.{IsValid, IsAllocated, Allocated, timer_alloc-Allocated}
use odp.Timer.Expiry.{Scanned, timer_pool_expire-Scanned}
use odp.Timer.Api.{Pools}

abbrev param_4 : Param
param_4 = record { res_ns = 10; min_tmo = 10; max_tmo = 1000; num_timers = 4 }

abbrev heads_of : ℕ → Timeout
heads_of buf = record { is_timeout = true; timer = 0; user_ptr = 0; expiration = 0 }

-- A pool of four timers: timer 0 is set to tick 5 with buffer 9, timer 1 is freed.
abbrev pool_4 : TimerPool
pool_4 = record {
  cur_tick = 3;
  min_rel_tck = 1;
  max_rel_tck = 100;
  tick_buf =
      update (λ i. record { exp_tck = tmo_unused; tmo_buf = none }) 0
        (record { exp_tck = 5; tmo_buf = some 9 });
  timers =
      update
        (update (λ i. record { queue = i + 1; user_ptr = 0 }) 1
          (record { queue = 2; user_ptr = 0 }))
        0 (record { queue = 77; user_ptr = 5 });
  high_wm = 2;
  num_alloc = 1;
  first_free = 1;
  tp_idx = 3;
  param = param_4;
  heads = heads_of;
  sent = [];
}

pool_4-IsValid : IsValid pool_4 (1 ∷ [])
pool_4-IsValid = record {
  chain = (refl, refl);
  fresh = λ i h. ground arith;
  below = (omega arith, tt);
  distinct = (tt, tt);
  count = refl;
  within = omega arith;
  small = omega arith;
  indexed = omega arith;
  unused = ((refl, refl), tt);
  fresh_unused = λ i h. ground arith;
}

timer_0-IsAllocated : IsAllocated pool_4 (1 ∷ []) 0
timer_0-IsAllocated = ground arith

timer_alloc-Allocated_example : Allocated pool_4 (1 ∷ []) 77 8
timer_alloc-Allocated_example =
    timer_alloc-Allocated pool_4 (1 ∷ []) 77 8 pool_4-IsValid (omega arith)

timer_pool_expire-Scanned_example :
    (r : ℕ × TimerPool) × (timer_pool_expire (λ q b. true) 6 pool_4 ≡ some r)
    × Scanned pool_4.high_wm 0 6 0 pool_4 r
timer_pool_expire-Scanned_example = timer_pool_expire-Scanned (λ q b. true) 6 pool_4 (λ q b. refl)

abbrev pools_3 : Pools
pools_3 = update (λ i. none) 3 (some pool_4)
