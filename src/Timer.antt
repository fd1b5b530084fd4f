-- ===== src/Timer.antt =====
-- platform/linux-generic/odp_timer.c: timer pools, their timers, and the API on them.
--
-- A timer pool's arrays `tick_buf` and `timers` are functions of the index. ODP_BUFFER_INVALID
-- and a null `tmo_buf` are `none`, and ODP_ABORT is `none` for the whole call. Every change of a
-- `tick_buf` entry is one step, as under its lock IDX2LOCK (or one 128-bit exchange). `heads` is
-- the timeout header of each buffer, and `sent` what went to `odp_queue_enq`, newest first.
pub mod FreeList
pub mod Expiry
pub mod Api
mod Tests
use Prim.Native.Nat.{bit_or}
use odp.Prelude.{
  ℕ, zero, suc, ◌+◌, ◌-◌, ◌*◌, ◌/◌, ◌%◌, ◌^◌, Bool, true, false, Option, none, some, List, [], ◌∷◌,
  ltb, leb, if◌then◌else◌, add32, sub32, add64, u32_mod, u64_mod, update,
}

abbrev pub tmo_unused : ℕ
tmo_unused = 2 ^ 64 - 1

abbrev pub tmo_inactive : ℕ
tmo_inactive = 2 ^ 63

abbrev pub index_bits : ℕ
index_bits = 24

abbrev pub max_timer_pools : ℕ
max_timer_pools = 255

abbrev pub timer_invalid : ℕ
timer_invalid = 2 ^ 32 - 1

abbrev pub queue_invalid : ℕ
queue_invalid = 0

pub record TickBuf : Type 0 where
  pub exp_tck : ℕ
  pub tmo_buf : Option ℕ

-- `odp_timer`; while the timer is free, `queue` is the index of the next free one.
pub record Timer : Type 0 where
  pub queue : ℕ
  pub user_ptr : ℕ

-- `odp_timeout_hdr_t`, and whether the buffer's event type is ODP_EVENT_TIMEOUT.
pub record Timeout : Type 0 where
  pub is_timeout : Bool
  pub timer : ℕ
  pub user_ptr : ℕ
  pub expiration : ℕ

pub record Param : Type 0 where
  pub res_ns : ℕ
  pub min_tmo : ℕ
  pub max_tmo : ℕ
  pub num_timers : ℕ

pub record TimerPool : Type 0 where
  pub cur_tick : ℕ
  pub min_rel_tck : ℕ
  pub max_rel_tck : ℕ
  pub tick_buf : ℕ → TickBuf
  pub timers : ℕ → Timer
  pub high_wm : ℕ
  pub num_alloc : ℕ
  pub first_free : ℕ
  pub tp_idx : ℕ
  pub param : Param
  pub heads : ℕ → Timeout
  pub sent : List (ℕ × ℕ)

-- `(tp->tp_idx << INDEX_BITS) | idx`. A debug build aborts unless `idx` is below 2 ^ 24; a valid pool
-- in Timer/FreeList has no other index.
unfoldable pub tp_idx_to_handle : TimerPool → ℕ → ℕ
tp_idx_to_handle tp idx = bit_or (tp.tp_idx * 2 ^ index_bits % u32_mod) idx

unfoldable pub ns_to_tick : Param → ℕ → ℕ
ns_to_tick param ns = ns / param.res_ns

unfoldable pub tick_to_ns : Param → ℕ → ℕ
tick_to_ns param ticks = ticks * param.res_ns % u64_mod

-- The pool that `odp_timer_pool_new` sets up at index `tp_idx`; its loop writes the entries below
-- `num_timers`, and no other is ever read.
unfoldable pub timer_pool_new : ℕ → Param → (ℕ → Timeout) → TimerPool
unfolding ns_to_tick
timer_pool_new tp_idx param heads = record {
  cur_tick = 0;
  min_rel_tck = ns_to_tick param param.min_tmo;
  max_rel_tck = ns_to_tick param param.max_tmo;
  tick_buf = λ i. record { exp_tck = tmo_unused; tmo_buf = none };
  timers = λ i. record { queue = i + 1; user_ptr = 0 };
  high_wm = 0;
  num_alloc = 0;
  first_free = 0;
  tp_idx = tp_idx;
  param = param;
  heads = heads;
  sent = [];
}

-- `timer_init`: the timer and its `tick_buf` entry.
abbrev pub timer_init : ℕ → ℕ → Timer × TickBuf
timer_init q up =
    (record { queue = q; user_ptr = up }, record { exp_tck = tmo_inactive; tmo_buf = none })

abbrev pub timer_fini : Timer → Timer
timer_fini tim = record { queue = queue_invalid; user_ptr = 0 }

abbrev pub get_next_free : Timer → ℕ
get_next_free tim = tim.queue

abbrev pub set_next_free : Timer → ℕ → Timer
set_next_free tim nf = record tim { queue = nf }

-- The handle, or ODP_TIMER_INVALID.
unfoldable pub timer_alloc : ℕ → ℕ → TimerPool → ℕ × TimerPool
unfolding tp_idx_to_handle
timer_alloc queue user_ptr tp =
    let num = add32 tp.num_alloc 1 in
    let idx = tp.first_free in
    if ltb tp.num_alloc tp.param.num_timers
    then (
      tp_idx_to_handle tp idx,
      record tp {
        num_alloc = num;
        first_free = get_next_free (tp.timers idx);
        timers = update tp.timers idx (timer_init queue user_ptr).0;
        tick_buf = update tp.tick_buf idx (timer_init queue user_ptr).1;
        high_wm = if ltb tp.high_wm num then num else tp.high_wm;
      },
    )
    else (timer_invalid, tp)

-- The timeout buffer that was set, and the pool.
unfoldable pub timer_cancel : ℕ → ℕ → TimerPool → Option ℕ × TimerPool
timer_cancel idx new_state tp = (
  (tp.tick_buf idx).tmo_buf,
  record tp { tick_buf = update tp.tick_buf idx (record { exp_tck = new_state; tmo_buf = none }) },
)

unfoldable pub timer_free : ℕ → TimerPool → Option ℕ × TimerPool
unfolding timer_cancel
timer_free idx tp =
    let (old_buf, tp1) = timer_cancel idx tmo_unused tp in
    (
      old_buf,
      record tp1 {
        timers = update tp1.timers idx (set_next_free (timer_fini (tp1.timers idx)) tp1.first_free);
        first_free = idx;
        num_alloc = sub32 tp1.num_alloc 1;
      },
    )

-- The header that `timer_reset` fills in for a new timeout buffer.
abbrev pub armed : TimerPool → ℕ → Timeout → Timeout
armed tp idx t =
    if t.is_timeout
    then record t { timer = tp_idx_to_handle tp idx; user_ptr = (tp.timers idx).user_ptr }
    else t

-- `some b` is a new timeout buffer `*tmo_buf`, `none` a null pointer or an invalid buffer. The
-- result is whether the timer was set, what `*tmo_buf` is afterwards, and the pool.
unfoldable pub timer_reset : ℕ → ℕ → Option ℕ → TimerPool → Bool × Option ℕ × TimerPool
timer_reset idx abs_tck none tp = elim (tp.tick_buf idx).tmo_buf [
  | none ↦ (false, none, tp)
  | some old ↦ (
    true,
    none,
    record tp {
      tick_buf = update tp.tick_buf idx (record { exp_tck = abs_tck; tmo_buf = some old });
    },
  )
]
timer_reset idx abs_tck (some buf) tp = (
  true,
  (tp.tick_buf idx).tmo_buf,
  record tp {
    heads = update tp.heads buf (armed tp idx (tp.heads buf));
    tick_buf = update tp.tick_buf idx (record { exp_tck = abs_tck; tmo_buf = some buf });
  },
)

abbrev pub stamped : ℕ → Timeout → Timeout
stamped exp_tck t = if t.is_timeout then record t { expiration = exp_tck } else t

-- `accepts queue buf` is whether `odp_queue_enq` takes the event; its failure aborts. The number
-- of timers expired, 0 or 1, and the pool.
unfoldable pub timer_expire : (ℕ → ℕ → Bool) → ℕ → ℕ → TimerPool → Option (ℕ × TimerPool)
timer_expire accepts idx tick tp =
    let exp_tck = (tp.tick_buf idx).exp_tck in
    if leb exp_tck tick
    then elim (tp.tick_buf idx).tmo_buf [
      | none ↦ some (0, tp)
      | some buf ↦
          let queue = (tp.timers idx).queue in
          if accepts queue buf
          then some (
            1,
            record tp {
              tick_buf =
                  update tp.tick_buf idx
                    (record { exp_tck = bit_or exp_tck tmo_inactive; tmo_buf = none });
              heads = update tp.heads buf (stamped exp_tck (tp.heads buf));
              sent = (queue, buf) ∷ tp.sent;
            },
          )
          else none
    ]
    else some (0, tp)

-- The loop body of `odp_timer_pool_expire`. The test of the unlocked read of `exp_tck` is made
-- again by `timer_expire`.
unfoldable pub scan_one : (ℕ → ℕ → Bool) → ℕ → ℕ → TimerPool → Option (ℕ × TimerPool)
unfolding timer_expire
scan_one accepts i tick tp =
    if leb (tp.tick_buf i).exp_tck tick then timer_expire accepts i tick tp else some (0, tp)

-- The loop with `n` timers to go from index `i`.
unfoldable pub expire_from : (ℕ → ℕ → Bool) → ℕ → ℕ → ℕ → ℕ → TimerPool → Option (ℕ × TimerPool)
expire_from accepts zero i tick nexp tp = some (nexp, tp)
expire_from accepts (suc n) i tick nexp tp = elim (scan_one accepts i tick tp) [
  | none ↦ none
  | some (one, tp1) ↦ expire_from accepts n (i + 1) tick (nexp + one) tp1
]

unfoldable pub timer_pool_expire : (ℕ → ℕ → Bool) → ℕ → TimerPool → Option (ℕ × TimerPool)
unfolding expire_from scan_one
timer_pool_expire accepts tick tp = expire_from accepts tp.high_wm 0 tick 0 tp

-- `free` is whether the try of the lock `itimer_running` succeeds.
unfoldable pub timer_notify : (ℕ → ℕ → Bool) → Bool → TimerPool → Option TimerPool
unfolding timer_pool_expire
timer_notify accepts free tp =
    let tp1 = record tp { cur_tick = add64 tp.cur_tick 1 } in
    if free
    then elim (timer_pool_expire accepts tp.cur_tick tp1) [ none ↦ none | some (n, tp2) ↦ some tp2 ]
    else some tp1

-- odp_timer_pool_info_t, without the name.
pub record PoolInfo : Type 0 where
  pub param : Param
  pub cur_timers : ℕ
  pub hwm_timers : ℕ

abbrev pub odp_timer_pool_info : TimerPool → PoolInfo
odp_timer_pool_info tp = record {
  param = tp.param;
  cur_timers = tp.num_alloc;
  hwm_timers = tp.high_wm;
}

abbrev pub odp_timer_current_tick : TimerPool → ℕ
odp_timer_current_tick tp = tp.cur_tick

abbrev pub odp_timeout_timer : Timeout → ℕ
odp_timeout_timer tmo = tmo.timer

abbrev pub odp_timeout_tick : Timeout → ℕ
odp_timeout_tick tmo = tmo.expiration

abbrev pub odp_timeout_user_ptr : Timeout → ℕ
odp_timeout_user_ptr tmo = tmo.user_ptr
