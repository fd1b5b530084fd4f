-- ===== src/Timer/Api.antt =====
-- odp_timer.c: the API functions on timer handles, over the table `timer_pool`.
pub mod Arm
use Prim.Native.Nat.{bit_and}
use odp.Prelude.{
  ℕ, ◌+◌, ◌-◌, ◌/◌, ◌^◌, Bool, true, false, Option, none, some, ltb, ◌==◌, if◌then◌else◌, add64,
  update,
}
use odp.Timer.{
  TimerPool, TickBuf, Timeout, tmo_unused, tmo_inactive, index_bits, max_timer_pools, queue_invalid,
  timer_alloc, timer_cancel, timer_free, timer_reset,
}

-- The static array `timer_pool[MAX_TIMER_POOLS]`; a null entry is `none`.
abbrev pub Pools : Type 0
Pools = ℕ → Option TimerPool

-- ODP_TIMER_SUCCESS, ODP_TIMER_TOOEARLY, ODP_TIMER_TOOLATE and ODP_TIMER_NOEVENT.
pub data SetResult : Type 0 where
  success tooearly toolate noevent : SetResult

-- `handle_to_idx`; an index that was never allocated aborts.
unfoldable pub handle_to_idx : ℕ → TimerPool → Option ℕ
handle_to_idx hdl tp =
    let idx = bit_and hdl (2 ^ index_bits - 1) in if ltb idx tp.high_wm then some idx else none

-- `handle_to_tp`; a handle of no pool aborts.
unfoldable pub handle_to_tp : Pools → ℕ → Option TimerPool
handle_to_tp pools hdl =
    let tp_idx = hdl / 2 ^ index_bits in if ltb tp_idx max_timer_pools then pools tp_idx else none

-- The pool and the index of a handle.
unfoldable pub resolve : Pools → ℕ → Option (TimerPool × ℕ)
unfolding handle_to_idx handle_to_tp
resolve pools hdl = elim (handle_to_tp pools hdl) [
  | none ↦ none
  | some tp ↦ elim (handle_to_idx hdl tp) [ none ↦ none | some idx ↦ some (tp, idx) ]
]

-- What the API functions do with the pool and the index: their result, what `*tmo_ev` is
-- afterwards, and the pool.
abbrev set_after : ℕ → ℕ → Option ℕ → TimerPool → SetResult × Option ℕ × TimerPool
set_after idx abs_tck tmo_ev tp =
    let (ok, ev, tp') = timer_reset idx abs_tck tmo_ev tp in
    (if ok then success else noevent, ev, tp')

unfoldable pub set_abs : ℕ → ℕ → Option ℕ → TimerPool → SetResult × Option ℕ × TimerPool
unfolding timer_reset
set_abs idx abs_tck tmo_ev tp =
    if ltb abs_tck (add64 tp.cur_tick tp.min_rel_tck)
    then (tooearly, tmo_ev, tp)
    else if ltb (add64 tp.cur_tick tp.max_rel_tck) abs_tck
    then (toolate, tmo_ev, tp)
    else set_after idx abs_tck tmo_ev tp

unfoldable pub set_rel : ℕ → ℕ → Option ℕ → TimerPool → SetResult × Option ℕ × TimerPool
unfolding timer_reset
set_rel idx rel_tck tmo_ev tp =
    if ltb rel_tck tp.min_rel_tck
    then (tooearly, tmo_ev, tp)
    else if ltb tp.max_rel_tck rel_tck
    then (toolate, tmo_ev, tp)
    else set_after idx (add64 tp.cur_tick rel_tck) tmo_ev tp

abbrev pub store : Pools → ℕ → TimerPool → Pools
store pools hdl tp = update pools (hdl / 2 ^ index_bits) (some tp)

unfoldable pub odp_timer_set_abs : Pools → ℕ → ℕ → Option ℕ → Option (SetResult × Option ℕ × Pools)
unfolding resolve set_abs
odp_timer_set_abs pools hdl abs_tck tmo_ev = elim (resolve pools hdl) [
  | none ↦ none
  | some (tp, idx) ↦
      let (res, ev, tp') = set_abs idx abs_tck tmo_ev tp in some (res, ev, store pools hdl tp')
]

unfoldable pub odp_timer_set_rel : Pools → ℕ → ℕ → Option ℕ → Option (SetResult × Option ℕ × Pools)
unfolding resolve set_rel
odp_timer_set_rel pools hdl rel_tck tmo_ev = elim (resolve pools hdl) [
  | none ↦ none
  | some (tp, idx) ↦
      let (res, ev, tp') = set_rel idx rel_tck tmo_ev tp in some (res, ev, store pools hdl tp')
]

-- The timeout event that is handed back; `none` is the return of -1.
unfoldable pub odp_timer_cancel : Pools → ℕ → Option (Option ℕ × Pools)
unfolding resolve timer_cancel
odp_timer_cancel pools hdl = elim (resolve pools hdl) [
  | none ↦ none
  | some (tp, idx) ↦
      let (old_buf, tp') = timer_cancel idx tmo_inactive tp in some (old_buf, store pools hdl tp')
]

unfoldable pub odp_timer_free : Pools → ℕ → Option (Option ℕ × Pools)
unfolding resolve timer_free
odp_timer_free pools hdl = elim (resolve pools hdl) [
  | none ↦ none
  | some (tp, idx) ↦ let (old_buf, tp') = timer_free idx tp in some (old_buf, store pools hdl tp')
]

-- An invalid queue aborts.
unfoldable pub odp_timer_alloc : ℕ → ℕ → TimerPool → Option (ℕ × TimerPool)
unfolding timer_alloc
odp_timer_alloc queue user_ptr tp =
    if queue == queue_invalid then none else some (timer_alloc queue user_ptr tp)

-- `hdr->expiration == (exp_tck & ~TMO_INACTIVE)`
unfoldable pub timeout_fresh : Timeout → TickBuf → Bool
timeout_fresh hdr tb = hdr.expiration == bit_and tb.exp_tck (2 ^ 63 - 1)
