-- ===== src/Timer/Api/Arm.antt =====
-- odp_timer.c: what setting, cancelling and expiring a timer do to it, and the validity of the
-- pool under them.
use Prim.Native.Nat.{bit_or}
use odp.Prelude.{
  ℕ, ◌+◌, ◌^◌, ◌≤◌, ◌<◌, ◌≡◌, ◌≢◌, refl, ◌↔◌, Bool, true, false, Option, none, some, List, arith,
  update, update-ne, add64,
}
use odp.Prelude.Bits.{bit_and-mask, bit_or-fields_left}
use odp.Timer.{
  TimerPool, TickBuf, Timeout, tmo_inactive, index_bits, max_timer_pools, tp_idx_to_handle,
  timer_cancel, timer_reset, timer_expire, stamped,
}
use odp.Timer.FreeList.{IsValid, IsAllocated, IsUnused, All-update, tp_idx_to_handle_lem}
use odp.Timer.Expiry.{expired}
use odp.Timer.Api.{
  Pools, success, handle_to_idx, handle_to_tp, resolve, set_abs, set_rel, timeout_fresh,
}

resolve-tp_idx_to_handle :
    (pools : Pools) (tp : TimerPool) (frees : List ℕ) (idx : ℕ)
    → pools tp.tp_idx ≡ some tp
    → tp.tp_idx < max_timer_pools
    → IsAllocated tp frees idx
    → idx < 2 ^ index_bits
    → resolve pools (tp_idx_to_handle tp idx) ≡ some (tp, idx)
unfolding resolve handle_to_tp handle_to_idx
resolve-tp_idx_to_handle pools tp frees idx here in_table a fits =
    let (pool_at, idx_at) = tp_idx_to_handle_lem tp idx in_table fits in
    let masked = bit_and-mask index_bits (tp_idx_to_handle tp idx) in
    ground (arith, pool_at, idx_at, masked)

-- The buffer that a set leaves in the timer, and the one that it hands back.
abbrev pub kept : Option ℕ → Option ℕ → Option ℕ
kept none old = old
kept (some buf) old = some buf

abbrev pub returned : Option ℕ → Option ℕ → Option ℕ
returned none old = none
returned (some buf) old = old

-- What a set did, if it succeeded: the timer has the tick and the new buffer, or keeps the old one
-- if none was given; an old buffer that was replaced is handed back; no other timer changed.
pub record IsSetTo (idx tck : ℕ) (tmo_ev : Option ℕ) (tp : TimerPool) (ev : Option ℕ)
    (tp' : TimerPool) : Type 0 where
  pub tick : (tp'.tick_buf idx).exp_tck ≡ tck
  pub buffer : (tp'.tick_buf idx).tmo_buf ≡ kept tmo_ev (tp.tick_buf idx).tmo_buf
  pub back : ev ≡ returned tmo_ev (tp.tick_buf idx).tmo_buf
  pub others : (i : ℕ) → i ≢ idx → tp'.tick_buf i ≡ tp.tick_buf i

reset_sets :
    (idx tck : ℕ) (tmo_ev : Option ℕ) (tp : TimerPool)
    → let (ok, ev, tp') = timer_reset idx tck tmo_ev tp in
      ok ≡ true → IsSetTo idx tck tmo_ev tp ev tp'
unfolding timer_reset
reset_sets idx tck none tp h = record {
  tick = ground arith;
  buffer = ground arith;
  back = ground arith;
  others = λ i ne. ground arith;
}
reset_sets idx tck (some buf) tp h = record {
  tick = ground arith;
  buffer = ground arith;
  back = refl;
  others = λ i ne. update-ne tp.tick_buf idx _ i ne;
}

pub set_abs_lem :
    (idx abs_tck : ℕ) (tmo_ev : Option ℕ) (tp : TimerPool)
    → let (res, ev, tp') = set_abs idx abs_tck tmo_ev tp in
      ((res ≡ success) ↔ (
        (add64 tp.cur_tick tp.min_rel_tck ≤ abs_tck)
        × (abs_tck ≤ add64 tp.cur_tick tp.max_rel_tck)
        × (kept tmo_ev (tp.tick_buf idx).tmo_buf ≢ none)))
      × (res ≡ success → IsSetTo idx abs_tck tmo_ev tp ev tp')
      × (res ≢ success → (tp' ≡ tp) × (ev ≡ tmo_ev))
unfolding set_abs timer_reset
set_abs_lem idx abs_tck none tp =
    (ground arith, λ h. ground (arith, reset_sets idx abs_tck none tp), ground arith)
set_abs_lem idx abs_tck (some buf) tp =
    (ground arith, λ h. ground (arith, reset_sets idx abs_tck (some buf) tp), ground arith)

-- A relative set succeeds exactly if the number of ticks is in the pool's window and there is a
-- timeout buffer, a new one or the timer's own. Then the timer has that many ticks after the
-- current one and the new buffer or else its own, a replaced buffer is handed back and no other
-- timer changes; otherwise nothing changes.
pub set_rel_lem :
    (idx rel_tck : ℕ) (tmo_ev : Option ℕ) (tp : TimerPool)
    → let (res, ev, tp') = set_rel idx rel_tck tmo_ev tp in
      ((res ≡ success) ↔ (
        (tp.min_rel_tck ≤ rel_tck)
        × (rel_tck ≤ tp.max_rel_tck)
        × (kept tmo_ev (tp.tick_buf idx).tmo_buf ≢ none)))
      × (res ≡ success → IsSetTo idx (add64 tp.cur_tick rel_tck) tmo_ev tp ev tp')
      × (res ≢ success → (tp' ≡ tp) × (ev ≡ tmo_ev))
unfolding set_rel timer_reset
set_rel_lem idx rel_tck none tp = (
  ground arith,
  λ h. ground (arith, reset_sets idx (add64 tp.cur_tick rel_tck) none tp),
  ground arith,
)
set_rel_lem idx rel_tck (some buf) tp = (
  ground arith,
  λ h. ground (arith, reset_sets idx (add64 tp.cur_tick rel_tck) (some buf) tp),
  ground arith,
)

pub timer_cancel_lem :
    (idx tick : ℕ) (accepts : ℕ → ℕ → Bool) (tp : TimerPool)
    → let (old_buf, tp') = timer_cancel idx tmo_inactive tp in
      (old_buf ≡ (tp.tick_buf idx).tmo_buf)
      × ((timer_cancel idx tmo_inactive tp').0 ≡ none)
      × (timer_expire accepts idx tick tp' ≡ some (0, tp'))
      × ((i : ℕ) → i ≢ idx → tp'.tick_buf i ≡ tp.tick_buf i)
unfolding timer_cancel timer_expire
timer_cancel_lem idx tick accepts tp =
    (refl, ground arith, ground arith, λ i ne. update-ne tp.tick_buf idx _ i ne)

-- A write to an allocated timer keeps the pool valid.
pub IsValid-write :
    (tp : TimerPool) (frees : List ℕ) (idx : ℕ) (tb : TickBuf)
    → IsValid tp frees
    → IsAllocated tp frees idx
    → IsValid (record tp { tick_buf = update tp.tick_buf idx tb }) frees
IsValid-write tp frees idx tb v a = record {
  chain = v.chain;
  fresh = v.fresh;
  below = v.below;
  distinct = v.distinct;
  count = v.count;
  within = v.within;
  small = v.small;
  indexed = v.indexed;
  unused = All-update IsUnused tp.tick_buf frees idx tb a.1 v.unused;
  fresh_unused = λ i h. ground (arith, v.fresh_unused i);
}

-- If a timer with a tick below the inactive bit is due and has a buffer of the timeout type, the
-- timeout stamped at its expiration is fresh for the timer after the expiration.
pub timeout_fresh-expired :
    (tick : ℕ) (tb : TickBuf) (buf : ℕ) (hdr : Timeout)
    → tb.exp_tck < tmo_inactive
    → tb.exp_tck ≤ tick
    → tb.tmo_buf ≡ some buf
    → hdr.is_timeout ≡ true
    → timeout_fresh (stamped tb.exp_tck hdr) (expired tick tb) ≡ true
unfolding timeout_fresh
timeout_fresh-expired tick tb buf hdr small reached has is =
    let ored : bit_or tb.exp_tck tmo_inactive ≡ tmo_inactive + tb.exp_tck =
      bit_or-fields_left 63 1 tb.exp_tck small in
    ground (arith, ored, bit_and-mask 63 (bit_or tb.exp_tck tmo_inactive))

-- A timeout that was stamped with one tick is stale for a timer that is set to another tick
-- below the inactive bit.
pub timeout_fresh-reset :
    (tck tck' : ℕ) (buf : Option ℕ) (hdr : Timeout)
    → tck' < tmo_inactive
    → hdr.is_timeout ≡ true
    → tck ≢ tck'
    → timeout_fresh (stamped tck hdr) (record { exp_tck = tck'; tmo_buf = buf }) ≡ false
unfolding timeout_fresh
timeout_fresh-reset tck tck' buf hdr small is ne = ground (arith, bit_and-mask 63 tck')
