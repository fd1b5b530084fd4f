-- ===== src/Sync/Barrier.antt =====
-- platform/linux-generic/odp_barrier.c: the barrier, a number that cycles through 0 .. 2 * count - 1.
--
-- A step is one atomic access of a thread. Each phase carries the number of waits that its thread
-- has completed, which the code does not keep.
pub mod Rounds
use odp.Prelude.{
  ℕ, suc, ◌+◌, ◌*◌, ◌-◌, ◌%◌, ◌<◌, ◌≡◌, ◌≢◌, Bool, ltb, add32, sub32, u32_mod, update,
}

pub record Barrier : Type 0 where
  pub count : ℕ
  pub bar : ℕ

abbrev pub barrier_init : ℕ → Barrier
barrier_init count = record { count = count % u32_mod; bar = 0 }

-- `odp_atomic_fetch_inc_u32`: what it was, and what it is.
abbrev pub fetch_inc : ℕ → ℕ × ℕ
fetch_inc bar = (bar, add32 bar 1)

-- The `count` for which the number wraps, and the number after that.
abbrev pub last_ticket : ℕ → ℕ
last_ticket count = sub32 (2 * count % u32_mod) 1

abbrev pub wrapped : ℕ → ℕ → ℕ
wrapped count bar = sub32 bar (2 * count % u32_mod)

-- `bar < barrier->count`
abbrev pub is_less : ℕ → ℕ → Bool
is_less count bar = ltb bar count

-- Outside; in the loop, with `wasless`; or before the subtraction.
pub data Phase : Type 0 where
  outside : ℕ → Phase
  waiting : Bool → ℕ → Phase
  wrapping : ℕ → Phase

-- One access of a thread of a barrier for `count`: the number and its phase before, and after.
pub data Access (count bar : ℕ) : Phase → ℕ → Phase → Type 0 where
  enter_last :
      {r : ℕ}
      → (fetch_inc bar).0 ≡ last_ticket count
      → Access count bar (outside r) (fetch_inc bar).1 (wrapping r)
  enter :
      {r : ℕ}
      → (fetch_inc bar).0 ≢ last_ticket count
      → Access count bar (outside r) (fetch_inc bar).1 (waiting (is_less count (fetch_inc bar).0) r)
  wrap : {r : ℕ} → Access count bar (wrapping r) (wrapped count bar) (outside (suc r))
  spin :
      {w : Bool} {r : ℕ} → is_less count bar ≡ w → Access count bar (waiting w r) bar (waiting w r)
  leave :
      {w : Bool} {r : ℕ}
      → is_less count bar ≢ w
      → Access count bar (waiting w r) bar (outside (suc r))

pub record System : Type 0 where
  pub bar : ℕ
  pub phases : ℕ → Phase

-- One of the `count` threads makes an access.
pub data Step (count : ℕ) (s : System) : System → Type 0 where
  access :
      (x : ℕ) {bar : ℕ} {p : Phase}
      → x < count
      → Access count s.bar (s.phases x) bar p
      → Step count s (record { bar = bar; phases = update s.phases x p })

abbrev pub start : ℕ → System
start count = record { bar = (barrier_init count).bar; phases = λ x. outside 0 }

pub data Reach (count : ℕ) : System → Type 0 where
  begin : Reach count (start count)
  next : {s t : System} → Reach count s → Step count s t → Reach count t
