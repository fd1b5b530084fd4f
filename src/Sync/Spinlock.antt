-- ===== src/Sync/Spinlock.antt =====
-- platform/linux-generic/odp_spinlock.c: the spinlock, a flag.
--
-- `_odp_atomic_flag_tas` sets the flag and returns what it was, as one step.
pub mod Exclusion
use odp.Prelude.{ℕ, ◌<◌, ◌≡◌, Bool, true, false, not, update}

abbrev pub spinlock_init : Bool
spinlock_init = false

-- `_odp_atomic_flag_tas`: what it was, and what it is.
abbrev pub flag_tas : Bool → Bool × Bool
flag_tas flag = (flag, true)

abbrev pub spinlock_trylock : Bool → Bool × Bool
spinlock_trylock flag = (not (flag_tas flag).0, (flag_tas flag).1)

abbrev pub spinlock_unlock : Bool
spinlock_unlock = false

abbrev pub spinlock_is_locked : Bool → Bool
spinlock_is_locked flag = flag

-- Outside, at the test-and-set of the outer loop, in the inner loop that reads the flag, or past
-- the loops.
pub data Phase : Type 0 where
  outside trying spinning inside : Phase

pub data Access (flag : Bool) : Phase → Bool → Phase → Type 0 where
  lock : Access flag outside flag trying
  taken : (flag_tas flag).0 ≡ true → Access flag trying (flag_tas flag).1 spinning
  won : (flag_tas flag).0 ≡ false → Access flag trying (flag_tas flag).1 inside
  wait : flag ≡ true → Access flag spinning flag spinning
  retry : flag ≡ false → Access flag spinning flag trying
  trylock_won :
      (spinlock_trylock flag).0 ≡ true → Access flag outside (spinlock_trylock flag).1 inside
  trylock_lost :
      (spinlock_trylock flag).0 ≡ false → Access flag outside (spinlock_trylock flag).1 outside
  unlock : Access flag inside spinlock_unlock outside

pub record System : Type 0 where
  pub flag : Bool
  pub phases : ℕ → Phase

pub data Step (count : ℕ) (s : System) : System → Type 0 where
  access :
      (x : ℕ) {flag : Bool} {p : Phase}
      → x < count
      → Access s.flag (s.phases x) flag p
      → Step count s (record { flag = flag; phases = update s.phases x p })

abbrev pub start : System
start = record { flag = spinlock_init; phases = λ x. outside }

pub data Reach (count : ℕ) : System → Type 0 where
  begin : Reach count start
  next : {s t : System} → Reach count s → Step count s t → Reach count t
