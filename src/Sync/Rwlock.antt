-- ===== src/Sync/Rwlock.antt =====
-- platform/linux-generic/odp_rwlock.c: the read-write lock, whose one word counts the readers or
-- is -1 for a writer.
--
-- Each atomic access of a thread is one step. The test `(int32_t)cnt < 0` is `2 ^ 31 ≤ cnt`.
pub mod Exclusion
use odp.Prelude.{
  ℕ, ◌+◌, ◌-◌, ◌^◌, ◌≤◌, ◌<◌, ◌≡◌, ◌≢◌, Bool, true, false, add32, sub32, u32_mod, update,
}

abbrev pub rwlock_init : ℕ
rwlock_init = 0

-- The value that `read_lock` tries to write over `cnt`, that of `write_lock`, and the values that
-- the unlocks leave.
abbrev pub read_locked : ℕ → ℕ
read_locked cnt = add32 cnt 1

abbrev pub write_locked : ℕ
write_locked = u32_mod - 1

abbrev pub read_unlocked : ℕ → ℕ
read_unlocked cnt = sub32 cnt 1

abbrev pub write_unlocked : ℕ
write_unlocked = 0

-- Where a thread is: outside; at the head of a loop; between its load and its exchange, with the
-- value loaded; or past the loop.
pub data Phase : Type 0 where
  outside : Phase
  read_loop : Phase
  read_loaded : ℕ → Phase
  reading : Phase
  write_loop : Phase
  write_loaded : Phase
  writing : Phase

-- One access of a thread: the word and its phase before, and after.
pub data Access (cnt : ℕ) : Phase → ℕ → Phase → Type 0 where
  read_lock : Access cnt outside cnt read_loop
  read_wait : 2 ^ 31 ≤ cnt → Access cnt read_loop cnt read_loop
  read_load : cnt < 2 ^ 31 → Access cnt read_loop cnt (read_loaded cnt)
  read_won : {c : ℕ} → cnt ≡ c → Access cnt (read_loaded c) (read_locked c) reading
  read_lost : {c : ℕ} → cnt ≢ c → Access cnt (read_loaded c) cnt read_loop
  read_unlock : Access cnt reading (read_unlocked cnt) outside
  write_lock : Access cnt outside cnt write_loop
  write_wait : cnt ≢ 0 → Access cnt write_loop cnt write_loop
  write_load : cnt ≡ 0 → Access cnt write_loop cnt write_loaded
  write_won : cnt ≡ 0 → Access cnt write_loaded write_locked writing
  write_lost : cnt ≢ 0 → Access cnt write_loaded cnt write_loop
  write_unlock : Access cnt writing write_unlocked outside

pub record System : Type 0 where
  pub cnt : ℕ
  pub phases : ℕ → Phase

-- One of `count` threads makes an access.
pub data Step (count : ℕ) (s : System) : System → Type 0 where
  access :
      (x : ℕ) {cnt : ℕ} {p : Phase}
      → x < count
      → Access s.cnt (s.phases x) cnt p
      → Step count s (record { cnt = cnt; phases = update s.phases x p })

abbrev pub start : System
start = record { cnt = rwlock_init; phases = λ x. outside }

pub data Reach (count : ℕ) : System → Type 0 where
  begin : Reach count start
  next : {s t : System} → Reach count s → Step count s t → Reach count t
