-- ===== src/Thread.antt =====
-- platform/linux-generic/odp_thread.c: thread ids, their masks and their counts.
--
-- A thread mask is a function from ids. The calls take the globals and return them; each holds the
-- spinlock around its id's allocation or release, so that part is one step. The result of
-- `sched_getcpu` is an argument, `none` when it fails, and shared memory is left out.
pub mod Ids
pub mod Calls
mod Tests
use odp.Prelude.{
  ℕ, zero, suc, ◌+◌, ◌-◌, Bool, true, false, Option, none, some, ltb, leb, if◌then◌else◌, add32,
  sub32, update,
}

abbrev pub max_threads : ℕ
max_threads = 128

-- odp_thread_type_t.
pub data ThreadType : Type 0 where
  worker control : ThreadType

abbrev pub is_worker : ThreadType → Bool
is_worker worker = true
is_worker control = false

-- thread_state_t.
pub record ThreadState : Type 0 where
  pub thr : ℕ
  pub cpu : ℕ
  pub type : ThreadType

-- thread_globals_t.
pub record Globals : Type 0 where
  pub thr : ℕ → ThreadState
  pub all : ℕ → Bool
  pub workers : ℕ → Bool
  pub controls : ℕ → Bool
  pub num : ℕ
  pub num_worker : ℕ
  pub num_control : ℕ

-- What `odp_thread_init_global` leaves: the memset, and empty masks. ODP_THREAD_WORKER is 0.
abbrev pub init_global : Globals
init_global = record {
  thr = λ i. record { thr = 0; cpu = 0; type = worker };
  all = λ i. false;
  workers = λ i. false;
  controls = λ i. false;
  num = 0;
  num_worker = 0;
  num_control = 0;
}

-- The body of `alloc_id`'s loop once a free id is found.
abbrev pub take_id : ThreadType → ℕ → Globals → Globals
take_id t i g =
    let g1 = record g { all = update g.all i true } in
    let g2 =
      if is_worker t
      then record g1 { workers = update g.workers i true; num_worker = add32 g.num_worker 1 }
      else record g1 { controls = update g.controls i true; num_control = add32 g.num_control 1 } in
    record g2 { num = add32 g.num 1 }

-- The loop of `alloc_id`: the first id from `i` on, of the `n` left, whose bit is clear.
unfoldable pub clear_from : (ℕ → Bool) → ℕ → ℕ → Option ℕ
clear_from all i zero = none
clear_from all i (suc n) = let rest = clear_from all (suc i) n in if all i then rest else some i

-- `none` for both negative results.
unfoldable pub alloc_id : ThreadType → Globals → Option ℕ × Globals
alloc_id t g = if leb max_threads g.num then (none, g) else elim (clear_from g.all 0 max_threads) [
  | none ↦ (none, g)
  | some i ↦ (some i, take_id t i g)
]

-- `free_id` at a nonnegative id: the number of threads left, or `none` for -1.
unfoldable pub free_id : ℕ → Globals → Option ℕ × Globals
free_id i g =
    let g1 = record g { all = update g.all i false } in
    let g2 =
      if is_worker (g.thr i).type
      then record g1 { workers = update g.workers i false; num_worker = sub32 g.num_worker 1 }
      else record g1 {
        controls = update g.controls i false;
        num_control = sub32 g.num_control 1;
      } in
    if leb max_threads i
    then (none, g)
    else (if g.all i then (some (sub32 g.num 1), record g2 { num = sub32 g.num 1 }) else (none, g))

-- `odp_thread_init_local`: the entry that becomes `this_thread`, or `none` for -1.
unfoldable pub init_local : ThreadType → Option ℕ → Globals → Option ℕ × Globals
init_local t cpu g =
    let (id, g1) = alloc_id t g in
    elim id [
      | none ↦ (none, g1)
      | some i ↦ elim cpu [
        | none ↦ (none, g1)
        | some c ↦
            (some i, record g1 { thr = update g1.thr i (record { thr = i; cpu = c; type = t }) })
      ]
    ]

-- `odp_thread_term_local`, called with `this_thread` the entry `this`.
unfoldable pub term_local : ℕ → Globals → Option ℕ × Globals
term_local this g = free_id (g.thr this).thr g
