-- ===== src/Thread/Calls.antt =====
-- odp_thread.c: starting and ending threads.
use odp.Prelude.{
  ℕ, ◌+◌, ◌≤◌, ◌<◌, ◌≡◌, refl, ◌∙◌, inl, inr, Bool, true, false, Option, none, some, arith, update,
  update_self, Bool-cases, add32, sub32, if◌then◌else◌, leb,
}
use odp.Thread.{
  Globals, ThreadType, worker, control, is_worker, max_threads, take_id, alloc_id, free_id,
  init_local, term_local,
}
use odp.Prelude.Weight.{weight, weight_le, weight-set, weight-clear, weight_full}
use odp.Thread.Ids.{IsValid, clear_from_lem}

-- What `alloc_id` finds while fewer than 128 ids are in use.
pub alloc_id_lem :
    (t : ThreadType) (g : Globals)
    → IsValid g
    → g.num < max_threads
    → (i : ℕ) × (alloc_id t g ≡ (some i, take_id t i g))
      × (i < max_threads)
      × (g.all i ≡ false)
      × ((j : ℕ) → j < i → g.all j ≡ true)
unfolding alloc_id
alloc_id_lem t g v room = elim (clear_from_lem g.all 0 max_threads) [
  | inl (all, out) ↦ absurd (
      omega
        (arith, v.total, weight_full g.all max_threads (λ j l. all j (omega arith) (omega arith))))
  | inr (i, found, lo, hi, clear, first) ↦
      let small : leb max_threads g.num ≡ false = ground arith in
      (i, rw (small, found) refl, omega arith, clear, λ j l. first j (omega arith) l)
]

-- Starting a thread writes its own entry after its id's bits.
abbrev pub started : ThreadType → ℕ → ℕ → Globals → Globals
started t c i g =
    let g1 = take_id t i g in
    record g1 { thr = update g1.thr i (record { thr = i; cpu = c; type = t }) }

weight-started :
    (m : ℕ → Bool) (i : ℕ) (k : ℕ)
    → i < max_threads
    → m i ≡ false
    → k ≡ weight m max_threads
    → add32 k 1 ≡ weight (update m i true) max_threads
weight-started m i k l e same =
    omega (arith, weight-set m i max_threads l e, weight_le m max_threads)

started-IsValid :
    (t : ThreadType) (c i : ℕ) (g : Globals)
    → IsValid g
    → i < max_threads
    → g.all i ≡ false
    → IsValid (started t c i g)
started-IsValid worker c i g v l e =
    let w : g.workers i ≡ false = v.worker_bit i ∙ rw e refl in
    record {
      total = weight-started g.all i g.num l e v.total;
      worker_count = weight-started g.workers i g.num_worker l w v.worker_count;
      control_count = v.control_count;
      worker_bit = λ j. ground (arith, v.worker_bit j);
      control_bit = λ j. ground (arith, v.control_bit j);
      own_id = λ j h. ground (arith, v.own_id j);
    }
started-IsValid control c i g v l e =
    let w : g.controls i ≡ false = v.control_bit i ∙ rw e refl in
    record {
      total = weight-started g.all i g.num l e v.total;
      worker_count = v.worker_count;
      control_count = weight-started g.controls i g.num_control l w v.control_count;
      worker_bit = λ j. ground (arith, v.worker_bit j);
      control_bit = λ j. ground (arith, v.control_bit j);
      own_id = λ j h. ground (arith, v.own_id j);
    }

take_id-num :
    (t : ThreadType) (i : ℕ) (g : Globals)
    → IsValid g
    → g.num < max_threads
    → (take_id t i g).num ≡ g.num + 1
take_id-num worker i g v room = omega arith
take_id-num control i g v room = omega arith

take_id-all : (t : ThreadType) (i : ℕ) (g : Globals) → (take_id t i g).all i ≡ true
take_id-all worker i g = update_self g.all i true
take_id-all control i g = update_self g.all i true

-- If the globals are valid, fewer than 128 threads run and sched_getcpu gives a CPU,
-- odp_thread_init_local gives the new thread the lowest id not in use, writes its entry, marks
-- the id in use, counts the thread, and keeps the globals valid.
pub init_local_lem :
    (t : ThreadType) (c : ℕ) (g : Globals)
    → IsValid g
    → g.num < max_threads
    → (i : ℕ) × ((init_local t (some c) g).0 ≡ some i)
      × (i < max_threads)
      × (g.all i ≡ false)
      × ((j : ℕ) → j < i → g.all j ≡ true)
      × ((init_local t (some c) g).1.thr i ≡ record { thr = i; cpu = c; type = t })
      × ((init_local t (some c) g).1.all i ≡ true)
      × ((init_local t (some c) g).1.num ≡ g.num + 1)
      × IsValid (init_local t (some c) g).1
unfolding init_local
init_local_lem t c g v room =
    let (i, e, l, clear, first) = alloc_id_lem t g v room in
    rw (init_local, e, e)
      (
        i,
        refl,
        l,
        clear,
        first,
        update_self (take_id t i g).thr i (record { thr = i; cpu = c; type = t }),
        take_id-all t i g,
        take_id-num t i g v room,
        started-IsValid t c i g v l clear,
      )

alloc_id_full : (t : ThreadType) (g : Globals) → max_threads ≤ g.num → alloc_id t g ≡ (none, g)
unfolding alloc_id
alloc_id_full t g full =
    let e : leb max_threads g.num ≡ true = ground arith in rw (alloc_id, e) refl

-- At 128 threads it fails and changes nothing.
pub init_local_full :
    (t : ThreadType) (cpu : Option ℕ) (g : Globals)
    → max_threads ≤ g.num
    → init_local t cpu g ≡ (none, g)
unfolding init_local
init_local_full t none g full = rw (init_local, alloc_id_full t g full, alloc_id_full t g full) refl
init_local_full t (some c) g full =
    rw (init_local, alloc_id_full t g full, alloc_id_full t g full) refl

pub init_local_leak :
    (t : ThreadType) (g : Globals)
    → IsValid g
    → g.num < max_threads
    → ((init_local t none g).0 ≡ none)
      × ((init_local t none g).1.num ≡ g.num + 1)
      × ((i : ℕ) × (g.all i ≡ false) × ((init_local t none g).1.all i ≡ true))
unfolding init_local
init_local_leak t g v room =
    let (i, e, l, clear, first) = alloc_id_lem t g v room in
    rw (init_local, e, e) (refl, take_id-num t i g v room, (i, clear, take_id-all t i g))

-- What the globals are after `free_id` freed id `i`.
abbrev freed : ℕ → Globals → Globals
freed i g =
    let g1 = record g { all = update g.all i false } in
    let g2 =
      if is_worker (g.thr i).type
      then record g1 { workers = update g.workers i false; num_worker = sub32 g.num_worker 1 }
      else record g1 {
        controls = update g.controls i false;
        num_control = sub32 g.num_control 1;
      } in
    record g2 { num = sub32 g.num 1 }

weight-freed :
    (m : ℕ → Bool) (i : ℕ) (k : ℕ)
    → i < max_threads
    → m i ≡ true
    → k ≡ weight m max_threads
    → sub32 k 1 ≡ weight (update m i false) max_threads
weight-freed m i k l e same =
    omega (arith, weight-clear m i max_threads l e, weight_le m max_threads)

freed-IsValid :
    (i : ℕ) (g : Globals) → IsValid g → i < max_threads → g.all i ≡ true → IsValid (freed i g)
freed-IsValid i g v l e = elim (Bool-cases (is_worker (g.thr i).type)) [
  | inl w ↦
      let bit : g.workers i ≡ true = v.worker_bit i ∙ rw (e, w) refl in
      rw w (record {
        total = weight-freed g.all i g.num l e v.total;
        worker_count = weight-freed g.workers i g.num_worker l bit v.worker_count;
        control_count = v.control_count;
        worker_bit = λ j. ground (arith, v.worker_bit j);
        control_bit = λ j. ground (arith, v.control_bit j);
        own_id = λ j h. ground (arith, v.own_id j);
      })
  | inr w ↦
      let bit : g.controls i ≡ true = v.control_bit i ∙ rw (e, w) refl in
      rw w (record {
        total = weight-freed g.all i g.num l e v.total;
        worker_count = v.worker_count;
        control_count = weight-freed g.controls i g.num_control l bit v.control_count;
        worker_bit = λ j. ground (arith, v.worker_bit j);
        control_bit = λ j. ground (arith, v.control_bit j);
        own_id = λ j h. ground (arith, v.own_id j);
      })
]

pub term_local_lem :
    (i : ℕ) (g : Globals)
    → IsValid g
    → i < max_threads
    → g.all i ≡ true
    → ((term_local i g).0 ≡ some (term_local i g).1.num)
      × ((term_local i g).1.num + 1 ≡ g.num)
      × ((term_local i g).1.all i ≡ false)
      × IsValid (term_local i g).1
unfolding term_local free_id
term_local_lem i g v l e =
    let own = v.own_id i e in
    let small : leb max_threads i ≡ false = ground arith in
    let num : (freed i g).num + 1 ≡ g.num =
      omega (arith, v.total, weight-clear g.all i max_threads l e, weight_le g.all max_threads) in
    let all : (freed i g).all i ≡ false = ground arith in
    rw (own, small, e) (refl, num, all, freed-IsValid i g v l e)
