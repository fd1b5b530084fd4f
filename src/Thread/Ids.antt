-- ===== src/Thread/Ids.antt =====
-- odp_thread.c: the counts are the sizes of the masks, and ids are given out once.
use odp.Prelude.{
  ℕ, zero, suc, ◌+◌, ◌≤◌, ◌<◌, ◌≡◌, refl, sym, ◌⊎◌, inl, inr, Bool, true, false, none, some, arith,
  ℕ_discrete, Bool-cases, if◌then◌else◌,
}
use odp.Prelude.Weight.{weight, weight-false}
use odp.Thread.{Globals, is_worker, max_threads, clear_from, init_global}

-- The search finds a clear bit, the first one, or all are set.
pub clear_from_lem :
    (m : ℕ → Bool) (i n : ℕ)
    → (((j : ℕ) → i ≤ j → j < i + n → m j ≡ true) × (clear_from m i n ≡ none))
      ⊎ ((k : ℕ) × (clear_from m i n ≡ some k)
          × (i ≤ k)
          × (k < i + n)
          × (m k ≡ false)
          × ((j : ℕ) → i ≤ j → j < k → m j ≡ true))
unfolding clear_from
clear_from_lem m i zero = inl ((λ j a b. absurd (omega arith)), refl)
clear_from_lem m i (suc n) = elim (Bool-cases (m i)) [
  | inr e ↦ inr (i, rw e refl, omega arith, omega arith, e, λ j a b. absurd (omega arith))
  | inl e ↦ elim (clear_from_lem m (suc i) n) [
    | inl (all, out) ↦ inl (
      (λ j a b. elim (ℕ_discrete j i) [
        | yes p ↦ rw p e
        | no ne ↦ all j (omega arith) (omega arith)
      ]),
      rw (e, out) refl,
    )
    | inr (k, found, lo, hi, clear, first) ↦ inr (
      k,
      rw (e, found) refl,
      omega arith,
      omega arith,
      clear,
      λ j a b. elim (ℕ_discrete j i) [ yes p ↦ rw p e | no ne ↦ first j (omega arith) b ],
    )
  ]
]

-- The globals between two calls of init_local and term_local: the counts are the numbers of bits
-- set, an id in use is a worker's or a control thread's as its entry says, and its entry holds it.
pub record IsValid (g : Globals) : Type 0 where
  pub total : g.num ≡ weight g.all max_threads
  pub worker_count : g.num_worker ≡ weight g.workers max_threads
  pub control_count : g.num_control ≡ weight g.controls max_threads
  pub worker_bit : (i : ℕ) → g.workers i ≡ (if g.all i then is_worker (g.thr i).type else false)
  pub control_bit :
      (i : ℕ)
      → g.controls i
        ≡ (if g.all i then (if is_worker (g.thr i).type then false else true) else false)
  pub own_id : (i : ℕ) → g.all i ≡ true → (g.thr i).thr ≡ i

pub init_global-IsValid : IsValid init_global
init_global-IsValid = record {
  total = sym (weight-false max_threads);
  worker_count = sym (weight-false max_threads);
  control_count = sym (weight-false max_threads);
  worker_bit = λ i. refl;
  control_bit = λ i. refl;
  own_id = λ i e. cc;
}

weight-split :
    (f g h : ℕ → Bool) (t : ℕ → Bool) (n : ℕ)
    → ((i : ℕ) → g i ≡ (if f i then t i else false))
    → ((i : ℕ) → h i ≡ (if f i then (if t i then false else true) else false))
    → weight f n ≡ weight g n + weight h n
unfolding weight
weight-split f g h t zero a b = refl
weight-split f g h t (suc n) a b =
    let ih = weight-split f g h t n a b in
    elim (Bool-cases (f n)) [
      | inr e ↦ rw (a n, b n, e) (omega (arith, ih))
      | inl e ↦ elim (Bool-cases (t n)) [
        | inl w ↦ rw (a n, b n, e, w) (omega (arith, ih))
        | inr w ↦ rw (a n, b n, e, w) (omega (arith, ih))
      ]
    ]

-- In valid globals the number of threads is the sum of the numbers of workers and of control
-- threads.
pub num_lem : (g : Globals) → IsValid g → g.num ≡ g.num_worker + g.num_control
num_lem g v = omega (
  arith,
  v.total,
  v.worker_count,
  v.control_count,
  weight-split g.all g.workers g.controls (λ i. is_worker (g.thr i).type) max_threads v.worker_bit
      v.control_bit,
)
