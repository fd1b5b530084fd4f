-- ===== src/Timer/FreeList.antt =====
-- odp_timer.c: the free list of a timer pool and its high watermark.
use odp.Prelude.{
  ℕ, ◌+◌, ◌*◌, ◌≤◌, ◌<◌, ◌/◌, ◌%◌, ◌^◌, ◌≡◌, ◌≢◌, refl, sym, subst, ◌↔◌, none, List, [], ◌∷◌, arith,
  NotIn, Distinct, All, length, u32_mod, update, update-ne,
}
use odp.Prelude.Bits.{bit_or-fields}
use odp.Prelude.Pigeon.{length_le_of_Distinct}
use odp.Timer.{
  TimerPool, TickBuf, Timer, Timeout, Param, tmo_unused, tmo_inactive, timer_invalid, index_bits,
  tp_idx_to_handle, timer_pool_new, timer_alloc, timer_cancel, timer_free, max_timer_pools,
}

-- From index `first`, the links of the free timers run through the list and end at `last`.
abbrev pub FreeChain : (ℕ → Timer) → ℕ → List ℕ → ℕ → Type 0
FreeChain timers first [] last = first ≡ last
FreeChain timers first (x ∷ xs) last = (first ≡ x) × FreeChain timers (timers x).queue xs last

abbrev pub IsUnused : TickBuf → Type 0
IsUnused tb = (tb.exp_tck ≡ tmo_unused) × (tb.tmo_buf ≡ none)

-- The state of a pool whose freed timers are `frees`, last freed first: the free list runs
-- through these and then through all timers from the high watermark on, which were never used. Each
-- index fits in a handle, which `tp_idx_to_handle` asserts.
pub record IsValid (tp : TimerPool) (frees : List ℕ) : Type 0 where
  pub chain : FreeChain tp.timers tp.first_free frees tp.high_wm
  pub fresh : (i : ℕ) → tp.high_wm ≤ i → (tp.timers i).queue ≡ i + 1
  pub below : All (λ i. i < tp.high_wm) frees
  pub distinct : Distinct frees
  pub count : length frees + tp.num_alloc ≡ tp.high_wm
  pub within : tp.high_wm ≤ tp.param.num_timers
  pub small : tp.param.num_timers ≤ 2 ^ index_bits
  pub indexed : tp.tp_idx < max_timer_pools
  pub unused : All (λ i. IsUnused (tp.tick_buf i)) frees
  pub fresh_unused : (i : ℕ) → tp.high_wm ≤ i → IsUnused (tp.tick_buf i)

-- Timer `i` is allocated.
abbrev pub IsAllocated : TimerPool → List ℕ → ℕ → Type 0
IsAllocated tp frees i = (i < tp.high_wm) × NotIn i frees

-- A new timer pool with at most 2^24 timers is valid, with no freed timer and its watermark
-- at 0.
pub timer_pool_new-IsValid :
    (tp_idx : ℕ) (param : Param) (heads : ℕ → Timeout)
    → param.num_timers ≤ 2 ^ index_bits
    → tp_idx < max_timer_pools
    → IsValid (timer_pool_new tp_idx param heads) []
      × ((timer_pool_new tp_idx param heads).high_wm ≡ 0)
unfolding timer_pool_new
timer_pool_new-IsValid tp_idx param heads h k = ground arith

-- A write at an index that is not on the list leaves what is said of the list.
FreeChain-update :
    (timers : ℕ → Timer) (first : ℕ) (xs : List ℕ) (last i : ℕ) (v : Timer)
    → NotIn i xs
    → FreeChain timers first xs last
    → FreeChain (update timers i v) first xs last
FreeChain-update timers first [] last i v n c = c
FreeChain-update timers first (x ∷ xs) last i v n c =
    (c.0, ground (arith, FreeChain-update timers (timers x).queue xs last i v n.1 c.1))

pub All-update {ℓ} :
    {A : Type 0} (P : A → Type ℓ) (f : ℕ → A) (xs : List ℕ) (i : ℕ) (v : A)
    → NotIn i xs
    → All (λ x. P (f x)) xs
    → All (λ x. P (update f i v x)) xs
All-update P f [] i v n a = tt
All-update P f (x ∷ xs) i v n a =
    (subst P (sym (update-ne f i v x (λ e. n.0 (sym e)))) a.0, All-update P f xs i v n.1 a.1)

All-weaken : (m n : ℕ) (xs : List ℕ) → m ≤ n → All (λ i. i < m) xs → All (λ i. i < n) xs
All-weaken m n [] h a = tt
All-weaken m n (x ∷ xs) h a = (omega arith, All-weaken m n xs h a.1)

-- A number below the watermark is on no list of numbers from it on.
NotIn-below : (m i : ℕ) (xs : List ℕ) → m ≤ i → All (λ x. x < m) xs → NotIn i xs
NotIn-below m i [] h a = tt
NotIn-below m i (x ∷ xs) h a = (omega arith, NotIn-below m i xs h a.1)

-- `timer_alloc` on a pool with a freed timer takes the one that was freed last.
module _ (tp : TimerPool) (y : ℕ) (ys : List ℕ) (queue user_ptr : ℕ) (v : IsValid tp (y ∷ ys)) where
  recycled_high_wm : (timer_alloc queue user_ptr tp).1.high_wm ≡ tp.high_wm
  unfolding timer_alloc
  recycled_high_wm = ground arith

  recycled_tick_buf :
      (timer_alloc queue user_ptr tp).1.tick_buf
      ≡ update tp.tick_buf y (record { exp_tck = tmo_inactive; tmo_buf = none })
  unfolding timer_alloc
  recycled_tick_buf = ground arith

  alloc_recycled : IsValid (timer_alloc queue user_ptr tp).1 ys
  unfolding timer_alloc
  alloc_recycled = record {
    chain = ground (
      arith,
      FreeChain-update tp.timers (tp.timers y).queue ys tp.high_wm y
          (record { queue = queue; user_ptr = user_ptr }) v.distinct.0 v.chain.1,
    );
    fresh = λ i h. ground (arith, v.fresh i);
    below = subst (λ m. All (λ i. i < m) ys) (sym recycled_high_wm) v.below.1;
    distinct = v.distinct.1;
    count = ground arith;
    within = ground arith;
    small = ground arith;
    indexed = ground (arith, v.indexed);
    unused =
        subst (λ f. All (λ i. IsUnused (f i)) ys) (sym recycled_tick_buf)
          (All-update IsUnused tp.tick_buf ys y (record { exp_tck = tmo_inactive; tmo_buf = none })
            v.distinct.0 v.unused.1);
    fresh_unused = λ i h. ground (arith, v.fresh_unused i);
  }

alloc_fresh :
    (tp : TimerPool) (queue user_ptr : ℕ)
    → IsValid tp []
    → tp.num_alloc < tp.param.num_timers
    → IsValid (timer_alloc queue user_ptr tp).1 []
unfolding timer_alloc
alloc_fresh tp queue user_ptr v room = record {
  chain = ground (arith, v.fresh tp.high_wm);
  fresh = λ i h. ground (arith, v.fresh i);
  below = tt;
  distinct = tt;
  count = ground arith;
  within = ground arith;
  small = ground arith;
  indexed = ground (arith, v.indexed);
  unused = tt;
  fresh_unused = λ i h. ground (arith, v.fresh_unused i);
}

-- A handle determines its timer pool and its timer, if the pool has at most 2 ^ 24 timers.
pub tp_idx_to_handle_lem :
    (tp : TimerPool) (idx : ℕ)
    → tp.tp_idx < max_timer_pools
    → idx < 2 ^ index_bits
    → (tp_idx_to_handle tp idx / 2 ^ index_bits ≡ tp.tp_idx)
      × (tp_idx_to_handle tp idx % 2 ^ index_bits ≡ idx)
unfolding tp_idx_to_handle
tp_idx_to_handle_lem tp idx h k =
    let whole : tp.tp_idx * 2 ^ index_bits % u32_mod ≡ tp.tp_idx * 2 ^ index_bits = omega arith in
    rw (whole, bit_or-fields index_bits tp.tp_idx idx k) (omega arith)

decoded :
    (tp : TimerPool) (idx h : ℕ)
    → h ≡ tp_idx_to_handle tp idx
    → tp.tp_idx < max_timer_pools
    → idx < 2 ^ index_bits
    → (h / 2 ^ index_bits ≡ tp.tp_idx) × (h % 2 ^ index_bits ≡ idx)
decoded tp idx h e k l = rw e (tp_idx_to_handle_lem tp idx k l)

-- What an allocation does to a valid pool: with all timers in use it returns ODP_TIMER_INVALID
-- and changes nothing; otherwise it returns the handle of a timer `idx` that was not allocated
-- and now is, inactive, with its queue, below the watermark; no other timer's allocation changes
-- and the pool stays valid.
pub record Allocated (tp : TimerPool) (frees : List ℕ) (queue user_ptr : ℕ) : Type 0 where
  pub idx : ℕ
  pub rest : List ℕ
  pub handle : (timer_alloc queue user_ptr tp).0 ≡ tp_idx_to_handle tp idx
  pub in_range : idx < tp.param.num_timers
  pub fits : idx < 2 ^ index_bits
  pub decodes :
      ((timer_alloc queue user_ptr tp).0 / 2 ^ index_bits ≡ tp.tp_idx)
      × ((timer_alloc queue user_ptr tp).0 % 2 ^ index_bits ≡ idx)
  pub was_free : ¬ (IsAllocated tp frees idx)
  pub valid : IsValid (timer_alloc queue user_ptr tp).1 rest
  pub allocated : IsAllocated (timer_alloc queue user_ptr tp).1 rest idx
  pub timer :
      (timer_alloc queue user_ptr tp).1.timers idx ≡ record { queue = queue; user_ptr = user_ptr }
  pub inactive :
      (timer_alloc queue user_ptr tp).1.tick_buf idx
      ≡ record { exp_tck = tmo_inactive; tmo_buf = none }
  pub others :
      (i : ℕ)
      → i ≢ idx
      → IsAllocated (timer_alloc queue user_ptr tp).1 rest i ↔ IsAllocated tp frees i

-- On a valid pool, of at most 2^24 timers, with fewer timers allocated than it has, timer_alloc
-- returns the handle of a timer in range that was not allocated and now is, inactive, with its
-- queue and user pointer; the index fits in the 24 bits that the handle has for it, and the
-- handle holds this pool's index and this timer's. The allocation of every other timer stays as
-- it was and the pool stays valid.
pub timer_alloc-Allocated :
    (tp : TimerPool) (frees : List ℕ) (queue user_ptr : ℕ)
    → IsValid tp frees
    → tp.num_alloc < tp.param.num_timers
    → Allocated tp frees queue user_ptr
unfolding timer_alloc
timer_alloc-Allocated tp [] queue user_ptr v room = record {
  idx = tp.high_wm;
  rest = [];
  handle = ground arith;
  in_range = ground arith;
  fits = omega (arith, v.within, v.count, v.small, room);
  decodes =
      decoded tp tp.high_wm _ (ground arith) v.indexed
        (omega (arith, v.within, v.count, v.small, room));
  was_free = λ a. omega arith;
  valid = alloc_fresh tp queue user_ptr v room;
  allocated = ground arith;
  timer = ground arith;
  inactive = ground arith;
  others = λ i ne. ground arith;
}
timer_alloc-Allocated tp (y ∷ ys) queue user_ptr v room = record {
  idx = y;
  rest = ys;
  handle = ground arith;
  in_range = ground arith;
  fits = omega (arith, v.below.0, v.within, v.small);
  decodes = decoded tp y _ (ground arith) v.indexed (omega (arith, v.below.0, v.within, v.small));
  was_free = λ a. a.1.0 refl;
  valid = alloc_recycled tp y ys queue user_ptr v;
  allocated = (ground arith, v.distinct.0);
  timer = ground arith;
  inactive = ground arith;
  others = λ i ne. (λ a. (ground arith, (ne, a.1)), λ a. (ground arith, a.1.1));
}

pub timer_alloc_full :
    (tp : TimerPool) (frees : List ℕ) (queue user_ptr : ℕ)
    → IsValid tp frees
    → tp.num_alloc ≡ tp.param.num_timers
    → timer_alloc queue user_ptr tp ≡ (timer_invalid, tp)
unfolding timer_alloc
timer_alloc_full tp frees queue user_ptr v full = ground arith

-- A pool with an allocated timer counts at least one, which `timer_free` asserts.
pub some_allocated :
    (tp : TimerPool) (frees : List ℕ) (i : ℕ)
    → IsValid tp frees
    → IsAllocated tp frees i
    → 0 < tp.num_alloc
some_allocated tp frees i v a =
    omega (
      arith,
      v.count,
      length_le_of_Distinct tp.high_wm (i ∷ frees) (a.1, v.distinct) (a.0, v.below),
    )

pub timer_free-IsValid :
    (tp : TimerPool) (frees : List ℕ) (i : ℕ)
    → IsValid tp frees
    → IsAllocated tp frees i
    → let (old_buf, tp') = timer_free i tp in
      (old_buf ≡ (tp.tick_buf i).tmo_buf)
      × IsValid tp' (i ∷ frees)
      × (tp'.num_alloc + 1 ≡ tp.num_alloc)
unfolding timer_free timer_cancel
timer_free-IsValid tp frees i v a = (
  refl,
  record {
    chain = (
      refl,
      ground (
        arith,
        FreeChain-update tp.timers tp.first_free frees tp.high_wm i
            (record { queue = tp.first_free; user_ptr = 0 }) a.1 v.chain,
      ),
    );
    fresh = λ j h. ground (arith, v.fresh j);
    below = (a.0, v.below);
    distinct = (a.1, v.distinct);
    count = omega (arith, v.count, some_allocated tp frees i v a);
    within = v.within;
    small = v.small;
    indexed = v.indexed;
    unused = (
      ground arith,
      All-update IsUnused tp.tick_buf frees i (record { exp_tck = tmo_unused; tmo_buf = none }) a.1
          v.unused,
    );
    fresh_unused = λ j h. ground (arith, v.fresh_unused j);
  },
  omega (arith, v.count, v.within, v.small, some_allocated tp frees i v a),
)
