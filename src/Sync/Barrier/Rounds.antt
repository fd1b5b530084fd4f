-- ===== src/Sync/Barrier/Rounds.antt =====
-- odp_barrier.c: who has completed how many waits.
use odp.Prelude.{
  ℕ, suc, ◌+◌, ◌*◌, ◌≤◌, ◌<◌, ◌≡◌, ◌≢◌, refl, sym, ap, ◌∙◌, ◌⊎◌, inl, inr, Bool, true, false, not,
  arith, update, update_self, update-ne, if◌then◌else◌, ℕ_discrete, dec_lt, u32_mod, add32,
}
use odp.Prelude.Weight.{
  weight, weight-update, weight-false, weight-ext, weight-all, weight-clear_one,
}
use odp.Sync.Barrier.{
  Phase, outside, waiting, wrapping, Access, enter_last, enter, wrap, spin, leave, System, Step,
  access, Reach, begin, next, is_less, wrapped,
}

abbrev pub rounds : Phase → ℕ
rounds (outside r) = r
rounds (waiting w r) = r
rounds (wrapping r) = r

abbrev pub in_wait : Phase → Bool
in_wait (outside r) = false
in_wait (waiting w r) = true
in_wait (wrapping r) = true

-- Has it arrived in the half of the cycle that is below `count`, or in the other one?
abbrev pub has_arrived : Bool → Phase → Bool
has_arrived half (outside r) = false
has_arrived true (waiting w r) = w
has_arrived false (waiting w r) = not w
has_arrived true (wrapping r) = false
has_arrived false (wrapping r) = true

abbrev pub arrived : ℕ → Bool → (ℕ → Phase) → ℕ
arrived count half ph = weight (λ x. has_arrived half (ph x)) count

-- In round `n`, a thread in the loop has arrived for it or has not left the one before.
abbrev pub IsPlaced : ℕ → Bool → Phase → Type 0
IsPlaced n half (outside r) = r ≡ n
IsPlaced n half (waiting w r) = ((w ≡ half) × (r ≡ n)) ⊎ ((w ≡ not half) × (suc r ≡ n))
IsPlaced n half (wrapping r) = ⊥

pub data Shape (count : ℕ) (s : System) : Type 0 where
  filling :
      (n : ℕ) (half : Bool)
      → s.bar ≡ (if half then 0 else count) + arrived count half s.phases
      → arrived count half s.phases < count
      → ((y : ℕ) → y < count → IsPlaced n half (s.phases y))
      → Shape count s
  full :
      (n z : ℕ)
      → s.bar ≡ 2 * count
      → z < count
      → s.phases z ≡ wrapping n
      → ((y : ℕ) → y < count → y ≢ z → s.phases y ≡ waiting false n)
      → Shape count s

abbrev end_shape : ℕ → ℕ → (ℕ → Phase) → ℕ → Phase → System
end_shape count x ph bar p = record { bar = bar; phases = update ph x p }

arrived-IsPlaced :
    (n : ℕ) (half : Bool) (p : Phase)
    → IsPlaced n half p
    → has_arrived half p ≡ true
    → p ≡ waiting half n
arrived-IsPlaced n half (outside r) i e = absurd (ground arith)
arrived-IsPlaced n true (waiting true r) i e = ground arith
arrived-IsPlaced n true (waiting false r) i e = absurd (ground arith)
arrived-IsPlaced n false (waiting true r) i e = absurd (ground arith)
arrived-IsPlaced n false (waiting false r) i e = ground arith
arrived-IsPlaced n half (wrapping r) i e = absurd i

module _ (count x : ℕ) (ph : ℕ → Phase) (lx : x < count) where
  -- A phase that changes at one thread only.
  moved-IsPlaced :
      (n : ℕ) (half : Bool) (p : Phase)
      → IsPlaced n half p
      → ((y : ℕ) → y < count → y ≢ x → IsPlaced n half (ph y))
      → (y : ℕ) → y < count
      → IsPlaced n half (update ph x p y)
  moved-IsPlaced n half p i others y l = elim (ℕ_discrete y x) [
    | yes e ↦ rw (e, update_self ph x p) i
    | no ne ↦ rw (update-ne ph x p y ne) (others y l ne)
  ]

  moved-arrived :
      (half : Bool) (p q : Phase)
      → ph x ≡ q
      → arrived count half (update ph x p) + (if has_arrived half q then 1 else 0)
        ≡ arrived count half ph + (if has_arrived half p then 1 else 0)
  moved-arrived half p q e = rw (sym e) (weight-update (has_arrived half) ph x p count lx)

  -- If all but this thread have arrived, they are in the loop.
  others_arrived :
      (n : ℕ) (half : Bool) (p : Phase)
      → arrived count half (update ph x p) ≡ count
      → ((y : ℕ) → y < count → IsPlaced n half (ph y))
      → (y : ℕ) → y < count
      → y ≢ x
      → ph y ≡ waiting half n
  others_arrived n half p all placed y l ne = arrived-IsPlaced n half (ph y) (placed y l) (
      sym (ap (has_arrived half) (update-ne ph x p y ne))
      ∙ weight-all (λ z. has_arrived half (update ph x p z)) count all y l)

  -- If all are in the loop of the other half, none has arrived in this one.
  none_arrived :
      (n : ℕ) (half : Bool) (p : Phase)
      → has_arrived half p ≡ false
      → ((y : ℕ) → y < count → y ≢ x → ph y ≡ waiting (not half) n)
      → arrived count half (update ph x p) ≡ 0
  none_arrived n half p e others =
      weight-ext (λ y. has_arrived half (update ph x p y)) (λ y. false) count
        (λ y l. elim (ℕ_discrete y x) [
          | yes q ↦ rw (q, update_self ph x p) e
          | no ne ↦ rw (update-ne ph x p y ne, others y l ne) (clear half)
        ])
      ∙ weight-false count
    where
      clear : (h : Bool) → has_arrived h (waiting (not h) n) ≡ false
      clear true = refl
      clear false = refl

  -- The round ends: the last thread arrives, or wraps the number around.
  next_round :
      (n bar : ℕ) (half : Bool) (p : Phase)
      → bar ≡ (if half then 0 else count)
      → has_arrived half p ≡ false
      → IsPlaced (suc n) half p
      → ((y : ℕ) → y < count → y ≢ x → ph y ≡ waiting (not half) n)
      → Shape count (end_shape count x ph bar p)
  next_round n bar half p b e i others =
      let none = none_arrived n half p e others in
      filling (suc n) half (omega (arith, b, none)) (omega (arith, none, lx))
        (moved-IsPlaced (suc n) half p i (λ y l ne. rw (others y l ne) (inr (refl, refl))))

  -- The thread changes within the round.
  same_round :
      (n bar bar' : ℕ) (half : Bool) (p q : Phase)
      → ph x ≡ q
      → bar ≡ (if half then 0 else count) + arrived count half ph
      → bar' + (if has_arrived half q then 1 else 0) ≡ bar + (if has_arrived half p then 1 else 0)
      → bar' < (if half then 0 else count) + count
      → IsPlaced n half p
      → ((y : ℕ) → y < count → IsPlaced n half (ph y))
      → Shape count (end_shape count x ph bar' p)
  same_round n bar bar' half p q e b d lt i placed =
      let m = moved-arrived half p q e in
      filling n half (omega (arith, m, b, d)) (omega (arith, m, b, d, lt))
        (moved-IsPlaced n half p i (λ y l ne. placed y l))

  -- In the round that fills.
  filling_step :
      (n bar bar' : ℕ) (half : Bool) (p q : Phase)
      → 2 * count < u32_mod
      → ph x ≡ q
      → bar ≡ (if half then 0 else count) + arrived count half ph
      → arrived count half ph < count
      → IsPlaced n half q
      → ((y : ℕ) → y < count → IsPlaced n half (ph y))
      → Access count bar q bar' p
      → Shape count (end_shape count x ph bar' p)
  filling_step n bar bar' true p q big e b lt i placed (enter_last {r} h) = absurd (ground arith)
  filling_step n bar bar' false p q big e b lt i placed (enter_last {r} h) =
      let m = moved-arrived false (wrapping r) (outside r) e in
      full n x (ground arith) lx (update_self ph x (wrapping r) ∙ ap wrapping i) (λ y l ne.
        update-ne ph x (wrapping r) y ne
        ∙ others_arrived n false (wrapping r) (ground arith) placed y l ne)
  filling_step n bar bar' true p q big e b lt i placed (enter {r} h) =
      elim (dec_lt (suc bar) count) [
        | yes room ↦
            same_round n bar (add32 bar 1) true (waiting (is_less count bar) r) (outside r) e b
              (ground arith) (ground arith) (inl (ground arith, i)) placed
        | no done ↦
            let m = moved-arrived true (waiting (is_less count bar) r) (outside r) e in
            next_round n (add32 bar 1) false (waiting (is_less count bar) r) (ground arith)
              (ground arith) (inr (ground arith, ap suc i))
              (others_arrived n true (waiting (is_less count bar) r) (ground arith) placed)
      ]
  filling_step n bar bar' false p q big e b lt i placed (enter {r} h) =
      same_round n bar (add32 bar 1) false (waiting (is_less count bar) r) (outside r) e b
        (ground arith) (ground arith) (inl (ground arith, i)) placed
  filling_step n bar bar' half p q big e b lt i placed (wrap {r}) = absurd i
  filling_step n bar bar' half p q big e b lt i placed (spin {w} {r} h) =
      same_round n bar bar half (waiting w r) (waiting w r) e b refl (ground arith) i placed
  filling_step n bar bar' half p q big e b lt i placed (leave {w} {r} h) = elim i [
    | inl (now, j) ↦ absurd (ground arith)
    | inr (late, j) ↦
        let gone = late_arrived half w r late in
        same_round n bar bar half (outside (suc r)) (waiting w r) e b (ground arith) (ground arith)
          j placed
  ]
    where
      late_arrived : (h v : Bool) (m : ℕ) → v ≡ not h → has_arrived h (waiting v m) ≡ false
      late_arrived true v m k = k
      late_arrived false v m k = ap not k

  -- The thread that wraps the number around ends the round.
  wrapper :
      (n bar bar' : ℕ) (p q : Phase)
      → 2 * count < u32_mod
      → q ≡ wrapping n
      → bar ≡ 2 * count
      → ((y : ℕ) → y < count → y ≢ x → ph y ≡ waiting false n)
      → Access count bar q bar' p
      → Shape count (end_shape count x ph bar' p)
  wrapper n bar bar' p q big eq b others (wrap {r}) =
      next_round n (wrapped count bar) true (outside (suc r)) (ground arith) refl
        (ap suc (ap rounds eq)) others
  wrapper n bar bar' p q big eq b others (enter_last h) = absurd (ground arith)
  wrapper n bar bar' p q big eq b others (enter h) = absurd (ground arith)
  wrapper n bar bar' p q big eq b others (spin h) = absurd (ground arith)
  wrapper n bar bar' p q big eq b others (leave h) = absurd (ground arith)

  -- Until then the others stay in the loop.
  looper :
      (n z bar bar' : ℕ) (p q : Phase)
      → 2 * count < u32_mod
      → ph x ≡ q
      → bar ≡ 2 * count
      → z < count
      → ph z ≡ wrapping n
      → ((y : ℕ) → y < count → y ≢ z → ph y ≡ waiting false n)
      → x ≢ z
      → q ≡ waiting false n
      → Access count bar q bar' p
      → Shape count (end_shape count x ph bar' p)
  looper n z bar bar' p q big e b lz ez others ne eq (spin {w} {r} h) =
      full n z b lz (update-ne ph x (waiting w r) z (λ j. ne (sym j)) ∙ ez) (λ y l nz.
        elim (ℕ_discrete y x) [
          | yes same ↦ rw (same, update_self ph x (waiting w r)) eq
          | no ny ↦ update-ne ph x (waiting w r) y ny ∙ others y l nz
        ])
  looper n z bar bar' p q big e b lz ez others ne eq (enter_last h) = absurd (ground arith)
  looper n z bar bar' p q big e b lz ez others ne eq (enter h) = absurd (ground arith)
  looper n z bar bar' p q big e b lz ez others ne eq wrap = absurd (ground arith)
  looper n z bar bar' p q big e b lz ez others ne eq (leave {w} {r} h) = absurd (ground arith)

  full_step :
      (n z bar bar' : ℕ) (p q : Phase)
      → 2 * count < u32_mod
      → ph x ≡ q
      → bar ≡ 2 * count
      → z < count
      → ph z ≡ wrapping n
      → ((y : ℕ) → y < count → y ≢ z → ph y ≡ waiting false n)
      → Access count bar q bar' p
      → Shape count (end_shape count x ph bar' p)
  full_step n z bar bar' p q big e b lz ez others a = elim (ℕ_discrete x z) [
    | yes same ↦ wrapper n bar bar' p q big (sym e ∙ ap ph same ∙ ez) b (rw same others) a
    | no ne ↦ looper n z bar bar' p q big e b lz ez others ne (sym e ∙ others x lx ne) a
  ]

Step-Shape :
    (count : ℕ) {s t : System}
    → 2 * count < u32_mod
    → Step count s t
    → Shape count s
    → Shape count t
Step-Shape count {s} big (access x {bar} {p} l a) (filling n half b lt placed) =
    filling_step count x s.phases l n s.bar bar half p (s.phases x) big refl b lt (placed x l)
      placed a
Step-Shape count {s} big (access x {bar} {p} l a) (full n z b lz ez others) =
    full_step count x s.phases l n z s.bar bar p (s.phases x) big refl b lz ez others a

Reach-Shape :
    (count : ℕ) {s : System} → 2 * count < u32_mod → 0 < count → Reach count s → Shape count s
Reach-Shape count big pos begin =
    filling 0 true (omega (arith, weight-false count)) (rw (weight-false count) pos) (λ y l. refl)
Reach-Shape count big pos (next before st) =
    Step-Shape count big st (Reach-Shape count big pos before)

IsPlaced-rounds :
    (n : ℕ) (half : Bool) (p q : Phase)
    → IsPlaced n half p
    → IsPlaced n half q
    → rounds p ≤ rounds q + (if in_wait q then 1 else 0)
IsPlaced-rounds n half (wrapping r) q i j = absurd i
IsPlaced-rounds n half (outside r) (outside r') i j = ground arith
IsPlaced-rounds n half (outside r) (waiting w r') i j = ground arith
IsPlaced-rounds n half (waiting w' r) (outside r') i j = ground arith
IsPlaced-rounds n half (waiting w' r) (waiting w r') i j = ground arith
IsPlaced-rounds n half p (wrapping r') i j = absurd j

full_rounds :
    (count n z y : ℕ) (ph : ℕ → Phase)
    → ph z ≡ wrapping n
    → ((y : ℕ) → y < count → y ≢ z → ph y ≡ waiting false n)
    → y < count
    → (rounds (ph y) ≡ n) × (in_wait (ph y) ≡ true)
full_rounds count n z y ph ez others l = elim (ℕ_discrete y z) [
  | yes e ↦ rw (e, ez) (refl, refl)
  | no ne ↦ rw (others y l ne) (refl, refl)
]

-- At a barrier for all the threads, fewer than 2^31 of them, whatever the order of their
-- accesses, no thread has completed more waits than any other has entered: none passes before
-- all have arrived, in the first round and in each later one.
pub barrier_rounds :
    (count : ℕ) (s : System) (x y : ℕ)
    → 2 * count < u32_mod
    → Reach count s
    → x < count
    → y < count
    → rounds (s.phases x) ≤ rounds (s.phases y) + (if in_wait (s.phases y) then 1 else 0)
barrier_rounds count s x y big r lx ly = elim (Reach-Shape count big (omega arith) r) [
  | filling n half b lt placed ↦
      IsPlaced-rounds n half (s.phases x) (s.phases y) (placed x lx) (placed y ly)
  | full n z b lz ez others ↦
      let (a, c) = full_rounds count n z x s.phases ez others lx in
      let (d, f) = full_rounds count n z y s.phases ez others ly in rw (f, a, d) (omega arith)
]

-- A thread that the barrier does not hold back.
abbrev pub IsFree : ℕ → ℕ → Phase → Type 0
IsFree count bar (outside r) = Unit
IsFree count bar (waiting w r) = is_less count bar ≢ w
IsFree count bar (wrapping r) = Unit

absent-IsFree :
    (count bar n k : ℕ) (half : Bool) (p : Phase)
    → bar ≡ (if half then 0 else count) + k
    → k < count
    → IsPlaced n half p
    → has_arrived half p ≡ false
    → IsFree count bar p
absent-IsFree count bar n k half (outside r) b lt i e = tt
absent-IsFree count bar n k true (waiting w r) b lt i e = λ q. ground arith
absent-IsFree count bar n k false (waiting w r) b lt i e = λ q. ground arith
absent-IsFree count bar n k half (wrapping r) b lt i e = tt

-- At a barrier for all the threads, at least one and fewer than 2^31 of them, some thread is
-- always outside, past the last arrival, or in a loop whose test then ends it.
pub barrier_progress :
    (count : ℕ) (s : System)
    → 2 * count < u32_mod
    → 0 < count
    → Reach count s
    → (x : ℕ) × (x < count) × IsFree count s.bar (s.phases x)
barrier_progress count s big pos r = elim (Reach-Shape count big pos r) [
  | filling n half b lt placed ↦
      let (x, l, e) = weight-clear_one (λ y. has_arrived half (s.phases y)) count lt in
      (
        x,
        l,
        absent-IsFree count s.bar n (arrived count half s.phases) half (s.phases x) b lt
            (placed x l) e,
      )
  | full n z b lz ez others ↦ (z, lz, rw ez tt)
]
