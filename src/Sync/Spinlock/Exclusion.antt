-- ===== src/Sync/Spinlock/Exclusion.antt =====
-- odp_spinlock.c: the flag is set exactly while a thread is inside.
use odp.Prelude.{ℕ, ◌+◌, ◌<◌, ◌≡◌, ap, Bool, true, false, arith, update, if◌then◌else◌, ℕ_discrete}
use odp.Prelude.Weight.{weight, weight-update, weight-false, weight_two}
use odp.Sync.Spinlock.{
  Phase, outside, trying, spinning, inside, Access, lock, taken, won, wait, retry, trylock_won,
  trylock_lost, unlock, System, access, Reach, begin, next,
}

abbrev pub is_inside : Phase → Bool
is_inside outside = false
is_inside trying = false
is_inside spinning = false
is_inside inside = true

abbrev pub holders : ℕ → (ℕ → Phase) → ℕ
holders count ph = weight (λ x. is_inside (ph x)) count

Access-flag :
    (flag flag' : Bool) (w w' : ℕ) (p p' : Phase)
    → Access flag p flag' p'
    → w' + (if is_inside p then 1 else 0) ≡ w + (if is_inside p' then 1 else 0)
    → w ≡ (if flag then 1 else 0)
    → w' ≡ (if flag' then 1 else 0)
Access-flag flag flag' w w' p p' lock e v = ground arith
Access-flag flag flag' w w' p p' (taken h) e v = ground arith
Access-flag flag flag' w w' p p' (won h) e v = ground arith
Access-flag flag flag' w w' p p' (wait h) e v = ground arith
Access-flag flag flag' w w' p p' (retry h) e v = ground arith
Access-flag flag flag' w w' p p' (trylock_won h) e v = ground arith
Access-flag flag flag' w w' p p' (trylock_lost h) e v = ground arith
Access-flag flag flag' w w' p p' unlock e v = ground arith

-- x
pub spinlock_flag :
    (count : ℕ) (s : System) → Reach count s → holders count s.phases ≡ (if s.flag then 1 else 0)
spinlock_flag count s begin = weight-false count
spinlock_flag count s (next {s = r} before (access x {flag} {p} l a)) =
    Access-flag r.flag flag (holders count r.phases) (holders count (update r.phases x p))
      (r.phases x) p a (weight-update is_inside r.phases x p count l) (spinlock_flag count r before)

-- Whatever accesses the threads make to a spinlock with lock, trylock and unlock, at most one is
-- past its loops.
pub spinlock_exclusive :
    (count : ℕ) (s : System) (x y : ℕ)
    → Reach count s
    → x < count
    → y < count
    → s.phases x ≡ inside
    → s.phases y ≡ inside
    → x ≡ y
spinlock_exclusive count s x y r lx ly a b = elim (ℕ_discrete x y) [
  | yes e ↦ e
  | no ne ↦
      let two =
        weight_two (λ z. is_inside (s.phases z)) x y count lx ly ne (ap is_inside a)
          (ap is_inside b) in
      let one = spinlock_flag count s r in absurd (ground (arith, two, one))
]
