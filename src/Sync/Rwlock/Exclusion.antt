-- ===== src/Sync/Rwlock/Exclusion.antt =====
-- odp_rwlock.c: readers exclude writers, and writers each other.
use odp.Prelude.{
  ℕ, ◌+◌, ◌≤◌, ◌<◌, ◌^◌, ◌≡◌, ◌≢◌, sym, ap, ◌⊎◌, inl, inr, Bool, true, false, arith, update,
  update_self, update-ne, ℕ_discrete, if◌then◌else◌,
}
use odp.Prelude.Weight.{weight, weight-update, weight-false, weight_le, weight_pos, weight_two}
use odp.Sync.Rwlock.{
  Phase, outside, read_loop, read_loaded, reading, write_loop, write_loaded, writing, Access,
  read_lock, read_wait, read_load, read_won, read_lost, read_unlock, write_lock, write_wait,
  write_load, write_won, write_lost, write_unlock, System, Step, access, start, Reach, begin, next,
  write_locked,
}

abbrev pub is_reading : Phase → Bool
is_reading outside = false
is_reading read_loop = false
is_reading (read_loaded c) = false
is_reading reading = true
is_reading write_loop = false
is_reading write_loaded = false
is_reading writing = false

abbrev pub is_writing : Phase → Bool
is_writing outside = false
is_writing read_loop = false
is_writing (read_loaded c) = false
is_writing reading = false
is_writing write_loop = false
is_writing write_loaded = false
is_writing writing = true

abbrev pub readers : ℕ → (ℕ → Phase) → ℕ
readers count ph = weight (λ x. is_reading (ph x)) count

abbrev pub writers : ℕ → (ℕ → Phase) → ℕ
writers count ph = weight (λ x. is_writing (ph x)) count

-- A thread tries to write only over a count of readers.
abbrev IsSmall : Phase → Type 0
IsSmall outside = Unit
IsSmall read_loop = Unit
IsSmall (read_loaded c) = c < 2 ^ 31
IsSmall reading = Unit
IsSmall write_loop = Unit
IsSmall write_loaded = Unit
IsSmall writing = Unit

-- The word counts the readers while there is no writer, and is -1 while there is one.
pub record IsValid (count : ℕ) (s : System) : Type 0 where
  pub word :
      ((writers count s.phases ≡ 0) × (s.cnt ≡ readers count s.phases))
      ⊎ ((writers count s.phases ≡ 1) × (readers count s.phases ≡ 0) × (s.cnt ≡ write_locked))
  pub small : (x : ℕ) → IsSmall (s.phases x)

-- What an access does to the numbers of readers `r` and of writers `w`, of which this thread is
-- `dr` and `dw`.
Access-word :
    (count cnt cnt' r w r' w' : ℕ) (p p' : Phase)
    → Access cnt p cnt' p'
    → count < 2 ^ 31
    → r ≤ count
    → r' + (if is_reading p then 1 else 0) ≡ r + (if is_reading p' then 1 else 0)
    → w' + (if is_writing p then 1 else 0) ≡ w + (if is_writing p' then 1 else 0)
    → IsSmall p
    → ((w ≡ 0) × (cnt ≡ r)) ⊎ ((w ≡ 1) × (r ≡ 0) × (cnt ≡ write_locked))
    → (((w' ≡ 0) × (cnt' ≡ r')) ⊎ ((w' ≡ 1) × (r' ≡ 0) × (cnt' ≡ write_locked))) × IsSmall p'
Access-word count cnt cnt' r w r' w' p p' read_lock b le er ew sm v = ground arith
Access-word count cnt cnt' r w r' w' p p' (read_wait h) b le er ew sm v = ground arith
Access-word count cnt cnt' r w r' w' p p' (read_load h) b le er ew sm v = ground arith
Access-word count cnt cnt' r w r' w' p p' (read_won h) b le er ew sm v = ground arith
Access-word count cnt cnt' r w r' w' p p' (read_lost h) b le er ew sm v = ground arith
Access-word count cnt cnt' r w r' w' p p' read_unlock b le er ew sm v = ground arith
Access-word count cnt cnt' r w r' w' p p' write_lock b le er ew sm v = ground arith
Access-word count cnt cnt' r w r' w' p p' (write_wait h) b le er ew sm v = ground arith
Access-word count cnt cnt' r w r' w' p p' (write_load h) b le er ew sm v = ground arith
Access-word count cnt cnt' r w r' w' p p' (write_won h) b le er ew sm v = ground arith
Access-word count cnt cnt' r w r' w' p p' (write_lost h) b le er ew sm v = ground arith
Access-word count cnt cnt' r w r' w' p p' write_unlock b le er ew sm v = ground arith

Step-IsValid :
    (count : ℕ) {s t : System} → count < 2 ^ 31 → Step count s t → IsValid count s → IsValid count t
Step-IsValid count {s} {t} b (access x {cnt} {p} l a) v =
    let (w, sm) =
      Access-word count s.cnt cnt (readers count s.phases) (writers count s.phases)
        (readers count (update s.phases x p)) (writers count (update s.phases x p)) (s.phases x) p a
        b (weight_le (λ y. is_reading (s.phases y)) count)
        (weight-update is_reading s.phases x p count l)
        (weight-update is_writing s.phases x p count l) (v.small x) v.word in
    record {
      word = w;
      small = λ y. elim (ℕ_discrete y x) [
        | yes e ↦ rw (e, update_self s.phases x p) sm
        | no ne ↦ rw (update-ne s.phases x p y ne) (v.small y)
      ];
    }

start-IsValid : (count : ℕ) → IsValid count start
start-IsValid count = record {
  word = inl (weight-false count, sym (weight-false count));
  small = λ x. tt;
}

pub Reach-IsValid : (count : ℕ) {s : System} → count < 2 ^ 31 → Reach count s → IsValid count s
Reach-IsValid count b begin = start-IsValid count
Reach-IsValid count b (next r st) = Step-IsValid count b st (Reach-IsValid count b r)

-- Whatever accesses fewer than 2^31 threads make to a read-write lock, while one writes no other
-- one reads or writes.
pub rwlock_exclusive :
    (count : ℕ) (s : System) (x y : ℕ)
    → count < 2 ^ 31
    → Reach count s
    → x < count
    → y < count
    → y ≢ x
    → s.phases x ≡ writing
    → (s.phases y ≢ reading) × (s.phases y ≢ writing)
rwlock_exclusive count s x y b r lx ly ne w =
    let v = Reach-IsValid count b r in
    let one = weight_pos (λ z. is_writing (s.phases z)) x count lx (ap is_writing w) in
    (
      (λ rd.
          let some_reader =
            weight_pos (λ z. is_reading (s.phases z)) y count ly (ap is_reading rd) in
          elim v.word [
            | inl (a, e) ↦ omega (arith, one, a)
            | inr (a, c, e) ↦ omega (arith, some_reader, c)
          ]),
      (λ wr.
          let two =
            weight_two (λ z. is_writing (s.phases z)) x y count lx ly (λ q. ne (sym q))
              (ap is_writing w) (ap is_writing wr) in
          elim v.word [
            | inl (a, e) ↦ omega (arith, two, a)
            | inr (a, c, e) ↦ omega (arith, two, a)
          ]),
    )

-- x
pub rwlock_word :
    (count : ℕ) (s : System)
    → count < 2 ^ 31
    → Reach count s
    → ((writers count s.phases ≡ 0) × (s.cnt ≡ readers count s.phases))
      ⊎ ((writers count s.phases ≡ 1) × (readers count s.phases ≡ 0) × (s.cnt ≡ write_locked))
rwlock_word count s b r = (Reach-IsValid count b r).word
