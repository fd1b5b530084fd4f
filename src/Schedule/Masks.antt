-- ===== src/Schedule/Masks.antt =====
-- odp_schedule.c: the mask of a priority tells which of its sub queues have a queue in them.
use Prim.Native.Nat.{bit_and, bit_or}
use odp.Prelude.{
  ℕ, ◌-◌, ◌/◌, ◌%◌, ◌^◌, ◌<◌, ◌≡◌, ◌≢◌, refl, ◌↔◌, Bool, true, ◌&&◌, arith, ◌==◌, ltb,
  if◌then◌else◌, u32_mod,
}
use odp.Prelude.Every.{every, every-at}
use odp.Schedule.{Sched, queues_per_prio, pri_set, pri_clr}

-- Bit `id` of a mask.
unfoldable pub bit : ℕ → ℕ → ℕ
bit m id = m / 2 ^ id % 2

bit_lt : (m id : ℕ) → bit m id < 2
unfolding bit
bit_lt m id = omega arith

-- A mask of four bits, after the bit `i` is set or cleared, seen at the bit `j`.
abbrev set_ok : ℕ → ℕ → ℕ → Bool
set_ok m i j =
    ltb (bit_or m (2 ^ i) % 256) 16
    && bit (bit_or m (2 ^ i) % 256) j == (if i == j then 1 else bit m j)

abbrev clr_ok : ℕ → ℕ → ℕ → Bool
clr_ok m i j =
    ltb (bit_and m (255 - 2 ^ i)) 16
    && bit (bit_and m (255 - 2 ^ i)) j == (if i == j then 0 else bit m j)

set_table : every (λ m. every (λ i. every (λ j. set_ok m i j) 4) 4) 16 ≡ true
unfolding every bit
set_table = refl

clr_table : every (λ m. every (λ i. every (λ j. clr_ok m i j) 4) 4) 16 ≡ true
unfolding every bit
clr_table = refl

-- What a table says of one mask and two bits.
table_at :
    (ok : ℕ → ℕ → ℕ → Bool) (m i j : ℕ)
    → m < 16
    → i < 4
    → j < 4
    → every (λ m. every (λ i. every (λ j. ok m i j) 4) 4) 16 ≡ true
    → ok m i j ≡ true
table_at ok m i j hm hi hj e =
    let row = every-at (λ m. every (λ i. every (λ j. ok m i j) 4) 4) 16 m hm e in
    every-at (λ j. ok m i j) 4 j hj (every-at (λ i. every (λ j. ok m i j) 4) 4 i hi row)

set_bit :
    (m i j : ℕ)
    → m < 16
    → i < 4
    → j < 4
    → (bit_or m (2 ^ i) % 256 < 16)
      × (bit (bit_or m (2 ^ i) % 256) j ≡ (if i == j then 1 else bit m j))
set_bit m i j hm hi hj = ground (arith, table_at set_ok m i j hm hi hj set_table)

clr_bit :
    (m i j : ℕ)
    → m < 16
    → i < 4
    → j < 4
    → (bit_and m (255 - 2 ^ i) < 16)
      × (bit (bit_and m (255 - 2 ^ i)) j ≡ (if i == j then 0 else bit m j))
clr_bit m i j hm hi hj = ground (arith, table_at clr_ok m i j hm hi hj clr_table)

-- Every mask has four bits, every count is below 2 ^ 32, and a bit is set exactly when its count
-- is not 0.
pub record Agrees (s : Sched) : Type 0 where
  pub narrow : (prio : ℕ) → s.pri_mask prio < 16
  pub small : (prio id : ℕ) → s.pri_count prio id < u32_mod
  pub set_iff :
      (prio id : ℕ)
      → id < queues_per_prio
      → (bit (s.pri_mask prio) id ≡ 1) ↔ (s.pri_count prio id ≢ 0)

pub pri_set-Agrees :
    (id prio : ℕ) (s : Sched)
    → id < queues_per_prio
    → s.pri_count prio id < u32_mod - 1
    → Agrees s
    → Agrees (pri_set id prio s).0
unfolding pri_set
pri_set-Agrees id prio s hid room a = record {
  narrow = λ p.
      ground (arith, set_bit (s.pri_mask prio) id 0 (a.narrow prio) hid (omega arith), a.narrow p);
  small = λ p i. ground (arith, a.small p i);
  set_iff = λ p i hi.
      ground (arith, set_bit (s.pri_mask prio) id i (a.narrow prio) hid hi, a.set_iff p i hi);
}

pub pri_clr-Agrees :
    (id prio : ℕ) (s : Sched)
    → id < queues_per_prio
    → s.pri_count prio id ≢ 0
    → Agrees s
    → Agrees (pri_clr id prio s)
unfolding pri_clr
pri_clr-Agrees id prio s hid some_in a = record {
  narrow = λ p.
      ground (arith, clr_bit (s.pri_mask prio) id 0 (a.narrow prio) hid (omega arith), a.narrow p);
  small = λ p i. ground (arith, a.small p i, a.small prio id);
  set_iff = λ p i hi. ground (
    arith,
    clr_bit (s.pri_mask prio) id i (a.narrow prio) hid hi,
    a.set_iff p i hi,
    a.small prio id,
  );
}

-- If the masks and counts of the priorities agree, the sub queue exists and its count is not at
-- the 32-bit limit, pri_clr after pri_set restores every count and every bit of the sub queues.
pub pri_clr-pri_set :
    (id prio : ℕ) (s : Sched)
    → id < queues_per_prio
    → s.pri_count prio id < u32_mod - 1
    → Agrees s
    → (p i : ℕ) → i < queues_per_prio
    → let r = pri_clr id prio (pri_set id prio s).0 in
      (r.pri_count p i ≡ s.pri_count p i) × (bit (r.pri_mask p) i ≡ bit (s.pri_mask p) i)
unfolding pri_set pri_clr
pri_clr-pri_set id prio s hid room a p i hi = ground (
  arith,
  set_bit (s.pri_mask prio) id i (a.narrow prio) hid hi,
  clr_bit (bit_or (s.pri_mask prio) (2 ^ id) % 256) id i
      (set_bit (s.pri_mask prio) id i (a.narrow prio) hid hi).0 hid hi,
  a.set_iff p i hi,
  a.small prio id,
  bit_lt (s.pri_mask p) i,
)
