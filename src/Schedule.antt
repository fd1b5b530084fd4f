-- ===== src/Schedule.antt =====
-- platform/linux-generic/odp_schedule.c: the tables of the global scheduler, `sched_t`, and the
-- functions that keep them.
--
-- The arrays are functions of their indices. `pri_queue` holds the handle of the queue of
-- commands for each priority and each of the QUEUES_PER_PRIO sub queues. The spin lock
-- `mask_lock` makes `pri_set` and `pri_clr` atomic, so each is one step here.
pub mod Masks
pub mod Protocol
pub mod Loop
mod Tests
use Prim.Native.Nat.{bit_and, bit_or}
use odp.Prelude.{ℕ, ◌+◌, ◌-◌, ◌%◌, ◌^◌, ◌&&◌, Bool, ◌==◌, if◌then◌else◌, add32, sub32, update}

abbrev pub sched_prios : ℕ
sched_prios = 8

abbrev pub queues_per_prio : ℕ
queues_per_prio = 4

pub record Sched : Type 0 where
  pub pri_queue : ℕ → ℕ → ℕ
  pub pri_mask : ℕ → ℕ
  pub pri_count : ℕ → ℕ → ℕ

-- `(QUEUES_PER_PRIO - 1) & queue_to_id(queue)`, with `queue_to_id` the handle less one.
unfoldable pub pri_id_queue : ℕ → ℕ
pri_id_queue queue = bit_and (queues_per_prio - 1) (sub32 queue 1)

abbrev pub update₂ : (ℕ → ℕ → ℕ) → ℕ → ℕ → ℕ → ℕ → ℕ → ℕ
update₂ f i j v = λ x y. if x == i && y == j then v else f x y

-- The mask is a uint8_t.
unfoldable pub pri_set : ℕ → ℕ → Sched → Sched × ℕ
pri_set id prio s = (
  record s {
    pri_mask = update s.pri_mask prio (bit_or (s.pri_mask prio) (2 ^ id) % 256);
    pri_count = update₂ s.pri_count prio id (add32 (s.pri_count prio id) 1);
  },
  s.pri_queue prio id,
)

-- `(uint8_t)(~(1 << id))` is 255 - 2 ^ id for a sub queue `id`.
unfoldable pub pri_clr : ℕ → ℕ → Sched → Sched
pri_clr id prio s =
    let count = sub32 (s.pri_count prio id) 1 in
    record s {
      pri_mask =
          if count == 0
          then update s.pri_mask prio (bit_and (s.pri_mask prio) (255 - 2 ^ id))
          else s.pri_mask;
      pri_count = update₂ s.pri_count prio id count;
    }

unfoldable pub pri_set_queue : ℕ → ℕ → Sched → Sched × ℕ
unfolding pri_set pri_id_queue
pri_set_queue queue prio s = pri_set (pri_id_queue queue) prio s

unfoldable pub pri_clr_queue : ℕ → ℕ → Sched → Sched
unfolding pri_clr pri_id_queue
pri_clr_queue queue prio s = pri_clr (pri_id_queue queue) prio s

-- `(QUEUES_PER_PRIO - 1) & pktio_to_id(pktio)`, with `pktio_to_id` the handle less one.
unfoldable pub pri_id_pktio : ℕ → ℕ
pri_id_pktio pktio = bit_and (queues_per_prio - 1) (sub32 pktio 1)

unfoldable pub pri_set_pktio : ℕ → ℕ → Sched → Sched × ℕ
unfolding pri_set pri_id_pktio
pri_set_pktio pktio prio s = pri_set (pri_id_pktio pktio) prio s

unfoldable pub pri_clr_pktio : ℕ → ℕ → Sched → Sched
unfolding pri_clr pri_id_pktio
pri_clr_pktio pktio prio s = pri_clr (pri_id_pktio pktio) prio s
