-- ===== src/Queue/Life.antt =====
-- odp_queue.c: what create, destroy and finalize do to an entry, and the states that any sequence
-- of operations can reach.
use odp.Prelude.{
  Bool-cases, inl, inr, ℕ, zero, suc, ◌<◌, ◌≡◌, ◌≢◌, refl, ◌↔◌, true, false, Option, none, some,
  List, [], ◌∷◌, arith, if◌then◌else◌, get_elem?, length, get_elem?-set_self, get_elem?-set_ne,
}
use odp.Queue.{Status, free, destroyed, ready, notsched, sched, QueueType, Param, QueueEntry}
use odp.Queue.Table.{
  queue_invalid, Table, is_scheduled, free_slot, open_entry, queue_init, odp_queue_create,
  destroy_entry, queue_destroy_finalize, schedule_queue_init, schedule_queue_destroy,
}

free_slot-lt : (qs : List QueueEntry) (i : ℕ) → free_slot qs ≡ some i → i < length qs
unfolding free_slot
free_slot-lt [] i e = cc
free_slot-lt (q ∷ qs) zero e = omega arith
free_slot-lt (q ∷ qs) (suc i) e = ground (arith, free_slot-lt qs i)

free_slot-free :
    (qs : List QueueEntry) (i : ℕ) (q : QueueEntry)
    → free_slot qs ≡ some i
    → get_elem? qs i ≡ some q
    → q.status ≡ free
unfolding free_slot
free_slot-free [] i q e g = cc
free_slot-free (p ∷ qs) zero q e g = ground arith
free_slot-free (p ∷ qs) (suc i) q e g = ground (arith, free_slot-free qs i q)

free_slot_first :
    (qs : List QueueEntry) (i j : ℕ) (q : QueueEntry)
    → free_slot qs ≡ some i
    → j < i
    → get_elem? qs j ≡ some q
    → q.status ≢ free
unfolding free_slot
free_slot_first [] i j q e h g = cc
free_slot_first (p ∷ qs) zero j q e h g = absurd (omega arith)
free_slot_first (p ∷ qs) (suc i) zero q e h g = ground arith
free_slot_first (p ∷ qs) (suc i) (suc j) q e h g = ground (arith, free_slot_first qs i j q)

-- No slot is found only if none is free.
pub free_slot-none :
    (qs : List QueueEntry) (j : ℕ) (q : QueueEntry)
    → free_slot qs ≡ none
    → get_elem? qs j ≡ some q
    → q.status ≢ free
unfolding free_slot
free_slot-none [] j q e g f = cc
free_slot-none (p ∷ qs) zero q e g f = ground arith
free_slot-none (p ∷ qs) (suc j) q e g f = ground (arith, free_slot-none qs j q)

-- The status of a queue after a destroy that succeeds.
abbrev pub after_destroy : Status → Status
after_destroy free = free
after_destroy destroyed = destroyed
after_destroy ready = free
after_destroy notsched = free
after_destroy sched = destroyed

pub destroy_entry_lem :
    (q : QueueEntry) (t : Table)
    → let (ok, q', t') = destroy_entry q t in
      ((ok ≡ true) ↔ ((q.head ≡ none) × (q.status ≢ free) × (q.status ≢ destroyed)))
      × (ok ≡ true → q'.status ≡ after_destroy q.status)
      × (ok ≡ false → (q' ≡ q) × (t' ≡ t))
unfolding destroy_entry schedule_queue_destroy
destroy_entry_lem q t = ground arith

-- queue_destroy_finalize frees a DESTROYED queue and gives its command event back, and leaves
-- every other queue alone.
pub queue_destroy_finalize_lem :
    (q : QueueEntry) (t : Table)
    → let (q', t') = queue_destroy_finalize q t in
      (q.status ≡ destroyed → (q'.status ≡ free) × (t'.freed ≡ q.cmd_ev ∷ t.freed))
      × (q.status ≢ destroyed → (q' ≡ q) × (t' ≡ t))
unfolding queue_destroy_finalize schedule_queue_destroy
queue_destroy_finalize_lem q t = ground arith

-- A slot that holds an empty queue in the first status of its type.
abbrev pub Opened : QueueType → Option QueueEntry → Type 0
Opened type none = ⊥
Opened type (some q) =
    (q.head ≡ none)
    × (q.tail ≡ none)
    × (q.type ≡ type)
    × (q.status ≡ (if is_scheduled type then notsched else ready))

pub odp_queue_create_lem :
    (name : List ℕ) (type : QueueType) (param : Option Param) (buf i : ℕ) (old : QueueEntry)
    (t : Table)
    → free_slot t.queues ≡ some i
    → get_elem? t.queues i ≡ some old
    → let (handle, t') = odp_queue_create name type param (some buf) t in
      (handle ≡ old.handle)
      × Opened type (get_elem? t'.queues i)
      × ((j : ℕ) → i ≢ j → get_elem? t'.queues j ≡ get_elem? t.queues j)
unfolding odp_queue_create open_entry queue_init schedule_queue_init
odp_queue_create_lem name type param buf i old t f g =
    let lt = free_slot-lt t.queues i f in
    elim (Bool-cases (is_scheduled type)) [
      | inl e ↦
          rw (f, odp_queue_create, g, odp_queue_create, e, get_elem?-set_self t.queues i _ lt)
            (refl, (refl, refl, refl, rw e refl), λ j ne. get_elem?-set_ne t.queues i j _ ne)
      | inr e ↦
          rw (f, odp_queue_create, g, odp_queue_create, e, get_elem?-set_self t.queues i _ lt)
            (refl, (refl, refl, refl, rw e refl), λ j ne. get_elem?-set_ne t.queues i j _ ne)
    ]

pub odp_queue_create_leak :
    (name : List ℕ) (type : QueueType) (param : Option Param) (i : ℕ) (old : QueueEntry) (t : Table)
    → is_scheduled type ≡ true
    → free_slot t.queues ≡ some i
    → get_elem? t.queues i ≡ some old
    → ((odp_queue_create name type param none t).0 ≡ queue_invalid)
      × ((q : QueueEntry) × (get_elem? (odp_queue_create name type param none t).1.queues i
            ≡ some q)
          × (q.status ≡ notsched))
unfolding odp_queue_create open_entry queue_init schedule_queue_init
odp_queue_create_leak name type param i old t e f g =
    let lt = free_slot-lt t.queues i f in
    rw (f, odp_queue_create, g, odp_queue_create, e, get_elem?-set_self t.queues i _ lt)
      (refl, (_, refl, refl))
