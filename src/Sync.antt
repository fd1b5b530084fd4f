-- ===== src/Sync.antt =====
-- platform/linux-generic/odp_ticketlock.c: the ticket lock.
--
-- Each atomic access is one step. `Step` interleaves the steps of all threads that take, try to take
-- and release one lock; a lock is released by a thread that holds it. The counts of a `System` are no
-- state of the code: they say how many tickets were taken and how many turns are over.
pub mod Ticket
pub mod Exclusion
pub mod Rwlock
pub mod Spinlock
pub mod Barrier
mod Tests
use odp.Prelude.{
  ℕ, ◌+◌, ◌<◌, ◌≡◌, u32_mod, Bool, true, false, not, ◌==◌, if◌then◌else◌, add32, update,
}

-- odp_ticketlock_t.
pub record Ticketlock : Type 0 where
  pub next_ticket : ℕ
  pub cur_ticket : ℕ

abbrev pub ticketlock_init : Ticketlock
ticketlock_init = record { next_ticket = 0; cur_ticket = 0 }

-- The first access of `odp_ticketlock_lock`: the ticket, and the lock.
abbrev pub take_ticket : Ticketlock → ℕ × Ticketlock
take_ticket l = (l.next_ticket, record l { next_ticket = add32 l.next_ticket 1 })

-- The test that ends its loop.
abbrev pub is_turn : ℕ → Ticketlock → Bool
is_turn ticket l = ticket == l.cur_ticket

-- The two accesses of `odp_ticketlock_unlock`: `cur` is what it loads.
abbrev pub store_turn : ℕ → Ticketlock → Ticketlock
store_turn cur l = record l { cur_ticket = add32 cur 1 }

abbrev pub ticketlock_unlock : Ticketlock → Ticketlock
ticketlock_unlock l = store_turn l.cur_ticket l

-- The compare and exchange of `odp_ticketlock_trylock`.
abbrev pub swap_ticket : ℕ → Ticketlock → Bool × Ticketlock
swap_ticket next l =
    if l.next_ticket == next then (true, record l { next_ticket = add32 next 1 }) else (false, l)

-- `odp_ticketlock_trylock`, where `l0`, `l1` and `l2` are the lock at its three accesses.
unfoldable pub ticketlock_trylock : Ticketlock → Ticketlock → Ticketlock → Bool × Ticketlock
ticketlock_trylock l0 l1 l2 =
    if is_turn l0.next_ticket l1 then swap_ticket l0.next_ticket l2 else (false, l2)

abbrev pub ticketlock_is_locked : Ticketlock → Bool
ticketlock_is_locked l = not (l.cur_ticket == l.next_ticket)

-- Where a thread is: outside; in the loop of `odp_ticketlock_lock` with its ticket; in `trylock`
-- after its first or second access, with the ticket that it loaded and the count of tickets at that
-- time; past the lock; or in `unlock` with the turn that it loaded.
pub data Phase : Type 0 where
  outside : Phase
  waiting : ℕ → Phase
  loaded : ℕ → ℕ → Phase
  free_seen : ℕ → ℕ → Phase
  inside : Phase
  releasing : ℕ → Phase

-- The lock and the threads.
pub record System : Type 0 where
  pub lock : Ticketlock
  pub phases : ℕ → Phase
  pub tickets : ℕ
  pub turns : ℕ

abbrev pub moved : System → ℕ → Phase → System
moved s x p = record s { phases = update s.phases x p }

-- The atomic access of one of `count` threads.
pub data Step (count : ℕ) (s : System) : System → Type 0 where
  take :
      (x : ℕ)
      → x < count
      → s.phases x ≡ outside
      → Step count s (record (moved s x (waiting (take_ticket s.lock).0)) {
        lock = (take_ticket s.lock).1;
        tickets = s.tickets + 1;
      })
  enter :
      (x t : ℕ) → s.phases x ≡ waiting t → is_turn t s.lock ≡ true → Step count s (moved s x inside)
  load_next :
      (x : ℕ)
      → x < count
      → s.phases x ≡ outside
      → Step count s (moved s x (loaded s.lock.next_ticket s.tickets))
  load_cur :
      (x n k : ℕ)
      → s.phases x ≡ loaded n k
      → is_turn n s.lock ≡ true
      → Step count s (moved s x (free_seen n k))
  busy :
      (x n k : ℕ)
      → s.phases x ≡ loaded n k
      → is_turn n s.lock ≡ false
      → Step count s (moved s x outside)
  win :
      (x n k : ℕ)
      → x < count
      → s.phases x ≡ free_seen n k
      → (swap_ticket n s.lock).0 ≡ true
      → Step count s
          (record (moved s x inside) { lock = (swap_ticket n s.lock).1; tickets = s.tickets + 1 })
  lose :
      (x n k : ℕ)
      → s.phases x ≡ free_seen n k
      → (swap_ticket n s.lock).0 ≡ false
      → Step count s (record (moved s x outside) { lock = (swap_ticket n s.lock).1 })
  load_turn : (x : ℕ) → s.phases x ≡ inside → Step count s (moved s x (releasing s.lock.cur_ticket))
  release :
      (x c : ℕ)
      → s.phases x ≡ releasing c
      → Step count s
          (record (moved s x outside) { lock = store_turn c s.lock; turns = s.turns + 1 })

abbrev pub start : System
start = record { lock = ticketlock_init; phases = λ x. outside; tickets = 0; turns = 0 }

pub data Reach (count : ℕ) : System → Type 0 where
  begin : Reach count start
  next : (s t : System) → Reach count s → Step count s t → Reach count t

-- A `trylock` that goes on does so before 2^32 tickets are taken since its first access.
abbrev pub IsTimelyStep : (count : ℕ) (s t : System) → Step count s t → Type 0
IsTimelyStep count s t (take x l e) = Unit
IsTimelyStep count s t (enter x n e y) = Unit
IsTimelyStep count s t (load_next x l e) = Unit
IsTimelyStep count s t (load_cur x n k e y) = s.tickets < k + u32_mod
IsTimelyStep count s t (busy x n k e y) = Unit
IsTimelyStep count s t (win x n k l e y) = s.tickets < k + u32_mod
IsTimelyStep count s t (lose x n k e y) = Unit
IsTimelyStep count s t (load_turn x e) = Unit
IsTimelyStep count s t (release x c e) = Unit

abbrev pub IsTimely : (count : ℕ) (s : System) → Reach count s → Type 0
IsTimely count s begin = Unit
IsTimely count s (next r t before st) = IsTimely count r before × IsTimelyStep count r t st
