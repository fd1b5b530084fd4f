-- ===== src/Schedule/Protocol/Steps.antt =====
-- odp_schedule.c: the critical sections on a scheduled queue keep one command event.
use odp.Prelude.{
  ℕ, ◌+◌, ◌<◌, ◌≡◌, ◌≢◌, refl, ap, ◌∙◌, true, Option, none, List, [], ◌∷◌, length, ◌==◌, arith,
  update, update_self, update-ne, ℕ_discrete,
}
use odp.Prelude.Weight.{weight_pos, weight_two}
use odp.Queue.{destroyed}
use odp.Queue.Heap.{Fifo, enq, enq_multi, deq_multi, spec, add_items}
use odp.Schedule.Protocol.{
  Config, IsConfig, Hand, empty, taken, holding, returning, finalizing, polling, Thread, System,
  moved, to_schedule, after_deq, max_deq, destroy, finalized_status, finalize,
}
use odp.Schedule.Protocol.Tokens.{in_hand, is_pending, bit, is_live, IsSound, IsValid, share}
use odp.Schedule.Protocol.Moves.{IsSound-update, sched_moved}
use odp.Schedule.Protocol.Effects.{add_items-live, deq-live, finalize-IsTidy, destroy-live}

-- A thread that has a queue's command event has the only one.
module _ (c : Config) (count : ℕ) (s : System) (v : IsValid c count s) where
  pub hand-live :
      (x r : ℕ)
      → x < count
      → c.is_sched r ≡ true
      → in_hand r (s.threads x).hand ≡ true
      → is_live (s.queues r).status ≡ true
  hand-live x r l i e =
      let one = weight_pos (λ y. in_hand r (s.threads y).hand) x count l e in
      ground (arith, one, v.one r i)

  pub only_hand :
      (x y r : ℕ)
      → x < count
      → y < count
      → c.is_sched r ≡ true
      → in_hand r (s.threads x).hand ≡ true
      → in_hand r (s.threads y).hand ≡ true
      → x ≡ y
  only_hand x y r lx ly i ex ey = elim (ℕ_discrete x y) [
    | yes e ↦ e
    | no n ↦
        let two = weight_two (λ z. in_hand r (s.threads z).hand) x y count lx ly n ex ey in
        absurd (ground (arith, two, v.one r i))
  ]

-- A thread's share when its hand changes, or its pending queue.
pub share-hand :
    (t : Thread) (h h' : Hand) (q : ℕ)
    → t.hand ≡ h
    → share q (record t { hand = h' }) + bit (in_hand q h) ≡ share q t + bit (in_hand q h')
share-hand t h h' q e = omega (arith, ap (λ x. bit (in_hand q x)) e)

pub share-pending :
    (t : Thread) (p p' : Option ℕ) (q : ℕ)
    → t.pending ≡ p
    → share q (record t { pending = p' }) + bit (is_pending q p) ≡ share q t + bit (is_pending q p')
share-pending t p p' q e = omega (arith, ap (λ x. bit (is_pending q x)) e)

pub self : (q : ℕ) → (q == q) ≡ true
self q = ground arith

pub no_bit : (q r : ℕ) → q ≢ r → bit (r == q) ≡ 0
no_bit q r n = ground arith

is_bit : (r : ℕ) → bit (r == r) ≡ 1
is_bit r = ground arith

-- A hand without the queue's command event.
IsSound-else :
    (c : Config) (qs : ℕ → Fifo) (k : ℕ) (f : Fifo) (h : Hand)
    → in_hand k h ≢ true
    → IsSound c qs h
    → IsSound c (update qs k f) h
IsSound-else c qs k f empty n i = tt
IsSound-else c qs k f (taken r) n i = tt
IsSound-else c qs k f (holding r) n i = tt
IsSound-else c qs k f (returning r) n i = tt
IsSound-else c qs k f (finalizing r) n i =
    rw (update-ne qs k f r (λ e. n (ap (λ z. z == k) e ∙ self k))) i
IsSound-else c qs k f (polling p e) n i = i

module _ (c : Config) (w : IsConfig c) (count : ℕ) (s : System) (v : IsValid c count s) (x r : ℕ)
    (l : x < count) where
  add_items-IsValid :
      (bs : List ℕ) (rc : ℕ)
      → c.is_sched r ≡ true
      → (s.threads x).pending ≡ none
      → IsValid c count (
          moved s r
            (add_items bs rc (s.queues r)).1
            x
            (record (s.threads x) { pending = to_schedule r (add_items bs rc (s.queues r)).0 }))
  add_items-IsValid bs rc i e =
      let (live, _, ti, de) = add_items-live (s.queues r) bs rc r r (v.tidy r i) in
      let p' = to_schedule r (add_items bs rc (s.queues r)).0 in
      sched_moved c w count s v r _ x _ l i
        (omega (arith, share-pending (s.threads x) none p' r e, live))
        (λ q n. omega (
          arith,
          share-pending (s.threads x) none p' q e,
          ap (λ z. bit z) ((add_items-live (s.queues r) bs rc r q (v.tidy r i)).1 n),
        ))
        ti (IsSound-update c s.queues r _ (s.threads x).hand de (v.sound x l))
        (λ y ly _. IsSound-update c s.queues r _ (s.threads y).hand de (v.sound y ly))

  pub enqueued-IsValid :
      (b : ℕ)
      → c.is_sched r ≡ true
      → (s.threads x).pending ≡ none
      → IsValid c count (
          moved s r
            (spec (enq b) (s.queues r)).1
            x
            (record (s.threads x) { pending = to_schedule r (spec (enq b) (s.queues r)).0 }))
  unfolding spec
  enqueued-IsValid b i e = add_items-IsValid (b ∷ []) 0 i e

  pub enqueued_multi-IsValid :
      (b : ℕ) (bs : List ℕ)
      → c.is_sched r ≡ true
      → (s.threads x).pending ≡ none
      → IsValid c count (
          moved s r (spec (enq_multi b bs) (s.queues r)).1 x (record (s.threads x) {
            pending = to_schedule r (spec (enq_multi b bs) (s.queues r)).0;
          }))
  unfolding spec
  enqueued_multi-IsValid b bs i e = add_items-IsValid (b ∷ bs) (length (b ∷ bs)) i e

  pub dequeued-IsValid :
      c.is_sched r ≡ true
      → (s.threads x).hand ≡ taken r
      → IsValid c count (
          moved s r (spec (deq_multi max_deq) (s.queues r)).1 x (record (s.threads x) {
            hand = after_deq (c.is_atomic r) r (spec (deq_multi max_deq) (s.queues r)).0;
          }))
  dequeued-IsValid i e =
      let have = ap (in_hand r) e ∙ self r in
      let li = hand-live c count s v x r l i have in
      let (live, other, ti, de, so) = deq-live c (s.queues r) (c.is_atomic r) r (v.tidy r i) li in
      let h' = after_deq (c.is_atomic r) r (spec (deq_multi max_deq) (s.queues r)).0 in
      sched_moved c w count s v r _ x _ l i
        (omega
          (arith, share-hand (s.threads x) (taken r) h' r e, live, ap (λ z. bit z) li, is_bit r))
        (λ q n. omega (
          arith,
          share-hand (s.threads x) (taken r) h' q e,
          ap (λ z. bit z) (other q n),
          no_bit q r n,
        ))
        ti
        (so (update s.queues r (spec (deq_multi max_deq) (s.queues r)).1)
          (ap (λ f. f.status) (update_self s.queues r _)))
        (λ y ly _. IsSound-update c s.queues r _ (s.threads y).hand de (v.sound y ly))

  pub finalized-IsValid :
      c.is_sched r ≡ true
      → (s.threads x).hand ≡ finalizing r
      → IsValid c count
          (moved s r (finalize (s.queues r)) x (record (s.threads x) { hand = empty }))
  finalized-IsValid i e =
      let d : (s.queues r).status ≡ destroyed = rw e at (v.sound x l) in
      sched_moved c w count s v r (finalize (s.queues r)) x _ l i
        (omega (
          arith,
          share-hand (s.threads x) (finalizing r) empty r e,
          is_bit r,
          ap (λ z. bit (is_live z)) d,
          ap (λ z. bit (is_live (finalized_status z))) d,
        ))
        (λ q n. omega (arith, share-hand (s.threads x) (finalizing r) empty q e, no_bit q r n))
        (finalize-IsTidy (s.queues r) d (v.tidy r i)) tt
        (λ y ly n.
          IsSound-else c s.queues r (finalize (s.queues r)) (s.threads y).hand
            (λ m. n (only_hand c count s v y x r ly l i m (ap (in_hand r) e ∙ self r)))
            (v.sound y ly))

  pub destroyed_by-IsValid :
      c.is_sched r ≡ true → IsValid c count (moved s r (destroy (s.queues r)) x (s.threads x))
  destroyed_by-IsValid i =
      let (live, ti, de) = destroy-live (s.queues r) (s.queues r).items refl (v.tidy r i) in
      sched_moved c w count s v r (destroy (s.queues r)) x (s.threads x) l i (omega (arith, live))
        (λ q n. refl) ti
        (IsSound-update c s.queues r (destroy (s.queues r)) (s.threads x).hand de (v.sound x l))
        (λ y ly _.
          IsSound-update c s.queues r (destroy (s.queues r)) (s.threads y).hand de (v.sound y ly))
