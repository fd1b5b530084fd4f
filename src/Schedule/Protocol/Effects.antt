-- ===== src/Schedule/Protocol/Effects.antt =====
-- odp_queue.c: what the critical sections on a scheduled queue do to whether it is scheduled.
use odp.Prelude.{
  ℕ, ◌+◌, ◌≡◌, ◌≢◌, refl, ap, inl, inr, Bool, true, false, none, List, [], ◌∷◌, if◌then◌else◌,
  arith,
}
use odp.Queue.{Status, free, destroyed, ready, notsched, sched}
use odp.Queue.Heap.{Fifo, deq_multi, spec, got_multi, take_items, add_items, is_bad}
use odp.Schedule.Protocol.{
  Config, holding, returning, to_schedule, after_deq, max_deq, destroyed_status, destroy,
  finalized_status, finalize,
}
use odp.Schedule.Protocol.Tokens.{in_hand, is_pending, bit, is_live, IsTidy, IsSound}

-- An enqueue of any buffers.
pub add_items-live :
    (f : Fifo) (bs : List ℕ) (rc r q : ℕ)
    → IsTidy f
    → let o = add_items bs rc f in
      (bit (is_pending r (to_schedule r o.0)) + bit (is_live f.status) ≡ bit (is_live o.1.status))
      × (q ≢ r → is_pending q (to_schedule r o.0) ≡ false)
      × IsTidy o.1
      × (f.status ≡ destroyed → o.1.status ≡ destroyed)
add_items-live f bs rc r q ti = go f.status refl
  where
    go :
        (st : Status)
        → f.status ≡ st
        → let o = add_items bs rc f in
          (bit (is_pending r (to_schedule r o.0)) + bit (is_live f.status)
            ≡ bit (is_live o.1.status))
          × (q ≢ r → is_pending q (to_schedule r o.0) ≡ false)
          × IsTidy o.1
          × (f.status ≡ destroyed → o.1.status ≡ destroyed)
    go free e = ground arith
    go destroyed e = ground arith
    go ready e = ground arith
    go notsched e = ground arith
    go sched e = ground arith

-- The dequeue of a thread that has the queue's command event.
pub deq-live :
    (c : Config) (f : Fifo) (a : Bool) (r : ℕ)
    → IsTidy f
    → is_live f.status ≡ true
    → let o = spec (deq_multi max_deq) f in
      let h = after_deq a r o.0 in
      (bit (in_hand r h) ≡ bit (is_live o.1.status))
      × ((q : ℕ) → q ≢ r → in_hand q h ≡ false)
      × IsTidy o.1
      × (f.status ≡ destroyed → o.1.status ≡ destroyed)
      × ((qs : ℕ → Fifo) → (qs r).status ≡ o.1.status → IsSound c qs h)
unfolding spec
deq-live c f a r ti li = go f.status f.items refl refl
  where
    go :
        (st : Status) (items : List ℕ)
        → f.status ≡ st
        → f.items ≡ items
        → let o =
            (if is_bad f.status
              then (got_multi none, f)
              else take_items max_deq f.items f.status) in
          let h = after_deq a r o.0 in
          (bit (in_hand r h) ≡ bit (is_live o.1.status))
          × ((q : ℕ) → q ≢ r → in_hand q h ≡ false)
          × IsTidy o.1
          × (f.status ≡ destroyed → o.1.status ≡ destroyed)
          × ((qs : ℕ → Fifo) → (qs r).status ≡ o.1.status → IsSound c qs h)
    go free items e d = absurd (ground arith)
    go ready items e d = absurd (ground arith)
    go notsched items e d = absurd (ground arith)
    go destroyed items e d =
        rw e (ground arith, (λ q n. ground arith), rw e at ti, (λ h. refl), (λ qs h. h))
    go sched [] e d =
        rw (e, d)
          (refl, (λ q n. refl), inr (refl, λ h. cc), (λ h. absurd (ground arith)), (λ qs h. tt))
    go sched (b ∷ bs) e d =
        rw (e, d)
          (
            ground arith,
            (λ q n. ground arith),
            inl refl,
            (λ h. absurd (ground arith)),
            (λ qs h. kept qs a),
          )
      where
        kept : (qs : ℕ → Fifo) (x : Bool) → IsSound c qs (if x then holding r else returning r)
        kept qs true = tt
        kept qs false = tt

pub finalize-IsTidy : (f : Fifo) → f.status ≡ destroyed → IsTidy f → IsTidy (finalize f)
finalize-IsTidy f d (inl e) = absurd (ground arith)
finalize-IsTidy f d (inr (e, n)) = inr (e, λ h. ground (arith, ap finalized_status d))

pub destroy-live :
    (f : Fifo) (items : List ℕ)
    → f.items ≡ items
    → IsTidy f
    → (bit (is_live f.status) ≡ bit (is_live (destroy f).status))
      × IsTidy (destroy f)
      × (f.status ≡ destroyed → (destroy f).status ≡ destroyed)
destroy-live f (b ∷ bs) e ti = rw e (refl, rw e at ti, λ h. h)
destroy-live f [] e ti = rw e (go f.status refl)
  where
    go :
        (st : Status)
        → f.status ≡ st
        → (bit (is_live f.status) ≡ bit (is_live (destroyed_status f.status)))
          × IsTidy (record { items = []; status = destroyed_status f.status })
          × (f.status ≡ destroyed → destroyed_status f.status ≡ destroyed)
    go free d = ground arith
    go destroyed d = ground arith
    go ready d = absurd (ground arith)
    go notsched d = ground arith
    go sched d = ground arith
