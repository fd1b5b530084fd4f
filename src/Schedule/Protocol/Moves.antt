-- ===== src/Schedule/Protocol/Moves.antt =====
-- odp_schedule.c: a critical section on a priority queue, and one on a scheduled queue.
use odp.Prelude.{
  ℕ, ◌+◌, ◌<◌, ◌≡◌, ◌≢◌, refl, sym, ap, ◌∙◌, true, false, none, some, List, [], ◌∷◌, ◌++◌, ◌==◌,
  arith, update, update_self, update-ne, ℕ_discrete,
}
use odp.Queue.{Status, destroyed, ready, unmark_sched}
use odp.Queue.Heap.{Fifo, enq, deq, spec, got, take_item}
use odp.Schedule.Protocol.{
  Config, IsConfig, Hand, empty, taken, holding, returning, finalizing, polling, Thread, System,
  moved, put_back,
}
use odp.Schedule.Protocol.Tokens.{
  occurrences, occurrences-snoc, bit, is_live, IsTidy, IsSound, IsValid, share, moved-IsValid,
}

-- Two queues of which one is scheduled.
pub differ : (c : Config) (q p : ℕ) → c.is_sched q ≡ true → c.is_sched p ≡ false → q ≢ p
differ c q p a b e = absurd (ground (arith, ap c.is_sched e))

-- A thread with nothing to prove of its hand after a change of a queue that was not destroyed, or
-- that stays so.
pub IsSound-update :
    (c : Config) (qs : ℕ → Fifo) (k : ℕ) (f : Fifo) (h : Hand)
    → ((qs k).status ≡ destroyed → f.status ≡ destroyed)
    → IsSound c qs h
    → IsSound c (update qs k f) h
IsSound-update c qs k f empty d i = tt
IsSound-update c qs k f (taken r) d i = tt
IsSound-update c qs k f (holding r) d i = tt
IsSound-update c qs k f (returning r) d i = tt
IsSound-update c qs k f (finalizing r) d i = elim (ℕ_discrete r k) [
  | yes e ↦ rw (e, update_self qs k f) (d (sym (ap (λ z. (qs z).status) e) ∙ i))
  | no n ↦ rw (update-ne qs k f r n) i
]
IsSound-update c qs k f (polling p e) d i = i

take_item-some :
    (items : List ℕ) (st : Status) (e : ℕ)
    → (take_item items st).0 ≡ got (some e)
    → (items ≡ e ∷ (take_item items st).1.items) × ((take_item items st).1.status ≡ st)
take_item-some [] st e g = absurd (ground arith)
take_item-some (b ∷ bs) st e g = (ground arith, refl)

take_item-none :
    (items : List ℕ) (st : Status)
    → (take_item items st).0 ≡ got none
    → (items ≡ [])
      × ((take_item items st).1.items ≡ [])
      × ((take_item items st).1.status ≡ unmark_sched st)
take_item-none [] st g = (refl, refl, refl)
take_item-none (b ∷ bs) st g = absurd (ground arith)

module _ (c : Config) (w : IsConfig c) (count : ℕ) (s : System) (v : IsValid c count s) where
  pub pri_moved :
      (k : ℕ) (f : Fifo) (x : ℕ) (t : Thread)
      → x < count
      → c.is_sched k ≡ false
      → ((q : ℕ)
          → c.is_sched q ≡ true
          → k ≡ c.pri q
          → occurrences (c.command q) f.items + share q t
            ≡ occurrences (c.command q) (s.queues k).items + share q (s.threads x))
      → ((q : ℕ) → c.is_sched q ≡ true → k ≢ c.pri q → share q t ≡ share q (s.threads x))
      → ((q : ℕ) → k ≢ c.pri q → occurrences (c.command q) f.items ≡ 0)
      → f.status ≡ ready
      → IsSound c s.queues t.hand
      → IsValid c count (moved s k f x t)
  pri_moved k f x t l i here elsewhere ho re so =
      moved-IsValid c count s v k f x t l
        (λ q j. rw (update-ne s.queues k f q (differ c q k j i)) (elim (ℕ_discrete (c.pri q) k) [
          | yes e ↦ rw (e, update_self s.queues k f) (omega (arith, here q j (sym e)))
          | no n ↦
              rw (update-ne s.queues k f (c.pri q) n)
                (omega (arith, elsewhere q j (λ e. n (sym e))))
        ]))
        (λ q _ n. ho q n) (λ j. absurd (differ c k k j i refl)) (λ _. re) (keep t.hand so)
        (λ y ly _. keep (s.threads y).hand (v.sound y ly))
    where
      keep : (h : Hand) → IsSound c s.queues h → IsSound c (update s.queues k f) h
      keep h = IsSound-update c s.queues k f h (λ d. absurd (ground (arith, v.pri_ready k i)))

  pub sched_moved :
      (k : ℕ) (f : Fifo) (x : ℕ) (t : Thread)
      → x < count
      → c.is_sched k ≡ true
      → share k t + bit (is_live (s.queues k).status)
        ≡ share k (s.threads x) + bit (is_live f.status)
      → ((q : ℕ) → q ≢ k → share q t ≡ share q (s.threads x))
      → IsTidy f
      → IsSound c (update s.queues k f) t.hand
      → ((y : ℕ) → y < count → y ≢ x → IsSound c (update s.queues k f) (s.threads y).hand)
      → IsValid c count (moved s k f x t)
  sched_moved k f x t l i here elsewhere ti so others =
      moved-IsValid c count s v k f x t l
        (λ q j.
          rw
            (update-ne s.queues k f (c.pri q) (λ e. differ c k (c.pri q) i (w.pri_plain q) (sym e)))
            (elim (ℕ_discrete q k) [
              | yes e ↦ rw (e, update_self s.queues k f) (omega (arith, here))
              | no n ↦ rw (update-ne s.queues k f q n) (omega (arith, elsewhere q n))
            ]))
        (λ q j. absurd (differ c k k i j refl)) (λ _. ti) (λ j. absurd (differ c k k i j refl)) so
        others

  ready_enq :
      (f : Fifo) (e : ℕ)
      → f.status ≡ ready
      → (spec (enq e) f).1 ≡ record { items = f.items ++ e ∷ []; status = ready }
  unfolding spec
  ready_enq f e r = rw r refl

  -- An event goes back to a priority queue. It is the command event that the thread had for a
  -- queue, or none.
  put_event :
      (p e : ℕ) (x : ℕ) (t : Thread)
      → x < count
      → c.is_sched p ≡ false
      → ((q : ℕ) → p ≡ c.pri q → share q (s.threads x) ≡ share q t + bit (c.command q == e))
      → ((q : ℕ) → p ≢ c.pri q → (share q t ≡ share q (s.threads x)) × (c.command q ≢ e))
      → IsSound c s.queues t.hand
      → IsValid c count (put_back s p e x t)
  unfolding put_back occurrences
  put_event p e x t l i here elsewhere so = rw (ready_enq (s.queues p) e (v.pri_ready p i)) (
      pri_moved p (record { items = (s.queues p).items ++ e ∷ []; status = ready }) x t l i
        (λ q _ a.
          rw (occurrences-snoc (c.command q) e (s.queues p).items) (omega (arith, here q a)))
        (λ q _ n. (elsewhere q n).0)
        (λ q n.
          rw (occurrences-snoc (c.command q) e (s.queues p).items)
            (ground (arith, v.home q p i n, (elsewhere q n).1)))
        refl so)

  -- A queue is known by its command event.
  pub same_command : (r q : ℕ) → (r == q) ≡ (c.command q == c.command r)
  same_command r q = elim (ℕ_discrete r q) [
    | yes e ↦ rw e (ground arith)
    | no n ↦
        let other : c.command q ≢ c.command r = λ e. n (sym (w.one_command q r e)) in
        ground (arith, other)
  ]

  -- The command event of `r` goes back to its priority queue.
  pub put_command :
      (r x : ℕ) (t : Thread)
      → x < count
      → ((q : ℕ) → share q (s.threads x) ≡ share q t + bit (r == q))
      → IsSound c s.queues t.hand
      → IsValid c count (put_back s (c.pri r) (c.command r) x t)
  put_command r x t l d so =
      put_event (c.pri r) (c.command r) x t l (w.pri_plain r)
        (λ q _. d q ∙ ap (λ b. share q t + bit b) (same_command r q))
        (λ q n. (unmoved q (λ e. n (ap c.pri e)), λ e. n (sym (ap c.pri (w.one_command q r e))))) so
    where
      unmoved : (q : ℕ) → r ≢ q → share q t ≡ share q (s.threads x)
      unmoved q n = let no_bit : bit (r == q) ≡ 0 = ground (arith, n) in omega (arith, d q, no_bit)

  -- An event that is no command goes back.
  pub put_pktio :
      (p e x : ℕ) (t : Thread)
      → x < count
      → c.is_sched p ≡ false
      → ((q : ℕ) → c.command q ≢ e)
      → ((q : ℕ) → share q (s.threads x) ≡ share q t)
      → IsSound c s.queues t.hand
      → IsValid c count (put_back s p e x t)
  put_pktio p e x t l i other d so =
      put_event p e x t l i
        (λ q _.
          let no_bit : bit (c.command q == e) ≡ 0 = ground (arith, other q) in
          omega (arith, d q, no_bit))
        (λ q _. (sym (d q), other q)) so

  -- An event is taken from a priority queue; what the thread then has of the queues' commands is
  -- `gain`.
  pub take_event :
      (p e x : ℕ) (t : Thread)
      → x < count
      → c.is_sched p ≡ false
      → (spec deq (s.queues p)).0 ≡ got (some e)
      → ((q : ℕ) → share q t ≡ share q (s.threads x) + bit (c.command q == e))
      → IsSound c s.queues t.hand
      → IsValid c count (moved s p (spec deq (s.queues p)).1 x t)
  unfolding spec occurrences
  take_event p e x t l i g d so =
      let f = (spec deq (s.queues p)).1 in
      let (e1, e2) = take_item-some (s.queues p).items (s.queues p).status e g in
      pri_moved p f x t l i (λ q _ _. omega (arith, d q, count_of q f e1))
        (λ q _ n. omega (arith, d q, count_of q f e1, v.home q p i n))
        (λ q n. omega (arith, count_of q f e1, v.home q p i n)) (e2 ∙ v.pri_ready p i) so
    where
      count_of :
          (q : ℕ) (f : Fifo)
          → (s.queues p).items ≡ e ∷ f.items
          → occurrences (c.command q) (s.queues p).items
            ≡ occurrences (c.command q) f.items + bit (c.command q == e)
      count_of q f h = ap (occurrences (c.command q)) h

  -- Nothing is taken from an empty one.
  pub take_none :
      (p x : ℕ)
      → x < count
      → c.is_sched p ≡ false
      → (spec deq (s.queues p)).0 ≡ got none
      → IsValid c count (moved s p (spec deq (s.queues p)).1 x (s.threads x))
  unfolding spec occurrences
  take_none p x l i g =
      let (e1, e2, e3) = take_item-none (s.queues p).items (s.queues p).status g in
      pri_moved p (spec deq (s.queues p)).1 x (s.threads x) l i
        (λ q _ _. ap (λ xs. occurrences (c.command q) xs + share q (s.threads x)) (e2 ∙ sym e1))
        (λ q _ n. refl) (λ q n. rw e2 refl) (e3 ∙ ap unmark_sched (v.pri_ready p i)) (v.sound x l)
