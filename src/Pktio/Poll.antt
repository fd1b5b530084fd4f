-- ===== src/Pktio/Poll.antt =====
-- odp_packet_io.c: the queues after `pktin_poll`.
use odp.Prelude.{
  ℕ, ◌≡◌, ◌≢◌, refl, sym, ap, ◌∙◌, subst, Bool, true, false, Option, some, List, [], ◌∷◌, ◌++◌,
  append-nil, ◌==◌, if◌then◌else◌, update, sub32, length,
}
use odp.Queue.Heap.{Heap, enq_multi, run, Fifo}
use odp.Queue.Heap.Refine.{Represents, run-Represents}
use odp.Pktio.{Entry}
use odp.Pktio.Receive.{Commands, then_schedule, sort_packets, enqueue_kept, pktin_poll}
use odp.Pktio.Shares.{sent, kept}
use odp.Pktio.Feed.{fed, IsOpen, spec-enq_multi, feed, only_at, fed-only_at}
use odp.Pktio.Sort.{delivered, sort-IsSorted, not_pri}

-- The packets left are given to a queue all at once.
unfoldable pub fed_kept : Commands → ℕ → List ℕ → (ℕ → Fifo) → ℕ → Fifo
fed_kept c q [] qs = qs
fed_kept c q (b ∷ bs) qs = fed c qs q (b ∷ bs)

if-same : (b : Bool) (l : List ℕ) → (if b then l else l) ≡ l
if-same true l = refl
if-same false l = refl

only_at-nil : (q i : ℕ) → only_at q i [] ≡ []
only_at-nil q i = if-same (q == i) []

module _ (c : Commands) (plain : ℕ → Bool) where
  enqueue_kept-fed :
      (q : ℕ) (l : List ℕ) (s : Heap) (qs : ℕ → Fifo)
      → Represents s qs
      → IsOpen c plain l qs
      → plain q ≡ true
      → Represents (enqueue_kept c q (l, s)) (fed_kept c q l qs)
  unfolding enqueue_kept fed_kept
  enqueue_kept-fed q [] s qs w v y = w
  enqueue_kept-fed q (b ∷ bs) s qs w v y =
      let (o, r) = run-Represents s qs q (enq_multi b bs) w (v.distinct, v.new) in
      let good = spec-enq_multi b bs (qs q) (v.used q) in
      let s1 = (run (enq_multi b bs) q s).1 in
      let held =
        feed c plain (b ∷ bs) [] (b ∷ bs) s1 qs q (length (b ∷ bs)) v y
          (subst (λ x. Represents s1 (update qs q x.1)) good r) (λ i. tt) tt tt (λ x n. tt)
          (λ x n. n) in
      subst (λ x. Represents (then_schedule c q (x, s1)) (fed c qs q (b ∷ bs)))
        (sym (o ∙ ap (λ x. x.0) good)) held.0

  fed_kept-only_at :
      (q i : ℕ) (l : List ℕ) (qs : ℕ → Fifo)
      → i ≢ c.pri q
      → (fed_kept c q l qs i).items ≡ (qs i).items ++ only_at q i l
  unfolding fed_kept
  fed_kept-only_at q i [] qs n =
      sym (ap (λ x. (qs i).items ++ x) (only_at-nil q i) ∙ append-nil (qs i).items)
  fed_kept-only_at q i (b ∷ bs) qs n = fed-only_at c qs q i (b ∷ bs) n

module _ (c : Commands) (decide : ℕ → Option ℕ) (plain : ℕ → Bool)
    (to_plain : (p q : ℕ) → decide p ≡ some q → plain q ≡ true) (ps : List ℕ) (s : Heap)
    (qs : ℕ → Fifo) (w : Represents s qs) (v : IsOpen c plain ps qs) where
  -- The lists after the poll of an interface with the default queue `q`.
  abbrev polled : ℕ → ℕ → Fifo
  polled q = fed_kept c q (kept decide ps) (delivered c decide ps qs)

  sorted-polled :
      (q : ℕ)
      → plain q ≡ true
      → Represents (enqueue_kept c q (sort_packets c decide ps s)) (polled q)
  sorted-polled q y =
      let r = sort-IsSorted c decide plain to_plain [] ps s qs w v in
      let t = (sort_packets c decide ps s).1 in
      subst (λ l. Represents (enqueue_kept c q (l, t)) (polled q)) (sym r.left)
        (enqueue_kept-fed c plain q (kept decide ps) t (delivered c decide ps qs) r.held r.good y)

  polled_items :
      (q i : ℕ)
      → plain i ≡ true
      → (polled q i).items ≡ ((qs i).items ++ sent decide i ps) ++ only_at q i (kept decide ps)
  polled_items q i y =
      let r = sort-IsSorted c decide plain to_plain [] ps s qs w v in
      fed_kept-only_at c plain q i (kept decide ps) (delivered c decide ps qs)
        (not_pri c decide plain to_plain q i (kept decide ps) (delivered c decide ps qs) r.good y)
      ∙ ap (λ l. l ++ only_at q i (kept decide ps)) (r.items i y)

  -- If the heap represents lists in use, among them READY priority queues, queues have different
  -- command events, that of an idle queue is on no queue and none of the packets, the classes
  -- and the default queue are no priority queues, and an interface in use, with the classifier
  -- on, that has a default queue and is not stopped receives distinct packets that are on no
  -- queue, then pktin_poll returns 0 and leaves a heap that represents the lists after this:
  -- each packet with a class goes to the end of its queue, one by one, and then all others
  -- together to the end of the default queue, where a queue that is NOTSCHED becomes SCHED and
  -- its command event goes to the end of its priority queue. So each queue but the priority
  -- queues holds what it held, then the packets of its class in their order; behind these the
  -- default queue has the packets of no class: none is lost.
  pub pktin_poll-Represents :
      (e : Entry)
      → e.taken ≡ true
      → e.stopped ≡ false
      → e.cls_enabled ≡ true
      → (e.inq_default == 0) ≡ false
      → plain (sub32 e.inq_default 1) ≡ true
      → let q = sub32 e.inq_default 1 in
        let after = fed_kept c q (kept decide ps) (delivered c decide ps qs) in
        ((pktin_poll c decide (some ps) e s).0 ≡ true)
        × Represents (pktin_poll c decide (some ps) e s).1 after
        × ((i : ℕ)
            → plain i ≡ true
            → (after i).items ≡ ((qs i).items ++ sent decide i ps) ++ only_at q i (kept decide ps))
  unfolding pktin_poll
  pktin_poll-Represents e taken going cls inq y =
      rw (taken, going, cls, inq)
        (refl, sorted-polled (sub32 e.inq_default 1) y, polled_items (sub32 e.inq_default 1))
