-- ===== src/Schedule/Loop/Order.antt =====
-- odp_schedule.c: the buffers of one dequeue are given out in their order, over any number of calls.
use odp.Prelude.{
  ℕ, zero, suc, ◌+◌, ◌-◌, ◌<◌, ◌≡◌, ◌≢◌, refl, sym, ap, ◌∙◌, Bool, true, false, not, Option, none,
  some, List, [], ◌∷◌, ◌==◌, arith, take, drop, get_elem?, length,
}
use odp.Queue.Heap.{Heap}
use odp.Schedule.Loop.{
  Local, World, Tried, found, aborted, continue, sched_local_init, copy_events, schedule,
  schedule_by, stored, deliver, hand_over, found_with, odp_queue_enq, queue_is_atomic,
}

-- The `n` places of an array from place `i`.
abbrev pub places : (ℕ → ℕ) → ℕ → ℕ → List ℕ
places f i zero = []
places f i (suc n) = f i ∷ places f (i + 1) n

-- The buffers that were dequeued and not yet given out.
abbrev pub left : Local → List ℕ
left l = places l.buf_hdr l.index l.num

suc-ne_zero : (n : ℕ) → (suc n == 0) ≡ false
suc-ne_zero n = ground arith

suc-pred : (n : ℕ) → suc n - 1 ≡ n
suc-pred n = omega arith

copy_events-left :
    (max n : ℕ) (l : Local)
    → let l' = record l { num = n } in
      ((copy_events max l').0 ≡ take max (left l'))
      × (left (copy_events max l').1 ≡ drop max (left l'))
unfolding copy_events
copy_events-left zero n l = (refl, refl)
copy_events-left (suc max) zero l = (refl, refl)
copy_events-left (suc max) (suc n) l =
    let (a, b) = copy_events-left max n (record l { index = l.index + 1 }) in
    rw (suc-ne_zero n, suc-pred n) (ap (λ xs. l.buf_hdr l.index ∷ xs) a, b)

-- What a dequeue has put into the array.
stored-places :
    (bs : List ℕ) (f : ℕ → ℕ) (i : ℕ)
    → ((j : ℕ) → j < length bs → some (f (i + j)) ≡ get_elem? bs j)
    → places f i (length bs) ≡ bs
stored-places [] f i h = refl
stored-places (b ∷ bs) f i h =
    let first : f i ≡ b = ground (arith, h 0 (omega arith)) in
    rw first (
      ap (λ xs. b ∷ xs)
        (stored-places bs f (i + 1) (λ j l. rw (shift j) (h (suc j) (omega arith)))))
  where
    shift : (j : ℕ) → i + 1 + j ≡ i + suc j
    shift j = omega arith

get_elem?-inside :
    (bs : List ℕ) (j : ℕ) → j < length bs → (b : ℕ) × ◌≡◌ {A = Option ℕ} (get_elem? bs j) (some b)
get_elem?-inside [] j l = absurd (omega arith)
get_elem?-inside (b ∷ bs) zero l = (b, refl)
get_elem?-inside (b ∷ bs) (suc j) l = get_elem?-inside bs j (omega arith)

stored-get :
    (bs : List ℕ) (old : ℕ → ℕ) (j : ℕ) → j < length bs → some (stored bs old j) ≡ get_elem? bs j
stored-get bs old j l = let (b, e) = get_elem?-inside bs j l in go (get_elem? bs j) b e
  where
    go : (o : Option ℕ) (b : ℕ) → o ≡ some b → some (elim o [ none ↦ old j | some c ↦ c ]) ≡ o
    go none b e = cc
    go (some c) b e = refl

left-stored : (bs : List ℕ) (old : ℕ → ℕ) → places (stored bs old) 0 (length bs) ≡ bs
left-stored bs old =
    stored-places bs (stored bs old) 0 (λ j l. rw (none_before j) (stored-get bs old j l))
  where
    none_before : (j : ℕ) → 0 + j ≡ j
    none_before j = omega arith

-- The parts of what was found.
abbrev found_events : Tried → List ℕ
found_events (found evs q w) = evs
found_events aborted = []
found_events (continue w) = []

abbrev found_queue : Tried → ℕ
found_queue (found evs q w) = q
found_queue aborted = 0
found_queue (continue w) = 0

abbrev found_local : Tried → Local
found_local (found evs q w) = w.loc
found_local aborted = sched_local_init
found_local (continue w) = w.loc

-- What `found` tells of the call that led to it.
hand_over-found :
    (atomic : Bool) (pri_q ev : ℕ) (evs : List ℕ) (handle : ℕ) (w : World) (evs' : List ℕ) (q' : ℕ)
    (w' : World)
    → hand_over atomic pri_q ev evs handle w ≡ found evs' q' w'
    → (evs' ≡ evs)
      × (q' ≡ handle)
      × (left w'.loc ≡ left w.loc)
      × (atomic ≡ true → (w'.loc.pri_queue ≡ pri_q) × (w'.loc.cmd_ev ≡ ev))
unfolding hand_over
hand_over-found true pri_q ev evs handle w evs' q' w' e =
    let l = ap found_local e in
    (
      sym (ap found_events e),
      sym (ap found_queue e),
      sym (ap left l),
      (λ _. (sym (ap (λ x. x.pri_queue) l), sym (ap (λ x. x.cmd_ev) l))),
    )
hand_over-found false pri_q ev evs handle w evs' q' w' e = go (odp_queue_enq pri_q ev w.heap) e
  where
    go :
        (o : Option Heap)
        → found_with evs handle w o ≡ found evs' q' w'
        → (evs' ≡ evs)
          × (q' ≡ handle)
          × (left w'.loc ≡ left w.loc)
          × (false ≡ true → (w'.loc.pri_queue ≡ pri_q) × (w'.loc.cmd_ev ≡ ev))
    go none e = absurd (is_found e)
      where
        is_found : aborted ≢ found evs' q' w'
        is_found k = cc
    go (some h) e = (
      sym (ap found_events e),
      sym (ap found_queue e),
      sym (ap (λ r. left (found_local r)) e),
      (λ k. cc),
    )

pub schedule_left_lem :
    (poll : ℕ → Heap → Bool × Heap) (max_num max_deq thr n : ℕ) (w : World)
    → w.loc.num ≡ suc n
    → (l : Local) × (schedule poll max_num max_deq thr w
        ≡ found (take max_num (left w.loc)) (w.heap.entries w.loc.qe).handle (record w { loc = l }))
      × (left l ≡ drop max_num (left w.loc))
unfolding schedule schedule_by
schedule_left_lem poll max_num max_deq thr n w e =
    let (a, b) = copy_events-left max_num w.loc.num w.loc in
    let c : not (w.loc.num == 0) ≡ true = ground (arith, e) in
    (
      (copy_events max_num w.loc).1,
      rw c (
          ap
            (λ evs.
              found evs (w.heap.entries w.loc.qe).handle
                (record w { loc = (copy_events max_num w.loc).1 }))
            a),
      b,
    )

-- When schedule has taken buffers from a queue and returns, it returns the first max_num of them
-- in their order and that queue, keeps the others in their order for the next calls, and holds
-- the command event of an atomic queue with its priority queue.
pub deliver_lem :
    (max_num pri_q ev q : ℕ) (bs : List ℕ) (w : World) (evs : List ℕ) (handle : ℕ) (w' : World)
    → deliver max_num pri_q ev q bs w ≡ found evs handle w'
    → (evs ≡ take max_num bs)
      × (handle ≡ (w.heap.entries q).handle)
      × (left w'.loc ≡ drop max_num bs)
      × (queue_is_atomic (w.heap.entries q) ≡ true
          → (w'.loc.pri_queue ≡ pri_q) × (w'.loc.cmd_ev ≡ ev))
unfolding deliver
deliver_lem max_num pri_q ev q bs w evs handle w' e =
    let loc = record w.loc {
      num = length bs;
      index = 0;
      qe = q;
      buf_hdr = stored bs w.loc.buf_hdr;
    } in
    let (a, b) = copy_events-left max_num (length bs) loc in
    let (c, d, f, g) =
      hand_over-found (queue_is_atomic (w.heap.entries q)) pri_q ev _ _ _ evs handle w' e in
    let all = left-stored bs w.loc.buf_hdr in
    (c ∙ a ∙ ap (λ xs. take max_num xs) all, d, f ∙ b ∙ ap (λ xs. drop max_num xs) all, g)
