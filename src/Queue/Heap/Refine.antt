-- ===== src/Queue/Heap/Refine.antt =====
-- odp_queue.c: the queues over one heap of headers behave as a family of lists.
use odp.Prelude.{
  ℕ, ◌≡◌, ◌≢◌, refl, sym, ap, ap₂, ◌∙◌, true, false, none, some, List, [], ◌∷◌, ◌++◌, arith, drop,
  take-nil, drop-nil, update, update_self, update-ne, ℕ_discrete, Bool-cases, inl, inr, Apart,
  NotIn, Apart-sym, Apart-append_left, Apart-drop_left, NotIn-append_left, NotIn-append_right,
}
use odp.Queue.{
  mark_sched, unmark_sched, QueueEntry, bad_status, queue_enq, queue_enq_multi, queue_deq,
  queue_deq_multi,
}
use odp.Queue.Chain.{Links, link_all, link_all-frame}
use odp.Queue.Fifo.{
  Contains, queue_enq-Contains, queue_enq_multi-Contains, queue_deq-Contains, queue_deq_empty,
  queue_deq_multi-Contains,
}
use odp.Queue.Heap.{
  Heap, Op, enq, enq_multi, deq, deq_multi, queued, got, got_multi, run, run_all, Fifo, is_bad,
  take_item, take_items, spec, spec_all, IsFresh, AllFresh,
}
use odp.Queue.Heap.Frame.{
  Contains-Apart, queue_enq-frame, queue_enq_multi-frame, queue_deq-frame, queue_deq_multi-frame,
}

-- Each chain holds its list, and no buffer is on two lists.
pub record Represents (s : Heap) (qs : ℕ → Fifo) : Type 0 where
  pub holds : (i : ℕ) → Contains s.links (s.entries i) (qs i).items
  pub status : (i : ℕ) → (s.entries i).status ≡ (qs i).status
  pub apart : (i j : ℕ) → i ≢ j → Apart (qs i).items (qs j).items

-- A call on one queue that changes no header of another one.
module _ (s : Heap) (qs : ℕ → Fifo) (v : Represents s qs) (i : ℕ) where
  install :
      (h' : Links) (q' : QueueEntry) (f' : Fifo) (touched : List ℕ)
      → Contains h' q' f'.items
      → q'.status ≡ f'.status
      → ((x : ℕ) → NotIn x touched → h' x ≡ s.links x)
      → ((j : ℕ) → j ≢ i → Apart touched (qs j).items)
      → ((j : ℕ) → j ≢ i → Apart f'.items (qs j).items)
      → Represents (record { links = h'; entries = update s.entries i q' }) (update qs i f')
  install h' q' f' touched c e same at ai = record {
    holds = λ j. elim (ℕ_discrete j i) [
      | yes p ↦ rw (p, update_self s.entries i q', update_self qs i f') c
      | no n ↦
          rw (update-ne s.entries i q' j n, update-ne qs i f' j n)
            (Contains-Apart s.links h' (s.entries j) (qs j).items touched
              (Apart-sym touched (qs j).items (at j n)) same (v.holds j))
    ];
    status = λ j. elim (ℕ_discrete j i) [
      | yes p ↦ rw (p, update_self s.entries i q', update_self qs i f') e
      | no n ↦ rw (update-ne s.entries i q' j n, update-ne qs i f' j n) (v.status j)
    ];
    apart = λ j k ne. elim (ℕ_discrete j i) [
      | yes p ↦
          rw (p, update_self qs i f', update-ne qs i f' k (λ r. ne (p ∙ sym r)))
            (ai k (λ r. ne (p ∙ sym r)))
      | no n ↦ elim (ℕ_discrete k i) [
        | yes r ↦
            rw (r, update_self qs i f', update-ne qs i f' j n)
              (Apart-sym f'.items (qs j).items (ai j n))
        | no m ↦ rw (update-ne qs i f' j n, update-ne qs i f' k m) (v.apart j k ne)
      ]
    ];
  }

-- What a call answers and leaves as status.
module _ (h : Links) (q : QueueEntry) where
  enq-status :
      (b : ℕ)
      → bad_status q ≡ false
      → ((queue_enq h q b).sched ≡ (mark_sched q.status).1)
        × ((queue_enq h q b).entry.status ≡ (mark_sched q.status).0)
  unfolding queue_enq
  enq-status b g = ground (arith, g)

  enq-bad :
      (b : ℕ)
      → bad_status q ≡ true
      → queue_enq h q b ≡ record { rc = none; sched = false; links = h; entry = q }
  unfolding queue_enq
  enq-bad b g = rw g refl

  enq_multi-bad :
      (b : ℕ) (bs : List ℕ)
      → bad_status q ≡ true
      → queue_enq_multi h q b bs
        ≡ record { rc = none; sched = false; links = (link_all h b bs).0; entry = q }
  unfolding queue_enq_multi
  enq_multi-bad b bs g = rw g refl

  deq_multi-bad :
      (n : ℕ)
      → bad_status q ≡ true
      → queue_deq_multi h q n ≡ record { result = none; links = h; entry = q }
  unfolding queue_deq_multi
  deq_multi-bad n g = rw g refl

  enq_multi-status :
      (b : ℕ) (bs : List ℕ)
      → bad_status q ≡ false
      → ((queue_enq_multi h q b bs).sched ≡ (mark_sched q.status).1)
        × ((queue_enq_multi h q b bs).entry.status ≡ (mark_sched q.status).0)
  unfolding queue_enq_multi
  enq_multi-status b bs g = ground (arith, g)

  deq-status : Contains h q [] → (queue_deq h q).entry.status ≡ unmark_sched q.status
  unfolding queue_deq
  deq-status c = rw (c.chain.0, queue_deq) refl

  deq_multi-status :
      (n : ℕ) (bs : List ℕ)
      → Contains h q bs
      → bad_status q ≡ false
      → (queue_deq_multi h q n).entry.status ≡ (take_items n bs q.status).1.status
  unfolding queue_deq_multi
  deq_multi-status n [] c g = rw (g, c.chain.0, queue_deq_multi) refl
  deq_multi-status n (b ∷ bs) c g = let (last, e, t, l) = c.chain in rw (g, e, queue_deq_multi) refl

-- The headers of its own list are those of no other.
module _ (s : Heap) (qs : ℕ → Fifo) (v : Represents s qs) (i : ℕ) where
  own-Apart : (j : ℕ) → j ≢ i → Apart (qs i).items (qs j).items
  own-Apart j n = v.apart i j (λ e. n (sym e))

  -- A call that is refused.
  refused :
      (h' : Links) (touched : List ℕ)
      → ((x : ℕ) → NotIn x touched → h' x ≡ s.links x)
      → ((j : ℕ) → Apart touched (qs j).items)
      → Represents
          (record { links = h'; entries = update s.entries i (s.entries i) })
          (update qs i (qs i))
  refused h' touched same a =
      install s qs v i h' (s.entries i) (qs i) touched
        (Contains-Apart s.links h' (s.entries i) (qs i).items touched
          (Apart-sym touched (qs i).items (a i)) same (v.holds i))
        (v.status i) same (λ j n. a j) own-Apart

  enq-Represents :
      (b : ℕ)
      → IsFresh (enq b) qs
      → ((run (enq b) i s).0 ≡ (spec (enq b) (qs i)).0)
        × Represents (run (enq b) i s).1 (update qs i (spec (enq b) (qs i)).1)
  unfolding run spec
  enq-Represents b f = elim (Bool-cases (is_bad (qs i).status)) [
    | inl bad ↦
        rw (bad, enq-bad s.links (s.entries i) b (ap is_bad (v.status i) ∙ bad))
          (refl, refused s.links [] (λ x n. refl) (λ j. tt))
    | inr good ↦
        let st = v.status i in
        let g : bad_status (s.entries i) ≡ false = ap is_bad st ∙ good in
        let (rc, c, _) =
          queue_enq-Contains s.links (s.entries i) (qs i).items b (v.holds i) (f i) g in
        let (sc, se) = enq-status s.links (s.entries i) b g in
        let others : (j : ℕ) → j ≢ i → Apart ((qs i).items ++ b ∷ []) (qs j).items =
          λ j n. Apart-append_left (qs i).items (b ∷ []) (qs j).items (own-Apart j n) (f j, tt) in
        rw good (
          ap₂ queued rc (sc ∙ ap (λ x. (mark_sched x).1) st),
          install s qs v i _ _ _ ((qs i).items ++ b ∷ []) c (se ∙ ap (λ x. (mark_sched x).0) st)
              (λ x n.
                queue_enq-frame s.links (s.entries i) (qs i).items b x (v.holds i)
                  (NotIn-append_left x (qs i).items (b ∷ []) n)
                  (NotIn-append_right x (qs i).items (b ∷ []) n).0)
              others others,
        )
  ]

  enq_multi-Represents :
      (b : ℕ) (bs : List ℕ)
      → IsFresh (enq_multi b bs) qs
      → ((run (enq_multi b bs) i s).0 ≡ (spec (enq_multi b bs) (qs i)).0)
        × Represents (run (enq_multi b bs) i s).1 (update qs i (spec (enq_multi b bs) (qs i)).1)
  unfolding run spec
  enq_multi-Represents b bs f = elim (Bool-cases (is_bad (qs i).status)) [
    | inl bad ↦
        rw (bad, enq_multi-bad s.links (s.entries i) b bs (ap is_bad (v.status i) ∙ bad))
          (
            refl,
            refused (link_all s.links b bs).0 (b ∷ bs) (λ x n. link_all-frame s.links b bs x n) f.1,
          )
    | inr good ↦
        let st = v.status i in
        let g : bad_status (s.entries i) ≡ false = ap is_bad st ∙ good in
        let (rc, c, _) =
          queue_enq_multi-Contains s.links (s.entries i) (qs i).items b bs (v.holds i) f.0
            (Apart-sym (b ∷ bs) (qs i).items (f.1 i)) g in
        let (sc, se) = enq_multi-status s.links (s.entries i) b bs g in
        let others : (j : ℕ) → j ≢ i → Apart ((qs i).items ++ b ∷ bs) (qs j).items =
          λ j n. Apart-append_left (qs i).items (b ∷ bs) (qs j).items (own-Apart j n) (f.1 j) in
        rw good (
          ap₂ queued rc (sc ∙ ap (λ x. (mark_sched x).1) st),
          install s qs v i _ _ _ ((qs i).items ++ b ∷ bs) c (se ∙ ap (λ x. (mark_sched x).0) st)
              (λ x n.
                queue_enq_multi-frame s.links (s.entries i) (qs i).items b bs x (v.holds i)
                  (NotIn-append_left x (qs i).items (b ∷ bs) n)
                  (NotIn-append_right x (qs i).items (b ∷ bs) n))
              others others,
        )
  ]

  -- A dequeue, which leaves a part of the list.
  dequeued-Represents :
      (h' : Links) (q' : QueueEntry) (f' : Fifo) (n : ℕ)
      → Contains h' q' f'.items
      → q'.status ≡ f'.status
      → ((x : ℕ) → NotIn x (qs i).items → h' x ≡ s.links x)
      → f'.items ≡ drop n (qs i).items
      → Represents (record { links = h'; entries = update s.entries i q' }) (update qs i f')
  dequeued-Represents h' q' f' n c e same d =
      install s qs v i h' q' f' (qs i).items c e same own-Apart
        (λ j m. rw d (Apart-drop_left n (qs i).items (qs j).items (own-Apart j m)))

  deq_by :
      (items : List ℕ)
      → (qs i).items ≡ items
      → ((run deq i s).0 ≡ (take_item items (qs i).status).0)
        × Represents (run deq i s).1 (update qs i (take_item items (qs i).status).1)
  unfolding run
  deq_by [] e =
      let c : Contains s.links (s.entries i) [] = rw e at (v.holds i) in
      let (r, c', _) = queue_deq_empty s.links (s.entries i) c in
      (
        ap got r,
        dequeued-Represents _ _ _ 0 c'
            (deq-status s.links (s.entries i) c ∙ ap unmark_sched (v.status i))
            (λ x n. queue_deq-frame s.links (s.entries i) (qs i).items x (v.holds i) n) (sym e),
      )
  deq_by (b ∷ bs) e =
      let c : Contains s.links (s.entries i) (b ∷ bs) = rw e at (v.holds i) in
      let (r, c', st) = queue_deq-Contains s.links (s.entries i) b bs c in
      (
        ap got r,
        dequeued-Represents _ _ _ 1 c' (st ∙ v.status i)
            (λ x n. queue_deq-frame s.links (s.entries i) (qs i).items x (v.holds i) n)
            (ap (λ l. drop 1 l) (sym e)),
      )

  deq_multi_by :
      (n : ℕ) (items : List ℕ)
      → (qs i).items ≡ items
      → is_bad (qs i).status ≡ false
      → ((run (deq_multi n) i s).0 ≡ (take_items n items (qs i).status).0)
        × Represents (run (deq_multi n) i s).1 (update qs i (take_items n items (qs i).status).1)
  unfolding run
  deq_multi_by n [] e good =
      let c : Contains s.links (s.entries i) [] = rw e at (v.holds i) in
      let g : bad_status (s.entries i) ≡ false = ap is_bad (v.status i) ∙ good in
      let (r, c') = queue_deq_multi-Contains s.links (s.entries i) [] n c g in
      (
        ap got_multi (r ∙ ap some (take-nil {0} {A = ℕ} n)),
        dequeued-Represents _ _ _ 0 (rw (drop-nil {0} {A = ℕ} n) at c')
            (deq_multi-status s.links (s.entries i) n [] c g ∙ ap unmark_sched (v.status i))
            (λ x m. queue_deq_multi-frame s.links (s.entries i) (qs i).items n x (v.holds i) m)
            (sym e),
      )
  deq_multi_by n (b ∷ bs) e good =
      let c : Contains s.links (s.entries i) (b ∷ bs) = rw e at (v.holds i) in
      let g : bad_status (s.entries i) ≡ false = ap is_bad (v.status i) ∙ good in
      let (r, c') = queue_deq_multi-Contains s.links (s.entries i) (b ∷ bs) n c g in
      (
        ap got_multi r,
        dequeued-Represents _ _ _ n c'
            (deq_multi-status s.links (s.entries i) n (b ∷ bs) c g ∙ v.status i)
            (λ x m. queue_deq_multi-frame s.links (s.entries i) (qs i).items n x (v.holds i) m)
            (ap (λ l. drop n l) (sym e)),
      )

-- A call on one of the queues has the outcome of the call on its list, and represents it.
pub run-Represents :
    (s : Heap) (qs : ℕ → Fifo) (i : ℕ) (op : Op)
    → Represents s qs
    → IsFresh op qs
    → ((run op i s).0 ≡ (spec op (qs i)).0)
      × Represents (run op i s).1 (update qs i (spec op (qs i)).1)
unfolding run spec
run-Represents s qs i (enq b) v f = enq-Represents s qs v i b f
run-Represents s qs i (enq_multi b bs) v f = enq_multi-Represents s qs v i b bs f
run-Represents s qs i deq v f = deq_by s qs v i (qs i).items refl
run-Represents s qs i (deq_multi n) v f = elim (Bool-cases (is_bad (qs i).status)) [
  | inl bad ↦
      rw (bad, deq_multi-bad s.links (s.entries i) n (ap is_bad (v.status i) ∙ bad))
        (refl, refused s qs v i s.links [] (λ x m. refl) (λ j. tt))
  | inr good ↦ rw good (deq_multi_by s qs v i n (qs i).items refl good)
]

-- If a heap of queue entries and buffer headers represents a family of lists with statuses, and
-- each enqueue of a sequence of calls has distinct buffers that are then on no queue, the calls
-- queue_enq, queue_enq_multi, queue_deq and queue_deq_multi on any of the queues return what
-- they return on the lists, and the heap that they leave represents the lists that they leave:
-- the queues never interfere through the headers that they share.
pub run_all-Represents :
    (ops : List (ℕ × Op)) (s : Heap) (qs : ℕ → Fifo)
    → Represents s qs
    → AllFresh ops qs
    → ((run_all ops s).0 ≡ (spec_all ops qs).0) × Represents (run_all ops s).1 (spec_all ops qs).1
unfolding run_all spec_all
run_all-Represents [] s qs v f = (refl, v)
run_all-Represents ((i, op) ∷ ops) s qs v f =
    let (o, v') = run-Represents s qs i op v f.0 in
    let (os, w) = run_all-Represents ops (run op i s).1 (update qs i (spec op (qs i)).1) v' f.1 in
    (ap₂ (λ a b. a ∷ b) o os, w)
