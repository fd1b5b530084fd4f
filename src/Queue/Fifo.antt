-- ===== src/Queue/Fifo.antt =====
-- odp_queue.c: an entry with its headers behaves as the list of its buffers, oldest first.
use odp.Prelude.{
  ℕ, ◌≡◌, ◌≢◌, refl, sym, ap, subst, ◌∙◌, ◌↔◌, true, false, none, some, List, [], ◌∷◌, ◌++◌, arith,
  NotIn, Distinct, Apart, Distinct-append, Apart-single, length, take, drop, take-nil, drop-nil,
  Distinct-drop,
}
use odp.Queue.{
  Status, free, destroyed, ready, notsched, sched, QueueEntry, bad_status, mark_sched, unmark_sched,
  queue_enq, queue_enq_multi, queue_deq, queue_deq_multi,
}
use odp.Queue.Chain.{
  Links, set_next, store_next, link_all, Linked, Holds, Linked-snoc, Linked-join, link_all-Linked,
  link_all-frame, unlink_run-Holds, Holds-next,
}

-- The entry's chain is the list, and no buffer is on it twice.
pub record Contains (h : Links) (q : QueueEntry) (bs : List ℕ) : Type 0 where
  pub chain : Holds h q.head q.tail bs
  pub distinct : Distinct bs

mark_sched_iff : (s : Status) → ((mark_sched s).1 ≡ true) ↔ (s ≡ notsched)
mark_sched_iff free = ((λ e. cc), (λ e. cc))
mark_sched_iff destroyed = ((λ e. cc), (λ e. cc))
mark_sched_iff ready = ((λ e. cc), (λ e. cc))
mark_sched_iff notsched = ((λ e. refl), (λ e. refl))
mark_sched_iff sched = ((λ e. cc), (λ e. cc))

-- If a queue's chain holds the list of buffers, the new buffer is not on it, and the queue is
-- READY, NOTSCHED or SCHED, queue_enq returns 0, the chain then holds the list with the new
-- buffer at its end, and the queue is to be scheduled exactly when it was NOTSCHED.
pub queue_enq-Contains :
    (h : Links) (q : QueueEntry) (bs : List ℕ) (buf : ℕ)
    → Contains h q bs
    → NotIn buf bs
    → bad_status q ≡ false
    → let r = queue_enq h q buf in
      (r.rc ≡ some 0)
      × Contains r.links r.entry (bs ++ buf ∷ [])
      × ((r.sched ≡ true) ↔ (q.status ≡ notsched))
unfolding queue_enq
queue_enq-Contains h q bs buf c n s = rw s (
  refl,
  record {
    chain = enq-Holds bs c.chain c.distinct n;
    distinct = Distinct-append bs (buf ∷ []) c.distinct (tt, tt) (Apart-single bs buf n);
  },
  mark_sched_iff q.status,
)
  where
    enq-Holds :
        (bs : List ℕ)
        → Holds h q.head q.tail bs
        → Distinct bs
        → NotIn buf bs
        → Holds
            (elim q.head [
              | none ↦ set_next h buf none
              | some _ ↦ set_next (store_next h q.tail (some buf)) buf none
            ])
            (elim q.head [ none ↦ some buf | some b ↦ some b ])
            (some buf)
            (bs ++ buf ∷ [])
    enq-Holds [] k d n = (buf, ground arith, refl, ground arith)
    enq-Holds (b ∷ bs) (last, e, t, l) d n =
        (buf, rw e refl, refl, rw (e, t) (Linked-snoc h b bs last buf d n l))

-- The last buffer of a chain that is apart from a list is not on it.
last-Apart :
    (h : Links) (b : ℕ) (bs : List ℕ) (last : ℕ) (cs : List ℕ)
    → Apart (b ∷ bs) cs
    → Linked h b bs last
    → NotIn last cs
last-Apart h b [] last cs a l = subst (λ x. NotIn x cs) (sym l.0) a.0
last-Apart h b (c ∷ bs) last cs a l = last-Apart h c bs last cs a.1 l.1

-- Chaining new buffers leaves a chain that is apart from them.
link_all-Linked_frame :
    (h : Links) (c : ℕ) (cs : List ℕ) (b : ℕ) (bs : List ℕ) (last : ℕ)
    → Apart (b ∷ bs) (c ∷ cs)
    → Linked h b bs last
    → Linked (link_all h c cs).0 b bs last
link_all-Linked_frame h c cs b [] last a l = (l.0, link_all-frame h c cs b a.0 ∙ l.1)
link_all-Linked_frame h c cs b (x ∷ bs) last a l =
    (link_all-frame h c cs b a.0 ∙ l.0, link_all-Linked_frame h c cs x bs last a.1 l.1)

-- If a queue's chain holds the list of buffers, the new buffers are distinct and not on it, and
-- the queue is READY, NOTSCHED or SCHED, queue_enq_multi returns their number, the chain then
-- holds the list with the new buffers at its end in their order, and the queue is to be
-- scheduled exactly when it was NOTSCHED.
pub queue_enq_multi-Contains :
    (h : Links) (q : QueueEntry) (bs : List ℕ) (buf : ℕ) (bufs : List ℕ)
    → Contains h q bs
    → Distinct (buf ∷ bufs)
    → Apart bs (buf ∷ bufs)
    → bad_status q ≡ false
    → let r = queue_enq_multi h q buf bufs in
      (r.rc ≡ some (length (buf ∷ bufs)))
      × Contains r.links r.entry (bs ++ buf ∷ bufs)
      × ((r.sched ≡ true) ↔ (q.status ≡ notsched))
unfolding queue_enq_multi
queue_enq_multi-Contains h q bs buf bufs c d a s = rw s (
  ap some (link_all-Linked h buf bufs d).1,
  record {
    chain = multi-Holds bs c.chain c.distinct a;
    distinct = Distinct-append bs (buf ∷ bufs) c.distinct d a;
  },
  mark_sched_iff q.status,
)
  where
    h1 : Links
    h1 = (link_all h buf bufs).0

    last1 : ℕ
    last1 = (link_all h buf bufs).1

    multi-Holds :
        (bs : List ℕ)
        → Holds h q.head q.tail bs
        → Distinct bs
        → Apart bs (buf ∷ bufs)
        → Holds
            (elim q.head [ none ↦ h1 | some _ ↦ store_next h1 q.tail (some buf) ])
            (elim q.head [ none ↦ some buf | some b ↦ some b ])
            (some last1)
            (bs ++ buf ∷ bufs)
    multi-Holds [] k d' n = (last1, rw k.0 refl, refl, rw k.0 (link_all-Linked h buf bufs d).0)
    multi-Holds (b ∷ bs) (last, e, t, l) d' n = (
      last1,
      rw e refl,
      refl,
      rw (e, t)
          (Linked-join h1 b bs last buf bufs last1 d' (last-Apart h b bs last (buf ∷ bufs) n l)
            (link_all-Linked_frame h buf bufs b bs last n l) (link_all-Linked h buf bufs d).0),
    )

-- If a queue's chain holds a list of buffers with a first one, queue_deq returns that one, the
-- chain then holds the others, and the status stays.
pub queue_deq-Contains :
    (h : Links) (q : QueueEntry) (b : ℕ) (bs : List ℕ)
    → Contains h q (b ∷ bs)
    → let r = queue_deq h q in
      (r.result ≡ some b) × Contains r.links r.entry bs × (r.entry.status ≡ q.status)
unfolding queue_deq
queue_deq-Contains h q b bs c =
    let (last, e, t, l) = c.chain in
    rw (e, queue_deq)
      (
        refl,
        record { chain = Holds-next h q.tail b bs last c.distinct t l; distinct = c.distinct.1 },
        refl,
      )

unmark_sched-ne : (s : Status) → unmark_sched s ≢ sched
unmark_sched-ne free e = cc
unmark_sched-ne destroyed e = cc
unmark_sched-ne ready e = cc
unmark_sched-ne notsched e = cc
unmark_sched-ne sched e = cc

-- If a queue's chain is empty, queue_deq returns NULL, the chain stays empty, and the status is
-- not SCHED afterwards.
pub queue_deq_empty :
    (h : Links) (q : QueueEntry)
    → Contains h q []
    → let r = queue_deq h q in
      (r.result ≡ none) × Contains r.links r.entry [] × (r.entry.status ≢ sched)
unfolding queue_deq
queue_deq_empty h q c =
    rw (c.chain.0, queue_deq)
      (refl, record { chain = c.chain; distinct = tt }, unmark_sched-ne q.status)

-- If a queue's chain holds the list of buffers and the queue is READY, NOTSCHED or SCHED,
-- queue_deq_multi takes as many of the oldest buffers as were asked for and are there, in their
-- order, and the chain then holds the others.
pub queue_deq_multi-Contains :
    (h : Links) (q : QueueEntry) (bs : List ℕ) (num : ℕ)
    → Contains h q bs
    → bad_status q ≡ false
    → let r = queue_deq_multi h q num in
      (r.result ≡ some (take num bs)) × Contains r.links r.entry (drop num bs)
unfolding queue_deq_multi
queue_deq_multi-Contains h q [] num c s =
    rw (s, c.chain.0, queue_deq_multi, take-nil {0} {A = ℕ} num, drop-nil {0} {A = ℕ} num)
      (refl, record { chain = c.chain; distinct = tt })
queue_deq_multi-Contains h q (b ∷ bs) num c s =
    let (last, e, t, l) = c.chain in
    let run = unlink_run-Holds num h (some b) q.tail (b ∷ bs) c.distinct (last, refl, t, l) in
    rw (s, e, queue_deq_multi)
      (ap some run.0, record { chain = run.1; distinct = Distinct-drop num (b ∷ bs) c.distinct })
