-- ===== src/Queue/Heap/Frame.antt =====
-- odp_queue.c: which headers a call on one queue changes.
use odp.Prelude.{
  ℕ, zero, suc, ◌≡◌, ◌≢◌, refl, ◌∙◌, Option, none, some, List, [], ◌∷◌, arith, Distinct, NotIn,
  Apart, update-ne,
}
use odp.Queue.{QueueEntry, queue_enq, queue_enq_multi, queue_deq, queue_deq_multi}
use odp.Queue.Chain.{
  Links, set_next, store_next, link_all, link_all-frame, unlink_run, Linked, Linked-last_ne, Holds,
  Holds-next, tail_of,
}
use odp.Queue.Fifo.{Contains}

-- A chain apart from the headers that changed.
Linked-Apart :
    (h h' : Links) (b : ℕ) (cs : List ℕ) (last : ℕ) (as' : List ℕ)
    → Apart (b ∷ cs) as'
    → ((x : ℕ) → NotIn x as' → h' x ≡ h x)
    → Linked h b cs last
    → Linked h' b cs last
Linked-Apart h h' b [] last as' a same l = (l.0, same b a.0 ∙ l.1)
Linked-Apart h h' b (c ∷ cs) last as' a same l =
    (same b a.0 ∙ l.0, Linked-Apart h h' c cs last as' a.1 same l.1)

pub Contains-Apart :
    (h h' : Links) (q : QueueEntry) (bs as' : List ℕ)
    → Apart bs as'
    → ((x : ℕ) → NotIn x as' → h' x ≡ h x)
    → Contains h q bs
    → Contains h' q bs
Contains-Apart h h' q [] as' a same c = record { chain = c.chain; distinct = tt }
Contains-Apart h h' q (b ∷ bs) as' a same c =
    let (last, e, t, l) = c.chain in
    record { chain = (last, e, t, Linked-Apart h h' b bs last as' a same l); distinct = c.distinct }

-- The store through the tail is a store to a buffer on the list.
store_next-frame :
    (h h' : Links) (q : QueueEntry) (bs : List ℕ) (buf x : ℕ)
    → Holds h q.head q.tail bs
    → NotIn x bs
    → store_next h' q.tail (some buf) x ≡ h' x
store_next-frame h h' q [] buf x k n = rw k.1 refl
store_next-frame h h' q (b ∷ bs) buf x (last, e, t, l) n =
    rw t (update-ne h' last (some buf) x (Linked-last_ne h b bs last x n l))

pub queue_enq-frame :
    (h : Links) (q : QueueEntry) (bs : List ℕ) (buf x : ℕ)
    → Contains h q bs
    → NotIn x bs
    → x ≢ buf
    → (queue_enq h q buf).links x ≡ h x
unfolding queue_enq
queue_enq-frame h q bs buf x c n ne = ground (arith, store_next-frame h h q bs buf x c.chain n)

pub queue_enq_multi-frame :
    (h : Links) (q : QueueEntry) (bs : List ℕ) (buf : ℕ) (bufs : List ℕ) (x : ℕ)
    → Contains h q bs
    → NotIn x bs
    → NotIn x (buf ∷ bufs)
    → (queue_enq_multi h q buf bufs).links x ≡ h x
unfolding queue_enq_multi
queue_enq_multi-frame h q bs buf bufs x c n m = ground (
  arith,
  store_next-frame h (link_all h buf bufs).0 q bs buf x c.chain n,
  link_all-frame h buf bufs x m,
)

pub queue_deq-frame :
    (h : Links) (q : QueueEntry) (bs : List ℕ) (x : ℕ)
    → Contains h q bs
    → NotIn x bs
    → (queue_deq h q).links x ≡ h x
unfolding queue_deq
queue_deq-frame h q [] x c n = rw (c.chain.0, queue_deq) refl
queue_deq-frame h q (b ∷ bs) x c n =
    let (last, e, t, l) = c.chain in rw (e, queue_deq) (update-ne h b none x n.0)

unlink_run-frame :
    (n : ℕ) (h : Links) (head tail : Option ℕ) (bs : List ℕ) (x : ℕ)
    → Distinct bs
    → Holds h head (tail_of head tail) bs
    → NotIn x bs
    → (unlink_run n h head).2 x ≡ h x
unfolding unlink_run
unlink_run-frame zero h head tail bs x d k n = refl
unlink_run-frame (suc i) h head tail [] x d k n = rw (k.0, unlink_run) refl
unlink_run-frame (suc i) h head tail (b ∷ bs) x d (last, e, t, l) n =
    let t' : tail ≡ some last = rw e at t in
    let rest =
      unlink_run-frame i (set_next h b none) (h b) tail bs x d.1
        (Holds-next h tail b bs last d t' l) n.1 in
    rw (e, unlink_run) (rest ∙ update-ne h b none x n.0)

pub queue_deq_multi-frame :
    (h : Links) (q : QueueEntry) (bs : List ℕ) (num x : ℕ)
    → Contains h q bs
    → NotIn x bs
    → (queue_deq_multi h q num).links x ≡ h x
unfolding queue_deq_multi
queue_deq_multi-frame h q [] num x c n = ground (arith, c.chain.0)
queue_deq_multi-frame h q (b ∷ bs) num x c n =
    let (last, e, t, l) = c.chain in
    let run = unlink_run-frame num h (some b) q.tail (b ∷ bs) x c.distinct (last, refl, t, l) n in
    ground (arith, e, run)
