-- ===== src/Queue/Chain.antt =====
-- The field `next` of the buffer headers of platform/linux-generic/include/odp_buffer_internal.h,
-- and the loops of odp_queue.c over it.
use odp.Prelude.{
  ℕ, zero, suc, ◌+◌, ◌≡◌, ◌≢◌, refl, ap, Option, none, some, List, [], ◌∷◌, ◌++◌, arith, ◌==◌,
  if◌then◌else◌, NotIn, Distinct, length, take, drop,
}

abbrev pub Links : Type 0
Links = ℕ → Option ℕ

-- `b->next = p`
abbrev pub set_next : Links → ℕ → Option ℕ → Links
set_next h b p = λ x. if x == b then p else h x

-- `tail->next = p`, through a pointer; the entry's invariant excludes a null one.
abbrev pub store_next : Links → Option ℕ → Option ℕ → Links
store_next h none p = h
store_next h (some b) p = set_next h b p

-- `if (queue->s.head == NULL) queue->s.tail = NULL`
abbrev pub tail_of : Option ℕ → Option ℕ → Option ℕ
tail_of none t = none
tail_of (some _) t = t

-- `for (i = 0; i < num - 1; i++) buf_hdr[i]->next = buf_hdr[i + 1]` and the store of the last
-- one's null: the headers, the last buffer, and `num`.
unfoldable pub link_all : Links → ℕ → List ℕ → Links × ℕ × ℕ
link_all h b [] = (set_next h b none, b, 1)
link_all h b (c ∷ cs) =
    let (h1, last, num) = link_all (set_next h b (some c)) c cs in (h1, last, num + 1)

-- `for (i = 0; i < num && hdr; i++)` of `queue_deq_multi`.
unfoldable pub unlink_run : ℕ → Links → Option ℕ → List ℕ × Option ℕ × Links
unlink_run zero h hdr = ([], hdr, h)
unlink_run (suc n) h none = ([], none, h)
unlink_run (suc n) h (some b) =
    let (bs, hdr, h1) = unlink_run n (set_next h b none) (h b) in (b ∷ bs, hdr, h1)

-- From buffer `b` the chain runs through the list, and ends at `last`.
abbrev pub Linked : Links → ℕ → List ℕ → ℕ → Type 0
Linked h b [] last = (last ≡ b) × (h b ≡ none)
Linked h b (c ∷ cs) last = (h b ≡ some c) × Linked h c cs last

-- A change outside the chain leaves it.
pub Linked-frame :
    (h : Links) (b : ℕ) (cs : List ℕ) (last x : ℕ) (p : Option ℕ)
    → NotIn x (b ∷ cs)
    → Linked h b cs last
    → Linked (set_next h x p) b cs last
Linked-frame h b [] last x p n l = ground arith
Linked-frame h b (c ∷ cs) last x p n l = (ground arith, Linked-frame h c cs last x p n.1 l.1)

-- The last buffer is one of the chain.
pub Linked-last_ne :
    (h : Links) (b : ℕ) (cs : List ℕ) (last x : ℕ)
    → NotIn x (b ∷ cs)
    → Linked h b cs last
    → x ≢ last
Linked-last_ne h b [] last x n l = omega arith
Linked-last_ne h b (c ∷ cs) last x n l = Linked-last_ne h c cs last x n.1 l.1

-- Linking a further buffer to the last one extends the chain by it.
pub Linked-snoc :
    (h : Links) (b : ℕ) (cs : List ℕ) (last x : ℕ)
    → Distinct (b ∷ cs)
    → NotIn x (b ∷ cs)
    → Linked h b cs last
    → Linked (set_next (set_next h last (some x)) x none) b (cs ++ x ∷ []) x
Linked-snoc h b [] last x d n l = ground arith
Linked-snoc h b (c ∷ cs) last x d n l =
    (ground (arith, Linked-last_ne h c cs last b d.0 l.1), Linked-snoc h c cs last x d.1 n.1 l.1)

-- Linking a second chain to the last buffer of the first joins them.
pub Linked-join :
    (h : Links) (b : ℕ) (cs : List ℕ) (last c : ℕ) (ds : List ℕ) (end : ℕ)
    → Distinct (b ∷ cs)
    → NotIn last (c ∷ ds)
    → Linked h b cs last
    → Linked h c ds end
    → Linked (set_next h last (some c)) b (cs ++ c ∷ ds) end
Linked-join h b [] last c ds end d n l m = (ground arith, Linked-frame h c ds end last (some c) n m)
Linked-join h b (x ∷ cs) last c ds end d n l m = (
  ground (arith, Linked-last_ne h x cs last b d.0 l.1),
  Linked-join h x cs last c ds end d.1 n l.1 m,
)

-- A header that is not among the new buffers keeps its `next`.
pub link_all-frame :
    (h : Links) (b : ℕ) (cs : List ℕ) (x : ℕ) → NotIn x (b ∷ cs) → (link_all h b cs).0 x ≡ h x
unfolding link_all
link_all-frame h b [] x n = ground arith
link_all-frame h b (c ∷ cs) x n = ground (arith, link_all-frame (set_next h b (some c)) c cs x n.1)

-- Chaining distinct buffers makes the chain of them, in their order.
pub link_all-Linked :
    (h : Links) (b : ℕ) (cs : List ℕ)
    → Distinct (b ∷ cs)
    → Linked (link_all h b cs).0 b cs (link_all h b cs).1 × ((link_all h b cs).2 ≡ length (b ∷ cs))
unfolding link_all
link_all-Linked h b [] d = ground arith
link_all-Linked h b (c ∷ cs) d =
    let ih = link_all-Linked (set_next h b (some c)) c cs d.1 in
    ((ground (arith, link_all-frame (set_next h b (some c)) c cs b d.0), ih.0), omega (arith, ih.1))

-- The rest of a chain, from a pointer: what `head` and `tail` of an entry say of its list.
abbrev pub Holds : Links → Option ℕ → Option ℕ → List ℕ → Type 0
Holds h head tail [] = (head ≡ none) × (tail ≡ none)
Holds h head tail (b ∷ bs) = (last : ℕ) × (head ≡ some b) × (tail ≡ some last) × Linked h b bs last

-- What is left when the first buffer is taken off.
pub Holds-next :
    (h : Links) (tail : Option ℕ) (b : ℕ) (bs : List ℕ) (last : ℕ)
    → Distinct (b ∷ bs)
    → tail ≡ some last
    → Linked h b bs last
    → Holds (set_next h b none) (h b) (tail_of (h b) tail) bs
Holds-next h tail b [] last d t l = ground arith
Holds-next h tail b (c ∷ cs) last d t l =
    (last, l.0, ground arith, Linked-frame h c cs last b none d.0 l.1)

-- The loop of `queue_deq_multi` takes the first `n` buffers and leaves the chain of the others.
pub unlink_run-Holds :
    (n : ℕ) (h : Links) (head tail : Option ℕ) (bs : List ℕ)
    → Distinct bs
    → Holds h head (tail_of head tail) bs
    → ((unlink_run n h head).0 ≡ take n bs)
      × Holds
          (unlink_run n h head).2
          (unlink_run n h head).1
          (tail_of (unlink_run n h head).1 tail)
          (drop n bs)
unfolding unlink_run
unlink_run-Holds zero h head tail bs d k = (refl, k)
unlink_run-Holds (suc n) h head tail [] d k = rw (k.0, unlink_run) (refl, (refl, refl))
unlink_run-Holds (suc n) h head tail (b ∷ bs) d (last, e, t, l) =
    let t' : tail ≡ some last = rw e at t in
    let ih =
      unlink_run-Holds n (set_next h b none) (h b) tail bs d.1
        (Holds-next h tail b bs last d t' l) in
    rw (e, unlink_run) (ap (λ xs. b ∷ xs) ih.0, ih.1)
