-- ===== src/Pktio/Feed.antt =====
-- odp_packet_io.c: an enqueue with the scheduling of the queue behind it.
use odp.Prelude.{
  ℕ, ◌≡◌, ◌≢◌, refl, sym, ap, ◌∙◌, subst, Bool, true, false, none, some, List, [], ◌∷◌, ◌++◌, arith,
  ◌==◌, if◌then◌else◌, Apart, NotIn, Distinct, NotIn-append, Apart-sym, Apart-append_left, update,
  update_self, update-ne, ℕ_discrete, eq_self, ne-eq_false, append-nil, inl, inr, length,
  Bool-cases, Apart-single,
}
use odp.Queue.{Status, ready, notsched, mark_sched}
use odp.Queue.Heap.{Heap, enq, enq_multi, queued, Fifo, is_bad, spec, add_items}
use odp.Queue.Heap.Refine.{Represents, run-Represents}
use odp.Pktio.Receive.{Commands, schedule_queue, then_schedule}

-- Queues that are in use, and packets that are on none of them.
abbrev pub AreUsed : (ℕ → Fifo) → Type 0
AreUsed qs = (i : ℕ) → is_bad (qs i).status ≡ false

abbrev pub AreNew : List ℕ → (ℕ → Fifo) → Type 0
AreNew ps qs = (i : ℕ) → Apart ps (qs i).items

used_marked : (st : Status) → is_bad st ≡ false → is_bad (mark_sched st).0 ≡ false
used_marked Status.free h = h
used_marked Status.destroyed h = h
used_marked Status.ready h = refl
used_marked Status.notsched h = refl
used_marked Status.sched h = refl

-- The queue behind an enqueue of these buffers.
abbrev pub added : List ℕ → Fifo → Fifo
added bs f = record { items = f.items ++ bs; status = (mark_sched f.status).0 }

add_items-used :
    (bs : List ℕ) (rc : ℕ) (f : Fifo)
    → is_bad f.status ≡ false
    → add_items bs rc f ≡ (queued (some rc) (mark_sched f.status).1, added bs f)
add_items-used bs rc f g =
    ap
      (λ b.
        if b
        then (queued none false, f)
        else (queued (some rc) (mark_sched f.status).1, added bs f))
      g

pub spec-enq :
    (p : ℕ) (f : Fifo)
    → is_bad f.status ≡ false
    → spec (enq p) f ≡ (queued (some 0) (mark_sched f.status).1, added (p ∷ []) f)
unfolding spec
spec-enq p f g = add_items-used (p ∷ []) 0 f g

pub spec-enq_multi :
    (p : ℕ) (ps : List ℕ) (f : Fifo)
    → is_bad f.status ≡ false
    → spec (enq_multi p ps) f
      ≡ (queued (some (length (p ∷ ps))) (mark_sched f.status).1, added (p ∷ ps) f)
unfolding spec
spec-enq_multi p ps f g = add_items-used (p ∷ ps) (length (p ∷ ps)) f g

module _ (qs : ℕ → Fifo) (q : ℕ) (bs : List ℕ) where
  used_added : AreUsed qs → AreUsed (update qs q (added bs (qs q)))
  used_added u i = elim (ℕ_discrete i q) [
    | yes e ↦
        subst (λ j. is_bad (update qs q (added bs (qs q)) j).status ≡ false) (sym e)
          (ap (λ f. is_bad f.status) (update_self qs q (added bs (qs q)))
            ∙ used_marked (qs q).status (u q))
    | no n ↦ ap (λ f. is_bad f.status) (update-ne qs q (added bs (qs q)) i n) ∙ u i
  ]

  pub items_self : (update qs q (added bs (qs q)) q).items ≡ (qs q).items ++ bs
  items_self = ap (λ f. f.items) (update_self qs q (added bs (qs q)))

  pub items-ne : (i : ℕ) → i ≢ q → (update qs q (added bs (qs q)) i).items ≡ (qs i).items
  items-ne i n = ap (λ f. f.items) (update-ne qs q (added bs (qs q)) i n)

abbrev pub put : (ℕ → Fifo) → ℕ → List ℕ → ℕ → Fifo
put qs k bs = update qs k (added bs (qs k))

-- A queue is given these buffers. If it was NOTSCHED, it is SCHED then, and its command event goes
-- to the end of its priority queue.
abbrev pub fed : Commands → (ℕ → Fifo) → ℕ → List ℕ → ℕ → Fifo
fed c qs q bs =
    if (mark_sched (qs q).status).1
    then put (put qs q bs) (c.pri q) (c.command q ∷ [])
    else put qs q bs

-- Queues that are in use. The plain ones are no priority queues, which are READY; queues have different
-- command events, and that of a plain queue that is NOTSCHED is on no queue and none of the packets,
-- which are distinct and on no queue.
pub record IsOpen (c : Commands) (plain : ℕ → Bool) (ps : List ℕ) (qs : ℕ → Fifo) : Type 0 where
  pub used : AreUsed qs
  pub new : AreNew ps qs
  pub distinct : Distinct ps
  pub pri_plain : (q : ℕ) → plain (c.pri q) ≡ false
  pub pri_ready : (q : ℕ) → (qs (c.pri q)).status ≡ ready
  pub one_command : (q r : ℕ) → c.command q ≡ c.command r → q ≡ r
  pub command_new :
      (q i : ℕ) → plain q ≡ true → (qs q).status ≡ notsched → NotIn (c.command q) (qs i).items
  pub command_other : (q : ℕ) → plain q ≡ true → (qs q).status ≡ notsched → NotIn (c.command q) ps

marked-notsched : (st : Status) → (mark_sched st).0 ≢ notsched
marked-notsched Status.free e = absurd (ground arith)
marked-notsched Status.destroyed e = absurd (ground arith)
marked-notsched Status.ready e = absurd (ground arith)
marked-notsched Status.notsched e = absurd (ground arith)
marked-notsched Status.sched e = absurd (ground arith)

marked-flag : (st : Status) → (mark_sched st).1 ≡ true → st ≡ notsched
marked-flag Status.free e = absurd (ground arith)
marked-flag Status.destroyed e = absurd (ground arith)
marked-flag Status.ready e = absurd (ground arith)
marked-flag Status.notsched e = refl
marked-flag Status.sched e = absurd (ground arith)

module _ (qs : ℕ → Fifo) (k : ℕ) (bs : List ℕ) where
  -- What holds of the items before and with the buffers holds after.
  put_items :
      (P : List ℕ → Type 0) (i : ℕ)
      → P (qs i).items
      → P ((qs i).items ++ bs)
      → P (put qs k bs i).items
  put_items P i a b = elim (ℕ_discrete i k) [
    | yes e ↦
        subst (λ j. P (put qs k bs j).items) (sym e)
          (subst P (sym (items_self qs k bs)) (subst (λ j. P ((qs j).items ++ bs)) e b))
    | no n ↦ subst P (sym (items-ne qs k bs i n)) a
  ]

  put_idle : (i : ℕ) → (put qs k bs i).status ≡ notsched → (i ≢ k) × ((qs i).status ≡ notsched)
  put_idle i h = elim (ℕ_discrete i k) [
    | yes e ↦ absurd (
        marked-notsched (qs k).status (
          sym (ap (λ f. f.status) (update_self qs k (added bs (qs k))))
          ∙ ap (λ j. (put qs k bs j).status) (sym e)
          ∙ h))
    | no n ↦ (n, sym (ap (λ f. f.status) (update-ne qs k (added bs (qs k)) i n)) ∙ h)
  ]

  put_ready : (i : ℕ) → (qs i).status ≡ ready → (put qs k bs i).status ≡ ready
  put_ready i h = elim (ℕ_discrete i k) [
    | yes e ↦
        ap (λ j. (put qs k bs j).status) e
        ∙ ap (λ f. f.status) (update_self qs k (added bs (qs k)))
        ∙ ap (λ st. (mark_sched st).0) (ap (λ j. (qs j).status) (sym e) ∙ h)
    | no n ↦ ap (λ f. f.status) (update-ne qs k (added bs (qs k)) i n) ∙ h
  ]

Apart-append_right : (xs ys zs : List ℕ) → Apart xs ys → Apart xs zs → Apart xs (ys ++ zs)
Apart-append_right xs ys zs a b =
    Apart-sym (ys ++ zs) xs (Apart-append_left ys zs xs (Apart-sym xs ys a) (Apart-sym xs zs b))

-- A buffer list that goes on a queue, with the packets that are left.
put-IsOpen :
    (c : Commands) (plain : ℕ → Bool) (ps rest bs : List ℕ) (qs : ℕ → Fifo) (k : ℕ)
    → IsOpen c plain ps qs
    → AreNew rest qs
    → Distinct rest
    → Apart rest bs
    → ((x : ℕ) → NotIn x ps → NotIn x rest)
    → ((r : ℕ) → plain r ≡ true → (put qs k bs r).status ≡ notsched → NotIn (c.command r) bs)
    → IsOpen c plain rest (put qs k bs)
put-IsOpen c plain ps rest bs qs k v a d apart sub out = record {
  used = used_added qs k bs v.used;
  new = λ i.
      put_items qs k bs (λ l. Apart rest l) i (a i)
        (Apart-append_right rest (qs i).items bs (a i) apart);
  distinct = d;
  pri_plain = v.pri_plain;
  pri_ready = λ q. put_ready qs k bs (c.pri q) (v.pri_ready q);
  one_command = v.one_command;
  command_new = λ q i y h.
      let old = v.command_new q i y (put_idle qs k bs q h).1 in
      put_items qs k bs (λ l. NotIn (c.command q) l) i old
        (NotIn-append (c.command q) (qs i).items bs old (out q y h));
  command_other = λ q y h. sub (c.command q) (v.command_other q y (put_idle qs k bs q h).1);
}

module _ (c : Commands) (plain : ℕ → Bool) (ps rest bs : List ℕ) (s1 : Heap) (qs : ℕ → Fifo)
    (q rc : ℕ) (v : IsOpen c plain ps qs) (y : plain q ≡ true) (w : Represents s1 (put qs q bs))
    (a : AreNew rest qs) (d : Distinct rest) (apart : Apart rest bs)
    (sub_rest : (x : ℕ) → NotIn x ps → NotIn x rest)
    (sub_bs : (x : ℕ) → NotIn x ps → NotIn x bs) where
  begun-IsOpen : IsOpen c plain rest (put qs q bs)
  begun-IsOpen =
      put-IsOpen c plain ps rest bs qs q v a d apart sub_rest
        (λ r z h. sub_bs (c.command r) (v.command_other r z (put_idle qs q bs r h).1))

  command_off : (qs q).status ≡ notsched → (i : ℕ) → NotIn (c.command q) (put qs q bs i).items
  command_off st i =
      let old = v.command_new q i y st in
      put_items qs q bs (λ l. NotIn (c.command q) l) i old
        (NotIn-append (c.command q) (qs i).items bs old
          (sub_bs (c.command q) (v.command_other q y st)))

  woken-IsOpen :
      (qs q).status ≡ notsched
      → IsOpen c plain rest (put (put qs q bs) (c.pri q) (c.command q ∷ []))
  woken-IsOpen st =
      let first = begun-IsOpen in
      put-IsOpen c plain rest rest (c.command q ∷ []) (put qs q bs) (c.pri q) first first.new
        first.distinct
        (Apart-single rest (c.command q) (sub_rest (c.command q) (v.command_other q y st)))
        (λ x n. n)
        (λ r z h.
          let again = (put_idle (put qs q bs) (c.pri q) (c.command q ∷ []) r h).1 in
          let ne = (put_idle qs q bs r again).0 in ((λ e. ne (v.one_command r q e)), tt))

  woken-Represents :
      (qs q).status ≡ notsched
      → Represents (schedule_queue c q s1) (put (put qs q bs) (c.pri q) (c.command q ∷ []))
  unfolding schedule_queue
  woken-Represents st =
      let f = put qs q bs (c.pri q) in
      let (o, r) =
        run-Represents s1 (put qs q bs) (c.pri q) (enq (c.command q)) w (command_off st) in
      subst (λ x. Represents (schedule_queue c q s1) (update (put qs q bs) (c.pri q) x.1))
        (spec-enq (c.command q) f (begun-IsOpen.used (c.pri q))) r

  -- The queue that is scheduled if it was idle.
  pub feed :
      Represents
        (then_schedule c q (queued (some rc) (mark_sched (qs q).status).1, s1))
        (fed c qs q bs)
      × IsOpen c plain rest (fed c qs q bs)
  feed = elim (Bool-cases (mark_sched (qs q).status).1) [
    | inl t ↦
        rw t (
          woken-Represents (marked-flag (qs q).status t),
          woken-IsOpen (marked-flag (qs q).status t),
        )
    | inr f ↦ rw f (w, begun-IsOpen)
  ]

abbrev pub only_at : ℕ → ℕ → List ℕ → List ℕ
only_at q i l = if q == i then l else []

put-only_at :
    (qs : ℕ → Fifo) (q i : ℕ) (l : List ℕ) → (put qs q l i).items ≡ (qs i).items ++ only_at q i l
put-only_at qs q i l = elim (ℕ_discrete i q) [
  | yes e ↦
      subst (λ j. (put qs q l j).items ≡ (qs j).items ++ only_at q j l) (sym e)
        (items_self qs q l ∙ ap (λ b. (qs q).items ++ (if b then l else [])) (sym (eq_self q)))
  | no n ↦
      items-ne qs q l i n
      ∙ sym (append-nil (qs i).items)
      ∙ ap (λ b. (qs i).items ++ (if b then l else [])) (sym (ne-eq_false q i (λ x. n (sym x))))
]

-- A plain queue holds no command events.
pub fed-only_at :
    (c : Commands) (qs : ℕ → Fifo) (q i : ℕ) (l : List ℕ)
    → i ≢ c.pri q
    → (fed c qs q l i).items ≡ (qs i).items ++ only_at q i l
fed-only_at c qs q i l n = elim (Bool-cases (mark_sched (qs q).status).1) [
  | inl t ↦ rw t (items-ne (put qs q l) (c.pri q) (c.command q ∷ []) i n ∙ put-only_at qs q i l)
  | inr f ↦ rw f (put-only_at qs q i l)
]
