-- ===== src/Pktio/Sort.antt =====
-- odp_packet_io.c: the loop over the packets received.
use odp.Prelude.{
  ℕ, ◌≡◌, ◌≢◌, refl, sym, ap, ◌∙◌, subst, Bool, true, false, Option, none, some, List, [], ◌∷◌,
  ◌++◌, arith, ◌==◌, if◌then◌else◌, Apart, NotIn, Distinct, update, ℕ_discrete, eq_self,
  ne-eq_false, append_assoc, append-nil, Option-cases, inl, inr, Apart-single,
}
use odp.Queue.Heap.{Heap, enq, run, Fifo}
use odp.Queue.Heap.Refine.{Represents, run-Represents}
use odp.Pktio.Receive.{Commands, failed, keep_if, then_schedule, sort_packets}
use odp.Pktio.Shares.{sent, kept, sent-none, sent-some, kept-none, kept-some}
use odp.Pktio.Feed.{fed, IsOpen, spec-enq, feed, only_at, fed-only_at}

-- The packets with a class are given to its queue one by one.
unfoldable pub delivered : Commands → (ℕ → Option ℕ) → List ℕ → (ℕ → Fifo) → ℕ → Fifo
delivered c decide [] qs = qs
delivered c decide (p ∷ ps) qs = elim (decide p) [
  | none ↦ delivered c decide ps qs
  | some q ↦ delivered c decide ps (fed c qs q (p ∷ []))
]

-- A list without one of its elements.
NotIn-middle : (x p : ℕ) (h ps : List ℕ) → NotIn x (h ++ (p ∷ ps)) → NotIn x (h ++ ps) × (x ≢ p)
NotIn-middle x p [] ps n = (n.1, n.0)
NotIn-middle x p (y ∷ h) ps n = let (a, b) = NotIn-middle x p h ps n.1 in ((n.0, a), b)

Apart-middle :
    (h : List ℕ) (p : ℕ) (ps ys : List ℕ)
    → Apart (h ++ (p ∷ ps)) ys
    → Apart (h ++ ps) ys × NotIn p ys
Apart-middle [] p ps ys a = (a.1, a.0)
Apart-middle (y ∷ h) p ps ys a = let (b, n) = Apart-middle h p ps ys a.1 in ((a.0, b), n)

Distinct-middle :
    (h : List ℕ) (p : ℕ) (ps : List ℕ)
    → Distinct (h ++ (p ∷ ps))
    → Distinct (h ++ ps) × NotIn p (h ++ ps)
Distinct-middle [] p ps d = (d.1, d.0)
Distinct-middle (y ∷ h) p ps d =
    let (e, n) = Distinct-middle h p ps d.1 in
    let (f, ne) = NotIn-middle y p h ps d.0 in ((f, e), ((λ x. ne (sym x)), n))

module _ (c : Commands) (decide : ℕ → Option ℕ) where
  delivered-none :
      (p : ℕ) (ps : List ℕ) (qs : ℕ → Fifo)
      → decide p ≡ none
      → delivered c decide (p ∷ ps) qs ≡ delivered c decide ps qs
  unfolding delivered
  delivered-none p ps qs e = rw (e, delivered) refl

  delivered-some :
      (p q : ℕ) (ps : List ℕ) (qs : ℕ → Fifo)
      → decide p ≡ some q
      → delivered c decide (p ∷ ps) qs ≡ delivered c decide ps (fed c qs q (p ∷ []))
  unfolding delivered
  delivered-some p q ps qs e = rw (e, delivered) refl

  sort-none :
      (p : ℕ) (ps : List ℕ) (s : Heap)
      → decide p ≡ none
      → sort_packets c decide (p ∷ ps) s ≡ keep_if true p (sort_packets c decide ps s)
  unfolding sort_packets
  sort-none p ps s e = rw (e, sort_packets) refl

  sort-some :
      (p q : ℕ) (ps : List ℕ) (s : Heap)
      → decide p ≡ some q
      → sort_packets c decide (p ∷ ps) s
        ≡ keep_if
            (failed (run (enq p) q s).0)
            p
            (sort_packets c decide ps (then_schedule c q (run (enq p) q s)))
  unfolding sort_packets
  sort-some p q ps s e = rw (e, sort_packets) refl

  sent-only_at :
      (p q i : ℕ) (ps : List ℕ)
      → decide p ≡ some q
      → only_at q i (p ∷ []) ++ sent decide i ps ≡ sent decide i (p ∷ ps)
  sent-only_at p q i ps e = elim (ℕ_discrete q i) [
    | yes x ↦
        let t : (q == i) ≡ true = ap (λ j. q == j) (sym x) ∙ eq_self q in
        ap (λ b. (if b then p ∷ [] else []) ++ sent decide i ps) t
        ∙ sym (
            sent-some decide p q i ps e
            ∙ ap (λ b. if b then p ∷ sent decide i ps else sent decide i ps) t)
    | no n ↦
        let t = ne-eq_false q i n in
        ap (λ b. (if b then p ∷ [] else []) ++ sent decide i ps) t
        ∙ sym (
            sent-some decide p q i ps e
            ∙ ap (λ b. if b then p ∷ sent decide i ps else sent decide i ps) t)
  ]

  module _ (plain : ℕ → Bool) (to_plain : (p q : ℕ) → decide p ≡ some q → plain q ≡ true) where
    -- The queues and the packets left after the loop; the packets `h` were left before.
    pub record IsSorted (h ps : List ℕ) (s : Heap) (qs : ℕ → Fifo) : Type 0 where
      pub held : Represents (sort_packets c decide ps s).1 (delivered c decide ps qs)
      pub good : IsOpen c plain (h ++ kept decide ps) (delivered c decide ps qs)
      pub left : (sort_packets c decide ps s).0 ≡ kept decide ps
      pub items :
          (i : ℕ)
          → plain i ≡ true
          → (delivered c decide ps qs i).items ≡ (qs i).items ++ sent decide i ps

    pub not_pri :
        (q i : ℕ) (ps : List ℕ) (qs : ℕ → Fifo)
        → IsOpen c plain ps qs
        → plain i ≡ true
        → i ≢ c.pri q
    not_pri q i ps qs v y e = absurd (ground (arith, y, v.pri_plain q, ap plain e))

    sort_step :
        (h : List ℕ) (p q : ℕ) (ps : List ℕ) (s : Heap) (qs : ℕ → Fifo)
        → Represents s qs
        → IsOpen c plain (h ++ (p ∷ ps)) qs
        → plain q ≡ true
        → (failed (run (enq p) q s).0 ≡ false)
          × Represents (then_schedule c q (run (enq p) q s)) (fed c qs q (p ∷ []))
          × IsOpen c plain (h ++ ps) (fed c qs q (p ∷ []))
    sort_step h p q ps s qs w v y =
        let (o, r) =
          run-Represents s qs q (enq p) w (λ i. (Apart-middle h p ps (qs i).items (v.new i)).1) in
        let good = spec-enq p (qs q) (v.used q) in
        let out = o ∙ ap (λ x. x.0) good in
        let s1 = (run (enq p) q s).1 in
        let (d, n) = Distinct-middle h p ps v.distinct in
        let (held, open') =
          feed c plain (h ++ (p ∷ ps)) (h ++ ps) (p ∷ []) s1 qs q 0 v y
            (subst (λ x. Represents s1 (update qs q x.1)) good r)
            (λ i. (Apart-middle h p ps (qs i).items (v.new i)).0) d (Apart-single (h ++ ps) p n)
            (λ x m. (NotIn-middle x p h ps m).0) (λ x m. ((NotIn-middle x p h ps m).1, tt)) in
        (
          ap failed out,
          subst (λ x. Represents (then_schedule c q (x, s1)) (fed c qs q (p ∷ []))) (sym out) held,
          open',
        )

    pub sort-IsSorted :
        (h ps : List ℕ) (s : Heap) (qs : ℕ → Fifo)
        → Represents s qs
        → IsOpen c plain (h ++ ps) qs
        → IsSorted h ps s qs
    unfolding sort_packets sent kept delivered
    sort-IsSorted h [] s qs w v = record {
      held = w;
      good = v;
      left = refl;
      items = λ i y. sym (append-nil (qs i).items);
    }
    sort-IsSorted h (p ∷ ps) s qs w v = elim (Option-cases (decide p)) [
      | inl e ↦
          let r =
            sort-IsSorted (h ++ (p ∷ [])) ps s qs w
              (subst (λ l. IsOpen c plain l qs) (sym (append_assoc h (p ∷ []) ps)) v) in
          let at = sort-none p ps s e in
          let to = delivered-none p ps qs e in
          record {
            held =
                subst (λ x. Represents x.1 (delivered c decide (p ∷ ps) qs)) (sym at)
                  (subst (λ f. Represents (sort_packets c decide ps s).1 f) (sym to) r.held);
            good =
                subst (λ l. IsOpen c plain (h ++ l) (delivered c decide (p ∷ ps) qs))
                  (sym (kept-none decide p ps e))
                  (subst (λ f. IsOpen c plain (h ++ (p ∷ kept decide ps)) f) (sym to)
                    (subst (λ l. IsOpen c plain l (delivered c decide ps qs))
                      (append_assoc h (p ∷ []) (kept decide ps)) r.good));
            left = ap (λ x. x.0) at ∙ ap (λ l. p ∷ l) r.left ∙ sym (kept-none decide p ps e);
            items = λ i y.
                ap (λ f. (f i).items) to
                ∙ r.items i y
                ∙ ap (λ l. (qs i).items ++ l) (sym (sent-none decide p i ps e));
          }
      | inr (q, e) ↦
          let y' = to_plain p q e in
          let (fine, w', v') = sort_step h p q ps s qs w v y' in
          let s' = then_schedule c q (run (enq p) q s) in
          let f = fed c qs q (p ∷ []) in
          let r = sort-IsSorted h ps s' f w' v' in
          let at =
            sort-some p q ps s e ∙ ap (λ b. keep_if b p (sort_packets c decide ps s')) fine in
          let to = delivered-some p q ps qs e in
          record {
            held =
                subst (λ x. Represents x.1 (delivered c decide (p ∷ ps) qs)) (sym at)
                  (subst (λ g. Represents (sort_packets c decide ps s').1 g) (sym to) r.held);
            good =
                subst (λ l. IsOpen c plain (h ++ l) (delivered c decide (p ∷ ps) qs))
                  (sym (kept-some decide p q ps e))
                  (subst (λ g. IsOpen c plain (h ++ kept decide ps) g) (sym to) r.good);
            left = ap (λ x. x.0) at ∙ r.left ∙ sym (kept-some decide p q ps e);
            items = λ i y.
                ap (λ g. (g i).items) to
                ∙ r.items i y
                ∙ ap (λ l. l ++ sent decide i ps)
                    (fed-only_at c qs q i (p ∷ []) (not_pri q i (h ++ (p ∷ ps)) qs v y))
                ∙ append_assoc (qs i).items (only_at q i (p ∷ [])) (sent decide i ps)
                ∙ ap (λ l. (qs i).items ++ l) (sent-only_at p q i ps e);
          }
    ]
