-- ===== src/Classify/Acyclic.antt =====
-- odp_classification.c, `match_pmr_cos`: it ends where the links between classes form no
-- cycle, and at a class linked to itself it does not.
use odp.Prelude.{
  ℕ, zero, suc, ◌+◌, ◌≤◌, ◌<◌, ◌≡◌, refl, ap, ◌∙◌, true, Option, none, some, arith, inl, inr, ◌⊎◌,
  Bool-cases,
}
use odp.Parser.{Header}
use odp.Classify.{PmrRef, Tables}
use odp.Classify.Verify.{rule_met, deref, bump}
use odp.Classify.Select.{match_pmr_cos, linked, is_valid, next_cos, next_pmr, or_cos}
use odp.Classify.Chains.{
  IsLike, Stops, Chain, last, more, IsLike-bump, Stops-found, next_found, match_pmr_cos-Chain,
}

-- Each link leads to a class of smaller rank.
abbrev pub Falls : Tables → (ℕ → ℕ) → Type 0
Falls t rank = (c d : ℕ) → next_cos (linked t c) ≡ some d → rank d < rank c

abbrev Below : (ℕ → ℕ) → Option ℕ → ℕ → Type 0
Below rank none k = Unit {0}
Below rank (some c) k = rank c < k

Below-next :
    (rank : ℕ → ℕ) (o : Option ℕ) (k r : ℕ)
    → ((d : ℕ) → o ≡ some d → rank d < r)
    → r < suc k
    → Below rank o k
Below-next rank none k r f l = tt
Below-next rank (some d) k r f l = omega (arith, f d refl)

-- A chain with at most so many more classes.
abbrev Chained : (ℕ → ℕ) → ℕ → Header → Tables → Option ℕ → Option PmrRef → ℕ → Type 0
Chained mem a h t o q k = (r n : ℕ) × Chain mem a h t o q r n × (n < k)

module _ (mem : ℕ → ℕ) (a : ℕ) (h : Header) (t : Tables) (rank : ℕ → ℕ) (falls : Falls t rank) where
  Chained-next :
      (c : ℕ) (p : PmrRef) (k : ℕ)
      → is_valid (linked t c) ≡ true
      → rule_met mem a h (deref t p) ≡ true
      → Stops mem a h t (next_cos (linked t c)) (next_pmr (linked t c))
        ⊎ Chained mem a h t (next_cos (linked t c)) (next_pmr (linked t c)) k
      → Chained mem a h t (some c) (some p) (suc k)
  Chained-next c p k v m (inl s) = (c, zero, last v m s, omega arith)
  Chained-next c p k v m (inr (r, n, e, l)) = (r, suc n, more v m e, omega arith)

  Stops-or_Chained :
      (k : ℕ) (o : Option ℕ) (q : Option PmrRef)
      → Below rank o k
      → Stops mem a h t o q ⊎ Chained mem a h t o q k
  Stops-or_Chained k none q b = inl tt
  Stops-or_Chained k (some c) none b = inl tt
  Stops-or_Chained zero (some c) (some p) b = absurd (omega arith)
  Stops-or_Chained (suc k) (some c) (some p) b = elim (Bool-cases (is_valid (linked t c))) [
    | inr v ↦ inl (inl v)
    | inl v ↦ elim (Bool-cases (rule_met mem a h (deref t p))) [
      | inr m ↦ inl (inr m)
      | inl m ↦
          let near = Below-next rank (next_cos (linked t c)) k (rank c) (falls c) b in
          inr (
            Chained-next c p k v m
              (Stops-or_Chained k (next_cos (linked t c)) (next_pmr (linked t c)) near))
    ]
  ]

  -- If each link between classes of service leads to a class of smaller rank, match_pmr_cos at a
  -- class ends within its rank and two rounds, and leaves the classes and rules as they were, up
  -- to the rules' counts.
  pub match_pmr_cos_total :
      (c : ℕ) (q : Option PmrRef) (fuel : ℕ) (u : Tables)
      → rank c + 2 ≤ fuel
      → IsLike t u
      → (o : Option ℕ) × (v : Tables) × (match_pmr_cos fuel mem a h (some c) q u ≡ some (o, v))
        × IsLike t v
  match_pmr_cos_total c q zero u f l = absurd (omega arith)
  match_pmr_cos_total c q (suc fuel) u f l =
      elim (Stops-or_Chained (suc (rank c)) (some c) q (omega arith)) [
        | inl s ↦ (none, u, Stops-found mem a h t fuel (some c) q u l s, l)
        | inr (r, n, e, b) ↦
            let (v, w, l') = match_pmr_cos-Chain mem a h t (suc fuel) e u (omega arith) l in
            (some r, v, w, l')
      ]

-- If a valid class of service is linked to itself by a rule that the packet meets, match_pmr_cos
-- at that class and rule never ends: it runs out of any fuel.
pub match_pmr_cos_cycle :
    (mem : ℕ → ℕ) (a : ℕ) (h : Header) (t : Tables) (c : ℕ) (p : PmrRef)
    → is_valid (linked t c) ≡ true
    → next_cos (linked t c) ≡ some c
    → next_pmr (linked t c) ≡ some p
    → rule_met mem a h (deref t p) ≡ true
    → (fuel : ℕ) (u : Tables) → IsLike t u
    → match_pmr_cos fuel mem a h (some c) (some p) u ≡ none
unfolding match_pmr_cos
match_pmr_cos_cycle mem a h t c p v n q m zero u l = refl
match_pmr_cos_cycle mem a h t c p v n q m (suc fuel) u l =
    next_found mem a h t fuel c p u l v m
    ∙ ap (λ k. or_cos c (match_pmr_cos fuel mem a h k (next_pmr (linked t c)) (bump p u))) n
    ∙ ap (λ k. or_cos c (match_pmr_cos fuel mem a h (some c) k (bump p u))) q
    ∙ ap (or_cos c)
        (match_pmr_cos_cycle mem a h t c p v n q m fuel (bump p u) (IsLike-bump t u p l))
