-- ===== src/Classify/Chains.antt =====
-- odp_classification.c, `match_pmr_cos`: chains of classes of service, and cycles.
use odp.Prelude.{
  ℕ, zero, suc, ◌+◌, ◌≤◌, ◌≡◌, refl, ap, ◌∙◌, true, false, Option, none, some, List, [], ◌∷◌,
  get_elem?, arith, inl, inr, ◌⊎◌, Bool-cases,
}
use odp.Parser.{Header}
use odp.Classify.{Pmr, PmrRef, rule, rule_set, Tables}
use odp.Classify.Verify.{verify_pmr, rule_met, deref, count_up, bump}
use odp.Classify.Select.{match_pmr_cos, linked, is_valid, next_cos, next_pmr, or_cos}

-- Tables with the same classes and the same rules, up to the rules' counts of packets.
pub record IsLike (t u : Tables) : Type 0 where
  pub classes : u.cos ≡ t.cos
  pub rules :
      (mem : ℕ → ℕ) (a : ℕ) (h : Header) (p : PmrRef)
      → rule_met mem a h (deref u p) ≡ rule_met mem a h (deref t p)

module _ (mem : ℕ → ℕ) (a : ℕ) (h : Header) where
  count_up_met :
      (ps : List Pmr) (i j : ℕ)
      → rule_met mem a h (get_elem? (count_up ps i) j) ≡ rule_met mem a h (get_elem? ps j)
  count_up_met [] i j = refl
  count_up_met (p ∷ ps) zero zero = refl
  count_up_met (p ∷ ps) zero (suc j) = refl
  count_up_met (p ∷ ps) (suc i) zero = refl
  count_up_met (p ∷ ps) (suc i) (suc j) = count_up_met ps i j

  bump_met :
      (q p : PmrRef) (t : Tables)
      → rule_met mem a h (deref (bump q t) p) ≡ rule_met mem a h (deref t p)
  unfolding bump
  bump_met (rule i) (rule j) t = count_up_met t.pmr i j
  bump_met (rule i) (rule_set j) t = refl
  bump_met (rule_set i) (rule j) t = refl
  bump_met (rule_set i) (rule_set j) t = count_up_met t.pmr_set i j

bump_classes : (q : PmrRef) (t : Tables) → (bump q t).cos ≡ t.cos
unfolding bump
bump_classes (rule i) t = refl
bump_classes (rule_set i) t = refl

pub IsLike-bump : (t u : Tables) (q : PmrRef) → IsLike t u → IsLike t (bump q u)
IsLike-bump t u q l = record {
  classes = bump_classes q u ∙ l.classes;
  rules = λ mem a h p. bump_met mem a h q p u ∙ l.rules mem a h p;
}

-- Where a chain ends: there is no class, no rule, a class that is not valid, or a rule not met.
abbrev pub Stops : (ℕ → ℕ) → ℕ → Header → Tables → Option ℕ → Option PmrRef → Type 0
Stops mem a h t none p = Unit {0}
Stops mem a h t (some c) none = Unit {0}
Stops mem a h t (some c) (some p) =
    (is_valid (linked t c) ≡ false) ⊎ (rule_met mem a h (deref t p) ≡ false)

-- A chain of valid classes whose rules are met, the last of them, and how many more it has.
pub data Chain (mem : ℕ → ℕ) (a : ℕ) (h : Header) (t : Tables)
    : Option ℕ → Option PmrRef → ℕ → ℕ → Type 0 where
  last :
      {c : ℕ} {p : PmrRef}
      → is_valid (linked t c) ≡ true
      → rule_met mem a h (deref t p) ≡ true
      → Stops mem a h t (next_cos (linked t c)) (next_pmr (linked t c))
      → Chain mem a h t (some c) (some p) c zero
  more :
      {c : ℕ} {p : PmrRef} {r n : ℕ}
      → is_valid (linked t c) ≡ true
      → rule_met mem a h (deref t p) ≡ true
      → Chain mem a h t (next_cos (linked t c)) (next_pmr (linked t c)) r n
      → Chain mem a h t (some c) (some p) r (suc n)

module _ (mem : ℕ → ℕ) (a : ℕ) (h : Header) where
  match_invalid :
      (fuel c : ℕ) (p : PmrRef) (t : Tables)
      → is_valid (linked t c) ≡ false
      → match_pmr_cos (suc fuel) mem a h (some c) (some p) t ≡ some (none, t)
  unfolding match_pmr_cos
  match_invalid fuel c p t v = rw v refl

  match_unmet :
      (fuel c : ℕ) (p : PmrRef) (t : Tables)
      → is_valid (linked t c) ≡ true
      → rule_met mem a h (deref t p) ≡ false
      → match_pmr_cos (suc fuel) mem a h (some c) (some p) t ≡ some (none, t)
  unfolding match_pmr_cos verify_pmr
  match_unmet fuel c p t v m = rw (v, m) refl

  match_met :
      (fuel c : ℕ) (p : PmrRef) (t : Tables)
      → is_valid (linked t c) ≡ true
      → rule_met mem a h (deref t p) ≡ true
      → match_pmr_cos (suc fuel) mem a h (some c) (some p) t
        ≡ or_cos c (
            match_pmr_cos fuel mem a h
              (next_cos (linked (bump p t) c))
              (next_pmr (linked (bump p t) c))
              (bump p t))
  unfolding match_pmr_cos verify_pmr
  match_met fuel c p t v m = rw (v, m) refl

  module _ (t : Tables) where
    linked_like : (u : Tables) (c : ℕ) → IsLike t u → linked u c ≡ linked t c
    linked_like u c l = ap (λ cs. get_elem? cs c) l.classes

    pub Stops-found :
        (fuel : ℕ) (o : Option ℕ) (q : Option PmrRef) (u : Tables)
        → IsLike t u
        → Stops mem a h t o q
        → match_pmr_cos (suc fuel) mem a h o q u ≡ some (none, u)
    unfolding match_pmr_cos
    Stops-found fuel none q u l s = refl
    Stops-found fuel (some c) none u l s = refl
    Stops-found fuel (some c) (some p) u l (inl v) =
        match_invalid fuel c p u (ap is_valid (linked_like u c l) ∙ v)
    Stops-found fuel (some c) (some p) u l (inr m) = elim (Bool-cases (is_valid (linked u c))) [
      | inl v ↦ match_unmet fuel c p u v (l.rules mem a h p ∙ m)
      | inr v ↦ match_invalid fuel c p u v
    ]

    -- The step at a class whose rule is met.
    pub next_found :
        (fuel c : ℕ) (p : PmrRef) (u : Tables)
        → IsLike t u
        → is_valid (linked t c) ≡ true
        → rule_met mem a h (deref t p) ≡ true
        → match_pmr_cos (suc fuel) mem a h (some c) (some p) u
          ≡ or_cos c (
              match_pmr_cos fuel mem a h (next_cos (linked t c)) (next_pmr (linked t c)) (bump p u))
    next_found fuel c p u l v m =
        match_met fuel c p u (ap is_valid (linked_like u c l) ∙ v) (l.rules mem a h p ∙ m)
        ∙ ap (λ k. or_cos c (match_pmr_cos fuel mem a h (next_cos k) (next_pmr k) (bump p u)))
            (linked_like (bump p u) c (IsLike-bump t u p l))

    pub match_pmr_cos-Chain :
        (fuel : ℕ) {o : Option ℕ} {q : Option PmrRef} {r n : ℕ}
        → Chain mem a h t o q r n
        → (u : Tables) → n + 2 ≤ fuel
        → IsLike t u
        → (v : Tables) × (match_pmr_cos fuel mem a h o q u ≡ some (some r, v)) × IsLike t v
    match_pmr_cos-Chain zero k u f l = absurd (omega arith)
    match_pmr_cos-Chain (suc zero) k u f l = absurd (omega arith)
    match_pmr_cos-Chain (suc (suc fuel)) (last {c} {p} v m s) u f l =
        let l' = IsLike-bump t u p l in
        (
          bump p u,
          next_found (suc fuel) c p u l v m
              ∙ ap (or_cos c) (
                  Stops-found fuel (next_cos (linked t c)) (next_pmr (linked t c)) (bump p u) l' s),
          l',
        )
    match_pmr_cos-Chain (suc (suc fuel)) (more {c} {p} v m k) u f l =
        let (w, e, l') =
          match_pmr_cos-Chain (suc fuel) k (bump p u) (omega arith) (IsLike-bump t u p l) in
        (w, next_found (suc fuel) c p u l v m ∙ ap (or_cos c) e, l')
