-- ===== src/Classify/Sets.antt =====
-- odp_classification.c, `odp_pmr_match_set_create`: the terms of a set.
use odp.Prelude.{
  ℕ, zero, suc, ◌+◌, ◌≤◌, ◌<◌, ◌^◌, ◌≡◌, ◌≢◌, refl, sym, ap, ◌∙◌, subst, Bool, true, false, Option,
  none, some, List, [], ◌∷◌, if◌then◌else◌, arith, inl, inr, Bool-cases, length, get_elem?, set,
  ltb, get_elem?-set_self, get_elem?-set_ne, length-set,
}
use odp.Classify.{
  Term, Pmr, rule_set, is_negative, counted, set_filled, invalid_handle, Tables, Match, masked_term,
  fill_terms, set_terms, pmr_set_at, first_free, odp_pmr_match_set_create, term_bytes_max,
}
use odp.Classify.Verify.{deref}
use odp.Classify.Rules.{first_free-get, under_mask}

abbrev pub is_long : Match → Bool
is_long m = ltb term_bytes_max m.val_sz

-- What stands at a place after the loop: the term given for it, or what stood there if that is too
-- long.
abbrev pub placed : Option Match → Option Term → Option Term
placed none old = old
placed (some m) old = if is_long m then old else some (under_mask m)

-- How many of the terms are not too long.
unfoldable pub short_terms : List Match → ℕ
short_terms [] = 0
short_terms (m ∷ ms) = let rest = short_terms ms in if is_long m then rest else suc rest

-- The loop when no size is negative as an `int`.
unfoldable fill_short : ℕ → List Match → List Term → ℕ × List Term
fill_short i [] ts = (0, ts)
fill_short i (m ∷ ms) ts =
    let (count, ts') = fill_short (suc i) ms (if is_long m then ts else set ts i (masked_term m)) in
    (if is_long m then count else suc count, ts')

-- Each size is below 2^31.
abbrev pub AreSized : List Match → Type 0
AreSized [] = Unit
AreSized (m ∷ ms) = (m.val_sz < 2 ^ 31) × AreSized ms

fill_terms-fill_short :
    (i : ℕ) (ms : List Match) (ts : List Term)
    → AreSized ms
    → fill_terms i ms ts ≡ some (fill_short i ms ts)
unfolding fill_terms fill_short
fill_terms-fill_short i [] ts z = refl
fill_terms-fill_short i (m ∷ ms) ts z =
    let ts' = if is_long m then ts else set ts i (masked_term m) in
    let sized : is_negative m.val_sz ≡ false = ground (arith, z.0) in
    ap (λ b. if b then none else counted (is_long m) (fill_terms (suc i) ms ts')) sized
    ∙ ap (counted (is_long m)) (fill_terms-fill_short (suc i) ms ts' z.1)

fill_short-short :
    (i : ℕ) (ms : List Match) (ts : List Term) → (fill_short i ms ts).0 ≡ short_terms ms
unfolding fill_short short_terms
fill_short-short i [] ts = refl
fill_short-short i (m ∷ ms) ts = elim (Bool-cases (is_long m)) [
  | inl x ↦ rw x (fill_short-short (suc i) ms ts)
  | inr x ↦ rw x (ap suc (fill_short-short (suc i) ms (set ts i (masked_term m))))
]

fill_short_below :
    (i : ℕ) (ms : List Match) (ts : List Term) (j : ℕ)
    → j < i
    → get_elem? (fill_short i ms ts).1 j ≡ get_elem? ts j
unfolding fill_short
fill_short_below i [] ts j l = refl
fill_short_below i (m ∷ ms) ts j l = elim (Bool-cases (is_long m)) [
  | inl x ↦ rw x (fill_short_below (suc i) ms ts j (omega arith))
  | inr x ↦ rw x (
      fill_short_below (suc i) ms (set ts i (masked_term m)) j (omega arith)
      ∙ get_elem?-set_ne ts i j (masked_term m) (λ e. absurd (omega arith)))
]

step_place :
    (m : Match) (ts : List Term) (i : ℕ)
    → i < length ts
    → get_elem? (if is_long m then ts else set ts i (masked_term m)) i
      ≡ placed (some m) (get_elem? ts i)
step_place m ts i l = elim (Bool-cases (is_long m)) [
  | inl x ↦ rw x refl
  | inr x ↦ rw x (get_elem?-set_self ts i (masked_term m) l)
]

step_other :
    (m : Match) (ts : List Term) (i j : ℕ)
    → i ≢ j
    → get_elem? (if is_long m then ts else set ts i (masked_term m)) j ≡ get_elem? ts j
step_other m ts i j n = elim (Bool-cases (is_long m)) [
  | inl x ↦ rw x refl
  | inr x ↦ rw x (get_elem?-set_ne ts i j (masked_term m) n)
]

step_length :
    (m : Match) (ts : List Term) (i : ℕ)
    → length (if is_long m then ts else set ts i (masked_term m)) ≡ length ts
step_length m ts i = elim (Bool-cases (is_long m)) [
  | inl x ↦ rw x refl
  | inr x ↦ rw x (length-set ts i (masked_term m))
]

fill_short-get :
    (i : ℕ) (ms : List Match) (ts : List Term) (k j : ℕ)
    → j ≡ i + k
    → i + length ms ≤ length ts
    → get_elem? (fill_short i ms ts).1 j ≡ placed (get_elem? ms k) (get_elem? ts j)
unfolding fill_short
fill_short-get i [] ts k j e l = refl
fill_short-get i (m ∷ ms) ts zero j e l =
    let here : j ≡ i = omega arith in
    let ts' = if is_long m then ts else set ts i (masked_term m) in
    subst (λ x. get_elem? (fill_short (suc i) ms ts').1 x ≡ placed (some m) (get_elem? ts x))
      (sym here) (fill_short_below (suc i) ms ts' i (omega arith) ∙ step_place m ts i (omega arith))
fill_short-get i (m ∷ ms) ts (suc k) j e l =
    let ts' = if is_long m then ts else set ts i (masked_term m) in
    fill_short-get (suc i) ms ts' k j (omega arith) (omega (arith, step_length m ts i))
    ∙ ap (placed (get_elem? ms k)) (step_other m ts i j (λ x. absurd (omega arith)))

pmr_set_at-get :
    (num : ℕ) (ms : List Match) (t : Tables) (i : ℕ) (p : Pmr)
    → get_elem? t.pmr_set i ≡ some p
    → AreSized ms
    → pmr_set_at num ms t (some i)
      ≡ some (
        some (fill_short 0 ms p.terms).0,
        i,
        record t { pmr_set = set t.pmr_set i (set_terms num (fill_short 0 ms p.terms) p) },
      )
pmr_set_at-get num ms t i p e z =
    ap
      (λ o. elim o [
        | none ↦ some (none, invalid_handle, t)
        | some q ↦ set_filled num i t q (fill_terms 0 ms q.terms)
      ])
      e
    ∙ ap (set_filled num i t p) (fill_terms-fill_short 0 ms p.terms z)

-- If at most 8 terms are given, each of a size below 2^31, a set is free and it has places for
-- them, odp_pmr_match_set_create takes the first free set and returns how many terms have at
-- most 8 bytes, but the set counts all of them: the place of each of these has the given mask
-- and the value under it, and the place of each longer term keeps the term that the set had
-- there before.
pub odp_pmr_match_set_create_lem :
    (ms : List Match) (old i : ℕ) (t : Tables) (p : Pmr)
    → length ms ≤ 8
    → AreSized ms
    → first_free (λ p. p.valid) t.pmr_set ≡ some i
    → get_elem? t.pmr_set i ≡ some p
    → length ms ≤ length p.terms
    → (p' : Pmr) × (t' : Tables) × (odp_pmr_match_set_create (length ms) ms old t
        ≡ some (some (short_terms ms), i, t'))
      × (deref t' (rule_set i) ≡ some p')
      × (p'.valid ≡ true)
      × (p'.num_pmr ≡ length ms)
      × ((k : ℕ) → get_elem? p'.terms k ≡ placed (get_elem? ms k) (get_elem? p.terms k))
unfolding odp_pmr_match_set_create
odp_pmr_match_set_create_lem ms old i t p few sized free g room =
    let filled = fill_short 0 ms p.terms in
    let p' = set_terms (length ms) filled p in
    let (q, _, l) = first_free-get (λ p. p.valid) t.pmr_set i free in
    let small : ltb 8 (length ms) ≡ false = ground arith in
    (
      p',
      record t { pmr_set = set t.pmr_set i p' },
      ap
            (λ b.
              if b
              then some (none, old, t)
              else pmr_set_at (length ms) ms t (first_free (λ p. p.valid) t.pmr_set))
            small
          ∙ ap (pmr_set_at (length ms) ms t) free
          ∙ pmr_set_at-get (length ms) ms t i p g sized
          ∙ ap (λ n. some (some n, i, record t { pmr_set = set t.pmr_set i p' }))
              (fill_short-short 0 ms p.terms),
      get_elem?-set_self t.pmr_set i p' l,
      refl,
      refl,
      λ k. fill_short-get 0 ms p.terms k k (omega arith) (omega arith),
    )
