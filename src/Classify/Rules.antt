-- ===== src/Classify/Rules.antt =====
-- odp_classification.c: a rule that is created is the rule that packets are compared with.
use Prim.Native.Nat.{bit_and}
use odp.Prelude.{
  ℕ, zero, suc, ◌≤◌, ◌<◌, ◌≡◌, ◌≢◌, refl, sym, ap, ◌∙◌, Bool, false, Option, none, some, List, [],
  ◌∷◌, if◌then◌else◌, arith, inl, inr, Bool-cases, length, get_elem?, set, take, ltb,
  get_elem?-set_self, get_elem?-set_ne,
}
use odp.Parser.{Header}
use odp.Classify.{
  Term, Pmr, PmrRef, rule, rule_set, Tables, Match, masked_term, one_term, pmr_at, behind,
  first_free, odp_pmr_create, le_value, term_bytes_max, invalid_handle,
}
use odp.Classify.Verify.{verify_term, verify_terms, rule_met, deref}

behind-suc : (o : Option ℕ) (i : ℕ) → behind o ≡ some (suc i) → o ≡ some i
behind-suc none i e = absurd (ground arith)
behind-suc (some j) i e = ground arith

behind-ne_zero : (o : Option ℕ) → behind o ≢ some 0
behind-ne_zero none = λ e. absurd (ground arith)
behind-ne_zero (some j) = λ e. absurd (ground arith)

pub some_inj {ℓ} : {A : Type ℓ} (a b : A) → some a ≡ some b → a ≡ b
some_inj a b e = ap (λ o. elim o [ none ↦ a | some x ↦ x ]) e

pub first_free-get {ℓ} :
    {A : Type ℓ} (valid : A → Bool) (as' : List A) (i : ℕ)
    → first_free valid as' ≡ some i
    → (a : A) × (get_elem? as' i ≡ some a) × (i < length as')
unfolding first_free
first_free-get valid [] i e = absurd (ground arith)
first_free-get valid (a ∷ rest) zero e = (a, refl, omega arith)
first_free-get valid (a ∷ rest) (suc i) e = elim (Bool-cases (valid a)) [
  | inl v ↦
      let (b, g, l) = first_free-get valid rest i (
        behind-suc (first_free valid rest) i
          (sym (ap (λ x. if x then behind (first_free valid rest) else some 0) v) ∙ e)) in
      (b, g, omega arith)
  | inr v ↦ absurd (ground arith)
]

pub first_free-valid {ℓ} :
    {A : Type ℓ} (valid : A → Bool) (as' : List A) (i : ℕ) (a : A)
    → first_free valid as' ≡ some i
    → get_elem? as' i ≡ some a
    → valid a ≡ false
unfolding first_free
first_free-valid valid [] i a e g = absurd (ground arith)
first_free-valid valid (b ∷ rest) zero a e g = elim (Bool-cases (valid b)) [
  | inl v ↦ absurd (
      behind-ne_zero (first_free valid rest)
        (sym (ap (λ x. if x then behind (first_free valid rest) else some 0) v) ∙ e))
  | inr v ↦ ap valid (sym (some_inj b a g)) ∙ v
]
first_free-valid valid (b ∷ rest) (suc i) a e g = elim (Bool-cases (valid b)) [
  | inl v ↦
      first_free-valid valid rest i a
        (behind-suc (first_free valid rest) i
          (sym (ap (λ x. if x then behind (first_free valid rest) else some 0) v) ∙ e))
        g
  | inr v ↦ absurd (ground arith)
]

verify_first :
    (mem : ℕ → ℕ) (a : ℕ) (h : Header) (t : Term) (ts : List Term)
    → 1 ≤ length ts
    → verify_terms mem a h (take 1 (set ts 0 t)) ≡ verify_term t.term mem a h t
unfolding verify_terms
verify_first mem a h t [] l = absurd (omega arith)
verify_first mem a h t (u ∷ ts) l = elim (Bool-cases (verify_term t.term mem a h t)) [
  | inl y ↦ rw y refl
  | inr n ↦ rw n refl
]

pmr_at-get :
    (m : Match) (t : Tables) (i : ℕ) (p : Pmr)
    → get_elem? t.pmr i ≡ some p
    → pmr_at m t (some i) ≡ (i, record t { pmr = set t.pmr i (one_term m p) })
pmr_at-get m t i p e = rw (e, pmr_at) refl

other_rule :
    (t : Tables) (i : ℕ) (p : Pmr) (q : PmrRef)
    → q ≢ rule i
    → deref (record t { pmr = set t.pmr i p }) q ≡ deref t q
other_rule t i p (rule j) n = get_elem?-set_ne t.pmr i j p (λ e. n (ap rule (sym e)))
other_rule t i p (rule_set j) n = refl

-- Each rule of the table has a place for a term.
abbrev pub HavePlaces : Tables → Type 0
HavePlaces t = (i : ℕ) (p : Pmr) → get_elem? t.pmr i ≡ some p → 1 ≤ length p.terms

-- What the caller asks for: the little-endian numbers of the first `val_sz` bytes at the two pointers,
-- the value cut down to the bits of the mask.
abbrev pub under_mask : Match → Term
under_mask m = record {
  term = m.term;
  val = bit_and (le_value (take m.val_sz m.val)) (le_value (take m.val_sz m.mask));
  mask = le_value (take m.val_sz m.mask);
}

-- If the value has at most 8 bytes, a rule is free and each rule of the table has a place for a
-- term, odp_pmr_create returns the handle of the first free rule; a packet meets that rule
-- exactly if it passes the test of the given kind of term with the little-endian number of the
-- given mask bytes as the mask and that of the given value bytes, cut down to the bits of the
-- mask, as the value; every other rule and all classes stay as they were.
pub odp_pmr_create_lem :
    (m : Match) (t : Tables) (i : ℕ)
    → m.val_sz ≤ term_bytes_max
    → first_free (λ p. p.valid) t.pmr ≡ some i
    → HavePlaces t
    → ((odp_pmr_create m t).0 ≡ i)
      × ((mem : ℕ → ℕ) (a : ℕ) (h : Header)
          → rule_met mem a h (deref (odp_pmr_create m t).1 (rule i))
            ≡ verify_term m.term mem a h (under_mask m))
      × ((q : PmrRef) → q ≢ rule i → deref (odp_pmr_create m t).1 q ≡ deref t q)
      × ((odp_pmr_create m t).1.cos ≡ t.cos)
unfolding odp_pmr_create
odp_pmr_create_lem m t i short free places =
    let (p, g, l) = first_free-get (λ p. p.valid) t.pmr i free in
    let small : ltb term_bytes_max m.val_sz ≡ false = ground arith in
    let done =
      ap (λ b. if b then (invalid_handle, t) else pmr_at m t (first_free (λ p. p.valid) t.pmr))
        small
      ∙ ap (pmr_at m t) free
      ∙ pmr_at-get m t i p g in
    let got = get_elem?-set_self t.pmr i (one_term m p) l in
    (
      ap (λ r. r.0) done,
      λ mem a h.
          ap (λ r. rule_met mem a h (deref r.1 (rule i))) done
          ∙ ap (rule_met mem a h) got
          ∙ verify_first mem a h (masked_term m) p.terms (places i p g),
      λ q n. ap (λ r. deref r.1 q) done ∙ other_rule t i (one_term m p) q n,
      ap (λ r. r.1.cos) done,
    )
