-- ===== src/Pktio/Open.antt =====
-- odp_packet_io.c: what `odp_pktio_open` and `odp_pktio_close` do to the names in the table.
use odp.Prelude.{
  ℕ, zero, suc, ◌+◌, ◌<◌, ◌≡◌, ◌≢◌, refl, sym, ap, ◌∙◌, Bool, true, false, some, List, [], ◌∷◌,
  if◌then◌else◌, ◌==◌, arith, inl, inr, Bool-cases, length, get_elem?, set, leb, eq_self,
  ne-eq_false, ℕ_discrete, get_elem?-set_self, get_elem?-set_ne,
}
use odp.Queue.Table.{same_name}
use odp.Classify.{first_free}
use odp.Classify.Rules.{first_free-get}
use odp.Pktio.{
  Entry, if_namesize, init_pktio_entry, opened, open_at, open_slot, first_open, setup_pktio_entry,
  lookup_from, odp_pktio_lookup, open_found, odp_pktio_open,
}

pub same_name_self : (name : List ℕ) → same_name name name ≡ true
unfolding same_name
same_name_self [] = refl
same_name_self (a ∷ as') = rw (eq_self a) (same_name_self as')

==_sym : (a b : ℕ) → (a == b) ≡ (b == a)
==_sym a b = elim (ℕ_discrete a b) [
  | yes e ↦ rw e refl
  | no n ↦ ne-eq_false a b n ∙ sym (ne-eq_false b a (λ e. n (sym e)))
]

pub same_name_sym : (a b : List ℕ) → same_name a b ≡ same_name b a
unfolding same_name
same_name_sym [] [] = refl
same_name_sym [] (b ∷ bs) = refl
same_name_sym (a ∷ as') [] = refl
same_name_sym (a ∷ as') (b ∷ bs) = rw (==_sym a b, same_name_sym as' bs) refl

passed :
    (b c : Bool) (k rest : ℕ)
    → (if b then (if c then suc k else rest) else rest) ≡ 0
    → (rest ≡ 0) × ((r : ℕ) → (if b then (if c then suc k else r) else r) ≡ r)
passed true true k rest e = absurd (omega arith)
passed true false k rest e = (e, λ r. refl)
passed false c k rest e = (e, λ r. refl)

module _ (dev : List ℕ) where
  -- The lookup finds the first name that is put in.
  lookup_from-set :
      (k : ℕ) (t : List Entry) (i : ℕ) (e : Entry)
      → lookup_from k dev t ≡ 0
      → i < length t
      → e.taken ≡ true
      → same_name e.name dev ≡ true
      → lookup_from k dev (set t i e) ≡ suc (k + i)
  unfolding lookup_from
  lookup_from-set k [] i e z l y s = absurd (omega arith)
  lookup_from-set k (a ∷ t) zero e z l y s = rw (y, s) (omega arith)
  lookup_from-set k (a ∷ t) (suc i) e z l y s =
      let (z', same) = passed a.taken (same_name a.name dev) k (lookup_from (suc k) dev t) z in
      same (lookup_from (suc k) dev (set t i e))
      ∙ lookup_from-set (suc k) t i e z' (omega arith) y s
      ∙ omega arith

  -- A name that is not found is no name of an open interface.
  pub lookup_from_none :
      (k : ℕ) (t : List Entry) (i : ℕ) (e : Entry)
      → lookup_from k dev t ≡ 0
      → get_elem? t i ≡ some e
      → e.taken ≡ true
      → same_name e.name dev ≡ false
  unfolding lookup_from
  lookup_from_none k [] i e z g y = absurd (ground arith)
  lookup_from_none k (a ∷ t) zero e z g y = elim (Bool-cases (same_name e.name dev)) [
    | inl s ↦ absurd (ground arith)
    | inr s ↦ s
  ]
  lookup_from_none k (a ∷ t) (suc i) e z g y =
      lookup_from_none (suc k) t i e
        (passed a.taken (same_name a.name dev) k (lookup_from (suc k) dev t) z).0 g y

pub opened-taken :
    (dev : List ℕ) (param k id : ℕ) (e : Entry) → (opened dev param k id e).taken ≡ true
unfolding init_pktio_entry
opened-taken dev param k id e = refl

-- The name fits, and some implementation and some entry take it.
pub record IsReady (dev : List ℕ) (opens : List Bool) (t : List Entry) (k i : ℕ) (e : Entry)
    : Type 0 where
  pub short : leb if_namesize (length dev) ≡ false
  pub taker : first_open opens ≡ some k
  pub place : first_free (λ x. x.taken) t ≡ some i
  pub there : get_elem? t i ≡ some e

pub setup_pktio_entry_lem :
    (dev : List ℕ) (param : ℕ) (opens : List Bool) (t : List Entry) (k i : ℕ) (e : Entry)
    → IsReady dev opens t k i e
    → setup_pktio_entry dev param opens t ≡ (suc i, set t i (opened dev param k (suc i) e))
unfolding setup_pktio_entry
setup_pktio_entry_lem dev param opens t k i e r =
    ap
      (λ b.
        if b
        then (0, t)
        else open_slot dev param (first_open opens) (first_free (λ x. x.taken) t) t)
      r.short
    ∙ ap (λ o. open_slot dev param o (first_free (λ x. x.taken) t) t) r.taker
    ∙ ap (λ o. open_slot dev param (some k) o t) r.place
    ∙ ap (λ o. open_at dev param (some k) i o t) r.there

refused :
    (dev : List ℕ) (param id : ℕ) (opens : List Bool) (t : List Entry)
    → odp_pktio_lookup dev t ≡ suc id
    → odp_pktio_open dev param opens t ≡ (0, t)
unfolding odp_pktio_open open_found
refused dev param id opens t e =
    ap (λ x. open_found x dev param opens t) e
    ∙ ap (λ b. if b then setup_pktio_entry dev param opens t else (0, t))
        (ne-eq_false (suc id) 0 (λ h. absurd (omega arith)))

pub open_new :
    (dev : List ℕ) (param : ℕ) (opens : List Bool) (t : List Entry)
    → odp_pktio_lookup dev t ≡ 0
    → odp_pktio_open dev param opens t ≡ setup_pktio_entry dev param opens t
unfolding odp_pktio_open open_found
open_new dev param opens t e = ap (λ x. open_found x dev param opens t) e

-- If no open interface has the name, the name is shorter than 16 bytes, some implementation
-- takes it and some entry is free, odp_pktio_open returns the handle of the first free entry,
-- which then is that interface, and changes no other entry. The name then leads to the handle,
-- and a second call with the name is refused and changes nothing.
pub odp_pktio_open_lem :
    (dev : List ℕ) (param : ℕ) (opens : List Bool) (t : List Entry) (k i : ℕ) (e : Entry)
    → odp_pktio_lookup dev t ≡ 0
    → IsReady dev opens t k i e
    → let after = odp_pktio_open dev param opens t in
      (after.0 ≡ suc i)
      × (get_elem? after.1 i ≡ some (opened dev param k (suc i) e))
      × ((j : ℕ) → i ≢ j → get_elem? after.1 j ≡ get_elem? t j)
      × (odp_pktio_lookup dev after.1 ≡ suc i)
      × ((p : ℕ) (os : List Bool) → odp_pktio_open dev p os after.1 ≡ (0, after.1))
unfolding odp_pktio_lookup
odp_pktio_open_lem dev param opens t k i e z r =
    let is = open_new dev param opens t z ∙ setup_pktio_entry_lem dev param opens t k i e r in
    let (a, g, l) = first_free-get (λ x. x.taken) t i r.place in
    let found =
      lookup_from-set dev 0 t i (opened dev param k (suc i) e) z l
        (opened-taken dev param k (suc i) e) (same_name_self dev)
      ∙ omega arith in
    rw is (
      refl,
      get_elem?-set_self t i (opened dev param k (suc i) e) l,
      λ j n. get_elem?-set_ne t i j (opened dev param k (suc i) e) n,
      found,
      λ p os. refused dev p i os (set t i (opened dev param k (suc i) e)) found,
    )
