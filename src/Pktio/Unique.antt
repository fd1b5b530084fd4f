-- ===== src/Pktio/Unique.antt =====
-- odp_packet_io.c: whether two open interfaces can have one name.
use odp.Prelude.{
  ℕ, zero, suc, ◌-◌, ◌<◌, ◌≡◌, ◌≢◌, refl, sym, ap, ◌∙◌, subst, Bool, true, false, Option, none,
  some, List, [], ◌∷◌, if◌then◌else◌, ◌==◌, arith, inl, inr, Bool-cases, length, get_elem?, set,
  leb, ne-eq_false, ℕ_discrete, get_elem?-set_self, get_elem?-set_ne, Option-cases,
}
use odp.Queue.Table.{same_name}
use odp.Classify.{first_free}
use odp.Classify.Rules.{first_free-get, first_free-valid, some_inj}
use odp.Pktio.{
  Entry, if_namesize, init_pktio_entry, opened, open_at, open_slot, first_open, setup_pktio_entry,
  odp_pktio_lookup, open_found, odp_pktio_open, close_entry, odp_pktio_close, get_pktio_entry,
  not_opened,
}
use odp.Pktio.Open.{
  same_name_self, same_name_sym, lookup_from_none, opened-taken, IsReady, setup_pktio_entry_lem,
}

-- An interface in use at this place.
abbrev pub Used : List Entry → ℕ → Entry → Type 0
Used t i e = (get_elem? t i ≡ some e) × (e.taken ≡ true)

abbrev pub AreUnique : List Entry → Type 0
AreUnique t =
    (i j : ℕ) (a b : Entry) → Used t i a → Used t j b → same_name a.name b.name ≡ true → i ≡ j

module _ (t : List Entry) (i : ℕ) (new : Entry) (l : i < length t) (u : AreUnique t) where
  -- An entry that gets a name that no other one has, or none.
  set-AreUnique :
      ((j : ℕ) (b : Entry)
        → i ≢ j
        → Used t j b
        → new.taken ≡ true
        → same_name b.name new.name ≡ false)
      → AreUnique (set t i new)
  set-AreUnique fresh j k a b ua ub s = elim (ℕ_discrete i j) [
    | yes p ↦ elim (ℕ_discrete i k) [
      | yes q ↦ sym p ∙ q
      | no n ↦
          let at : get_elem? t k ≡ some b = sym (get_elem?-set_ne t i k new n) ∙ ub.0 in
          let is : new ≡ a =
            some_inj new a
              (sym (get_elem?-set_self t i new l) ∙ ap (λ x. get_elem? (set t i new) x) p ∙ ua.0) in
          let f = fresh k b n (at, ub.1) (ap (λ x. x.taken) is ∙ ua.1) in
          let clash : false ≡ true =
            sym f ∙ ap (λ x. same_name b.name x.name) is ∙ same_name_sym b.name a.name ∙ s in
          absurd (ground arith)
    ]
    | no n ↦ elim (ℕ_discrete i k) [
      | yes q ↦
          let at : get_elem? t j ≡ some a = sym (get_elem?-set_ne t i j new n) ∙ ua.0 in
          let is : new ≡ b =
            some_inj new b
              (sym (get_elem?-set_self t i new l) ∙ ap (λ x. get_elem? (set t i new) x) q ∙ ub.0) in
          let f = fresh j a n (at, ua.1) (ap (λ x. x.taken) is ∙ ub.1) in
          let clash : false ≡ true = sym f ∙ ap (λ x. same_name a.name x.name) is ∙ s in
          absurd (ground arith)
      | no m ↦
          u j k a b (sym (get_elem?-set_ne t i j new n) ∙ ua.0, ua.1)
            (sym (get_elem?-set_ne t i k new m) ∙ ub.0, ub.1) s
    ]
  ]

module _ (dev : List ℕ) (t : List Entry) (u : AreUnique t) where
  placed-AreUnique :
      (param : ℕ) (k : Option ℕ) (i : ℕ) (e : Entry)
      → odp_pktio_lookup dev t ≡ 0
      → i < length t
      → AreUnique (open_at dev param k i (some e) t).1
  unfolding init_pktio_entry odp_pktio_lookup
  placed-AreUnique param none i e z l =
      set-AreUnique t i (not_opened param e) l u (λ j b n x y. absurd (ground arith))
  placed-AreUnique param (some k) i e z l =
      set-AreUnique t i (opened dev param k (suc i) e) l u
        (λ j b n x y. lookup_from_none dev 0 t j b z x.0 x.1)

  slot-AreUnique :
      (param : ℕ) (k : Option ℕ)
      → odp_pktio_lookup dev t ≡ 0
      → AreUnique (open_slot dev param k (first_free (λ x. x.taken) t) t).1
  slot-AreUnique param k z = elim (Option-cases (first_free (λ (x : Entry). x.taken) t)) [
    | inl f ↦ subst (λ o. AreUnique (open_slot dev param k o t).1) (sym f) u
    | inr (i, f) ↦
        let (e, g, l) = first_free-get (λ x. x.taken) t i f in
        subst (λ o. AreUnique (open_slot dev param k o t).1) (sym f)
          (subst (λ o. AreUnique (open_at dev param k i o t).1) (sym g)
            (placed-AreUnique param k i e z l))
  ]

  open_found-AreUnique :
      (param : ℕ) (opens : List Bool) (id : ℕ)
      → odp_pktio_lookup dev t ≡ id
      → AreUnique (open_found id dev param opens t).1
  unfolding open_found setup_pktio_entry
  open_found-AreUnique param opens zero z = elim (Bool-cases (leb if_namesize (length dev))) [
    | inl s ↦ rw s u
    | inr s ↦ rw s (slot-AreUnique param (first_open opens) z)
  ]
  open_found-AreUnique param opens (suc id) z =
      subst (λ b. AreUnique (if b then setup_pktio_entry dev param opens t else (0, t)).1)
        (sym (ne-eq_false (suc id) 0 (λ h. absurd (omega arith)))) u

get_elem?-length : (t : List Entry) (i : ℕ) (e : Entry) → get_elem? t i ≡ some e → i < length t
get_elem?-length [] i e g = absurd (ground arith)
get_elem?-length (a ∷ t) zero e g = omega arith
get_elem?-length (a ∷ t) (suc i) e g = omega (arith, get_elem?-length t i e g)

if-AreUnique :
    (b : Bool) (x y : Bool × List Entry)
    → AreUnique x.1
    → AreUnique y.1
    → AreUnique (if b then x else y).1
if-AreUnique true x y u v = u
if-AreUnique false x y u v = v

close_entry-AreUnique :
    (closed : Bool) (id : ℕ) (t : List Entry) (o : Option Entry)
    → get_pktio_entry id t ≡ o
    → AreUnique t
    → AreUnique (close_entry closed id o t).1
close_entry-AreUnique closed id t none g u = u
close_entry-AreUnique closed id t (some e) g u = elim (Bool-cases (id == 0)) [
  | inl z ↦ absurd (ground arith)
  | inr z ↦
      let at : get_elem? t (id - 1) ≡ some e =
        sym (ap (λ b. if b then none else get_elem? t (id - 1)) z) ∙ g in
      let freed =
        set-AreUnique t (id - 1) (record e { taken = false }) (get_elem?-length t (id - 1) e at) u
          (λ j b n x w. absurd (ground arith)) in
      if-AreUnique e.taken (closed, set t (id - 1) (record e { taken = false })) (false, t) freed u
]

-- Calls one after another.
pub data Call : Type 0 where
  opening : List ℕ → ℕ → List Bool → Call
  closing : Bool → ℕ → Call

unfoldable pub run_calls : List Call → List Entry → List Entry
unfolding odp_pktio_open odp_pktio_close
run_calls [] t = t
run_calls (opening dev param opens ∷ cs) t = run_calls cs (odp_pktio_open dev param opens t).1
run_calls (closing closed id ∷ cs) t = run_calls cs (odp_pktio_close closed id t).1

-- Whatever calls of odp_pktio_open and odp_pktio_close run one after another, each to its end,
-- on a table where no two interfaces in use have one name, no two have one afterwards.
pub run_calls-AreUnique :
    (cs : List Call) (t : List Entry) → AreUnique t → AreUnique (run_calls cs t)
unfolding run_calls odp_pktio_open odp_pktio_close
run_calls-AreUnique [] t u = u
run_calls-AreUnique (opening dev param opens ∷ cs) t u =
    run_calls-AreUnique cs (odp_pktio_open dev param opens t).1
      (open_found-AreUnique dev t u param opens (odp_pktio_lookup dev t) refl)
run_calls-AreUnique (closing closed id ∷ cs) t u =
    run_calls-AreUnique cs (odp_pktio_close closed id t).1
      (close_entry-AreUnique closed id t (get_pktio_entry id t) refl u)

false-true : (false ≡ true) → ⊥
false-true e = absurd (ground arith)

-- If no open interface has the name, it fits and two entries are free for it, then two threads
-- that call odp_pktio_open with it, and both look it up before either goes on, get two handles,
-- and two interfaces in use have the name.
pub open_found_race :
    (dev : List ℕ) (p p' : ℕ) (os os' : List Bool) (t : List Entry) (k k' i i' : ℕ) (e e' : Entry)
    → odp_pktio_lookup dev t ≡ 0
    → IsReady dev os t k i e
    → IsReady dev os' (set t i (opened dev p k (suc i) e)) k' i' e'
    → let first = open_found (odp_pktio_lookup dev t) dev p os t in
      let second = open_found (odp_pktio_lookup dev t) dev p' os' first.1 in
      (first.0 ≡ suc i) × (second.0 ≡ suc i') × ¬ (AreUnique second.1)
unfolding open_found
open_found_race dev p p' os os' t k k' i i' e e' z r r' =
    let new = opened dev p k (suc i) e in
    let new' = opened dev p' k' (suc i') e' in
    let (a, g, l) = first_free-get (λ x. x.taken) t i r.place in
    let (a', g', l') = first_free-get (λ x. x.taken) (set t i new) i' r'.place in
    let apart : i' ≢ i = λ q.
      let old : get_elem? (set t i new) i' ≡ some new =
        ap (λ x. get_elem? (set t i new) x) q ∙ get_elem?-set_self t i new l in
      let free = first_free-valid (λ x. x.taken) (set t i new) i' new r'.place old in
      absurd (false-true (sym free ∙ opened-taken dev p k (suc i) e)) in
    let one = ap (λ x. open_found x dev p os t) z ∙ setup_pktio_entry_lem dev p os t k i e r in
    let two =
      ap (λ x. open_found x dev p' os' (set t i new)) z
      ∙ setup_pktio_entry_lem dev p' os' (set t i new) k' i' e' r' in
    rw (one, two)
      (
        refl,
        refl,
        λ u. apart (
            u i' i new' new
              (get_elem?-set_self (set t i new) i' new' l', opened-taken dev p' k' (suc i') e')
              (
                get_elem?-set_ne (set t i new) i' i new' apart ∙ get_elem?-set_self t i new l,
                opened-taken dev p k (suc i) e,
              )
              (same_name_self dev)),
      )
