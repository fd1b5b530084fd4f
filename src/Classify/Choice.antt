-- ===== src/Classify/Choice.antt =====
-- odp_classification.c, `pktio_select_cos`: the order in which a class of service is looked for.
use odp.Prelude.{
  ℕ, zero, suc, ◌+◌, ◌*◌, ◌/◌, ◌%◌, ◌≤◌, ◌≡◌, refl, ap, ◌∙◌, true, false, Option, none, some, List,
  ◌∷◌, if◌then◌else◌, arith, inl, inr, Bool-cases,
}
use odp.Parser.{Header, any_error}
use odp.Parser.Flags.{parsed}
use odp.Parser.Walk.{AreBytes}
use odp.Classify.{PmrRef, Tables, Classifier}
use odp.Classify.Select.{
  match_rules, match_qos_cos, match_qos_l3_cos, at_qos, ipv6_dscp, or_else, or_qos, when_parsed,
  first_found, select_parsed, pktio_select_cos,
}
use odp.Classify.Chains.{IsLike, Stops, Chain, Stops-found, match_pmr_cos-Chain}

-- What the rules of an interface give: the last class of the first rule's chain that is not empty.
-- The chains are shorter than the fuel.
pub data Gives (fuel : ℕ) (mem : ℕ → ℕ) (a : ℕ) (h : Header) (t : Tables)
    : ℕ → List (Option PmrRef) → List (Option ℕ) → Option ℕ → Type 0 where
  end : {ps : List (Option PmrRef)} {cs : List (Option ℕ)} → Gives fuel mem a h t zero ps cs none
  skip :
      {n : ℕ} {p : Option PmrRef} {ps : List (Option PmrRef)} {c : Option ℕ} {cs : List (Option ℕ)}
      {r : Option ℕ}
      → Stops mem a h t c p
      → Gives fuel mem a h t n ps cs r
      → Gives fuel mem a h t (suc n) (p ∷ ps) (c ∷ cs) r
  hit :
      {n : ℕ} {p : Option PmrRef} {ps : List (Option PmrRef)} {c : Option ℕ} {cs : List (Option ℕ)}
      {r k : ℕ}
      → Chain mem a h t c p r k
      → k + 1 ≤ fuel
      → Gives fuel mem a h t (suc n) (p ∷ ps) (c ∷ cs) (some r)

module _ (fuel : ℕ) (mem : ℕ → ℕ) (a : ℕ) (h : Header) (t : Tables) where
  match_rules-Gives :
      {n : ℕ} {ps : List (Option PmrRef)} {cs : List (Option ℕ)} {r : Option ℕ}
      → Gives fuel mem a h t n ps cs r
      → (u : Tables) → IsLike t u
      → (v : Tables) × (match_rules (suc fuel) mem a h n ps cs u ≡ some (r, v)) × IsLike t v
  unfolding match_rules
  match_rules-Gives end u l = (u, refl, l)
  match_rules-Gives (skip {n} {p} {ps} {c} {cs} s g) u l =
      let (v, e, l') = match_rules-Gives g u l in
      (
        v,
        ap (λ x. first_found x (match_rules (suc fuel) mem a h n ps cs))
              (Stops-found mem a h t fuel c p u l s)
            ∙ e,
        l',
      )
  match_rules-Gives (hit {n} {p} {ps} {c} {cs} k b) u l =
      let (v, e, l') = match_pmr_cos-Chain mem a h t (suc fuel) k u (omega arith) l in
      (v, ap (λ x. first_found x (match_rules (suc fuel) mem a h n ps cs)) e, l')

IsLike-self : (t : Tables) → IsLike t t
IsLike-self t = record { classes = refl; rules = λ mem a h p. refl }

or_qos-some : (r o : Option ℕ) (t : Tables) → or_qos o (some (r, t)) ≡ some (or_else r o, t)
or_qos-some none o t = refl
or_qos-some (some c) o t = refl

-- The class of a parsed packet, once the rules have been tried.
abbrev pub choice : (ℕ → ℕ) → ℕ → Header → Classifier → Option ℕ → Option ℕ
choice mem a h cls r =
    if any_error h.error
    then cls.error_cos
    else or_else r (or_else (match_qos_cos mem a h cls) cls.default_cos)

select_parsed_lem :
    (fuel : ℕ) (mem : ℕ → ℕ) (a : ℕ) (h : Header) (cls : Classifier) (t : Tables) (r : Option ℕ)
    → Gives fuel mem a h t cls.num_pmr cls.pmr cls.cos r
    → (v : Tables) × (select_parsed (suc fuel) mem a h cls t ≡ some (choice mem a h cls r, v))
      × IsLike t v
unfolding select_parsed
select_parsed_lem fuel mem a h cls t r g = elim (Bool-cases (any_error h.error)) [
  | inl bad ↦ (t, rw bad refl, IsLike-self t)
  | inr good ↦
      let (v, found, l) = match_rules-Gives fuel mem a h t g t (IsLike-self t) in
      let others = or_else (match_qos_cos mem a h cls) cls.default_cos in
      (v, rw good (ap (or_qos others) found ∙ or_qos-some r others v), l)
]

-- For a packet whose parse gives a header, and an interface whose rules have chains shorter than
-- the fuel, pktio_select_cos returns: for a packet with errors the error class; otherwise the
-- class at the end of the chain of the first rule that is met with a valid class, if there is
-- one; otherwise the class of the packet's QoS value, if there is one; otherwise the default
-- class. Classes and rules stay as they were, up to the rules' counts.
pub pktio_select_cos_lem :
    (fuel : ℕ) (mem : ℕ → ℕ) (a : ℕ) (h h' : Header) (cls : Classifier) (t : Tables) (r : Option ℕ)
    → parsed mem a h ≡ some h'
    → Gives fuel mem a h' t cls.num_pmr cls.pmr cls.cos r
    → (v : Tables) × (pktio_select_cos (suc fuel) mem a h cls t ≡ some (choice mem a h' cls r, v))
      × IsLike t v
unfolding pktio_select_cos
pktio_select_cos_lem fuel mem a h h' cls t r e g =
    let (v, found, l) = select_parsed_lem fuel mem a h' cls t r g in
    (v, ap (when_parsed (suc fuel) mem a cls t) e ∙ found, l)

-- The number of the class is read from the third and fourth byte of the header.
ipv6_dscp_lem :
    (mem : ℕ → ℕ) (p : ℕ) → AreBytes mem → ipv6_dscp mem p ≡ mem (p + 3) % 16 * 4 + mem (p + 2) / 64
unfolding ipv6_dscp
ipv6_dscp_lem mem p bytes = omega (arith, bytes p, bytes (p + 1), bytes (p + 2), bytes (p + 3))

-- If memory holds bytes, the class that match_qos_l3_cos gives a packet that is marked as known
-- in layer 3, as IPv6 and not as IPv4, is looked up by a number made of the third and fourth
-- byte of the header, which are of the flow label; the DSCP, which is in the first two, has no
-- part in it.
pub match_qos_l3_cos_ipv6 :
    (mem : ℕ → ℕ) (a : ℕ) (h : Header) (table : List (Option ℕ))
    → AreBytes mem
    → h.input.l3 ≡ true
    → h.input.ipv4 ≡ false
    → h.input.ipv6 ≡ true
    → match_qos_l3_cos mem a h table
      ≡ at_qos table (mem (a + h.l3_offset + 3) % 16 * 4 + mem (a + h.l3_offset + 2) / 64)
unfolding match_qos_l3_cos
match_qos_l3_cos_ipv6 mem a h table bytes l3 ipv4 ipv6 =
    rw (l3, ipv4, ipv6) (ap (at_qos table) (ipv6_dscp_lem mem (a + h.l3_offset) bytes))
