-- ===== src/Classify.antt =====
-- platform/linux-generic/odp_classification.c and include/odp_classification_datamodel.h: the
-- tables of classes of service and of packet matching rules.
--
-- A pointer into a table is an index, NULL is `none`, and a pointer to a rule says whether it is one
-- of the table of rules or of the table of sets. A handle is an index; the largest 32-bit number is
-- the invalid one, and lies past every table. A call on a packet interface takes the classifier of
-- the entry that `get_pktio_entry` gives, `none` for NULL. Calls run one after another.
pub mod Interface
pub mod Verify
pub mod Select
pub mod Rules
pub mod Sets
pub mod Chains
pub mod Acyclic
pub mod Choice
mod Tests
use Prim.Native.Nat.{bit_and}
use odp.Prelude.{
  ℕ, zero, suc, ◌+◌, ◌-◌, ◌*◌, ◌%◌, ◌^◌, ◌&&◌, Bool, true, false, not, Option, none, some, List, [],
  ◌∷◌, ltb, leb, ◌==◌, if◌then◌else◌, get_elem?, set, take, sub32, u32_mod,
}

-- odp_pmr_term_e.
pub data TermKind : Type 0 where
  len : TermKind
  ethtype_0 : TermKind
  ethtype_x : TermKind
  vlan_id_0 : TermKind
  vlan_id_x : TermKind
  dmac : TermKind
  ipproto : TermKind
  udp_dport : TermKind
  tcp_dport : TermKind
  udp_sport : TermKind
  tcp_sport : TermKind
  sip_addr : TermKind
  dip_addr : TermKind
  sip6_addr : TermKind
  dip6_addr : TermKind
  ipsec_spi : TermKind
  ld_vni : TermKind
  inner_hdr_off : TermKind

-- pmr_term_value_t.
pub record Term : Type 0 where
  pub term : TermKind
  pub val : ℕ
  pub mask : ℕ

-- struct pmr_s, with the terms of a set behind its own.
pub record Pmr : Type 0 where
  pub valid : Bool
  pub count : ℕ
  pub num_pmr : ℕ
  pub terms : List Term

-- A pointer to a rule.
pub data PmrRef : Type 0 where
  rule : ℕ → PmrRef
  rule_set : ℕ → PmrRef

-- struct cos_s.
pub record Cos : Type 0 where
  pub queue : Option ℕ
  pub pool : Option ℕ
  pub pmr : Option PmrRef
  pub linked_cos : Option ℕ
  pub valid : Bool
  pub drop_policy : ℕ
  pub flow_set : ℕ
  pub name : List ℕ
  pub headroom : ℕ

pub record Tables : Type 0 where
  pub cos : List Cos
  pub pmr : List Pmr
  pub pmr_set : List Pmr

-- classifier_t.
pub record Classifier : Type 0 where
  pub num_pmr : ℕ
  pub pmr : List (Option PmrRef)
  pub cos : List (Option ℕ)
  pub error_cos : Option ℕ
  pub default_cos : Option ℕ
  pub l3_precedence : Bool
  pub l2_cos_table : List (Option ℕ)
  pub l3_cos_table : List (Option ℕ)
  pub flow_set : ℕ
  pub headroom : ℕ
  pub skip : ℕ

abbrev pub invalid_handle : ℕ
invalid_handle = u32_mod - 1

-- The index in a table of what stands at that index behind the first entry.
abbrev pub behind : Option ℕ → Option ℕ
behind none = none
behind (some i) = some (suc i)

-- The first entry of a table that is not valid, for the loops of the three allocations.
unfoldable pub first_free {ℓ} : {A : Type ℓ} → (A → Bool) → List A → Option ℕ
first_free valid [] = none
first_free valid (a ∷ rest) =
    let later = first_free valid rest in if valid a then behind later else some 0

abbrev pub entry {ℓ} : {A : Type ℓ} → (A → Bool) → Option A → Option A
entry valid none = none
entry valid (some a) = if valid a then some a else none

-- The valid entry of a handle, or NULL.
abbrev pub get_cos_entry : Tables → ℕ → Option Cos
get_cos_entry t id = entry (λ c. c.valid) (get_elem? t.cos id)

abbrev pub get_pmr_entry : Tables → ℕ → Option Pmr
get_pmr_entry t id = entry (λ p. p.valid) (get_elem? t.pmr id)

abbrev pub get_pmr_set_entry : Tables → ℕ → Option Pmr
get_pmr_set_entry t id = entry (λ p. p.valid) (get_elem? t.pmr_set id)

abbrev pub new_cos : List ℕ → Cos → Cos
new_cos name c = record c {
  name = take 31 name;
  pmr = none;
  linked_cos = none;
  queue = none;
  pool = none;
  flow_set = 0;
  headroom = 0;
  valid = true;
}

abbrev pub put_cos : Tables → ℕ → Cos → Tables
put_cos t i c = record t { cos = set t.cos i c }

abbrev pub cos_at : List ℕ → Tables → Option ℕ → ℕ × Tables
cos_at name t none = (invalid_handle, t)
cos_at name t (some i) = elim (get_elem? t.cos i) [
  | none ↦ (invalid_handle, t)
  | some c ↦ (i, put_cos t i (new_cos name c))
]

unfoldable pub odp_cos_create : List ℕ → Tables → ℕ × Tables
unfolding first_free
odp_cos_create name t = cos_at name t (first_free (λ c. c.valid) t.cos)

-- A call that changes a valid class of service: whether it returned 0, and the tables.
abbrev pub change_cos : (Cos → Cos) → ℕ → Tables → Bool × Tables
change_cos f id t = elim (get_cos_entry t id) [
  | none ↦ (false, t)
  | some c ↦ (true, put_cos t id (f c))
]

unfoldable pub odp_cos_destroy : ℕ → Tables → Bool × Tables
odp_cos_destroy = change_cos (λ c. record c { valid = false })

unfoldable pub odp_cos_set_queue : ℕ → ℕ → Tables → Bool × Tables
odp_cos_set_queue id queue = change_cos (λ c. record c { queue = some (sub32 queue 1) }) id

unfoldable pub odp_cos_set_drop : ℕ → ℕ → Tables → Bool × Tables
odp_cos_set_drop id policy = change_cos (λ c. record c { drop_policy = policy }) id

-- The number that `memcpy` puts into 8 zeroed bytes of a little-endian host.
unfoldable pub le_value : List ℕ → ℕ
le_value [] = 0
le_value (b ∷ bs) = b + 256 * le_value bs

-- odp_pmr_match_t, its two pointers as the bytes there.
pub record Match : Type 0 where
  pub term : TermKind
  pub val : List ℕ
  pub mask : List ℕ
  pub val_sz : ℕ

abbrev pub term_bytes_max : ℕ
term_bytes_max = 8

abbrev pub masked_term : Match → Term
masked_term m =
    let mask = le_value (take m.val_sz m.mask) in
    record { term = m.term; val = bit_and (le_value (take m.val_sz m.val)) mask; mask = mask }

-- `alloc_pmr` and `alloc_pmr_set`, of the entry that they take.
abbrev pub fresh_pmr : Pmr → Pmr
fresh_pmr p = record p { valid = true; count = 0; num_pmr = 0 }

abbrev pub one_term : Match → Pmr → Pmr
one_term m p = record (fresh_pmr p) { num_pmr = 1; terms = set p.terms 0 (masked_term m) }

abbrev pub pmr_at : Match → Tables → Option ℕ → ℕ × Tables
pmr_at m t none = (invalid_handle, t)
pmr_at m t (some i) = elim (get_elem? t.pmr i) [
  | none ↦ (invalid_handle, t)
  | some p ↦ (i, record t { pmr = set t.pmr i (one_term m p) })
]

unfoldable pub odp_pmr_create : Match → Tables → ℕ × Tables
unfolding first_free le_value
odp_pmr_create m t =
    if ltb term_bytes_max m.val_sz
    then (invalid_handle, t)
    else pmr_at m t (first_free (λ p. p.valid) t.pmr)

unfoldable pub odp_pmr_destroy : ℕ → Tables → Bool × Tables
odp_pmr_destroy id t = elim (get_pmr_entry t id) [
  | none ↦ (false, t)
  | some p ↦ (true, record t { pmr = set t.pmr id (record p { valid = false }) })
]

-- `int val_sz = terms[i].val_sz` is negative from here on: it passes the test of the size, and
-- `memcpy` takes it for a size near 2^64.
abbrev pub is_negative : ℕ → Bool
is_negative val_sz = leb (2 ^ 31) val_sz

abbrev pub counted : Bool → Option (ℕ × List Term) → Option (ℕ × List Term)
counted long none = none
counted long (some (count, ts)) = some (if long then count else suc count, ts)

-- The loop over the terms of a set: how many were taken, and the terms; `none` if a copy leaves its
-- array. A term that is too long leaves the place as it was.
unfoldable pub fill_terms : ℕ → List Match → List Term → Option (ℕ × List Term)
unfolding le_value
fill_terms i [] ts = some (0, ts)
fill_terms i (m ∷ ms) ts =
    let long = ltb term_bytes_max m.val_sz in
    let rest = fill_terms (suc i) ms (if long then ts else set ts i (masked_term m)) in
    if is_negative m.val_sz then none else counted long rest

abbrev pub set_terms : ℕ → ℕ × List Term → Pmr → Pmr
set_terms num (count, ts) p = record (fresh_pmr p) { num_pmr = num; terms = ts }

abbrev pub set_filled :
    ℕ → ℕ → Tables → Pmr → Option (ℕ × List Term) → Option (Option ℕ × ℕ × Tables)
set_filled num i t p none = none
set_filled num i t p (some filled) =
    some (some filled.0, i, record t { pmr_set = set t.pmr_set i (set_terms num filled p) })

abbrev pub pmr_set_at : ℕ → List Match → Tables → Option ℕ → Option (Option ℕ × ℕ × Tables)
pmr_set_at num ms t none = some (none, invalid_handle, t)
pmr_set_at num ms t (some i) = elim (get_elem? t.pmr_set i) [
  | none ↦ some (none, invalid_handle, t)
  | some p ↦ set_filled num i t p (fill_terms 0 ms p.terms)
]

-- The count returned, `none` for -1, what is written to `pmr_set_id`, and the tables; nothing if a
-- copy leaves its array. `old` is what stood there; the number of terms is that of the array.
unfoldable pub odp_pmr_match_set_create :
    ℕ → List Match → ℕ → Tables → Option (Option ℕ × ℕ × Tables)
unfolding first_free fill_terms
odp_pmr_match_set_create num ms old t =
    if ltb 8 num
    then some (none, old, t)
    else pmr_set_at num ms t (first_free (λ p. p.valid) t.pmr_set)

unfoldable pub odp_pmr_match_set_destroy : ℕ → Tables → Bool × Tables
odp_pmr_match_set_destroy id t = elim (get_pmr_set_entry t id) [
  | none ↦ (false, t)
  | some p ↦ (true, record t { pmr_set = set t.pmr_set id (record p { valid = false }) })
]

-- `odp_pmr_terms_avail`.
unfoldable pub terms_avail : List Pmr → ℕ
terms_avail [] = 0
terms_avail (p ∷ ps) = let rest = terms_avail ps in if p.valid then rest else suc rest

abbrev pub odp_pmr_terms_avail : Tables → ℕ
odp_pmr_terms_avail t = terms_avail t.pmr

-- `odp_cos_pmr_cos`, once its three handles are looked up.
abbrev pub link_cos : ℕ → ℕ → ℕ → Tables → Option Cos → Option Cos → Option Pmr → Bool × Tables
link_cos pmr src dst t (some s) (some d) (some p) =
    (true, put_cos t src (record s { pmr = some (rule pmr); linked_cos = some dst }))
link_cos pmr src dst t (some s) (some d) none = (false, t)
link_cos pmr src dst t (some s) none p = (false, t)
link_cos pmr src dst t none d p = (false, t)

unfoldable pub odp_cos_pmr_cos : ℕ → ℕ → ℕ → Tables → Bool × Tables
odp_cos_pmr_cos pmr src dst t =
    link_cos pmr src dst t (get_cos_entry t src) (get_cos_entry t dst) (get_pmr_entry t pmr)
