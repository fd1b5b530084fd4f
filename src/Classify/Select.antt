-- ===== src/Classify/Select.antt =====
-- odp_classification.c: which class of service a packet gets.
--
-- Links between classes of service can form a cycle, so `match_pmr_cos` takes fuel; `none` is fuel
-- run out.
use odp.Prelude.{
  ℕ, zero, suc, ◌+◌, ◌*◌, ◌/◌, ◌%◌, ◌^◌, ◌&&◌, Bool, false, not, Option, none, some, List, [], ◌∷◌,
  if◌then◌else◌, get_elem?,
}
use odp.Parser.{Header, be16, any_error}
use odp.Parser.Flags.{parsed}
use odp.Classify.{PmrRef, Cos, Tables, Classifier}
use odp.Classify.Verify.{verify_pmr}

-- A class if one was found, and the tables.
abbrev pub Found : Type 0
Found = Option ℕ × Tables

abbrev pub or_this : ℕ → Found → Found
or_this c (none, t) = (some c, t)
or_this c (some r, t) = (some r, t)

abbrev pub or_cos : ℕ → Option Found → Option Found
or_cos c none = none
or_cos c (some f) = some (or_this c f)

abbrev pub linked : Tables → ℕ → Option Cos
linked t c = get_elem? t.cos c

abbrev pub is_valid : Option Cos → Bool
is_valid none = false
is_valid (some c) = c.valid

abbrev pub next_cos : Option Cos → Option ℕ
next_cos none = none
next_cos (some c) = c.linked_cos

abbrev pub next_pmr : Option Cos → Option PmrRef
next_pmr none = none
next_pmr (some c) = c.pmr

unfoldable pub match_pmr_cos :
    ℕ → (ℕ → ℕ) → ℕ → Header → Option ℕ → Option PmrRef → Tables → Option Found
unfolding verify_pmr
match_pmr_cos zero mem a h cos pmr t = none
match_pmr_cos (suc fuel) mem a h none pmr t = some (none, t)
match_pmr_cos (suc fuel) mem a h (some c) none t = some (none, t)
match_pmr_cos (suc fuel) mem a h (some c) (some p) t =
    let (ok, t') = verify_pmr mem a h p t in
    let next = match_pmr_cos fuel mem a h (next_cos (linked t' c)) (next_pmr (linked t' c)) t' in
    if not (is_valid (linked t c))
    then some (none, t)
    else if ok
    then or_cos c next
    else some (none, t')

-- `ODPH_IPV4HDR_DSCP(ipv4->tos)`
abbrev pub ipv4_dscp : (ℕ → ℕ) → ℕ → ℕ
ipv4_dscp mem a = mem (a + 1) / 4 % 64

-- `ODPH_IPV6HDR_DSCP(ipv6->ver_tc_flow)`, of the word as a little-endian host reads it.
unfoldable pub ipv6_dscp : (ℕ → ℕ) → ℕ → ℕ
ipv6_dscp mem a =
    (mem a + 256 * (mem (a + 1) + 256 * (mem (a + 2) + 256 * mem (a + 3)))) / 2 ^ 22 % 64

abbrev pub at_qos : List (Option ℕ) → ℕ → Option ℕ
at_qos table i = elim (get_elem? table i) [ none ↦ none | some o ↦ o ]

unfoldable pub match_qos_l3_cos : (ℕ → ℕ) → ℕ → Header → List (Option ℕ) → Option ℕ
unfolding ipv6_dscp
match_qos_l3_cos mem a h table =
    if h.input.l3 && h.input.ipv4
    then at_qos table (ipv4_dscp mem (a + h.l3_offset))
    else if h.input.l3 && h.input.ipv6
    then at_qos table (ipv6_dscp mem (a + h.l3_offset))
    else none

unfoldable pub match_qos_l2_cos : (ℕ → ℕ) → ℕ → Header → List (Option ℕ) → Option ℕ
match_qos_l2_cos mem a h table =
    if h.input.l2 && h.input.vlan && h.input.eth
    then at_qos table (be16 mem (a + h.l2_offset + 12 + 2) / 2 ^ 13 % 8)
    else none

abbrev pub or_else : Option ℕ → Option ℕ → Option ℕ
or_else none o = o
or_else (some c) o = some c

unfoldable pub match_qos_cos : (ℕ → ℕ) → ℕ → Header → Classifier → Option ℕ
unfolding match_qos_l3_cos match_qos_l2_cos
match_qos_cos mem a h cls =
    let l3 = match_qos_l3_cos mem a h cls.l3_cos_table in
    let l2 = match_qos_l2_cos mem a h cls.l2_cos_table in
    if cls.l3_precedence then or_else l3 l2 else or_else l2 l3

-- The class of the first rule that gives one.
abbrev pub first_found : Option Found → (Tables → Option Found) → Option Found
first_found none rest = none
first_found (some (some c, t)) rest = some (some c, t)
first_found (some (none, t)) rest = rest t

-- The loop over the interface's rules.
unfoldable pub match_rules :
    ℕ → (ℕ → ℕ) → ℕ → Header → ℕ → List (Option PmrRef) → List (Option ℕ) → Tables → Option Found
unfolding match_pmr_cos
match_rules fuel mem a h zero ps cs t = some (none, t)
match_rules fuel mem a h (suc n) [] cs t = some (none, t)
match_rules fuel mem a h (suc n) (p ∷ ps) [] t = some (none, t)
match_rules fuel mem a h (suc n) (p ∷ ps) (c ∷ cs) t =
    first_found (match_pmr_cos fuel mem a h c p t) (match_rules fuel mem a h n ps cs)

abbrev pub or_qos : Option ℕ → Option Found → Option Found
or_qos o none = none
or_qos o (some (some c, t)) = some (some c, t)
or_qos o (some (none, t)) = some (o, t)

-- What follows the parse.
unfoldable pub select_parsed : ℕ → (ℕ → ℕ) → ℕ → Header → Classifier → Tables → Option Found
unfolding match_rules match_qos_cos
select_parsed fuel mem a h cls t =
    if any_error h.error
    then some (cls.error_cos, t)
    else or_qos (or_else (match_qos_cos mem a h cls) cls.default_cos)
        (match_rules fuel mem a h cls.num_pmr cls.pmr cls.cos t)

abbrev pub when_parsed : ℕ → (ℕ → ℕ) → ℕ → Classifier → Tables → Option Header → Option Found
when_parsed fuel mem a cls t none = none
when_parsed fuel mem a cls t (some h) = select_parsed fuel mem a h cls t

unfoldable pub pktio_select_cos : ℕ → (ℕ → ℕ) → ℕ → Header → Classifier → Tables → Option Found
unfolding parsed select_parsed
pktio_select_cos fuel mem a h cls t = when_parsed fuel mem a cls t (parsed mem a h)

-- What `packet_classifier` does with the packet: return -1, or call `queue_enq` on the queue of the
-- class, which may be NULL.
pub data Fate : Type 0 where
  refused : Fate
  enqueue : Option ℕ → Fate

abbrev pub fate : Found → Fate × Tables
fate (none, t) = (refused, t)
fate (some c, t) = elim (linked t c) [ none ↦ (refused, t) | some k ↦ (enqueue k.queue, t) ]

abbrev pub fates : Option Found → Option (Fate × Tables)
fates none = none
fates (some f) = some (fate f)

unfoldable pub packet_classifier :
    ℕ → (ℕ → ℕ) → ℕ → Header → Option Classifier → Tables → Option (Fate × Tables)
unfolding pktio_select_cos
packet_classifier fuel mem a h none t = some (refused, t)
packet_classifier fuel mem a h (some cls) t = fates (pktio_select_cos fuel mem a h cls t)
