-- ===== src/Classify/Tests.antt =====
-- Classification on concrete tables.
use odp.Prelude.{
  ◌^◌, ℕ, zero, suc, ◌+◌, ◌*◌, ◌/◌, ◌%◌, ◌≡◌, ◌≢◌, refl, true, false, Option, none, some, [], ◌∷◌,
  arith, get_elem?,
}
use odp.Parser.{Header, no_input, no_error, no_output}
use odp.Parser.Flags.{parsed}
use odp.Parser.Walk.{AreBytes}
use odp.Classify.{
  TermKind, Term, Pmr, PmrRef, rule, rule_set, Cos, Tables, Classifier, Match, first_free,
  odp_pmr_create, odp_pmr_match_set_create,
}
use odp.Classify.Verify.{verify_term, verify_terms, rule_met, deref}
use odp.Classify.Select.{match_pmr_cos, match_qos_l3_cos, at_qos, pktio_select_cos}
use odp.Classify.Rules.{HavePlaces, under_mask, odp_pmr_create_lem}
use odp.Classify.Sets.{placed, short_terms, odp_pmr_match_set_create_lem}
use odp.Classify.Chains.{IsLike, Chain, last, more}
use odp.Classify.Acyclic.{Falls, match_pmr_cos_cycle, match_pmr_cos_total}
use odp.Classify.Choice.{hit, choice, pktio_select_cos_lem, match_qos_l3_cos_ipv6}

-- A parsed UDP packet over IPv4.
abbrev udp_packet : Header
udp_packet = record {
  input = record no_input { eth = true; l2 = true; l3 = true; l4 = true; ipv4 = true; udp = true };
  error = no_error;
  output = no_output;
  l2_offset = 0;
  l3_offset = 14;
  l4_offset = 34;
  payload_offset = 42;
  vlan_s_tag = 0;
  vlan_c_tag = 0;
  l3_protocol = 0x0800;
  l3_len = 46;
  l4_protocol = 17;
  l4_len = 26;
  frame_len = 60;
}

abbrev ipv6_packet : Header
ipv6_packet = record udp_packet {
  input = record no_input { eth = true; l2 = true; l3 = true; ipv6 = true };
}

-- Each address holds its lowest byte: the destination port is 0x2425.
abbrev bytes : ℕ → ℕ
bytes a = a % 256

bytes-AreBytes : AreBytes bytes
bytes-AreBytes a = omega arith

abbrev unused : Term
unused = record { term = TermKind.len; val = 60; mask = 65535 }

abbrev free_rule : Pmr
free_rule = record { valid = false; count = 7; num_pmr = 0; terms = unused ∷ [] }

abbrev port_rule : Pmr
port_rule = record {
  valid = true;
  count = 0;
  num_pmr = 1;
  terms = record { term = TermKind.udp_dport; val = 0x2425; mask = 65535 } ∷ [];
}

abbrev plain : Cos
plain = record {
  queue = some 3;
  pool = none;
  pmr = none;
  linked_cos = none;
  valid = true;
  drop_policy = 0;
  flow_set = 0;
  name = [];
  headroom = 0;
}

-- Class 1 is linked to class 0, and class 2 to itself.
abbrev tables : Tables
tables = record {
  cos =
      plain
      ∷ record plain { pmr = some (rule 0); linked_cos = some 0 }
      ∷ record plain { pmr = some (rule 0); linked_cos = some 2 }
      ∷ [];
  pmr = port_rule ∷ free_rule ∷ [];
  pmr_set = record free_rule { terms = unused ∷ unused ∷ unused ∷ [] } ∷ [];
}

abbrev port_match : Match
port_match = record {
  term = TermKind.udp_dport;
  val = 0x25 ∷ 0x24 ∷ [];
  mask = 0xff ∷ 0xff ∷ [];
  val_sz = 2;
}

abbrev long_match : Match
long_match = record port_match { val_sz = 16 }

created : (odp_pmr_create port_match tables).0 ≡ 1
unfolding odp_pmr_create
created = refl

created_meets :
    rule_met bytes 0 udp_packet (deref (odp_pmr_create port_match tables).1 (rule 1)) ≡ true
unfolding odp_pmr_create verify_term verify_terms
created_meets = refl

abbrev returned_count : Option (Option ℕ × ℕ × Tables) → Option ℕ
returned_count none = none
returned_count (some r) = r.0

-- A set of one term that is too long compares with the term of the entry's last user.
stale_counted : returned_count (odp_pmr_match_set_create 1 (long_match ∷ []) 9 tables) ≡ some 0
unfolding odp_pmr_match_set_create
stale_counted = refl

-- A size that is negative as an `int`.
runs_out : odp_pmr_match_set_create 1 (record port_match { val_sz = 2 ^ 31 } ∷ []) 9 tables ≡ none
unfolding odp_pmr_match_set_create
runs_out = refl

tables-HavePlaces : HavePlaces tables
tables-HavePlaces zero p e = ground arith
tables-HavePlaces (suc zero) p e = ground arith
tables-HavePlaces (suc (suc i)) p e = absurd (ground arith)

free_is_1 : first_free (λ (p : Pmr). p.valid) tables.pmr ≡ some 1
unfolding first_free
free_is_1 = refl

free_set : first_free (λ (p : Pmr). p.valid) tables.pmr_set ≡ some 0
unfolding first_free
free_set = refl

odp_pmr_create_lem_example :
    ((odp_pmr_create port_match tables).0 ≡ 1)
    × ((mem : ℕ → ℕ) (a : ℕ) (h : Header)
        → rule_met mem a h (deref (odp_pmr_create port_match tables).1 (rule 1))
          ≡ verify_term TermKind.udp_dport mem a h (under_mask port_match))
    × ((q : PmrRef) → q ≢ rule 1 → deref (odp_pmr_create port_match tables).1 q ≡ deref tables q)
    × ((odp_pmr_create port_match tables).1.cos ≡ tables.cos)
odp_pmr_create_lem_example =
    odp_pmr_create_lem port_match tables 1 (omega arith) free_is_1 tables-HavePlaces

odp_pmr_match_set_create_lem_example :
    (p' : Pmr) × (t' : Tables) × (odp_pmr_match_set_create 2 (port_match ∷ long_match ∷ []) 9 tables
      ≡ some (some (short_terms (port_match ∷ long_match ∷ [])), 0, t'))
    × (deref t' (rule_set 0) ≡ some p')
    × (p'.valid ≡ true)
    × (p'.num_pmr ≡ 2)
    × ((k : ℕ)
        → get_elem? p'.terms k
          ≡ placed
              (get_elem? (port_match ∷ long_match ∷ []) k)
              (get_elem? (unused ∷ unused ∷ unused ∷ []) k))
odp_pmr_match_set_create_lem_example =
    odp_pmr_match_set_create_lem (port_match ∷ long_match ∷ []) 9 0 tables
      (record free_rule { terms = unused ∷ unused ∷ unused ∷ [] }) (omega arith)
      (omega arith, (omega arith, tt)) free_set refl (omega arith)

abbrev chain_tables : Tables
chain_tables = record tables {
  cos = plain ∷ record plain { pmr = some (rule 0); linked_cos = some 0 } ∷ [];
}

port_met : rule_met bytes 0 udp_packet (deref tables (rule 0)) ≡ true
unfolding verify_term verify_terms
port_met = refl

chain-Falls : Falls chain_tables (λ c. c)
chain-Falls zero d e = absurd (ground arith)
chain-Falls (suc zero) d e = ground arith
chain-Falls (suc (suc c)) d e = absurd (ground arith)

IsLike-self : (t : Tables) → IsLike t t
IsLike-self t = record { classes = refl; rules = λ mem a h p. refl }

match_pmr_cos_total_example :
    (o : Option ℕ) × (v : Tables) × (match_pmr_cos 3 bytes 0 udp_packet
        (some 1)
        (some (rule 0))
        chain_tables
      ≡ some (o, v))
    × IsLike chain_tables v
match_pmr_cos_total_example =
    match_pmr_cos_total bytes 0 udp_packet chain_tables (λ c. c) chain-Falls 1 (some (rule 0)) 3
      chain_tables (omega arith) (IsLike-self chain_tables)

match_pmr_cos_cycle_example :
    match_pmr_cos 1000 bytes 0 udp_packet (some 2) (some (rule 0)) tables ≡ none
match_pmr_cos_cycle_example =
    match_pmr_cos_cycle bytes 0 udp_packet tables 2 (rule 0) refl refl refl port_met 1000 tables
      (IsLike-self tables)

-- The interface has one rule that leads to class 1, and class 1 leads to class 0.
abbrev interface : Classifier
interface = record {
  num_pmr = 1;
  pmr = some (rule 0) ∷ [];
  cos = some 1 ∷ [];
  error_cos = none;
  default_cos = some 2;
  l3_precedence = true;
  l2_cos_table = [];
  l3_cos_table = [];
  flow_set = 0;
  headroom = 0;
  skip = 0;
}

class_0_last : Chain bytes 0 udp_packet tables (some 1) (some (rule 0)) 0 1
class_0_last = more refl port_met (last refl port_met tt)

already_parsed : parsed bytes 0 udp_packet ≡ some udp_packet
unfolding parsed
already_parsed = refl

pktio_select_cos_lem_example :
    (v : Tables) × (pktio_select_cos 3 bytes 0 udp_packet interface tables
      ≡ some (choice bytes 0 udp_packet interface (some 0), v))
    × IsLike tables v
pktio_select_cos_lem_example =
    pktio_select_cos_lem 2 bytes 0 udp_packet udp_packet interface tables (some 0) already_parsed
      (hit class_0_last (omega arith))

match_qos_l3_cos_ipv6_example :
    match_qos_l3_cos bytes 0 ipv6_packet (none ∷ some 1 ∷ [])
    ≡ at_qos (none ∷ some 1 ∷ []) (bytes 17 % 16 * 4 + bytes 16 / 64)
match_qos_l3_cos_ipv6_example =
    match_qos_l3_cos_ipv6 bytes 0 ipv6_packet (none ∷ some 1 ∷ []) bytes-AreBytes refl refl refl
