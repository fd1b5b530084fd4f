-- ===== src/Classify/Verify.antt =====
-- include/odp_classification_inlines.h and `verify_pmr`: whether a packet meets a rule.
--
-- The packet's bytes are read at the address of its first byte and the offsets of its parsed header.
use Prim.Native.Nat.{bit_and}
use odp.Prelude.{
  ℕ, zero, suc, ◌+◌, ◌&&◌, Bool, true, false, Option, none, some, List, [], ◌∷◌, ◌==◌,
  if◌then◌else◌, get_elem?, take, add32,
}
use odp.Parser.{Header, be16, be32}
use odp.Classify.{TermKind, Term, Pmr, PmrRef, rule, rule_set, Tables}

-- `term_value->val == (x & term_value->mask)`
abbrev pub meets : Term → ℕ → Bool
meets t x = t.val == bit_and x t.mask

unfoldable pub verify_pmr_packet_len : Header → Term → Bool
verify_pmr_packet_len h t = meets t h.frame_len

unfoldable pub verify_pmr_ip_proto : (ℕ → ℕ) → ℕ → Header → Term → Bool
verify_pmr_ip_proto mem a h t = h.input.ipv4 && meets t (mem (a + h.l3_offset + 9))

unfoldable pub verify_pmr_ipv4_saddr : (ℕ → ℕ) → ℕ → Header → Term → Bool
verify_pmr_ipv4_saddr mem a h t = h.input.ipv4 && meets t (be32 mem (a + h.l3_offset + 12))

unfoldable pub verify_pmr_ipv4_daddr : (ℕ → ℕ) → ℕ → Header → Term → Bool
verify_pmr_ipv4_daddr mem a h t = h.input.ipv4 && meets t (be32 mem (a + h.l3_offset + 16))

unfoldable pub verify_pmr_tcp_sport : (ℕ → ℕ) → ℕ → Header → Term → Bool
verify_pmr_tcp_sport mem a h t = h.input.tcp && meets t (be16 mem (a + h.l4_offset))

unfoldable pub verify_pmr_tcp_dport : (ℕ → ℕ) → ℕ → Header → Term → Bool
verify_pmr_tcp_dport mem a h t = h.input.tcp && meets t (be16 mem (a + h.l4_offset + 2))

unfoldable pub verify_pmr_udp_dport : (ℕ → ℕ) → ℕ → Header → Term → Bool
verify_pmr_udp_dport mem a h t = h.input.udp && meets t (be16 mem (a + h.l4_offset + 2))

unfoldable pub verify_pmr_udp_sport : (ℕ → ℕ) → ℕ → Header → Term → Bool
verify_pmr_udp_sport mem a h t = h.input.udp && meets t (be16 mem (a + h.l4_offset))

-- The SPI is behind 4 bytes in AH, and first in ESP.
unfoldable pub verify_pmr_ipsec_spi : (ℕ → ℕ) → ℕ → Header → Term → Bool
verify_pmr_ipsec_spi mem a h t =
    h.input.ipsec
    && (if h.l4_protocol == 51
        then meets t (be32 mem (a + h.l4_offset + 4))
        else h.l4_protocol == 50 && meets t (be32 mem (a + h.l4_offset)))

-- The terms that are not implemented, such as `verify_pmr_dmac`: they return 0.
abbrev pub unimplemented : Bool
unimplemented = false

-- The switch of `verify_pmr` on one term.
unfoldable pub verify_term : TermKind → (ℕ → ℕ) → ℕ → Header → Term → Bool
unfolding verify_pmr_packet_len verify_pmr_ip_proto verify_pmr_ipv4_saddr verify_pmr_ipv4_daddr
    verify_pmr_tcp_sport verify_pmr_tcp_dport verify_pmr_udp_sport verify_pmr_udp_dport
    verify_pmr_ipsec_spi
verify_term TermKind.len mem a h t = verify_pmr_packet_len h t
verify_term TermKind.ethtype_0 mem a h t = unimplemented
verify_term TermKind.ethtype_x mem a h t = unimplemented
verify_term TermKind.vlan_id_0 mem a h t = unimplemented
verify_term TermKind.vlan_id_x mem a h t = unimplemented
verify_term TermKind.dmac mem a h t = unimplemented
verify_term TermKind.ipproto mem a h t = verify_pmr_ip_proto mem a h t
verify_term TermKind.udp_dport mem a h t = verify_pmr_udp_dport mem a h t
verify_term TermKind.tcp_dport mem a h t = verify_pmr_tcp_dport mem a h t
verify_term TermKind.udp_sport mem a h t = verify_pmr_udp_sport mem a h t
verify_term TermKind.tcp_sport mem a h t = verify_pmr_tcp_sport mem a h t
verify_term TermKind.sip_addr mem a h t = verify_pmr_ipv4_saddr mem a h t
verify_term TermKind.dip_addr mem a h t = verify_pmr_ipv4_daddr mem a h t
verify_term TermKind.sip6_addr mem a h t = unimplemented
verify_term TermKind.dip6_addr mem a h t = unimplemented
verify_term TermKind.ipsec_spi mem a h t = verify_pmr_ipsec_spi mem a h t
verify_term TermKind.ld_vni mem a h t = unimplemented
verify_term TermKind.inner_hdr_off mem a h t = true

-- The loop over the terms, up to the first that fails.
unfoldable pub verify_terms : (ℕ → ℕ) → ℕ → Header → List Term → Bool
unfolding verify_term
verify_terms mem a h [] = true
verify_terms mem a h (t ∷ ts) =
    let rest = verify_terms mem a h ts in if verify_term t.term mem a h t then rest else false

-- Whether the rule is met: it is in use, and so are all its terms.
abbrev pub rule_met : (ℕ → ℕ) → ℕ → Header → Option Pmr → Bool
rule_met mem a h none = false
rule_met mem a h (some p) = p.valid && verify_terms mem a h (take p.num_pmr p.terms)

abbrev pub deref : Tables → PmrRef → Option Pmr
deref t (rule i) = get_elem? t.pmr i
deref t (rule_set i) = get_elem? t.pmr_set i

abbrev pub count_up : List Pmr → ℕ → List Pmr
count_up [] i = []
count_up (p ∷ ps) zero = record p { count = add32 p.count 1 } ∷ ps
count_up (p ∷ ps) (suc i) = p ∷ count_up ps i

-- `odp_atomic_inc_u32(&pmr->s.count)`
unfoldable pub bump : PmrRef → Tables → Tables
bump (rule i) t = record t { pmr = count_up t.pmr i }
bump (rule_set i) t = record t { pmr_set = count_up t.pmr_set i }

-- Whether it returns true, and the tables.
unfoldable pub verify_pmr : (ℕ → ℕ) → ℕ → Header → PmrRef → Tables → Bool × Tables
unfolding verify_terms bump
verify_pmr mem a h p t = if rule_met mem a h (deref t p) then (true, bump p t) else (false, t)
