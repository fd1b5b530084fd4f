-- ===== src/Parser/Flags/Kinds.antt =====
-- odp_packet_flags.c: the flags as a data type, each with its calls and its bit.
use odp.Prelude.{ℕ, ◌≡◌, refl, Bool, Option, ◌==◌, if◌then◌else◌}
use odp.Parser.{InputFlags, Header}
use odp.Parser.Flags.{
  ret_flag, set_flag, odp_packet_has_l2, odp_packet_has_l2_set, odp_packet_has_l3,
  odp_packet_has_l3_set, odp_packet_has_l4, odp_packet_has_l4_set, odp_packet_has_eth,
  odp_packet_has_eth_set, odp_packet_has_jumbo, odp_packet_has_jumbo_set, odp_packet_has_vlan,
  odp_packet_has_vlan_set, odp_packet_has_vlan_qinq, odp_packet_has_vlan_qinq_set,
  odp_packet_has_arp, odp_packet_has_arp_set, odp_packet_has_ipv4, odp_packet_has_ipv4_set,
  odp_packet_has_ipv6, odp_packet_has_ipv6_set, odp_packet_has_ipfrag, odp_packet_has_ipfrag_set,
  odp_packet_has_ipopt, odp_packet_has_ipopt_set, odp_packet_has_ipsec, odp_packet_has_ipsec_set,
  odp_packet_has_udp, odp_packet_has_udp_set, odp_packet_has_tcp, odp_packet_has_tcp_set,
  odp_packet_has_sctp, odp_packet_has_sctp_set, odp_packet_has_icmp, odp_packet_has_icmp_set,
}

-- The flags that the calls are about.
pub data Flag : Type 0 where
  l2 : Flag
  l3 : Flag
  l4 : Flag
  eth : Flag
  jumbo : Flag
  vlan : Flag
  vlan_qinq : Flag
  arp : Flag
  ipv4 : Flag
  ipv6 : Flag
  ipfrag : Flag
  ipopt : Flag
  ipsec : Flag
  udp : Flag
  tcp : Flag
  sctp : Flag
  icmp : Flag

-- The place of a flag in that list.
abbrev pub index : Flag → ℕ
index l2 = 0
index l3 = 1
index l4 = 2
index eth = 3
index jumbo = 4
index vlan = 5
index vlan_qinq = 6
index arp = 7
index ipv4 = 8
index ipv6 = 9
index ipfrag = 10
index ipopt = 11
index ipsec = 12
index udp = 13
index tcp = 14
index sctp = 15
index icmp = 16

abbrev pub same : Flag → Flag → Bool
same f g = index f == index g

-- The call that reads a flag and the one that sets it.
abbrev pub has : Flag → (ℕ → ℕ) → ℕ → Header → Option (Bool × Header)
has l2 = odp_packet_has_l2
has l3 = odp_packet_has_l3
has l4 = odp_packet_has_l4
has eth = odp_packet_has_eth
has jumbo = odp_packet_has_jumbo
has vlan = odp_packet_has_vlan
has vlan_qinq = odp_packet_has_vlan_qinq
has arp = odp_packet_has_arp
has ipv4 = odp_packet_has_ipv4
has ipv6 = odp_packet_has_ipv6
has ipfrag = odp_packet_has_ipfrag
has ipopt = odp_packet_has_ipopt
has ipsec = odp_packet_has_ipsec
has udp = odp_packet_has_udp
has tcp = odp_packet_has_tcp
has sctp = odp_packet_has_sctp
has icmp = odp_packet_has_icmp

abbrev pub has_set : Flag → ℕ → (ℕ → ℕ) → ℕ → Header → Option Header
has_set l2 = odp_packet_has_l2_set
has_set l3 = odp_packet_has_l3_set
has_set l4 = odp_packet_has_l4_set
has_set eth = odp_packet_has_eth_set
has_set jumbo = odp_packet_has_jumbo_set
has_set vlan = odp_packet_has_vlan_set
has_set vlan_qinq = odp_packet_has_vlan_qinq_set
has_set arp = odp_packet_has_arp_set
has_set ipv4 = odp_packet_has_ipv4_set
has_set ipv6 = odp_packet_has_ipv6_set
has_set ipfrag = odp_packet_has_ipfrag_set
has_set ipopt = odp_packet_has_ipopt_set
has_set ipsec = odp_packet_has_ipsec_set
has_set udp = odp_packet_has_udp_set
has_set tcp = odp_packet_has_tcp_set
has_set sctp = odp_packet_has_sctp_set
has_set icmp = odp_packet_has_icmp_set

abbrev pub flag_of : Flag → InputFlags → Bool
flag_of l2 i = i.l2
flag_of l3 i = i.l3
flag_of l4 i = i.l4
flag_of eth i = i.eth
flag_of jumbo i = i.jumbo
flag_of vlan i = i.vlan
flag_of vlan_qinq i = i.vlan_qinq
flag_of arp i = i.arp
flag_of ipv4 i = i.ipv4
flag_of ipv6 i = i.ipv6
flag_of ipfrag i = i.ipfrag
flag_of ipopt i = i.ipopt
flag_of ipsec i = i.ipsec
flag_of udp i = i.udp
flag_of tcp i = i.tcp
flag_of sctp i = i.sctp
flag_of icmp i = i.icmp

abbrev pub with_flag : Flag → Bool → InputFlags → InputFlags
with_flag l2 b i = record i { l2 = b }
with_flag l3 b i = record i { l3 = b }
with_flag l4 b i = record i { l4 = b }
with_flag eth b i = record i { eth = b }
with_flag jumbo b i = record i { jumbo = b }
with_flag vlan b i = record i { vlan = b }
with_flag vlan_qinq b i = record i { vlan_qinq = b }
with_flag arp b i = record i { arp = b }
with_flag ipv4 b i = record i { ipv4 = b }
with_flag ipv6 b i = record i { ipv6 = b }
with_flag ipfrag b i = record i { ipfrag = b }
with_flag ipopt b i = record i { ipopt = b }
with_flag ipsec b i = record i { ipsec = b }
with_flag udp b i = record i { udp = b }
with_flag tcp b i = record i { tcp = b }
with_flag sctp b i = record i { sctp = b }
with_flag icmp b i = record i { icmp = b }

pub has-flag_of : (f : Flag) → has f ≡ ret_flag (λ h. flag_of f h.input)
has-flag_of l2 = refl
has-flag_of l3 = refl
has-flag_of l4 = refl
has-flag_of eth = refl
has-flag_of jumbo = refl
has-flag_of vlan = refl
has-flag_of vlan_qinq = refl
has-flag_of arp = refl
has-flag_of ipv4 = refl
has-flag_of ipv6 = refl
has-flag_of ipfrag = refl
has-flag_of ipopt = refl
has-flag_of ipsec = refl
has-flag_of udp = refl
has-flag_of tcp = refl
has-flag_of sctp = refl
has-flag_of icmp = refl

pub has_set-with_flag : (f : Flag) → has_set f ≡ set_flag (with_flag f)
has_set-with_flag l2 = refl
has_set-with_flag l3 = refl
has_set-with_flag l4 = refl
has_set-with_flag eth = refl
has_set-with_flag jumbo = refl
has_set-with_flag vlan = refl
has_set-with_flag vlan_qinq = refl
has_set-with_flag arp = refl
has_set-with_flag ipv4 = refl
has_set-with_flag ipv6 = refl
has_set-with_flag ipfrag = refl
has_set-with_flag ipopt = refl
has_set-with_flag ipsec = refl
has_set-with_flag udp = refl
has_set-with_flag tcp = refl
has_set-with_flag sctp = refl
has_set-with_flag icmp = refl

pub flag_of-with_flag :
    (f g : Flag) (b : Bool) (i : InputFlags)
    → flag_of f (with_flag g b i) ≡ (if same f g then b else flag_of f i)
flag_of-with_flag l2 l2 b i = refl
flag_of-with_flag l2 _ b i = refl
flag_of-with_flag l3 l3 b i = refl
flag_of-with_flag l3 _ b i = refl
flag_of-with_flag l4 l4 b i = refl
flag_of-with_flag l4 _ b i = refl
flag_of-with_flag eth eth b i = refl
flag_of-with_flag eth _ b i = refl
flag_of-with_flag jumbo jumbo b i = refl
flag_of-with_flag jumbo _ b i = refl
flag_of-with_flag vlan vlan b i = refl
flag_of-with_flag vlan _ b i = refl
flag_of-with_flag vlan_qinq vlan_qinq b i = refl
flag_of-with_flag vlan_qinq _ b i = refl
flag_of-with_flag arp arp b i = refl
flag_of-with_flag arp _ b i = refl
flag_of-with_flag ipv4 ipv4 b i = refl
flag_of-with_flag ipv4 _ b i = refl
flag_of-with_flag ipv6 ipv6 b i = refl
flag_of-with_flag ipv6 _ b i = refl
flag_of-with_flag ipfrag ipfrag b i = refl
flag_of-with_flag ipfrag _ b i = refl
flag_of-with_flag ipopt ipopt b i = refl
flag_of-with_flag ipopt _ b i = refl
flag_of-with_flag ipsec ipsec b i = refl
flag_of-with_flag ipsec _ b i = refl
flag_of-with_flag udp udp b i = refl
flag_of-with_flag udp _ b i = refl
flag_of-with_flag tcp tcp b i = refl
flag_of-with_flag tcp _ b i = refl
flag_of-with_flag sctp sctp b i = refl
flag_of-with_flag sctp _ b i = refl
flag_of-with_flag icmp icmp b i = refl
flag_of-with_flag icmp _ b i = refl

pub unparsed-with_flag :
    (g : Flag) (b : Bool) (i : InputFlags) → (with_flag g b i).unparsed ≡ i.unparsed
unparsed-with_flag l2 b i = refl
unparsed-with_flag l3 b i = refl
unparsed-with_flag l4 b i = refl
unparsed-with_flag eth b i = refl
unparsed-with_flag jumbo b i = refl
unparsed-with_flag vlan b i = refl
unparsed-with_flag vlan_qinq b i = refl
unparsed-with_flag arp b i = refl
unparsed-with_flag ipv4 b i = refl
unparsed-with_flag ipv6 b i = refl
unparsed-with_flag ipfrag b i = refl
unparsed-with_flag ipopt b i = refl
unparsed-with_flag ipsec b i = refl
unparsed-with_flag udp b i = refl
unparsed-with_flag tcp b i = refl
unparsed-with_flag sctp b i = refl
unparsed-with_flag icmp b i = refl
