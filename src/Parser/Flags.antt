-- ===== src/Parser/Flags.antt =====
-- platform/linux-generic/odp_packet_flags.c: the calls that read and set the flags of a packet.
--
-- Each parses the packet first if it is marked unparsed. A value to set is an `int`, of which the
-- lowest bit counts.
pub mod Kinds
pub mod Laws
use odp.Prelude.{ℕ, ◌%◌, Bool, true, false, Option, none, some, ◌==◌, if◌then◌else◌}
use odp.Parser.{InputFlags, Header, any_error}
use odp.Parser.Frame.{parse}

-- `if (pkt_hdr->input_flags.unparsed) _odp_packet_parse(pkt_hdr)`
unfoldable pub parsed : (ℕ → ℕ) → ℕ → Header → Option Header
parsed mem base h = if h.input.unparsed then parse mem base h else some h

abbrev pub read : (Header → Bool) → Option Header → Option (Bool × Header)
read flag none = none
read flag (some h) = some (flag h, h)

abbrev pub write : (Bool → InputFlags → InputFlags) → ℕ → Option Header → Option Header
write put val none = none
write put val (some h) = some (record h { input = put (val % 2 == 1) h.input })

unfoldable pub ret_flag : (Header → Bool) → (ℕ → ℕ) → ℕ → Header → Option (Bool × Header)
unfolding parsed
ret_flag flag mem base h = read flag (parsed mem base h)

unfoldable pub set_flag :
    (Bool → InputFlags → InputFlags) → ℕ → (ℕ → ℕ) → ℕ → Header → Option Header
unfolding parsed
set_flag put val mem base h = write put val (parsed mem base h)

unfoldable pub odp_packet_has_error : (ℕ → ℕ) → ℕ → Header → Option (Bool × Header)
unfolding ret_flag
odp_packet_has_error = ret_flag (λ h. any_error h.error)

abbrev pub odp_packet_has_l2 : (ℕ → ℕ) → ℕ → Header → Option (Bool × Header)
odp_packet_has_l2 = ret_flag (λ h. h.input.l2)

abbrev pub odp_packet_has_l3 : (ℕ → ℕ) → ℕ → Header → Option (Bool × Header)
odp_packet_has_l3 = ret_flag (λ h. h.input.l3)

abbrev pub odp_packet_has_l4 : (ℕ → ℕ) → ℕ → Header → Option (Bool × Header)
odp_packet_has_l4 = ret_flag (λ h. h.input.l4)

abbrev pub odp_packet_has_eth : (ℕ → ℕ) → ℕ → Header → Option (Bool × Header)
odp_packet_has_eth = ret_flag (λ h. h.input.eth)

abbrev pub odp_packet_has_jumbo : (ℕ → ℕ) → ℕ → Header → Option (Bool × Header)
odp_packet_has_jumbo = ret_flag (λ h. h.input.jumbo)

abbrev pub odp_packet_has_vlan : (ℕ → ℕ) → ℕ → Header → Option (Bool × Header)
odp_packet_has_vlan = ret_flag (λ h. h.input.vlan)

abbrev pub odp_packet_has_vlan_qinq : (ℕ → ℕ) → ℕ → Header → Option (Bool × Header)
odp_packet_has_vlan_qinq = ret_flag (λ h. h.input.vlan_qinq)

abbrev pub odp_packet_has_arp : (ℕ → ℕ) → ℕ → Header → Option (Bool × Header)
odp_packet_has_arp = ret_flag (λ h. h.input.arp)

abbrev pub odp_packet_has_ipv4 : (ℕ → ℕ) → ℕ → Header → Option (Bool × Header)
odp_packet_has_ipv4 = ret_flag (λ h. h.input.ipv4)

abbrev pub odp_packet_has_ipv6 : (ℕ → ℕ) → ℕ → Header → Option (Bool × Header)
odp_packet_has_ipv6 = ret_flag (λ h. h.input.ipv6)

abbrev pub odp_packet_has_ipfrag : (ℕ → ℕ) → ℕ → Header → Option (Bool × Header)
odp_packet_has_ipfrag = ret_flag (λ h. h.input.ipfrag)

abbrev pub odp_packet_has_ipopt : (ℕ → ℕ) → ℕ → Header → Option (Bool × Header)
odp_packet_has_ipopt = ret_flag (λ h. h.input.ipopt)

abbrev pub odp_packet_has_ipsec : (ℕ → ℕ) → ℕ → Header → Option (Bool × Header)
odp_packet_has_ipsec = ret_flag (λ h. h.input.ipsec)

abbrev pub odp_packet_has_udp : (ℕ → ℕ) → ℕ → Header → Option (Bool × Header)
odp_packet_has_udp = ret_flag (λ h. h.input.udp)

abbrev pub odp_packet_has_tcp : (ℕ → ℕ) → ℕ → Header → Option (Bool × Header)
odp_packet_has_tcp = ret_flag (λ h. h.input.tcp)

abbrev pub odp_packet_has_sctp : (ℕ → ℕ) → ℕ → Header → Option (Bool × Header)
odp_packet_has_sctp = ret_flag (λ h. h.input.sctp)

abbrev pub odp_packet_has_icmp : (ℕ → ℕ) → ℕ → Header → Option (Bool × Header)
odp_packet_has_icmp = ret_flag (λ h. h.input.icmp)

abbrev pub odp_packet_has_l2_set : ℕ → (ℕ → ℕ) → ℕ → Header → Option Header
odp_packet_has_l2_set = set_flag (λ b i. record i { l2 = b })

abbrev pub odp_packet_has_l3_set : ℕ → (ℕ → ℕ) → ℕ → Header → Option Header
odp_packet_has_l3_set = set_flag (λ b i. record i { l3 = b })

abbrev pub odp_packet_has_l4_set : ℕ → (ℕ → ℕ) → ℕ → Header → Option Header
odp_packet_has_l4_set = set_flag (λ b i. record i { l4 = b })

abbrev pub odp_packet_has_eth_set : ℕ → (ℕ → ℕ) → ℕ → Header → Option Header
odp_packet_has_eth_set = set_flag (λ b i. record i { eth = b })

abbrev pub odp_packet_has_jumbo_set : ℕ → (ℕ → ℕ) → ℕ → Header → Option Header
odp_packet_has_jumbo_set = set_flag (λ b i. record i { jumbo = b })

abbrev pub odp_packet_has_vlan_set : ℕ → (ℕ → ℕ) → ℕ → Header → Option Header
odp_packet_has_vlan_set = set_flag (λ b i. record i { vlan = b })

abbrev pub odp_packet_has_vlan_qinq_set : ℕ → (ℕ → ℕ) → ℕ → Header → Option Header
odp_packet_has_vlan_qinq_set = set_flag (λ b i. record i { vlan_qinq = b })

abbrev pub odp_packet_has_arp_set : ℕ → (ℕ → ℕ) → ℕ → Header → Option Header
odp_packet_has_arp_set = set_flag (λ b i. record i { arp = b })

abbrev pub odp_packet_has_ipv4_set : ℕ → (ℕ → ℕ) → ℕ → Header → Option Header
odp_packet_has_ipv4_set = set_flag (λ b i. record i { ipv4 = b })

abbrev pub odp_packet_has_ipv6_set : ℕ → (ℕ → ℕ) → ℕ → Header → Option Header
odp_packet_has_ipv6_set = set_flag (λ b i. record i { ipv6 = b })

abbrev pub odp_packet_has_ipfrag_set : ℕ → (ℕ → ℕ) → ℕ → Header → Option Header
odp_packet_has_ipfrag_set = set_flag (λ b i. record i { ipfrag = b })

abbrev pub odp_packet_has_ipopt_set : ℕ → (ℕ → ℕ) → ℕ → Header → Option Header
odp_packet_has_ipopt_set = set_flag (λ b i. record i { ipopt = b })

abbrev pub odp_packet_has_ipsec_set : ℕ → (ℕ → ℕ) → ℕ → Header → Option Header
odp_packet_has_ipsec_set = set_flag (λ b i. record i { ipsec = b })

abbrev pub odp_packet_has_udp_set : ℕ → (ℕ → ℕ) → ℕ → Header → Option Header
odp_packet_has_udp_set = set_flag (λ b i. record i { udp = b })

abbrev pub odp_packet_has_tcp_set : ℕ → (ℕ → ℕ) → ℕ → Header → Option Header
odp_packet_has_tcp_set = set_flag (λ b i. record i { tcp = b })

abbrev pub odp_packet_has_sctp_set : ℕ → (ℕ → ℕ) → ℕ → Header → Option Header
odp_packet_has_sctp_set = set_flag (λ b i. record i { sctp = b })

abbrev pub odp_packet_has_icmp_set : ℕ → (ℕ → ℕ) → ℕ → Header → Option Header
odp_packet_has_icmp_set = set_flag (λ b i. record i { icmp = b })
