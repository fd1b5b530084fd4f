-- ===== src/Parser.antt =====
-- platform/linux-generic/odp_packet.c, `_odp_packet_parse` and its helpers, with the header formats
-- of helper/include/odp/helper; Parser/Flags has odp_packet_flags.c.
--
-- A byte is a number below 256, the memory a function from addresses to bytes, so a read past the
-- frame gives what stands there. The parser's position is a record of the header, `parseptr` and
-- `offset`. Lengths and offsets have 32 bits. The bits of a flags word are Booleans; the host is
-- little-endian. The loop over extension headers takes fuel, `none` is fuel run out.
pub mod Ip
pub mod Frame
pub mod Flags
pub mod Walk
pub mod Layers
pub mod Datagram
pub mod Datagram6
mod Tests
use odp.Prelude.{
  ℕ, zero, suc, ◌+◌, ◌-◌, ◌*◌, ◌/◌, ◌%◌, ◌^◌, ◌&&◌, ◌||◌, Bool, true, false, not, Option, none,
  some, ltb, leb, ◌==◌, if◌then◌else◌, add32, sub32, u32_mod,
}

abbrev pub offset_invalid : ℕ
offset_invalid = u32_mod - 1

-- input_flags_t.
pub record InputFlags : Type 0 where
  pub unparsed : Bool
  pub l2 : Bool
  pub l3 : Bool
  pub l4 : Bool
  pub eth : Bool
  pub jumbo : Bool
  pub vlan : Bool
  pub vlan_qinq : Bool
  pub snap : Bool
  pub arp : Bool
  pub ipv4 : Bool
  pub ipv6 : Bool
  pub ipfrag : Bool
  pub ipopt : Bool
  pub ipsec : Bool
  pub udp : Bool
  pub tcp : Bool
  pub tcpopt : Bool
  pub sctp : Bool
  pub icmp : Bool

-- error_flags_t.
pub record ErrorFlags : Type 0 where
  pub app_error : Bool
  pub frame_len : Bool
  pub snap_len : Bool
  pub l2_chksum : Bool
  pub ip_err : Bool
  pub tcp_err : Bool
  pub udp_err : Bool

-- output_flags_t.
pub record OutputFlags : Type 0 where
  pub l3_chksum_set : Bool
  pub l3_chksum : Bool
  pub l4_chksum_set : Bool
  pub l4_chksum : Bool

-- The part of odp_packet_hdr_t that the parser fills, and the frame's length.
pub record Header : Type 0 where
  pub input : InputFlags
  pub error : ErrorFlags
  pub output : OutputFlags
  pub l2_offset : ℕ
  pub l3_offset : ℕ
  pub l4_offset : ℕ
  pub payload_offset : ℕ
  pub vlan_s_tag : ℕ
  pub vlan_c_tag : ℕ
  pub l3_protocol : ℕ
  pub l3_len : ℕ
  pub l4_protocol : ℕ
  pub l4_len : ℕ
  pub frame_len : ℕ

-- Where the parser is: the header, `parseptr` and `offset`.
pub record Cursor : Type 0 where
  pub hdr : Header
  pub ptr : ℕ
  pub offset : ℕ

abbrev pub no_input : InputFlags
no_input = record {
  unparsed = false;
  l2 = false;
  l3 = false;
  l4 = false;
  eth = false;
  jumbo = false;
  vlan = false;
  vlan_qinq = false;
  snap = false;
  arp = false;
  ipv4 = false;
  ipv6 = false;
  ipfrag = false;
  ipopt = false;
  ipsec = false;
  udp = false;
  tcp = false;
  tcpopt = false;
  sctp = false;
  icmp = false;
}

abbrev pub no_error : ErrorFlags
no_error = record {
  app_error = false;
  frame_len = false;
  snap_len = false;
  l2_chksum = false;
  ip_err = false;
  tcp_err = false;
  udp_err = false;
}

abbrev pub no_output : OutputFlags
no_output = record {
  l3_chksum_set = false;
  l3_chksum = false;
  l4_chksum_set = false;
  l4_chksum = false;
}

-- `error_flags.all != 0`
abbrev pub any_error : ErrorFlags → Bool
any_error e =
    e.app_error || e.frame_len || e.snap_len || e.l2_chksum || e.ip_err || e.tcp_err || e.udp_err

abbrev pub be16 : (ℕ → ℕ) → ℕ → ℕ
be16 mem a = mem a * 256 + mem (a + 1)

abbrev pub be32 : (ℕ → ℕ) → ℕ → ℕ
be32 mem a = be16 mem a * 65536 + be16 mem (a + 2)

-- `*offset += n; *parseptr += n`
abbrev pub advance : ℕ → Cursor → Cursor
advance n c = record c { ptr = c.ptr + n; offset = add32 c.offset n }

abbrev pub set_error : ErrorFlags → Cursor → Cursor
set_error e c = record c { hdr = record c.hdr { error = e } }

abbrev pub set_input : InputFlags → Cursor → Cursor
set_input i c = record c { hdr = record c.hdr { input = i } }

abbrev pub ip_error : Cursor → Cursor
ip_error c = set_error (record c.hdr.error { ip_err = true }) c

abbrev pub set_l3_len : ℕ → Cursor → Cursor
set_l3_len n c = record c { hdr = record c.hdr { l3_len = n } }
