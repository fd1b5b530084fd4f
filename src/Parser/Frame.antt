-- ===== src/Parser/Frame.antt =====
-- odp_packet.c, `parse_tcp`, `parse_udp` and `_odp_packet_parse`.
use odp.Prelude.{
  ℕ, ◌+◌, ◌*◌, ◌/◌, ◌||◌, Bool, true, false, Option, none, some, ltb, ◌==◌, if◌then◌else◌, add32,
  sub32,
}
use odp.Parser.{
  offset_invalid, Header, Cursor, no_input, no_error, no_output, any_error, be16, advance,
  set_error, set_input,
}
use odp.Parser.Ip.{parse_ipv4, parse_ipv6}

-- `l3_len + l3_offset - l4_offset`, in 32 bits.
abbrev pub l4_room : Header → ℕ
l4_room h = sub32 (add32 h.l3_len h.l3_offset) h.l4_offset

abbrev pub set_l4_len : ℕ → Cursor → Cursor
set_l4_len n c = record c { hdr = record c.hdr { l4_len = n } }

abbrev pub tcp_marks : ℕ → Cursor → Cursor
tcp_marks hl c =
    if ltb hl 5
    then set_error (record c.hdr.error { tcp_err = true }) c
    else if ltb 20 (hl * 4)
    then set_input (record c.hdr.input { tcpopt = true }) c
    else c

-- `hl` is the high half of the byte at 12.
unfoldable pub parse_tcp : (ℕ → ℕ) → Cursor → Cursor
parse_tcp mem c =
    let hl = mem (c.ptr + 12) / 16 in advance (hl * 4) (set_l4_len (l4_room c.hdr) (tcp_marks hl c))

abbrev pub bad_udp : ℕ → Header → Bool
bad_udp udplen h = ltb udplen 8 || ltb (l4_room h) udplen

unfoldable pub parse_udp : (ℕ → ℕ) → Cursor → Cursor
parse_udp mem c =
    let udplen = be16 mem (c.ptr + 4) in
    advance 8 (
      set_l4_len udplen
        (if bad_udp udplen c.hdr then set_error (record c.hdr.error { udp_err = true }) c else c))

-- The metadata before the first header is read.
unfoldable pub reset_parse : Header → Header
reset_parse h = record h {
  error = no_error;
  output = no_output;
  input = record no_input { eth = true; l2 = true; jumbo = ltb 1514 h.frame_len };
  l2_offset = 0;
  l3_offset = offset_invalid;
  l4_offset = offset_invalid;
  payload_offset = offset_invalid;
  vlan_s_tag = 0;
  vlan_c_tag = 0;
  l3_protocol = 0;
  l4_protocol = 0;
}

-- The type read at `parseptr` and the position behind it, once a tag is passed.
unfoldable pub outer_tag : (ℕ → ℕ) → Cursor → Cursor
outer_tag mem c =
    let ethtype = be16 mem c.ptr in
    if ethtype == 0x88a8
    then advance 4 (record c {
      hdr = record c.hdr {
        input = record c.hdr.input { vlan = true; vlan_qinq = true };
        vlan_s_tag = ethtype * 65536 + be16 mem (c.ptr + 2);
      };
    })
    else c

unfoldable pub inner_tag : (ℕ → ℕ) → Cursor → Cursor
inner_tag mem c =
    let ethtype = be16 mem c.ptr in
    if ethtype == 0x8100
    then advance 4 (record c {
      hdr = record c.hdr {
        input = record c.hdr.input { vlan = true };
        vlan_c_tag = ethtype * 65536 + be16 mem (c.ptr + 2);
      };
    })
    else c

-- SNAP or DIX: whether the frame is long enough, and the position.
unfoldable pub snap_header : (ℕ → ℕ) → Cursor → Bool × Cursor
snap_header mem c =
    let ethtype = be16 mem c.ptr in
    let snapped = set_input (record c.hdr.input { snap = true }) c in
    if ltb ethtype 1514
    then (if ltb (sub32 c.hdr.frame_len c.offset) ethtype
        then (false, set_error (record c.hdr.error { snap_len = true }) snapped)
        else (true, advance 8 snapped))
    else (true, c)

abbrev pub found_l3 : ℕ → Cursor → Cursor
found_l3 ethtype c = record c {
  hdr = record c.hdr {
    input = record c.hdr.input { l3 = true };
    l3_offset = c.offset;
    l3_protocol = ethtype;
  };
  ptr = c.ptr + 2;
}

abbrev pub no_l3 : Cursor → Cursor
no_l3 c = record c {
  hdr = record c.hdr { input = record c.hdr.input { l3 = false }; l3_offset = offset_invalid };
}

-- The switch on the type: the protocol, 255 if the type has none.
unfoldable pub parse_l3 : ℕ → (ℕ → ℕ) → Cursor → Option (ℕ × Cursor)
unfolding parse_ipv4 parse_ipv6
parse_l3 ethtype mem c =
    if ethtype == 0x0800
    then some (parse_ipv4 mem (set_input (record c.hdr.input { ipv4 = true }) c))
    else if ethtype == 0x86dd
    then parse_ipv6 mem (set_input (record c.hdr.input { ipv6 = true }) c)
    else if ethtype == 0x0806
    then some (255, set_input (record c.hdr.input { arp = true }) c)
    else some (255, no_l3 c)

abbrev pub found_l4 : ℕ → Cursor → Cursor
found_l4 ip_proto c = record c {
  hdr = record c.hdr {
    input = record c.hdr.input { l4 = true };
    l4_offset = c.offset;
    l4_protocol = ip_proto;
  };
}

abbrev pub no_l4 : Cursor → Cursor
no_l4 c = record c {
  hdr = record c.hdr { input = record c.hdr.input { l4 = false }; l4_offset = offset_invalid };
}

unfoldable pub parse_l4 : ℕ → (ℕ → ℕ) → Cursor → Cursor
unfolding parse_tcp parse_udp
parse_l4 ip_proto mem c =
    if ip_proto == 1
    then set_input (record c.hdr.input { icmp = true }) c
    else if ip_proto == 6
    then parse_tcp mem (set_input (record c.hdr.input { tcp = true }) c)
    else if ip_proto == 17
    then parse_udp mem (set_input (record c.hdr.input { udp = true }) c)
    else if ip_proto == 51 || ip_proto == 50
    then set_input (record c.hdr.input { ipsec = true }) c
    else no_l4 c

abbrev pub payload : Cursor → Header
payload c = record c.hdr { payload_offset = c.offset }

abbrev pub upper : (ℕ → ℕ) → Option (ℕ × Cursor) → Option Header
upper mem none = none
upper mem (some (ip_proto, c)) = some (payload (parse_l4 ip_proto mem (found_l4 ip_proto c)))

abbrev pub above_l2 : (ℕ → ℕ) → Bool × Cursor → Option Header
above_l2 mem (false, c) = some c.hdr
above_l2 mem (true, c) =
    let ethtype = be16 mem c.ptr in upper mem (parse_l3 ethtype mem (found_l3 ethtype c))

-- `base` is the address that `packet_map` gives for offset 0: 12 is that of the Ethernet type.
abbrev pub start : ℕ → Header → Cursor
start base h = record { hdr = reset_parse h; ptr = base + 12; offset = 14 }

unfoldable pub parse : (ℕ → ℕ) → ℕ → Header → Option Header
unfolding reset_parse outer_tag inner_tag snap_header parse_l3 parse_l4
parse mem base h = above_l2 mem (snap_header mem (inner_tag mem (outer_tag mem (start base h))))

-- Whether it returns non-zero, and the header.
abbrev pub returned : Option Header → Option (Bool × Header)
returned none = none
returned (some h) = some (any_error h.error, h)

unfoldable pub odp_packet_parse : (ℕ → ℕ) → ℕ → Header → Option (Bool × Header)
unfolding parse
odp_packet_parse mem base h = returned (parse mem base h)
