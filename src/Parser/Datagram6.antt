-- ===== src/Parser/Datagram6.antt =====
-- odp_packet.c, `_odp_packet_parse` of whole UDP datagrams over IPv6.
use odp.Prelude.{
  ℕ, ◌+◌, ◌-◌, ◌/◌, ◌^◌, ◌≤◌, ◌<◌, ◌≡◌, refl, ap, ◌∙◌, true, false, ◌||◌, Option, some, ltb,
  u32_mod, arith,
}
use odp.Parser.{Header, Cursor, no_error, be16, be32, set_input}
use odp.Parser.Ip.{parse_ipv6, bad_ipv6}
use odp.Parser.Frame.{
  upper, found_l3, found_l4, parse_l3, parse_l4, parse_udp, returned, l4_room, bad_udp, payload,
  odp_packet_parse,
}
use odp.Parser.Layers.{HasL2, l2_len, l2_input, l2_header, l2_cursor, parse-HasL2}

-- An IPv6 header at the offset with a UDP header right behind it, and a datagram of that length
-- that fills the payload and lies within the frame.
pub record HasUdp6 (mem : ℕ → ℕ) (base off frame_len payload_len : ℕ) : Type 0 where
  pub version : be32 mem (base + off) / 2 ^ 28 ≡ 6
  pub total : be16 mem (base + off + 4) ≡ payload_len
  pub udp : mem (base + off + 6) ≡ 17
  pub length : be16 mem (base + off + 40 + 4) ≡ payload_len
  pub held : off + 40 + payload_len ≤ frame_len
  pub small : frame_len < u32_mod

abbrev pub udp6_header : Option ℕ → Option ℕ → ℕ → Header → Header
udp6_header outer inner payload_len h = record (l2_header outer inner h) {
  input = record (l2_input outer inner h.frame_len) {
    l3 = true;
    l4 = true;
    ipv6 = true;
    udp = true;
  };
  error = record no_error { udp_err = true };
  l3_offset = l2_len outer inner;
  l3_protocol = 0x86dd;
  l3_len = payload_len;
  l4_offset = l2_len outer inner + 40;
  l4_protocol = 17;
  l4_len = payload_len;
  payload_offset = l2_len outer inner + 40 + 8;
}

-- The position behind the IPv6 header.
abbrev ipv6_cursor : Option ℕ → Option ℕ → ℕ → ℕ → Header → Cursor
ipv6_cursor outer inner base payload_len h = record {
  hdr = record (l2_header outer inner h) {
    input = record (l2_input outer inner h.frame_len) { l3 = true; ipv6 = true };
    l3_offset = l2_len outer inner;
    l3_protocol = 0x86dd;
    l3_len = payload_len;
  };
  ptr = base + l2_len outer inner + 40;
  offset = l2_len outer inner + 40;
}

-- The position at the IPv6 header.
abbrev at_ipv6 : Option ℕ → Option ℕ → ℕ → Header → Cursor
at_ipv6 outer inner base h =
    let c = found_l3 0x86dd (l2_cursor outer inner base h) in
    set_input (record c.hdr.input { ipv6 = true }) c

-- A UDP header whose length does not fit.
parse_udp_bad :
    (mem : ℕ → ℕ) (c : Cursor) (udplen : ℕ)
    → be16 mem (c.ptr + 4) ≡ udplen
    → bad_udp udplen c.hdr ≡ true
    → c.offset + 8 < u32_mod
    → parse_udp mem c ≡ record {
      hdr = record c.hdr { l4_len = udplen; error = record c.hdr.error { udp_err = true } };
      ptr = c.ptr + 8;
      offset = c.offset + 8;
    }
unfolding parse_udp
parse_udp_bad mem c udplen e bad small = rw (e, bad) (ground arith)

too_long : (udplen room : ℕ) → room < udplen → (ltb udplen 8 || ltb room udplen) ≡ true
too_long udplen room l = ground arith

module _ (mem : ℕ → ℕ) (base : ℕ) (h : Header) (outer inner : Option ℕ) (payload_len : ℕ) where
  bad_ipv6-HasUdp6 :
      HasUdp6 mem base (l2_len outer inner) h.frame_len payload_len
      → (c : Cursor) → c.ptr ≡ base + l2_len outer inner
      → c.offset ≡ l2_len outer inner
      → c.hdr.frame_len ≡ h.frame_len
      → bad_ipv6 mem c ≡ false
  unfolding bad_ipv6
  bad_ipv6-HasUdp6 d c p o f = rw (p, o, f, d.version, d.total) (ground arith)

  parse_ipv6-HasUdp6 :
      HasUdp6 mem base (l2_len outer inner) h.frame_len payload_len
      → parse_l3 0x86dd mem (found_l3 0x86dd (l2_cursor outer inner base h))
        ≡ some (17, ipv6_cursor outer inner base payload_len h)
  unfolding parse_l3 parse_ipv6
  parse_ipv6-HasUdp6 d =
      let c = at_ipv6 outer inner base h in
      let good = bad_ipv6-HasUdp6 d c (omega arith) refl refl in
      let at : c.ptr ≡ base + l2_len outer inner = omega arith in
      rw (good, at, d.total, d.udp) (ground arith)

  parse_l4-HasUdp6 :
      40 ≤ payload_len
      → HasUdp6 mem base (l2_len outer inner) h.frame_len payload_len
      → upper mem (some (17, ipv6_cursor outer inner base payload_len h))
        ≡ some (udp6_header outer inner payload_len h)
  unfolding parse_l4
  parse_l4-HasUdp6 long d =
      let c = found_l4 17 (ipv6_cursor outer inner base payload_len h) in
      let room : l4_room c.hdr ≡ payload_len - 40 = omega (arith, d.small, d.held) in
      let bad : bad_udp payload_len c.hdr ≡ true =
        rw room (too_long payload_len (payload_len - 40) (omega arith)) in
      ap (λ x. some (payload x))
        (parse_udp_bad mem (set_input (record c.hdr.input { udp = true }) c) payload_len d.length
          bad (omega (arith, d.held, d.small)))

  -- If a frame has an Ethernet header with any of the two tags or none, then an IPv6 header, and
  -- a UDP datagram of at least 40 bytes whose length is the payload's, within the frame, the
  -- parse returns non-zero with the UDP error set, although the datagram is correct; the other
  -- metadata is as described.
  pub odp_packet_parse-HasUdp6 :
      HasL2 mem base outer inner 0x86dd
      → 40 ≤ payload_len
      → HasUdp6 mem base (l2_len outer inner) h.frame_len payload_len
      → odp_packet_parse mem base h ≡ some (true, udp6_header outer inner payload_len h)
  unfolding odp_packet_parse
  odp_packet_parse-HasUdp6 l long d = ap returned (
      parse-HasL2 mem base h outer inner 0x86dd l
      ∙ ap (upper mem) (parse_ipv6-HasUdp6 d)
      ∙ parse_l4-HasUdp6 long d)
