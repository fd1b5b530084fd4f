-- ===== src/Parser/Datagram.antt =====
-- odp_packet.c, `_odp_packet_parse` of whole UDP datagrams over IPv4 and IPv6.
use odp.Prelude.{
  ℕ, ◌+◌, ◌-◌, ◌*◌, ◌%◌, ◌≤◌, ◌<◌, ◌≡◌, refl, ap, ◌∙◌, Bool, true, false, ◌||◌, not, Option, some,
  ltb, ◌==◌, u32_mod, arith,
}
use odp.Parser.{Header, Cursor, be16, set_input}
use odp.Parser.Ip.{parse_ipv4, bad_ipv4}
use odp.Parser.Frame.{
  upper, found_l3, found_l4, parse_l3, parse_l4, parse_udp, returned, l4_room, bad_udp, payload,
  odp_packet_parse,
}
use odp.Parser.Layers.{HasL2, l2_len, l2_input, l2_header, l2_cursor, parse-HasL2}

-- An IPv4 header at the offset, of `ihl` words, with a UDP header right behind it, all within the
-- frame, and a datagram within the packet.
pub record HasUdp4 (mem : ℕ → ℕ) (base off frame_len ihl tot_len udplen : ℕ) : Type 0 where
  pub version : mem (base + off) ≡ 64 + ihl
  pub words : (5 ≤ ihl) × (ihl < 16)
  pub total : be16 mem (base + off + 2) ≡ tot_len
  pub udp : mem (base + off + 9) ≡ 17
  pub length : be16 mem (base + off + ihl * 4 + 4) ≡ udplen
  pub held : (8 ≤ udplen) × (ihl * 4 + udplen ≤ tot_len) × (off + tot_len ≤ frame_len)
  pub small : frame_len < u32_mod

-- Whether the fragment field says that the packet is a fragment.
abbrev pub is_fragment : (ℕ → ℕ) → ℕ → Bool
is_fragment mem a = not (be16 mem (a + 6) % 16384 == 0)

abbrev pub udp4_header : Option ℕ → Option ℕ → ℕ → ℕ → ℕ → Bool → Header → Header
udp4_header outer inner ihl tot_len udplen frag h = record (l2_header outer inner h) {
  input = record (l2_input outer inner h.frame_len) {
    l3 = true;
    l4 = true;
    ipv4 = true;
    ipopt = ltb 5 ihl;
    ipfrag = frag;
    udp = true;
  };
  l3_offset = l2_len outer inner;
  l3_protocol = 0x0800;
  l3_len = tot_len;
  l4_offset = l2_len outer inner + ihl * 4;
  l4_protocol = 17;
  l4_len = udplen;
  payload_offset = l2_len outer inner + ihl * 4 + 8;
}

-- The position behind the IPv4 header.
abbrev ipv4_cursor : Option ℕ → Option ℕ → ℕ → ℕ → ℕ → Bool → Header → Cursor
ipv4_cursor outer inner base ihl tot_len frag h = record {
  hdr = record (l2_header outer inner h) {
    input = record (l2_input outer inner h.frame_len) {
      l3 = true;
      ipv4 = true;
      ipopt = ltb 5 ihl;
      ipfrag = frag;
    };
    l3_offset = l2_len outer inner;
    l3_protocol = 0x0800;
    l3_len = tot_len;
  };
  ptr = base + l2_len outer inner + ihl * 4;
  offset = l2_len outer inner + ihl * 4;
}

-- The position at the IPv4 header.
abbrev at_ipv4 : Option ℕ → Option ℕ → ℕ → Header → Cursor
at_ipv4 outer inner base h =
    let c = found_l3 0x0800 (l2_cursor outer inner base h) in
    set_input (record c.hdr.input { ipv4 = true }) c

bad_udp_false :
    (udplen room : ℕ) → 8 ≤ udplen → udplen ≤ room → (ltb udplen 8 || ltb room udplen) ≡ false
bad_udp_false udplen room l r = ground arith

-- A UDP header whose length fits.
parse_udp_lem :
    (mem : ℕ → ℕ) (c : Cursor) (udplen : ℕ)
    → be16 mem (c.ptr + 4) ≡ udplen
    → bad_udp udplen c.hdr ≡ false
    → c.offset + 8 < u32_mod
    → parse_udp mem c
      ≡ record { hdr = record c.hdr { l4_len = udplen }; ptr = c.ptr + 8; offset = c.offset + 8 }
unfolding parse_udp
parse_udp_lem mem c udplen e good small = rw (e, good) (ground arith)

module _ (mem : ℕ → ℕ) (base : ℕ) (h : Header) (outer inner : Option ℕ) where
  bad_ipv4-HasUdp4 :
      (ihl tot_len udplen : ℕ)
      → HasUdp4 mem base (l2_len outer inner) h.frame_len ihl tot_len udplen
      → (c : Cursor) → c.ptr ≡ base + l2_len outer inner
      → c.offset ≡ l2_len outer inner
      → c.hdr.frame_len ≡ h.frame_len
      → bad_ipv4 mem c ≡ false
  unfolding bad_ipv4
  bad_ipv4-HasUdp4 ihl tot_len udplen d c p o f = rw (p, o, f, d.version, d.total) (ground arith)

  parse_ipv4-HasUdp4 :
      (ihl tot_len udplen : ℕ)
      → HasUdp4 mem base (l2_len outer inner) h.frame_len ihl tot_len udplen
      → parse_l3 0x0800 mem (found_l3 0x0800 (l2_cursor outer inner base h))
        ≡ some (
          17,
          ipv4_cursor outer inner base ihl tot_len (is_fragment mem (base + l2_len outer inner)) h,
        )
  unfolding parse_l3 parse_ipv4
  parse_ipv4-HasUdp4 ihl tot_len udplen d =
      let c = at_ipv4 outer inner base h in
      let good = bad_ipv4-HasUdp4 ihl tot_len udplen d c (omega arith) refl refl in
      let at : c.ptr ≡ base + l2_len outer inner = omega arith in
      rw (good, at, d.version, d.total, d.udp) (ground arith)

  parse_l4-HasUdp4 :
      (ihl tot_len udplen : ℕ) (frag : Bool)
      → HasUdp4 mem base (l2_len outer inner) h.frame_len ihl tot_len udplen
      → upper mem (some (17, ipv4_cursor outer inner base ihl tot_len frag h))
        ≡ some (udp4_header outer inner ihl tot_len udplen frag h)
  unfolding parse_l4
  parse_l4-HasUdp4 ihl tot_len udplen frag d =
      let c = found_l4 17 (ipv4_cursor outer inner base ihl tot_len frag h) in
      let room : l4_room c.hdr ≡ tot_len - ihl * 4 = omega (arith, d.small, d.held, d.words) in
      let good : bad_udp udplen c.hdr ≡ false =
        rw room (bad_udp_false udplen (tot_len - ihl * 4) d.held.0 (omega (arith, d.held))) in
      ap (λ x. some (payload x))
        (parse_udp_lem mem (set_input (record c.hdr.input { udp = true }) c) udplen d.length good
          (omega (arith, d.held, d.small)))

  -- If a frame has an Ethernet header with any of the two tags or none, then an IPv4 header with
  -- or without options and a UDP header, with lengths that fit in one another and in the frame,
  -- the parse returns 0, and the whole metadata is as described: the flags, the tags, the
  -- protocols, and the offsets and lengths of each layer and of the payload.
  pub odp_packet_parse-HasUdp4 :
      (ihl tot_len udplen : ℕ)
      → HasL2 mem base outer inner 0x0800
      → HasUdp4 mem base (l2_len outer inner) h.frame_len ihl tot_len udplen
      → odp_packet_parse mem base h
        ≡ some (
          false,
          udp4_header outer inner ihl tot_len udplen
              (is_fragment mem (base + l2_len outer inner))
              h,
        )
  unfolding odp_packet_parse
  odp_packet_parse-HasUdp4 ihl tot_len udplen l d =
      let frag = is_fragment mem (base + l2_len outer inner) in
      ap returned (
        parse-HasL2 mem base h outer inner 0x0800 l
        ∙ ap (upper mem) (parse_ipv4-HasUdp4 ihl tot_len udplen d)
        ∙ parse_l4-HasUdp4 ihl tot_len udplen frag d)
