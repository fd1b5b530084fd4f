-- ===== src/Parser/Walk.antt =====
-- odp_packet.c: the walk over IPv6 extension headers ends, and with it the parse.
use odp.Prelude.{
  ℕ, zero, suc, ◌+◌, ◌-◌, ◌*◌, ◌/◌, ◌≤◌, ◌<◌, ◌≡◌, refl, ap, Bool, true, false, Option, some, ltb,
  ◌==◌, ◌&&◌, if◌then◌else◌, sub32, u32_mod, arith, inl, inr, Bool-cases,
}
use odp.Parser.{Header, Cursor, any_error, be16, advance, set_input, set_l3_len}
use odp.Parser.Ip.{is_ext, skip_ext, parse_ipv4, parse_ipv6, after_ext, ipv6_next, walked, bad_ipv6}
use odp.Parser.Frame.{
  outer_tag, inner_tag, snap_header, start, reset_parse, upper, above_l2, returned, found_l3,
  found_l4, parse_l3, parse_l4, parse_tcp, parse_udp, parse, odp_packet_parse,
}

abbrev pub AreBytes : (ℕ → ℕ) → Type 0
AreBytes mem = (a : ℕ) → mem a < 256

-- A call that does not run out of fuel, and has marked the header parsed.
abbrev Gives : Option (ℕ × Cursor) → Type 0
Gives o = (r : ℕ × Cursor) × (o ≡ some r) × (r.1.hdr.input.unparsed ≡ false)

Gives-if : (b : Bool) (x y : Option (ℕ × Cursor)) → Gives x → Gives y → Gives (if b then x else y)
Gives-if true x y p q = p
Gives-if false x y p q = q

-- Each round moves on by 8 bytes at least.
skip_ext_total :
    (mem : ℕ → ℕ) (fuel : ℕ) (c : Cursor)
    → AreBytes mem
    → c.hdr.frame_len + 2048 ≤ u32_mod
    → c.offset + 2048 < u32_mod
    → c.hdr.frame_len - c.offset < fuel * 8
    → c.hdr.input.unparsed ≡ false
    → Gives (skip_ext fuel mem c)
unfolding skip_ext
skip_ext_total mem zero c bytes small at enough u = absurd (omega arith)
skip_ext_total mem (suc fuel) c bytes small at enough u =
    let c' = advance (8 + mem (c.ptr + 1) * 8) c in
    let b = bytes (c.ptr + 1) in
    elim (Bool-cases (is_ext (mem c.ptr) && ltb c'.offset c.hdr.frame_len)) [
      | inl more ↦
          let l : c'.offset < c.hdr.frame_len = ground arith in
          let (r, e, k) = skip_ext_total mem fuel c' bytes small (omega arith) (omega arith) u in
          (r, rw more e, k)
      | inr last ↦ ((mem c.ptr, c'), rw last refl, u)
    ]

-- Near the start of a frame of this length.
record IsEarly (bound frame_len : ℕ) (c : Cursor) : Type 0 where
  parsed : c.hdr.input.unparsed ≡ false
  near : c.offset ≤ bound
  framed : c.hdr.frame_len ≡ frame_len

outer_tag-IsEarly :
    (mem : ℕ → ℕ) (n l : ℕ) (c : Cursor)
    → n < 100
    → IsEarly n l c
    → IsEarly (n + 4) l (outer_tag mem c)
unfolding outer_tag
outer_tag-IsEarly mem n l c k e = elim (Bool-cases (be16 mem c.ptr == 0x88a8)) [
  | inl t ↦ rw t (record { parsed = e.parsed; near = omega arith; framed = e.framed })
  | inr t ↦ rw t (record { parsed = e.parsed; near = omega arith; framed = e.framed })
]

inner_tag-IsEarly :
    (mem : ℕ → ℕ) (n l : ℕ) (c : Cursor)
    → n < 100
    → IsEarly n l c
    → IsEarly (n + 4) l (inner_tag mem c)
unfolding inner_tag
inner_tag-IsEarly mem n l c k e = elim (Bool-cases (be16 mem c.ptr == 0x8100)) [
  | inl t ↦ rw t (record { parsed = e.parsed; near = omega arith; framed = e.framed })
  | inr t ↦ rw t (record { parsed = e.parsed; near = omega arith; framed = e.framed })
]

snap_header-IsEarly :
    (mem : ℕ → ℕ) (n l : ℕ) (c : Cursor)
    → n < 100
    → IsEarly n l c
    → IsEarly (n + 8) l (snap_header mem c).1
unfolding snap_header
snap_header-IsEarly mem n l c k e = elim (Bool-cases (ltb (be16 mem c.ptr) 1514)) [
  | inl t ↦ elim (Bool-cases (ltb (sub32 c.hdr.frame_len c.offset) (be16 mem c.ptr))) [
    | inl u ↦ rw (t, u) (record { parsed = e.parsed; near = omega arith; framed = e.framed })
    | inr u ↦ rw (t, u) (record { parsed = e.parsed; near = omega arith; framed = e.framed })
  ]
  | inr t ↦ rw t (record { parsed = e.parsed; near = omega arith; framed = e.framed })
]

after_ext_parsed :
    (payload_len next_hdr : ℕ) (c : Cursor)
    → c.hdr.input.unparsed ≡ false
    → (after_ext payload_len next_hdr c).1.hdr.input.unparsed ≡ false
unfolding after_ext
after_ext_parsed payload_len next_hdr c u = ground arith

ipv6_next_total :
    (mem : ℕ → ℕ) (payload_len next_hdr : ℕ) (c : Cursor)
    → AreBytes mem
    → c.hdr.frame_len + 2048 ≤ u32_mod
    → c.offset + 2048 < u32_mod
    → c.hdr.input.unparsed ≡ false
    → Gives (ipv6_next payload_len mem next_hdr c)
ipv6_next_total mem payload_len next_hdr c bytes small at u =
    let opted = set_input (record c.hdr.input { ipopt = true }) c in
    let (r, e, k) =
      skip_ext_total mem (c.hdr.frame_len / 8 + 1) opted bytes small at (omega arith) u in
    Gives-if (is_ext next_hdr) _ _
      (
        after_ext payload_len r.0 r.1,
        ap (walked payload_len) e,
        after_ext_parsed payload_len r.0 r.1 k,
      )
      (_, refl, ground arith)

parse_ipv6_total :
    (mem : ℕ → ℕ) (c : Cursor)
    → AreBytes mem
    → c.hdr.frame_len + 2048 ≤ u32_mod
    → c.offset ≤ 100
    → c.hdr.input.unparsed ≡ false
    → Gives (parse_ipv6 mem c)
unfolding parse_ipv6
parse_ipv6_total mem c bytes small at u =
    let next = advance 40 (set_l3_len (be16 mem (c.ptr + 4)) c) in
    Gives-if (bad_ipv6 mem c) _ _ (_, refl, u)
      (ipv6_next_total mem (be16 mem (c.ptr + 4)) (mem (c.ptr + 6)) next bytes small (omega arith)
        u)

parse_ipv4_parsed :
    (mem : ℕ → ℕ) (c : Cursor)
    → c.hdr.input.unparsed ≡ false
    → (parse_ipv4 mem c).1.hdr.input.unparsed ≡ false
unfolding parse_ipv4
parse_ipv4_parsed mem c u = ground arith

parse_l3_total :
    (mem : ℕ → ℕ) (ethtype : ℕ) (c : Cursor)
    → AreBytes mem
    → c.hdr.frame_len + 2048 ≤ u32_mod
    → c.offset ≤ 100
    → c.hdr.input.unparsed ≡ false
    → Gives (parse_l3 ethtype mem c)
unfolding parse_l3
parse_l3_total mem ethtype c bytes small at u =
    Gives-if (ethtype == 0x0800) _ _
      (_, refl, parse_ipv4_parsed mem (set_input (record c.hdr.input { ipv4 = true }) c) u)
      (Gives-if (ethtype == 0x86dd) _ _
        (parse_ipv6_total mem (set_input (record c.hdr.input { ipv6 = true }) c) bytes small at u)
        (Gives-if (ethtype == 0x0806) _ _ (_, refl, u) (_, refl, u)))

parse_l4_parsed :
    (mem : ℕ → ℕ) (ip_proto : ℕ) (c : Cursor)
    → c.hdr.input.unparsed ≡ false
    → (parse_l4 ip_proto mem c).hdr.input.unparsed ≡ false
unfolding parse_l4 parse_tcp parse_udp
parse_l4_parsed mem ip_proto c u = ground arith

above_l2_total :
    (mem : ℕ → ℕ) (s : Bool × Cursor)
    → AreBytes mem
    → s.1.hdr.frame_len + 2048 ≤ u32_mod
    → s.1.offset ≤ 100
    → s.1.hdr.input.unparsed ≡ false
    → (h' : Header) × (above_l2 mem s ≡ some h') × (h'.input.unparsed ≡ false)
above_l2_total mem (false, c) bytes small at u = (c.hdr, refl, u)
above_l2_total mem (true, c) bytes small at u =
    let (r, e, k) =
      parse_l3_total mem (be16 mem c.ptr) (found_l3 (be16 mem c.ptr) c) bytes small at u in
    (_, ap (upper mem) e, parse_l4_parsed mem r.0 (found_l4 r.0 r.1) k)

pub parse_total :
    (mem : ℕ → ℕ) (base : ℕ) (h : Header)
    → AreBytes mem
    → h.frame_len + 2048 ≤ u32_mod
    → (h' : Header) × (parse mem base h ≡ some h') × (h'.input.unparsed ≡ false)
unfolding parse reset_parse
parse_total mem base h bytes small =
    let c = start base h in
    let e0 : IsEarly 14 h.frame_len c = record {
      parsed = refl;
      near = omega arith;
      framed = refl;
    } in
    let e1 = outer_tag-IsEarly mem 14 h.frame_len c (omega arith) e0 in
    let e2 = inner_tag-IsEarly mem 18 h.frame_len (outer_tag mem c) (omega arith) e1 in
    let e3 =
      snap_header-IsEarly mem 22 h.frame_len (inner_tag mem (outer_tag mem c)) (omega arith) e2 in
    above_l2_total mem (snap_header mem (inner_tag mem (outer_tag mem c))) bytes (omega arith)
      (omega arith) e3.parsed

-- If memory holds bytes and the frame is at least 2048 bytes below the 32-bit limit, the parse
-- of any frame ends, the walk over the extension headers included; it returns whether any error
-- flag is set and leaves the packet marked as parsed.
pub odp_packet_parse_total :
    (mem : ℕ → ℕ) (base : ℕ) (h : Header)
    → AreBytes mem
    → h.frame_len + 2048 ≤ u32_mod
    → (h' : Header) × (odp_packet_parse mem base h ≡ some (any_error h'.error, h'))
      × (h'.input.unparsed ≡ false)
unfolding odp_packet_parse
odp_packet_parse_total mem base h bytes small =
    let (h', e, k) = parse_total mem base h bytes small in (h', ap returned e, k)
