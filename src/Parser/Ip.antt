-- ===== src/Parser/Ip.antt =====
-- odp_packet.c, `parse_ipv4` and `parse_ipv6`.
use odp.Prelude.{
  ℕ, zero, suc, ◌+◌, ◌*◌, ◌/◌, ◌%◌, ◌^◌, ◌&&◌, ◌||◌, Bool, true, not, Option, none, some, ltb, leb,
  ◌==◌, if◌then◌else◌, add32, sub32,
}
use odp.Parser.{InputFlags, Cursor, be16, be32, advance, set_input, ip_error, set_l3_len}

-- The header is at the offset, and what is left of the frame is counted in 32 bits.
unfoldable pub bad_ipv4 : (ℕ → ℕ) → Cursor → Bool
bad_ipv4 mem c =
    ltb (mem c.ptr % 16) 5
    || not (mem c.ptr / 16 % 16 == 4)
    || ltb (sub32 c.hdr.frame_len c.offset) (be16 mem (c.ptr + 2))

abbrev pub ipv4_flags : (ℕ → ℕ) → ℕ → InputFlags → InputFlags
ipv4_flags mem a i = record i {
  ipopt = if ltb 5 (mem a % 16) then true else i.ipopt;
  ipfrag = if be16 mem (a + 6) % 16384 == 0 then i.ipfrag else true;
}

-- The protocol, 0 after an error, and the position behind the header.
unfoldable pub parse_ipv4 : (ℕ → ℕ) → Cursor → ℕ × Cursor
unfolding bad_ipv4
parse_ipv4 mem c =
    let read = set_l3_len (be16 mem (c.ptr + 2)) c in
    if bad_ipv4 mem c then (0, ip_error read) else (
      mem (c.ptr + 9),
      set_input (ipv4_flags mem c.ptr c.hdr.input) (advance (mem c.ptr % 16 * 4) read),
    )

-- ODPH_IPPROTO_HOPOPTS or ODPH_IPPROTO_ROUTE.
abbrev pub is_ext : ℕ → Bool
is_ext next_hdr = next_hdr == 0 || next_hdr == 43

abbrev pub proto_frag : ℕ
proto_frag = 44

-- The loop over the extension headers: the last header's next header and the position behind it.
unfoldable pub skip_ext : ℕ → (ℕ → ℕ) → Cursor → Option (ℕ × Cursor)
skip_ext zero mem c = none
skip_ext (suc fuel) mem c =
    let c' = advance (8 + mem (c.ptr + 1) * 8) c in
    let rest = skip_ext fuel mem c' in
    if is_ext (mem c.ptr) && ltb c'.offset c.hdr.frame_len then rest else some (mem c.ptr, c')

abbrev pub frag_flag : ℕ → Cursor → Cursor
frag_flag next_hdr c =
    if next_hdr == proto_frag then set_input (record c.hdr.input { ipfrag = true }) c else c

-- What follows the loop.
unfoldable pub after_ext : ℕ → ℕ → Cursor → ℕ × Cursor
after_ext payload_len next_hdr c =
    if leb (add32 c.hdr.l3_offset payload_len) c.offset
    then (0, ip_error c)
    else (next_hdr, frag_flag next_hdr c)

unfoldable pub bad_ipv6 : (ℕ → ℕ) → Cursor → Bool
bad_ipv6 mem c =
    not (be32 mem c.ptr / 2 ^ 28 == 6)
    || ltb (sub32 c.hdr.frame_len c.offset) (be16 mem (c.ptr + 4))

abbrev pub walked : ℕ → Option (ℕ × Cursor) → Option (ℕ × Cursor)
walked payload_len none = none
walked payload_len (some (next_hdr, c)) = some (after_ext payload_len next_hdr c)

-- The extension headers, or the first upper header.
abbrev pub ipv6_next : ℕ → (ℕ → ℕ) → ℕ → Cursor → Option (ℕ × Cursor)
ipv6_next payload_len mem next_hdr c =
    if is_ext next_hdr
    then walked payload_len
        (skip_ext (c.hdr.frame_len / 8 + 1) mem (set_input (record c.hdr.input { ipopt = true }) c))
    else some (
      next_hdr,
      if next_hdr == proto_frag
          then set_input (record c.hdr.input { ipopt = true; ipfrag = true }) c
          else c,
    )

unfoldable pub parse_ipv6 : (ℕ → ℕ) → Cursor → Option (ℕ × Cursor)
unfolding bad_ipv6 skip_ext after_ext
parse_ipv6 mem c =
    let read = set_l3_len (be16 mem (c.ptr + 4)) c in
    if bad_ipv6 mem c
    then some (0, ip_error read)
    else ipv6_next (be16 mem (c.ptr + 4)) mem (mem (c.ptr + 6)) (advance 40 read)
