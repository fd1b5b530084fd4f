-- ===== src/Parser/Layers.antt =====
-- odp_packet.c, `_odp_packet_parse`: the Ethernet header and its tags.
use odp.Prelude.{
  ℕ, ◌+◌, ◌*◌, ◌≤◌, ◌≡◌, ◌≢◌, ap, ◌∙◌, Bool, true, false, Option, none, some, ltb, if◌then◌else◌,
  arith,
}
use odp.Parser.{offset_invalid, InputFlags, Header, Cursor, no_input, no_error, no_output, be16}
use odp.Parser.Frame.{
  reset_parse, outer_tag, inner_tag, snap_header, start, above_l2, upper, found_l3, parse_l3, parse,
}

-- A header of a tag of this type, with the tag's content, or none.
abbrev pub HasTag : ℕ → (ℕ → ℕ) → ℕ → Option ℕ → Type 0
HasTag type mem a none = be16 mem a ≢ type
HasTag type mem a (some tci) = (be16 mem a ≡ type) × (be16 mem (a + 2) ≡ tci)

abbrev pub tag_len : Option ℕ → ℕ
tag_len none = 0
tag_len (some tci) = 4

abbrev pub is_tagged : Option ℕ → Bool
is_tagged none = false
is_tagged (some tci) = true

-- The value that the header keeps of a tag.
abbrev pub tag_value : ℕ → Option ℕ → ℕ
tag_value type none = 0
tag_value type (some tci) = type * 65536 + tci

-- The Ethernet header with its tags, up to the type of what it carries.
pub record HasL2 (mem : ℕ → ℕ) (base : ℕ) (outer inner : Option ℕ) (ethtype : ℕ) : Type 0 where
  pub has_outer : HasTag 0x88a8 mem (base + 12) outer
  pub has_inner : HasTag 0x8100 mem (base + 12 + tag_len outer) inner
  pub has_type : be16 mem (base + 12 + tag_len outer + tag_len inner) ≡ ethtype
  pub dix : 1514 ≤ ethtype

abbrev pub l2_len : Option ℕ → Option ℕ → ℕ
l2_len outer inner = 14 + tag_len outer + tag_len inner

-- What the parser knows behind that header.
abbrev pub l2_input : Option ℕ → Option ℕ → ℕ → InputFlags
l2_input outer inner frame_len = record no_input {
  eth = true;
  l2 = true;
  jumbo = ltb 1514 frame_len;
  vlan = if is_tagged outer then true else is_tagged inner;
  vlan_qinq = is_tagged outer;
}

abbrev pub l2_header : Option ℕ → Option ℕ → Header → Header
l2_header outer inner h = record h {
  error = no_error;
  output = no_output;
  input = l2_input outer inner h.frame_len;
  l2_offset = 0;
  l3_offset = offset_invalid;
  l4_offset = offset_invalid;
  payload_offset = offset_invalid;
  vlan_s_tag = tag_value 0x88a8 outer;
  vlan_c_tag = tag_value 0x8100 inner;
  l3_protocol = 0;
  l4_protocol = 0;
}

abbrev pub l2_cursor : Option ℕ → Option ℕ → ℕ → Header → Cursor
l2_cursor outer inner base h = record {
  hdr = l2_header outer inner h;
  ptr = base + 12 + tag_len outer + tag_len inner;
  offset = l2_len outer inner;
}

outer_tag-HasTag :
    (mem : ℕ → ℕ) (base : ℕ) (h : Header) (outer : Option ℕ)
    → HasTag 0x88a8 mem (base + 12) outer
    → outer_tag mem (start base h) ≡ l2_cursor outer none base h
unfolding outer_tag reset_parse
outer_tag-HasTag mem base h none l = ground arith
outer_tag-HasTag mem base h (some tci) l = ground arith

inner_tag-HasTag :
    (mem : ℕ → ℕ) (base : ℕ) (h : Header) (outer inner : Option ℕ)
    → HasTag 0x8100 mem (base + 12 + tag_len outer) inner
    → inner_tag mem (l2_cursor outer none base h) ≡ l2_cursor outer inner base h
unfolding inner_tag
inner_tag-HasTag mem base h outer none l = ground arith
inner_tag-HasTag mem base h outer (some tci) l = ground arith

l2_cursor-HasL2 :
    (mem : ℕ → ℕ) (base : ℕ) (h : Header) (outer inner : Option ℕ) (ethtype : ℕ)
    → HasL2 mem base outer inner ethtype
    → snap_header mem (inner_tag mem (outer_tag mem (start base h)))
      ≡ (true, l2_cursor outer inner base h)
unfolding snap_header
l2_cursor-HasL2 mem base h outer inner ethtype l =
    rw (outer_tag-HasTag mem base h outer l.has_outer)
      (rw (inner_tag-HasTag mem base h outer inner l.has_inner) (ground arith))

-- The whole parse of such a frame is the parse of what it carries.
pub parse-HasL2 :
    (mem : ℕ → ℕ) (base : ℕ) (h : Header) (outer inner : Option ℕ) (ethtype : ℕ)
    → HasL2 mem base outer inner ethtype
    → parse mem base h
      ≡ upper mem (parse_l3 ethtype mem (found_l3 ethtype (l2_cursor outer inner base h)))
unfolding parse
parse-HasL2 mem base h outer inner ethtype l =
    ap (above_l2 mem) (l2_cursor-HasL2 mem base h outer inner ethtype l)
    ∙ ap (λ t. upper mem (parse_l3 t mem (found_l3 t (l2_cursor outer inner base h)))) l.has_type
