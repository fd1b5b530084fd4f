-- ===== src/Packet.antt =====
-- platform/linux-generic/include/odp_packet_internal.h and odp_packet.c: the room of a packet.
--
-- A packet's segments hold its headroom, its frame and its tailroom, in that order. Addresses are
-- numbers, `none` is NULL, lengths have 32 bits. The bytes behind the addresses and the parser are
-- not modelled: the offset setters are called on a parsed packet.
pub mod Room
pub mod Copy
pub mod Edit
mod Tests
use odp.Prelude.{
  ℕ, ◌+◌, ◌-◌, ◌*◌, ◌/◌, ◌%◌, Bool, true, false, Option, none, some, ltb, leb, ◌==◌, if◌then◌else◌,
  min, add32, sub32, u32_mod, u64_mod,
}

-- ODP_PACKET_OFFSET_INVALID.
abbrev pub offset_invalid : ℕ
offset_invalid = u32_mod - 1

-- The fields of odp_packet_hdr_t, and of its buffer header, that these calls use.
pub record Packet : Type 0 where
  pub segcount : ℕ
  pub segsize : ℕ
  pub size : ℕ
  pub addr : ℕ → ℕ
  pub l2_offset : ℕ
  pub l3_offset : ℕ
  pub l4_offset : ℕ
  pub payload_offset : ℕ
  pub frame_len : ℕ
  pub headroom : ℕ
  pub tailroom : ℕ

-- The rooms that the packet's pool is made with.
pub record Rooms : Type 0 where
  pub headroom : ℕ
  pub tailroom : ℕ
  pub seg_size : ℕ

-- `packet_init`: its sum of `size` is of type size_t, and the result is cut to 32 bits.
unfoldable pub packet_init : Rooms → ℕ → Packet → Packet
packet_init pool size p = record p {
  l2_offset = offset_invalid;
  l3_offset = offset_invalid;
  l4_offset = offset_invalid;
  payload_offset = offset_invalid;
  frame_len = size % u32_mod;
  headroom = pool.headroom;
  tailroom =
      ((pool.seg_size * p.segcount) % u32_mod + u64_mod - (pool.headroom + size) % u64_mod)
      % u32_mod;
}

-- The result is whether it returned 0. `totsize` is computed in 32 bits.
unfoldable pub odp_packet_reset : Rooms → ℕ → Packet → Bool × Packet
odp_packet_reset pool len p =
    let totsize = add32 (add32 pool.headroom len) pool.tailroom in
    if ltb p.size totsize then (false, p) else (true, packet_init pool len p)

-- `buffer_map`: the address, and the length up to the end of the segment or of the data.
abbrev pub buffer_map : ℕ → ℕ → Packet → ℕ × ℕ
buffer_map offset limit p =
    let first = ltb offset p.segsize in
    let seg_index = if first then 0 else offset / p.segsize in
    let seg_offset = if first then offset else offset % p.segsize in
    let buf_left = sub32 limit offset in
    (
      p.addr seg_index + seg_offset,
      if leb (add32 seg_offset buf_left) p.segsize then buf_left else p.segsize - seg_offset,
    )

-- `packet_map`.
abbrev pub packet_map : ℕ → Packet → Option (ℕ × ℕ)
packet_map offset p =
    if ltb p.frame_len offset
    then none
    else some (buffer_map (add32 p.headroom offset) (add32 p.headroom p.frame_len) p)

abbrev pub address : Option (ℕ × ℕ) → Option ℕ
address none = none
address (some (a, len)) = some a

abbrev pub push_head : ℕ → Packet → Packet
push_head len p = record p { headroom = sub32 p.headroom len; frame_len = add32 p.frame_len len }

abbrev pub pull_head : ℕ → Packet → Packet
pull_head len p = record p { headroom = add32 p.headroom len; frame_len = sub32 p.frame_len len }

abbrev pub push_tail : ℕ → Packet → Packet
push_tail len p = record p { tailroom = sub32 p.tailroom len; frame_len = add32 p.frame_len len }

abbrev pub pull_tail : ℕ → Packet → Packet
pull_tail len p = record p { tailroom = add32 p.tailroom len; frame_len = sub32 p.frame_len len }

unfoldable pub odp_packet_push_head : ℕ → Packet → Option ℕ × Packet
odp_packet_push_head len p =
    if ltb p.headroom len
    then (none, p)
    else (address (packet_map 0 (push_head len p)), push_head len p)

unfoldable pub odp_packet_pull_head : ℕ → Packet → Option ℕ × Packet
odp_packet_pull_head len p =
    if ltb p.frame_len len
    then (none, p)
    else (address (packet_map 0 (pull_head len p)), pull_head len p)

unfoldable pub odp_packet_push_tail : ℕ → Packet → Option ℕ × Packet
odp_packet_push_tail len p =
    if ltb p.tailroom len
    then (none, p)
    else (address (packet_map p.frame_len (push_tail len p)), push_tail len p)

unfoldable pub odp_packet_pull_tail : ℕ → Packet → Option ℕ × Packet
odp_packet_pull_tail len p =
    if ltb p.frame_len len
    then (none, p)
    else (address (packet_map (pull_tail len p).frame_len (pull_tail len p)), pull_tail len p)

-- The offset setters: whether they returned 0, and the packet.
unfoldable pub odp_packet_l2_offset_set : ℕ → Packet → Bool × Packet
odp_packet_l2_offset_set offset p =
    if leb p.frame_len offset then (false, p) else (true, record p { l2_offset = offset })

unfoldable pub odp_packet_l3_offset_set : ℕ → Packet → Bool × Packet
odp_packet_l3_offset_set offset p =
    if leb p.frame_len offset then (false, p) else (true, record p { l3_offset = offset })

unfoldable pub odp_packet_l4_offset_set : ℕ → Packet → Bool × Packet
odp_packet_l4_offset_set offset p =
    if leb p.frame_len offset then (false, p) else (true, record p { l4_offset = offset })

-- `odp_packet_l2_ptr` of a parsed packet.
abbrev pub odp_packet_l2_ptr : Packet → Option ℕ
odp_packet_l2_ptr p = address (packet_map p.l2_offset p)
