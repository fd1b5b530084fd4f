-- ===== src/Packet/Edit.antt =====
-- platform/linux-generic/odp_packet.c: copying bytes from one packet to another, and from that the
-- insertion and removal of bytes.
--
-- `odp_packet_alloc` belongs to the pools: its result, with `none` for an invalid packet, is the
-- argument `newpkt`. Of what goes over to the new packet besides the bytes, the offsets are
-- modelled. The result names the packet that was freed.
pub mod Between
pub mod Insert
use odp.Prelude.{
  ℕ, zero, suc, ◌+◌, ◌-◌, Option, none, some, ltb, if◌then◌else◌, min, add32, sub32, Bool, true,
  false, ◌||◌,
}
use odp.Packet.{Packet, packet_map}
use odp.Packet.Copy.{Memory, read, write, Copied, refused, faulted, copied}

-- The loop of `_odp_packet_copy_to_packet`, with `len` bytes to go; `none` is a null pointer.
unfoldable pub copy_between : ℕ → ℕ → ℕ → ℕ → Packet → Packet → Memory → Copied Memory
unfolding read write
copy_between fuel srcoffset dstoffset zero src dst m = copied m
copy_between zero srcoffset dstoffset (suc len) src dst m = faulted
copy_between (suc fuel) srcoffset dstoffset (suc len) src dst m = elim (packet_map srcoffset src) [
  | none ↦ faulted
  | some (srcmap, srcseglen) ↦ elim (packet_map dstoffset dst) [
    | none ↦ faulted
    | some (dstmap, dstseglen) ↦
        let cpylen = min (suc len) (min dstseglen srcseglen) in
        copy_between fuel (add32 srcoffset cpylen) (add32 dstoffset cpylen) (suc len - cpylen) src
          dst (write dstmap (read srcmap cpylen m) m)
  ]
]

-- `_odp_packet_copy_to_packet`.
unfoldable pub copy_to_packet : ℕ → ℕ → ℕ → Packet → Packet → Memory → Copied Memory
unfolding copy_between
copy_to_packet srcoffset dstoffset len src dst m =
    if ltb src.frame_len (add32 srcoffset len) || ltb dst.frame_len (add32 dstoffset len)
    then refused
    else copy_between len srcoffset dstoffset len src dst m

-- What an edit leaves: the packet that it returns, the one that it freed, and the memory.
pub data Edited : Type 0 where
  invalid : Memory → Edited
  undone : (freed : Packet) → Edited
  crashed : Edited
  edited : (packet freed : Packet) → Memory → Edited

-- `copy_packet_parser_metadata`, as far as it is about the offsets.
abbrev pub copy_offsets : Packet → Packet → Packet
copy_offsets src dst = record dst {
  l2_offset = src.l2_offset;
  l3_offset = src.l3_offset;
  l4_offset = src.l4_offset;
  payload_offset = src.payload_offset;
}

abbrev pub finish : Packet → Packet → Copied Memory → Edited
finish p new refused = undone new
finish p new faulted = crashed
finish p new (copied m) = edited (copy_offsets p new) p m

-- The second copy, if the first returned 0.
abbrev pub and_copy : Copied Memory → (Memory → Copied Memory) → Copied Memory
and_copy refused next = refused
and_copy faulted next = faulted
and_copy (copied m) next = next m

unfoldable pub odp_packet_add_data : ℕ → ℕ → Option Packet → Packet → Memory → Edited
unfolding copy_to_packet
odp_packet_add_data offset len newpkt p m =
    if ltb p.frame_len offset then invalid m else elim newpkt [
      | none ↦ invalid m
      | some new ↦ finish p new (
          and_copy (copy_to_packet 0 0 offset p new m)
            (copy_to_packet offset (add32 offset len) (sub32 p.frame_len offset) p new))
    ]

unfoldable pub odp_packet_rem_data : ℕ → ℕ → Option Packet → Packet → Memory → Edited
unfolding copy_to_packet
odp_packet_rem_data offset len newpkt p m =
    if ltb p.frame_len offset || ltb p.frame_len (add32 offset len)
    then invalid m
    else elim newpkt [
      | none ↦ invalid m
      | some new ↦ finish p new (
          and_copy (copy_to_packet 0 0 offset p new m)
            (copy_to_packet (add32 offset len) offset (sub32 (sub32 p.frame_len offset) len) p new))
    ]
