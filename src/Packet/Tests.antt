-- ===== src/Packet/Tests.antt =====
-- odp_packet.c: the theorems at a concrete packet.
use odp.Prelude.{ℕ, ◌-◌, ◌%◌, [], ◌∷◌, inr, ◌+◌, ◌*◌, ◌≡◌, refl, some, arith}
use odp.Packet.{Packet, Rooms, offset_invalid}
use odp.Packet.Copy.{Memory, copied, odp_packet_copydata_in, odp_packet_copydata_out}
use odp.Packet.Copy.Bytes.{frame_bytes}
use odp.Packet.Copy.RoundTrip.{IsApart, copydata_out-in}
use odp.Packet.Edit.{edited, copy_offsets, odp_packet_add_data, odp_packet_rem_data}
use odp.Packet.Edit.Between.{AreApart}
use odp.Packet.Edit.Insert.{odp_packet_add_data_lem, odp_packet_rem_data_lem}
use odp.Packet.Room.{IsValid}

-- Two segments of 64 bytes, with 10 bytes of headroom and 100 of data.
abbrev packet_100 : Packet
packet_100 = record {
  segcount = 2;
  segsize = 64;
  size = 128;
  addr = λ i. 1000 + 500 * i;
  l2_offset = 0;
  l3_offset = 14;
  l4_offset = 34;
  payload_offset = offset_invalid;
  frame_len = 100;
  headroom = 10;
  tailroom = 18;
}

abbrev rooms : Rooms
rooms = record { headroom = 10; tailroom = 8; seg_size = 64 }

packet_100-IsValid : IsValid packet_100
packet_100-IsValid = record { filled = refl; size_is = refl; small = omega arith }

-- Another packet, of 100 + len bytes.
abbrev packet_of : ℕ → Packet
packet_of len = record packet_100 {
  addr = λ i. 5000 + 500 * i;
  frame_len = len;
  tailroom = 118 - len;
}

abbrev bytes : Memory
bytes a = a % 251

packet_100-IsApart : IsApart packet_100
packet_100-IsApart j k a b e = ground arith

packet_of-IsApart : (len : ℕ) → IsApart (packet_of len)
packet_of-IsApart len j k a b e = ground arith

packet_of-AreApart : (len : ℕ) → AreApart packet_100 (packet_of len)
packet_of-AreApart len j k a b e = ground arith

copydata_out-in_example :
    (m' : Memory) × (odp_packet_copydata_in 50 (1 ∷ 2 ∷ 3 ∷ 4 ∷ 5 ∷ 6 ∷ []) packet_100 bytes
      ≡ copied m')
    × (odp_packet_copydata_out 50 6 packet_100 m' ≡ copied (1 ∷ 2 ∷ 3 ∷ 4 ∷ 5 ∷ 6 ∷ []))
    × (odp_packet_copydata_out 56 20 packet_100 m' ≡ odp_packet_copydata_out 56 20 packet_100 bytes)
copydata_out-in_example =
    copydata_out-in 50 (1 ∷ 2 ∷ 3 ∷ 4 ∷ 5 ∷ 6 ∷ []) 56 20 packet_100 bytes packet_100-IsValid
      packet_100-IsApart (omega arith) (omega arith) (inr (omega arith))

odp_packet_add_data_lem_example :
    (m' : Memory) × (odp_packet_add_data 30 4 (some (packet_of 104)) packet_100 bytes
      ≡ edited (copy_offsets packet_100 (packet_of 104)) packet_100 m')
    × (frame_bytes 10 30 (packet_of 104) m' ≡ frame_bytes 10 30 packet_100 bytes)
    × (frame_bytes 44 70 (packet_of 104) m' ≡ frame_bytes 40 70 packet_100 bytes)
odp_packet_add_data_lem_example =
    odp_packet_add_data_lem 30 4 packet_100 (packet_of 104) bytes packet_100-IsValid
      (record { filled = refl; size_is = refl; small = omega arith }) (packet_of-IsApart 104)
      (packet_of-AreApart 104) (omega arith) refl

odp_packet_rem_data_lem_example :
    (m' : Memory) × (odp_packet_rem_data 30 4 (some (packet_of 96)) packet_100 bytes
      ≡ edited (copy_offsets packet_100 (packet_of 96)) packet_100 m')
    × (frame_bytes 10 30 (packet_of 96) m' ≡ frame_bytes 10 30 packet_100 bytes)
    × (frame_bytes 40 66 (packet_of 96) m' ≡ frame_bytes 44 66 packet_100 bytes)
odp_packet_rem_data_lem_example =
    odp_packet_rem_data_lem 30 4 packet_100 (packet_of 96) bytes packet_100-IsValid
      (record { filled = refl; size_is = refl; small = omega arith }) (packet_of-IsApart 96)
      (packet_of-AreApart 96) (omega arith) refl
