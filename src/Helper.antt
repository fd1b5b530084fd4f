-- ===== src/Helper.antt =====
-- helper/include/odp/helper/chksum.h and ip.h: the Internet checksum on a little-endian host.
--
-- A buffer is the list of its bytes. The calls on a packet take the 20 bytes at the offset of its
-- layer 3, which `odp_packet_copydata_out` copies and `odp_packet_l3_ptr` points to.
pub mod Carry
pub mod Update
pub mod Udp
mod Tests
use odp.Prelude.{
  ℕ, ◌+◌, ◌-◌, ◌*◌, ◌/◌, ◌%◌, Bool, true, false, List, [], ◌∷◌, ◌++◌, ◌==◌, if◌then◌else◌,
  get_elem?, set, add32, Option, none, some,
}

-- The two bytes of a 16-bit word in memory.
abbrev pub word : ℕ → ℕ → ℕ
word lo hi = lo + hi * 256

-- The loop with the odd byte after it.
unfoldable pub add_words : ℕ → List ℕ → ℕ
add_words sum [] = sum
add_words sum (b ∷ []) = add32 sum b
add_words sum (lo ∷ hi ∷ rest) = add_words (add32 sum (word lo hi)) rest

-- The two additions of the upper half to the lower one, and the lower 16 bits.
abbrev pub fold_once : ℕ → ℕ
fold_once sum = add32 (sum / 65536) (sum % 65536)

abbrev pub fold_twice : ℕ → ℕ
fold_twice sum = add32 (fold_once sum) (fold_once sum / 65536) % 65536

unfoldable pub odp_chksum : List ℕ → ℕ
unfolding add_words
odp_chksum buffer = 65535 - fold_twice (add_words 0 buffer)

-- odph_ipv4hdr_t by its checksum, with the 10 bytes before it and the 8 behind it.
pub record Ipv4hdr : Type 0 where
  pub before : List ℕ
  pub chksum : ℕ
  pub behind : List ℕ

abbrev pub header_bytes : Ipv4hdr → List ℕ
header_bytes ip = ip.before ++ (ip.chksum % 256 ∷ ip.chksum / 256 ∷ ip.behind)

-- Without a layer 3 it is 0.
unfoldable pub odph_ipv4_csum_valid : ℕ → Ipv4hdr → Bool
unfolding odp_chksum
odph_ipv4_csum_valid l3_offset ip =
    if l3_offset == 0
    then false
    else odp_chksum (header_bytes (record ip { chksum = 0 })) == ip.chksum

unfoldable pub odph_ipv4_csum_update : ℕ → Ipv4hdr → ℕ × Ipv4hdr
unfolding odp_chksum
odph_ipv4_csum_update l3_offset ip =
    if l3_offset == 0
    then (0, ip)
    else (odp_chksum (header_bytes ip), record ip { chksum = odp_chksum (header_bytes ip) })
