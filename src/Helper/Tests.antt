-- ===== src/Helper/Tests.antt =====
-- helper: the theorems on checksums at concrete headers and buffers.
use odp.Prelude.{ℕ, zero, suc, ◌-◌, ◌≡◌, refl, true, List, [], ◌∷◌, some, arith}
use odp.Helper.{add_words, odp_chksum, Ipv4hdr, odph_ipv4_csum_valid, odph_ipv4_csum_update}
use odp.Helper.Carry.{carry_sum, odp_chksum-carry_sum}
use odp.Helper.Update.{IsHeader, odph_ipv4_csum_update_again}
use odp.Helper.Udp.{udp_sum, Folded, odph_ipv4_udp_chksum, odph_ipv4_udp_chksum_lem}

abbrev five_bytes : List ℕ
five_bytes = 255 ∷ 255 ∷ 2 ∷ 1 ∷ 7 ∷ []

odp_chksum-carry_sum_example : odp_chksum five_bytes ≡ 65535 - carry_sum 0 five_bytes
odp_chksum-carry_sum_example =
    odp_chksum-carry_sum five_bytes
      (omega arith, (omega arith, (omega arith, (omega arith, (omega arith, tt))))) (omega arith)

-- 10.0.0.1 to 10.0.0.2, UDP.
abbrev header : Ipv4hdr
header = record {
  before = 69 ∷ 0 ∷ 0 ∷ 40 ∷ 0 ∷ 0 ∷ 0 ∷ 0 ∷ 64 ∷ 17 ∷ [];
  chksum = 50022;
  behind = 10 ∷ 0 ∷ 0 ∷ 1 ∷ 10 ∷ 0 ∷ 0 ∷ 2 ∷ [];
}

header-IsHeader : IsHeader header
header-IsHeader = record {
  bytes_before = (
    omega arith,
    (
      omega arith,
      (
        omega arith,
        (
          omega arith,
          (
            omega arith,
            (omega arith, (omega arith, (omega arith, (omega arith, (omega arith, tt))))),
          ),
        ),
      ),
    ),
  );
  bytes_behind = (
    omega arith,
    (
      omega arith,
      (omega arith, (omega arith, (omega arith, (omega arith, (omega arith, (omega arith, tt)))))),
    ),
  );
  length_before = refl;
  length_behind = refl;
  fits = omega arith;
}

header_valid : odph_ipv4_csum_valid 14 header ≡ true
unfolding odph_ipv4_csum_valid odp_chksum add_words
header_valid = refl

odph_ipv4_csum_update_again_example :
    odph_ipv4_csum_update 14 header ≡ (0, record header { chksum = 0 })
odph_ipv4_csum_update_again_example =
    (odph_ipv4_csum_update_again header header-IsHeader 14 refl header_valid).0

-- The length 8 and the port 1, otherwise zeros.
abbrev datagram : ℕ → ℕ
datagram (suc zero) = 1
datagram (suc (suc (suc (suc (suc zero))))) = 8
datagram a = 0

odph_ipv4_udp_chksum_lem_example :
    (f : ℕ) × Folded (udp_sum datagram 0 1 2 17) f
    × (odph_ipv4_udp_chksum 3 14 34 datagram 0 1 2 17 ≡ some (65535 - f))
odph_ipv4_udp_chksum_lem_example = odph_ipv4_udp_chksum_lem 14 34 datagram 0 1 2 17 refl refl
