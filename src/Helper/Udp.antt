-- ===== src/Helper/Udp.antt =====
-- helper/include/odp/helper/udp.h: `odph_ipv4_udp_chksum` on a little-endian host.
--
-- `mem` is the memory, with the UDP header at `udph`. Addresses are words as the host reads them.
use odp.Prelude.{
  ℕ, zero, suc, ◌+◌, ◌-◌, ◌*◌, ◌/◌, ◌%◌, ◌≤◌, ◌<◌, ◌≡◌, ap, ◌∙◌, false, Option, none, some, ◌==◌,
  if◌then◌else◌, arith, add32, u32_mod, inl, inr, ◌⊎◌, Bool-cases, ==_iff, ne-eq_false,
}

-- The loop over the words of the datagram, in network order; an odd last byte is not read.
unfoldable pub sum_words : (ℕ → ℕ) → ℕ → ℕ → ℕ → ℕ
sum_words mem buf sum zero = sum
sum_words mem buf sum (suc zero) = sum
sum_words mem buf sum (suc (suc udplen)) =
    sum_words mem (buf + 2) (add32 sum (mem buf * 256 + mem (buf + 1))) udplen

abbrev pub udp_length : (ℕ → ℕ) → ℕ → ℕ
udp_length mem udph = mem (udph + 4) * 256 + mem (udph + 5)

-- What is summed before the loop.
abbrev pub pseudo_header : ℕ → ℕ → ℕ → ℕ → ℕ
pseudo_header src dst proto udplen =
    add32
      (add32 (add32 (add32 (add32 (src % 65536) (src / 65536)) (dst % 65536)) (dst / 65536)) proto)
      udplen

-- `while (sum >> 16)`.
unfoldable pub fold_all : ℕ → ℕ → Option ℕ
fold_all zero sum = none
fold_all (suc fuel) sum =
    let rest = fold_all fuel (add32 (sum % 65536) (sum / 65536)) in
    if sum / 65536 == 0 then some sum else rest

-- `~sum` has 32 bits when it is compared with 0, and 16 when it is returned.
abbrev pub complemented : Option ℕ → Option ℕ
complemented none = none
complemented (some sum) =
    some ((if u32_mod - 1 - sum == 0 then 65535 else u32_mod - 1 - sum) % 65536)

unfoldable pub udp_sum : (ℕ → ℕ) → ℕ → ℕ → ℕ → ℕ → ℕ
unfolding sum_words
udp_sum mem udph src dst proto =
    let udplen = udp_length mem udph in
    sum_words mem udph (pseudo_header src dst proto udplen) udplen

unfoldable pub odph_ipv4_udp_chksum : ℕ → ℕ → ℕ → (ℕ → ℕ) → ℕ → ℕ → ℕ → ℕ → Option ℕ
unfolding fold_all udp_sum
odph_ipv4_udp_chksum fuel l3_offset l4_offset mem udph src dst proto =
    if l3_offset == 0
    then some 0
    else (if l4_offset == 0
        then some 0
        else complemented (fold_all fuel (udp_sum mem udph src dst proto)))

sum_words-lt : (mem : ℕ → ℕ) (n buf sum : ℕ) → sum < u32_mod → sum_words mem buf sum n < u32_mod
unfolding sum_words
sum_words-lt mem zero buf sum l = l
sum_words-lt mem (suc zero) buf sum l = l
sum_words-lt mem (suc (suc n)) buf sum l =
    sum_words-lt mem n (buf + 2) (add32 sum (mem buf * 256 + mem (buf + 1))) (omega arith)

-- A word that fits in 16 bits ends the loop; three rounds are enough for 32 bits.
fold_all_step :
    (fuel s : ℕ)
    → (s < 65536 → fold_all (suc fuel) s ≡ some s)
      × (65536 ≤ s → fold_all (suc fuel) s ≡ fold_all fuel (add32 (s % 65536) (s / 65536)))
unfolding fold_all
fold_all_step fuel s = (
  λ l.
      ap (λ b. if b then some s else fold_all fuel (add32 (s % 65536) (s / 65536)))
        ((==_iff (s / 65536) 0).1 (omega arith)),
  λ g.
      ap (λ b. if b then some s else fold_all fuel (add32 (s % 65536) (s / 65536)))
        (ne-eq_false (s / 65536) 0 (λ e. absurd (omega arith))),
)

small_or_large : (s : ℕ) → (s < 65536) ⊎ (65536 ≤ s)
small_or_large s = elim (Bool-cases (s / 65536 == 0)) [
  | inl y ↦ inl (omega (arith, (==_iff (s / 65536) 0).0 y))
  | inr y ↦ inr (grind arith)
]

-- What the loop leaves of a sum.
abbrev pub Folded : ℕ → ℕ → Type 0
Folded s f = (f < 65536) × ((k : ℕ) × (s ≡ f + 65535 * k))

fold_all-enough : (s : ℕ) → s < u32_mod → (f : ℕ) × Folded s f × (fold_all 3 s ≡ some f)
fold_all-enough s l = elim (small_or_large s) [
  | inl y ↦ (s, (y, (0, omega arith)), (fold_all_step 2 s).0 y)
  | inr y ↦
      let s1 = add32 (s % 65536) (s / 65536) in
      let first = (fold_all_step 2 s).1 y in
      elim (small_or_large s1) [
        | inl z ↦ (s1, (z, (s / 65536, omega arith)), first ∙ (fold_all_step 1 s1).0 z)
        | inr z ↦
            let s2 = add32 (s1 % 65536) (s1 / 65536) in
            let last : s2 < 65536 = omega arith in
            (
              s2,
              (last, (s / 65536 + 1, omega arith)),
              first ∙ (fold_all_step 1 s1).1 z ∙ (fold_all_step 0 s2).0 last,
            )
      ]
]

complemented-never : (f : ℕ) → f < 65536 → complemented (some f) ≡ some (65535 - f)
complemented-never f l =
    ap (λ b. some ((if b then 65535 else u32_mod - 1 - f) % 65536))
      (ne-eq_false (u32_mod - 1 - f) 0 (λ e. absurd (omega arith)))
    ∙ ap (λ x. some x) (omega arith)

-- For a packet with layers 3 and 4, odph_ipv4_udp_chksum ends within three rounds of its last
-- loop and returns 65535 - f, where f has 16 bits and the sum is f and a multiple of 65535: the
-- result is 0, which says that there is no checksum, if f is 65535; it is never replaced by
-- 0xFFFF.
pub odph_ipv4_udp_chksum_lem :
    (l3_offset l4_offset : ℕ) (mem : ℕ → ℕ) (udph src dst proto : ℕ)
    → (l3_offset == 0) ≡ false
    → (l4_offset == 0) ≡ false
    → (f : ℕ) × Folded (udp_sum mem udph src dst proto) f
      × (odph_ipv4_udp_chksum 3 l3_offset l4_offset mem udph src dst proto ≡ some (65535 - f))
unfolding odph_ipv4_udp_chksum udp_sum
odph_ipv4_udp_chksum_lem l3_offset l4_offset mem udph src dst proto l3 l4 =
    let s = udp_sum mem udph src dst proto in
    let small =
      sum_words-lt mem (udp_length mem udph) udph
        (pseudo_header src dst proto (udp_length mem udph)) (omega arith) in
    let (f, fs, e) = fold_all-enough s small in
    (
      f,
      fs,
      ap
            (λ b.
              if b
              then some 0
              else (if l4_offset == 0 then some 0 else complemented (fold_all 3 s)))
            l3
          ∙ ap (λ b. if b then some 0 else complemented (fold_all 3 s)) l4
          ∙ ap complemented e
          ∙ complemented-never f fs.0,
    )
