-- ===== src/Helper/Update.antt =====
-- helper/include/odp/helper/ip.h: `odph_ipv4_csum_update` after `odph_ipv4_csum_valid`.
use odp.Prelude.{
  ℕ, ◌+◌, ◌-◌, ◌*◌, ◌/◌, ◌%◌, ◌≤◌, ◌<◌, ◌≡◌, sym, ap, ◌∙◌, true, false, List, [], ◌∷◌, ◌++◌, ◌==◌,
  if◌then◌else◌, arith, length, u32_mod, inl, inr, Bool-cases, ==_iff, ltb, eq_self, length-append,
}
use native.Mathlib.Nat.{mod-eq_of_lt}
use odp.Helper.{
  word, add_words, fold_twice, odp_chksum, Ipv4hdr, header_bytes, odph_ipv4_csum_valid,
  odph_ipv4_csum_update,
}
use odp.Helper.Carry.{AreBytes, carry_add, fold_twice-add}

unfoldable total : List ℕ → ℕ
total [] = 0
total (b ∷ []) = b
total (lo ∷ hi ∷ rest) = word lo hi + total rest

add_words-total :
    (bs : List ℕ) (s : ℕ)
    → AreBytes bs
    → s + length bs * 65536 < u32_mod
    → add_words s bs ≡ s + total bs
unfolding add_words total
add_words-total [] s a l = omega arith
add_words-total (b ∷ []) s a l = mod-eq_of_lt (omega arith)
add_words-total (lo ∷ hi ∷ rest) s a l =
    let small : s + word lo hi < u32_mod = omega arith in
    ap (λ x. add_words x rest) (mod-eq_of_lt small)
    ∙ add_words-total rest (s + word lo hi) a.1.1 (omega arith)
    ∙ omega arith

total-append :
    (bs : List ℕ) (lo hi : ℕ) (rest : List ℕ)
    → length bs % 2 ≡ 0
    → total (bs ++ (lo ∷ hi ∷ rest)) ≡ total (bs ++ (0 ∷ 0 ∷ rest)) + word lo hi
unfolding total
total-append [] lo hi rest e = omega arith
total-append (b ∷ []) lo hi rest e = absurd (omega arith)
total-append (b ∷ c ∷ bs) lo hi rest e = omega (arith, total-append bs lo hi rest (omega arith))

AreBytes-append : (as' bs : List ℕ) → AreBytes as' → AreBytes bs → AreBytes (as' ++ bs)
AreBytes-append [] bs a b = b
AreBytes-append (x ∷ as') bs a b = (a.0, AreBytes-append as' bs a.1 b)

total-le : (bs : List ℕ) → AreBytes bs → total bs ≤ length bs * 65536
unfolding total
total-le [] a = omega arith
total-le (b ∷ []) a = omega arith
total-le (lo ∷ hi ∷ rest) a = omega (arith, total-le rest a.1.1)

fold_twice-lt : (s : ℕ) → fold_twice s < 65536
fold_twice-lt s = omega arith

odp_chksum-lt : (bs : List ℕ) → odp_chksum bs < 65536
unfolding odp_chksum
odp_chksum-lt bs = omega arith

-- A sum and its complement are all ones.
complement : (f c : ℕ) → f < 65536 → 65535 - f ≡ c → 65535 - carry_add f c ≡ 0
complement f c l e = elim (Bool-cases (ltb (f + c) 65536)) [
  | inl y ↦ rw y (omega arith)
  | inr y ↦ absurd (grind arith)
]

-- A header of 20 bytes.
pub record IsHeader (ip : Ipv4hdr) : Type 0 where
  pub bytes_before : AreBytes ip.before
  pub bytes_behind : AreBytes ip.behind
  pub length_before : length ip.before ≡ 10
  pub length_behind : length ip.behind ≡ 8
  pub fits : ip.chksum < 65536

module _ (ip : Ipv4hdr) (v : IsHeader ip) where
  header_sum :
      (c : ℕ)
      → c < 65536
      → add_words 0 (header_bytes (record ip { chksum = c }))
        ≡ total (ip.before ++ (0 ∷ 0 ∷ ip.behind)) + c
  header_sum c l =
      let bytes = header_bytes (record ip { chksum = c }) in
      let n : length bytes ≡ 20 =
        length-append ip.before (c % 256 ∷ c / 256 ∷ ip.behind)
        ∙ omega (arith, v.length_before, v.length_behind) in
      add_words-total bytes 0
        (AreBytes-append ip.before (c % 256 ∷ c / 256 ∷ ip.behind) v.bytes_before
          (omega arith, (omega arith, v.bytes_behind)))
        (omega arith)
      ∙ omega (
        arith,
        total-append ip.before (c % 256) (c / 256) ip.behind (omega (arith, v.length_before)),
      )

  -- The sum of a header with the right checksum folds to all ones.
  right-chksum :
      (c : ℕ)
      → c < 65536
      → odp_chksum (header_bytes (record ip { chksum = 0 })) ≡ c
      → odp_chksum (header_bytes (record ip { chksum = c })) ≡ 0
  unfolding odp_chksum
  right-chksum c l e =
      let s = total (ip.before ++ (0 ∷ 0 ∷ ip.behind)) in
      let n : length (ip.before ++ (0 ∷ 0 ∷ ip.behind)) ≡ 20 =
        length-append ip.before (0 ∷ 0 ∷ ip.behind)
        ∙ omega (arith, v.length_before, v.length_behind) in
      let small = total-le (ip.before ++ (0 ∷ 0 ∷ ip.behind)) (
        AreBytes-append ip.before (0 ∷ 0 ∷ ip.behind) v.bytes_before
          (omega arith, (omega arith, v.bytes_behind))) in
      let zero_sum : 65535 - fold_twice s ≡ c =
        ap (λ x. 65535 - fold_twice x) (sym (header_sum 0 (omega arith) ∙ omega arith)) ∙ e in
      ap (λ x. 65535 - fold_twice x) (header_sum c l)
      ∙ ap (λ x. 65535 - x) (fold_twice-add s c (omega arith) l)
      ∙ complement (fold_twice s) c (fold_twice-lt s) zero_sum

module _ (ip : Ipv4hdr) (v : IsHeader ip) (l3_offset : ℕ) (l3 : (l3_offset == 0) ≡ false) where
  updated :
      odph_ipv4_csum_update l3_offset ip
      ≡ (odp_chksum (header_bytes ip), record ip { chksum = odp_chksum (header_bytes ip) })
  unfolding odph_ipv4_csum_update
  updated =
      ap
        (λ b.
          if b
          then (0, ip)
          else (odp_chksum (header_bytes ip), record ip { chksum = odp_chksum (header_bytes ip) }))
        l3

  validity :
      (c : ℕ)
      → odph_ipv4_csum_valid l3_offset (record ip { chksum = c })
        ≡ (odp_chksum (header_bytes (record ip { chksum = 0 })) == c)
  unfolding odph_ipv4_csum_valid
  validity c =
      ap (λ b. if b then false else (odp_chksum (header_bytes (record ip { chksum = 0 })) == c)) l3

  pub odph_ipv4_csum_update-valid :
      ip.chksum ≡ 0
      → let after = odph_ipv4_csum_update l3_offset ip in
        (odph_ipv4_csum_valid l3_offset after.1 ≡ true) × (odp_chksum (header_bytes after.1) ≡ 0)
  odph_ipv4_csum_update-valid z =
      let c = odp_chksum (header_bytes ip) in
      let e : odp_chksum (header_bytes (record ip { chksum = 0 })) ≡ c =
        ap (λ x. odp_chksum (header_bytes (record ip { chksum = x }))) (sym z) in
      (
        ap (λ x. odph_ipv4_csum_valid l3_offset x.1) updated
            ∙ validity c
            ∙ ap (λ x. x == c) e
            ∙ eq_self c,
        ap (λ x. odp_chksum (header_bytes x.1)) updated
            ∙ right-chksum ip v c (odp_chksum-lt (header_bytes ip)) e,
      )

  -- If a packet has a layer 3 and an IPv4 header of 20 bytes for which odph_ipv4_csum_valid
  -- returns 1, odph_ipv4_csum_update, which sums the checksum with the rest, puts 0 in its place
  -- and returns 0; the header is then valid only if its right checksum is 0.
  pub odph_ipv4_csum_update_again :
      odph_ipv4_csum_valid l3_offset ip ≡ true
      → (odph_ipv4_csum_update l3_offset ip ≡ (0, record ip { chksum = 0 }))
        × (odph_ipv4_csum_valid l3_offset (odph_ipv4_csum_update l3_offset ip).1 ≡ (ip.chksum == 0))
  odph_ipv4_csum_update_again y =
      let e =
        (==_iff (odp_chksum (header_bytes (record ip { chksum = 0 }))) ip.chksum).0
          (sym (validity ip.chksum) ∙ y) in
      let zeroed =
        updated ∙ ap (λ x. (x, record ip { chksum = x })) (right-chksum ip v ip.chksum v.fits e) in
      (
        zeroed,
        ap (λ x. odph_ipv4_csum_valid l3_offset x.1) zeroed ∙ validity 0 ∙ ap (λ x. x == 0) e,
      )
