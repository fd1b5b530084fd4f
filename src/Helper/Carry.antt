-- ===== src/Helper/Carry.antt =====
-- helper/include/odp/helper/chksum.h: the checksum by additions with end-around carry.
use odp.Prelude.{
  ℕ, ◌+◌, ◌-◌, ◌*◌, ◌<◌, ◌≡◌, refl, ap, ◌∙◌, List, [], ◌∷◌, ltb, if◌then◌else◌, arith, length,
  u32_mod, inl, inr, Bool-cases,
}
use native.Mathlib.Nat.{mod-eq_of_lt}
use odp.Helper.{word, add_words, fold_twice, odp_chksum}

-- Addition of 16-bit words in ones' complement.
abbrev pub carry_add : ℕ → ℕ → ℕ
carry_add a b = if ltb (a + b) 65536 then a + b else a + b - 65535

unfoldable pub carry_sum : ℕ → List ℕ → ℕ
carry_sum sum [] = sum
carry_sum sum (b ∷ []) = carry_add sum b
carry_sum sum (lo ∷ hi ∷ rest) = carry_sum (carry_add sum (word lo hi)) rest

abbrev pub AreBytes : List ℕ → Type 0
AreBytes [] = Unit
AreBytes (b ∷ bs) = (b < 256) × AreBytes bs

fold_twice-zero : fold_twice 0 ≡ 0
fold_twice-zero = refl

-- Folding after an addition is adding with the carry after folding.
pub fold_twice-add :
    (s w : ℕ) → s + w < u32_mod → w < 65536 → fold_twice (s + w) ≡ carry_add (fold_twice s) w
fold_twice-add s w l u = elim (Bool-cases (ltb (fold_twice s + w) 65536)) [
  | inl y ↦ rw y (grind arith)
  | inr y ↦ rw y (grind arith)
]

add_words-carry_sum :
    (bs : List ℕ) (s : ℕ)
    → AreBytes bs
    → s + length bs * 65536 < u32_mod
    → fold_twice (add_words s bs) ≡ carry_sum (fold_twice s) bs
unfolding add_words carry_sum
add_words-carry_sum [] s a l = refl
add_words-carry_sum (b ∷ []) s a l =
    ap fold_twice (mod-eq_of_lt (omega arith)) ∙ fold_twice-add s b (omega arith) (omega arith)
add_words-carry_sum (lo ∷ hi ∷ rest) s a l =
    let small : s + word lo hi < u32_mod = omega arith in
    ap (λ x. fold_twice (add_words x rest)) (mod-eq_of_lt small)
    ∙ add_words-carry_sum rest (s + word lo hi) a.1.1 (omega arith)
    ∙ ap (λ x. carry_sum x rest) (fold_twice-add s (word lo hi) small (omega arith))

-- For fewer than 65536 bytes, odp_chksum, which adds 16-bit words in 32 bits and folds the sum
-- at the end, is the complement of the sum of these words in ones' complement, where each
-- addition brings the carry around; an odd last byte counts as a word.
pub odp_chksum-carry_sum :
    (bs : List ℕ) → AreBytes bs → length bs < 65536 → odp_chksum bs ≡ 65535 - carry_sum 0 bs
unfolding odp_chksum
odp_chksum-carry_sum bs a l = ap (λ x. 65535 - x) (add_words-carry_sum bs 0 a (omega arith))
