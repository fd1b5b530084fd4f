-- ===== src/Cpumask/Text.antt =====
-- odp_cpumask.c: the text of a mask is read back as the mask.
use odp.Prelude.{
  ℕ, zero, suc, ◌+◌, ◌*◌, ◌/◌, ◌%◌, ◌^◌, ◌<◌, ◌≡◌, refl, sym, ap, ◌∙◌, inl, inr, true, false, List,
  [], ◌∷◌, arith, ◌==◌, if◌then◌else◌, Bool-cases,
}
use odp.Prelude.Bits.{bit_or-fields}
use native.Mathlib.Nat.{pow-suc, one-le-pow}
use mathlib.Core.List.{reverse_aux}
use odp.Cpumask.{Mask, digit, add_bit, to_chars}

abbrev pub bit_of : Mask → ℕ → ℕ
bit_of m c = if m c then 1 else 0

-- Four CPUs of a mask, as a number.
abbrev pub nib : Mask → ℕ → ℕ
nib m k =
    bit_of m (k * 4)
    + 2 * bit_of m (k * 4 + 1)
    + 4 * bit_of m (k * 4 + 2)
    + 8 * bit_of m (k * 4 + 3)

-- The digits of the first `k` nibbles, the highest first, and of `n` nibbles from `i` on, the
-- lowest first.
abbrev pub high : Mask → ℕ → List ℕ
high m zero = []
high m (suc k) = digit (nib m k) ∷ high m k

abbrev pub low : Mask → ℕ → ℕ → List ℕ
low m i zero = []
low m i (suc n) = digit (nib m i) ∷ low m (suc i) n

-- The text of the CPUs below nibble `k`.
abbrev below : Mask → ℕ → List ℕ
below m zero = []
below m (suc k) = to_chars m (k * 4 + 3) 0

pub reverse_aux-high : (m : Mask) (k n : ℕ) → reverse_aux (high m k) (low m k n) ≡ low m 0 (k + n)
reverse_aux-high m zero n = ap (low m 0) (omega arith)
reverse_aux-high m (suc k) n = reverse_aux-high m k (suc n) ∙ ap (low m 0) (omega arith)

-- A bit goes into a nibble that has only higher ones.
add_bit_lem :
    (m : Mask) (c r q : ℕ)
    → c % 4 ≡ r
    → add_bit m c (q * 2 ^ suc r) ≡ q * 2 ^ suc r + bit_of m c * 2 ^ r
add_bit_lem m c r q e = elim (Bool-cases (m c)) [
  | inr off ↦ rw off (omega arith)
  | inl on ↦
      rw (on, e)
        (bit_or-fields (suc r) q (2 ^ r) (omega (arith, pow-suc 2 r, one-le-pow r 2 (omega arith)))
          ∙ omega arith)
]

-- A CPU inside a nibble.
to_chars-inner :
    (m : Mask) (r c q v w : ℕ)
    → suc c % 4 ≡ r
    → 0 < r
    → v ≡ q * 2 ^ suc r
    → w ≡ v + bit_of m (suc c) * 2 ^ r
    → to_chars m (suc c) v ≡ to_chars m c w
unfolding to_chars
to_chars-inner m r c q v w at pos old new =
    let e : (suc c % 4 == 0) ≡ false = ground arith in
    let gain : add_bit m (suc c) v ≡ w =
      ap (add_bit m (suc c)) old
      ∙ add_bit_lem m (suc c) r q at
      ∙ ap (λ (t : ℕ). t + bit_of m (suc c) * 2 ^ r) (sym old)
      ∙ sym new in
    rw (to_chars, e) (ap (to_chars m c) gain)

to_chars-step :
    (m : Mask) (r c c' q v w : ℕ)
    → c ≡ suc c'
    → c % 4 ≡ r
    → 0 < r
    → v ≡ q * 2 ^ suc r
    → w ≡ v + bit_of m c * 2 ^ r
    → to_chars m c v ≡ to_chars m c' w
to_chars-step m r c c' q v w e at pos old new =
    ap (λ t. to_chars m t v) e
    ∙ to_chars-inner m r c' q v w (ap (λ (t : ℕ). t % 4) (sym e) ∙ at) pos old
        (new ∙ ap (λ t. v + bit_of m t * 2 ^ r) e)

-- A CPU at the end of a nibble.
to_chars-border :
    (m : Mask) (c v : ℕ)
    → suc c % 4 ≡ 0
    → to_chars m (suc c) v ≡ digit (add_bit m (suc c) v) ∷ to_chars m c 0
unfolding to_chars
to_chars-border m c v e = let t : (suc c % 4 == 0) ≡ true = ground arith in rw (to_chars, t) refl

-- The text below the lowest bit of a nibble whose three others are in `value`.
to_chars-last :
    (m : Mask) (k q : ℕ) → to_chars m (k * 4) (q * 2) ≡ digit (q * 2 + bit_of m (k * 4)) ∷ below m k
unfolding to_chars
to_chars-last m zero q = ap (λ v. digit v ∷ []) (add_bit_lem m 0 0 q refl ∙ omega arith)
to_chars-last m (suc k) q =
    let e : suc k * 4 ≡ suc (k * 4 + 3) = omega arith in
    rw e (
      to_chars-border m (k * 4 + 3) (q * 2) (omega arith)
      ∙ ap (λ v. digit v ∷ to_chars m (k * 4 + 3) 0)
          (add_bit_lem m (suc (k * 4 + 3)) 0 q (omega arith) ∙ omega arith))

-- A whole nibble.
to_chars-nib : (m : Mask) (k : ℕ) → to_chars m (k * 4 + 3) 0 ≡ digit (nib m k) ∷ below m k
to_chars-nib m k =
    let b3 = bit_of m (k * 4 + 3) in
    let b2 = bit_of m (k * 4 + 2) in
    let b1 = bit_of m (k * 4 + 1) in
    let s3 : to_chars m (k * 4 + 3) 0 ≡ to_chars m (k * 4 + 2) (b3 * 8) =
      to_chars-step m 3 (k * 4 + 3) (k * 4 + 2) 0 0 (b3 * 8) (omega arith) (omega arith)
        (omega arith) (omega arith) (omega arith) in
    let s2 : to_chars m (k * 4 + 2) (b3 * 8) ≡ to_chars m (k * 4 + 1) (b3 * 8 + b2 * 4) =
      to_chars-step m 2 (k * 4 + 2) (k * 4 + 1) b3 (b3 * 8) (b3 * 8 + b2 * 4) (omega arith)
        (omega arith) (omega arith) (omega arith) (omega arith) in
    let s1 : to_chars m (k * 4 + 1) (b3 * 8 + b2 * 4)
        ≡ to_chars m (k * 4) ((b3 * 4 + b2 * 2 + b1) * 2) =
      to_chars-step m 1 (k * 4 + 1) (k * 4) (b3 * 2 + b2) (b3 * 8 + b2 * 4)
        ((b3 * 4 + b2 * 2 + b1) * 2) (omega arith) (omega arith) (omega arith) (omega arith)
        (omega arith) in
    s3
    ∙ s2
    ∙ s1
    ∙ to_chars-last m k (b3 * 4 + b2 * 2 + b1)
    ∙ ap (λ v. digit v ∷ below m k) (omega arith)

below-high : (m : Mask) (k : ℕ) → below m k ≡ high m k
below-high m zero = refl
below-high m (suc k) = to_chars-nib m k ∙ ap (λ cs. digit (nib m k) ∷ cs) (below-high m k)

-- CPUs that are not set, at the top of the highest nibble, give no digit.
to_chars-unset :
    (m : Mask) (k r : ℕ)
    → r < 3
    → m (k * 4 + suc r) ≡ false
    → to_chars m (k * 4 + suc r) 0 ≡ to_chars m (k * 4 + r) 0
to_chars-unset m k r l off =
    to_chars-step m (suc r) (k * 4 + suc r) (k * 4 + r) 0 0 0 (omega arith) (omega arith)
      (omega arith) (omega arith) (rw off (omega arith))

pub to_chars-high :
    (m : Mask) (cpu : ℕ)
    → ((c : ℕ) → cpu < c → m c ≡ false)
    → to_chars m cpu 0 ≡ high m (suc (cpu / 4))
to_chars-high m cpu above =
    let k = cpu / 4 in
    let top : to_chars m (k * 4 + 3) 0 ≡ high m (suc k) = below-high m (suc k) in
    go (cpu % 4) (omega arith) (omega arith) top
  where
    go :
        (r : ℕ)
        → r < 4
        → cpu ≡ cpu / 4 * 4 + r
        → to_chars m (cpu / 4 * 4 + 3) 0 ≡ high m (suc (cpu / 4))
        → to_chars m cpu 0 ≡ high m (suc (cpu / 4))
    go zero l e top =
        ap (λ c. to_chars m c 0) e
        ∙ sym (to_chars-unset m (cpu / 4) 0 (omega arith) (above _ (omega arith)))
        ∙ sym (to_chars-unset m (cpu / 4) 1 (omega arith) (above _ (omega arith)))
        ∙ sym (to_chars-unset m (cpu / 4) 2 (omega arith) (above _ (omega arith)))
        ∙ top
    go (suc zero) l e top =
        ap (λ c. to_chars m c 0) e
        ∙ sym (to_chars-unset m (cpu / 4) 1 (omega arith) (above _ (omega arith)))
        ∙ sym (to_chars-unset m (cpu / 4) 2 (omega arith) (above _ (omega arith)))
        ∙ top
    go (suc (suc zero)) l e top =
        ap (λ c. to_chars m c 0) e
        ∙ sym (to_chars-unset m (cpu / 4) 2 (omega arith) (above _ (omega arith)))
        ∙ top
    go (suc (suc (suc zero))) l e top = ap (λ c. to_chars m c 0) e ∙ top
    go (suc (suc (suc (suc r)))) l e top = absurd (omega arith)
