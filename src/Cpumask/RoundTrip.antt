-- ===== src/Cpumask/RoundTrip.antt =====
-- odp_cpumask.c: reading the digits of a mask gives the mask.
use odp.Prelude.{
  ℕ, zero, suc, ◌+◌, ◌*◌, ◌/◌, ◌%◌, ◌^◌, ◌≤◌, ◌<◌, ◌≡◌, refl, ap, subst, ◌∙◌, inl, inr, false, some,
  List, [], ◌∷◌, arith, ltb, if◌then◌else◌, Bool-cases, ℕ_discrete, dec_lt,
}
use mathlib.Core.List.{reverse}
use odp.Cpumask.{
  Mask, odp_cpumask_zero, digit, nibble, to_chars, set_bit_of, set_nibble, from_chars, strip,
  odp_cpumask_from_str, odp_cpumask_to_str,
}
use odp.Cpumask.Scan.{odp_cpumask_last_lem}
use odp.Cpumask.Text.{bit_of, nib, high, low, reverse_aux-high, to_chars-high}

nibble-digit : (v : ℕ) → v < 16 → nibble (digit v) ≡ some v
unfolding nibble
nibble-digit v l = ground arith

-- The mask `s` has the CPUs of `m` below `b`, and no other.
abbrev Agrees : Mask → ℕ → Mask → Type 0
Agrees m b s = (c : ℕ) → s c ≡ (if ltb c b then m c else false)

set_bit_of-Agrees :
    (m : Mask) (size value idx cpu : ℕ) (s : Mask)
    → ((c : ℕ) → size ≤ c → m c ≡ false)
    → value / 2 ^ idx % 2 ≡ bit_of m (cpu + idx)
    → Agrees m (cpu + idx) s
    → Agrees m (cpu + suc idx) (set_bit_of size value idx cpu s)
set_bit_of-Agrees m size value idx cpu s fits at a c = elim (ℕ_discrete c (cpu + idx)) [
  | yes e ↦ ground (arith, fits c, a c, ap m e)
  | no ne ↦ ground (arith, a c)
]

bit_of_le : (m : Mask) (c : ℕ) → bit_of m c ≤ 1
bit_of_le m c = ground arith

set_nibble-Agrees :
    (m : Mask) (size i : ℕ) (s : Mask)
    → ((c : ℕ) → size ≤ c → m c ≡ false)
    → Agrees m (i * 4) s
    → Agrees m (suc i * 4) (set_nibble size (nib m i) (i * 4) s)
unfolding set_nibble
set_nibble-Agrees m size i s fits a =
    let same : i * 4 ≡ i * 4 + 0 = omega arith in
    let l0 = bit_of_le m (i * 4) in
    let l1 = bit_of_le m (i * 4 + 1) in
    let l2 = bit_of_le m (i * 4 + 2) in
    let l3 = bit_of_le m (i * 4 + 3) in
    let a0 = subst (λ b. Agrees m b s) (omega arith) a in
    let a1 =
      set_bit_of-Agrees m size (nib m i) 0 (i * 4) s fits (omega (arith, l0, ap (bit_of m) same))
        a0 in
    let a2 =
      set_bit_of-Agrees m size (nib m i) 1 (i * 4) _ fits (omega (arith, l0, l1, l2, l3)) a1 in
    let a3 =
      set_bit_of-Agrees m size (nib m i) 2 (i * 4) _ fits (omega (arith, l0, l1, l2, l3)) a2 in
    let a4 =
      set_bit_of-Agrees m size (nib m i) 3 (i * 4) _ fits (omega (arith, l0, l1, l2, l3)) a3 in
    subst (λ b. Agrees m b (set_nibble size (nib m i) (i * 4) s)) (omega arith) a4

nib_lt : (m : Mask) (i : ℕ) → nib m i < 16
nib_lt m i = ground arith

from_chars-low :
    (m : Mask) (size n i : ℕ) (s : Mask)
    → ((c : ℕ) → size ≤ c → m c ≡ false)
    → Agrees m (i * 4) s
    → (s' : Mask) × (from_chars size (low m i n) (i * 4) s ≡ some s') × Agrees m ((i + n) * 4) s'
unfolding from_chars
from_chars-low m size zero i s fits a = (s, refl, subst (λ b. Agrees m b s) (omega arith) a)
from_chars-low m size (suc n) i s fits a = elim (Bool-cases (ltb (i * 4) size)) [
  | inr e ↦ (s, rw (from_chars, e) refl, λ c. ground (arith, fits c, a c))
  | inl e ↦
      let s1 = set_nibble size (nib m i) (i * 4) s in
      let a1 = set_nibble-Agrees m size i s fits a in
      let next : i * 4 + 4 ≡ suc i * 4 = omega arith in
      let (s', f, g) = from_chars-low m size n (suc i) s1 fits a1 in
      (
        s',
        rw (from_chars, e, nibble-digit (nib m i) (nib_lt m i), from_chars, next) f,
        subst (λ b. Agrees m b s') (omega arith) g,
      )
]

read_high :
    (m : Mask) (size k : ℕ)
    → ((c : ℕ) → size ≤ c → m c ≡ false)
    → Agrees m (k * 4) (odp_cpumask_from_str size (b'0' ∷ b'x' ∷ high m k))
unfolding odp_cpumask_from_str strip
read_high m size k fits =
    let (s, f, g) = from_chars-low m size k 0 odp_cpumask_zero fits (λ c. ground arith) in
    let digits : reverse (high m k) ≡ low m 0 k =
      reverse_aux-high m k 0 ∙ ap (low m 0) (omega arith) in
    rw (odp_cpumask_from_str, digits, f) (subst (λ t. Agrees m (t * 4) s) (omega arith) g)

-- The text, as digits of nibbles that cover all CPUs of the mask.
written :
    (size len n : ℕ) (m : Mask) (str : List ℕ)
    → ((c : ℕ) → size ≤ c → m c ≡ false)
    → odp_cpumask_to_str size m len ≡ some (n, str)
    → (k : ℕ) × (str ≡ b'0' ∷ b'x' ∷ high m k) × ((c : ℕ) → k * 4 ≤ c → m c ≡ false)
unfolding odp_cpumask_to_str
written size len n m str fits e = elim (odp_cpumask_last_lem size m) [
  | inl (out, clear) ↦
      let off : (c : ℕ) → m c ≡ false =
        λ c. elim (dec_lt c size) [ yes l ↦ clear c l | no ge ↦ fits c (omega arith) ] in
      let text : str ≡ b'0' ∷ b'x' ∷ b'0' ∷ [] = ground (arith, e, out) in
      (1, text ∙ rw (off 0, off 1, off 2, off 3) refl, λ c l. off c)
  | inr (cpu, found, l, set, above) ↦
      let top : (c : ℕ) → cpu < c → m c ≡ false =
        λ c h. elim (dec_lt c size) [ yes k ↦ above c h k | no ge ↦ fits c (omega arith) ] in
      let text : str ≡ b'0' ∷ b'x' ∷ to_chars m cpu 0 = ground (arith, e, found) in
      (
        suc (cpu / 4),
        text ∙ ap (λ cs. b'0' ∷ b'x' ∷ cs) (to_chars-high m cpu top),
        λ c h. top c (omega arith),
      )
]

-- If a mask has no CPU at or above the set's size and odp_cpumask_to_str has room for its text,
-- odp_cpumask_from_str reads the same mask back from the text.
pub from_str-to_str :
    (size len n : ℕ) (m : Mask) (str : List ℕ)
    → ((c : ℕ) → size ≤ c → m c ≡ false)
    → odp_cpumask_to_str size m len ≡ some (n, str)
    → (c : ℕ) → odp_cpumask_from_str size str c ≡ m c
from_str-to_str size len n m str fits e c =
    let (k, text, past) = written size len n m str fits e in
    let a = read_high m size k fits c in
    elim (dec_lt c (k * 4)) [
      | yes l ↦ rw text (ground (arith, a))
      | no ge ↦ rw text (ground (arith, a, past c (omega arith)))
    ]
