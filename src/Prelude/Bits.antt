-- ===== src/Prelude/Bits.antt =====
-- What `&` and `|` of C are as arithmetic: a mask of low bits, and fields that do not overlap.
use Prim.Native.Nat.{
  ℕ, zero, suc, ◌+◌, ◌-◌, ◌*◌, ◌/◌, ◌%◌, ◌^◌, ◌≤◌, ◌<◌, min, max, bit_and, bit_or, digits,
  bit_and-bitwise, bit_or-bitwise,
}
use mathlib.Core.Path.{◌≡◌, refl, ap, ◌∙◌}
use native.Mathlib.Nat.{
  pow-suc, one-le-pow, mod-lt, div-add-mod', add-mul-mod_self_right, mod-eq_of_lt,
}
use native.Mathlib.Omega.{arith}

-- Any two counts of digits that cover the first number give the same.
digits-enough :
    (f : ℕ → ℕ → ℕ) (z : ℕ → ℕ) (a b k l : ℕ)
    → (a ≤ k) × (a ≤ l)
    → digits z f k a b ≡ digits z f l a b
digits-enough f z (suc a) b (suc k) (suc l) h =
    let half = suc a / 2 in
    let rest = digits-enough f z half (b / 2) k l (omega (arith, h.0), omega (arith, h.1)) in
    ap (λ t. t * 2 + f (suc a % 2) (b % 2)) rest
digits-enough f z zero b (suc k) (suc l) h = refl
digits-enough f z zero b (suc k) zero h = refl
digits-enough f z zero b zero (suc l) h = refl
digits-enough f z zero b zero zero h = refl
digits-enough f z (suc a) b zero l h = absurd (omega (arith, h.0))
digits-enough f z (suc a) b (suc k) zero h = absurd (omega (arith, h.1))

bit_or_halves :
    (a b : ℕ) → bit_or (suc a) b ≡ bit_or (suc a / 2) (b / 2) * 2 + max (suc a % 2) (b % 2)
bit_or_halves a b = omega (
  arith,
  bit_or-bitwise (suc a) b,
  bit_or-bitwise (suc a / 2) (b / 2),
  digits-enough max (λ x. x) (suc a / 2) (b / 2) a (suc a / 2) (omega arith, omega arith),
)

bit_and_halves :
    (a b : ℕ) → bit_and (suc a) b ≡ bit_and (suc a / 2) (b / 2) * 2 + min (suc a % 2) (b % 2)
bit_and_halves a b = omega (
  arith,
  bit_and-bitwise (suc a) b,
  bit_and-bitwise (suc a / 2) (b / 2),
  digits-enough min (λ _. 0) (suc a / 2) (b / 2) a (suc a / 2) (omega arith, omega arith),
)

zero-bit_or : (b : ℕ) → bit_or 0 b ≡ b
zero-bit_or b = bit_or-bitwise 0 b

zero-bit_and : (b : ℕ) → bit_and 0 b ≡ 0
zero-bit_and b = bit_and-bitwise 0 b

-- One digit of each, at any first number.
pub or_step : (a b : ℕ) → bit_or a b ≡ bit_or (a / 2) (b / 2) * 2 + max (a % 2) (b % 2)
or_step zero b = omega (arith, zero-bit_or b, zero-bit_or (b / 2))
or_step (suc a) b = bit_or_halves a b

pub and_step : (a b : ℕ) → bit_and a b ≡ bit_and (a / 2) (b / 2) * 2 + min (a % 2) (b % 2)
and_step zero b = omega (arith, zero-bit_and b, zero-bit_and (b / 2))
and_step (suc a) b = bit_and_halves a b

or-zero_below : (n a : ℕ) → a ≤ n → bit_or a 0 ≡ a
or-zero_below n zero h = refl
or-zero_below zero (suc a) h = absurd (omega arith)
or-zero_below (suc n) (suc a) h =
    omega (arith, or_step (suc a) 0, or-zero_below n (suc a / 2) (omega arith))

and-zero_below : (n a : ℕ) → a ≤ n → bit_and a 0 ≡ 0
and-zero_below n zero h = refl
and-zero_below zero (suc a) h = absurd (omega arith)
and-zero_below (suc n) (suc a) h =
    omega (arith, and_step (suc a) 0, and-zero_below n (suc a / 2) (omega arith))

-- A remainder by an even number keeps the lowest digit.
mod-double : (p y : ℕ) → 0 < p → y % (p * 2) ≡ y / 2 % p * 2 + y % 2
mod-double p y h =
    let low = y / 2 % p * 2 + y % 2 in
    let whole : y ≡ low + y / 2 / p * (p * 2) = omega (arith, div-add-mod' (y / 2) p) in
    let fits : low < p * 2 = omega (arith, mod-lt (y / 2) h) in
    ap (λ t. t % (p * 2)) whole ∙ add-mul-mod_self_right low (y / 2 / p) (p * 2) ∙ mod-eq_of_lt fits

-- `x & (2 ^ k - 1)` is the remainder.
pub bit_and-mask : (k x : ℕ) → bit_and x (2 ^ k - 1) ≡ x % 2 ^ k
bit_and-mask zero x = omega (arith, and-zero_below x x (omega arith))
bit_and-mask (suc k) x =
    let p = 2 ^ k in
    let pos : 0 < p = one-le-pow k 2 (omega arith) in
    let even : 2 ^ suc k ≡ p * 2 = pow-suc 2 k in
    let half : (2 ^ suc k - 1) / 2 ≡ p - 1 = omega arith in
    let odd : (2 ^ suc k - 1) % 2 ≡ 1 = omega arith in
    omega (
      arith,
      and_step x (2 ^ suc k - 1),
      ap (λ t. bit_and (x / 2) t) half,
      bit_and-mask k (x / 2),
      mod-double p x pos,
      ap (λ t. x % t) even,
    )

-- A field above `k` bits and one of `k` bits are joined by their sum.
pub bit_or-fields : (k q r : ℕ) → r < 2 ^ k → bit_or (q * 2 ^ k) r ≡ q * 2 ^ k + r
bit_or-fields zero q r h =
    let e : r ≡ 0 = omega arith in rw e (omega (arith, or-zero_below (q * 1) (q * 1) (omega arith)))
bit_or-fields (suc k) q r h =
    let p = 2 ^ k in
    let even : q * 2 ^ suc k ≡ q * p * 2 = omega (arith, ap (λ (t : ℕ). q * t) (pow-suc 2 k)) in
    let half : q * 2 ^ suc k / 2 ≡ q * p = omega arith in
    omega (
      arith,
      pow-suc 2 k,
      or_step (q * 2 ^ suc k) r,
      ap (λ t. bit_or t (r / 2)) half,
      bit_or-fields k q (r / 2) (omega (arith, pow-suc 2 k)),
    )

-- The same with the small field first.
pub bit_or-fields_left : (k q r : ℕ) → r < 2 ^ k → bit_or r (q * 2 ^ k) ≡ q * 2 ^ k + r
bit_or-fields_left zero q r h =
    let e : r ≡ 0 = omega arith in rw e (omega (arith, zero-bit_or (q * 1)))
bit_or-fields_left (suc k) q r h =
    let p = 2 ^ k in
    let even : q * 2 ^ suc k ≡ q * p * 2 = omega (arith, ap (λ (t : ℕ). q * t) (pow-suc 2 k)) in
    let half : q * 2 ^ suc k / 2 ≡ q * p = omega arith in
    omega (
      arith,
      pow-suc 2 k,
      or_step r (q * 2 ^ suc k),
      ap (λ t. bit_or (r / 2) t) half,
      bit_or-fields_left k q (r / 2) (omega (arith, pow-suc 2 k)),
    )
