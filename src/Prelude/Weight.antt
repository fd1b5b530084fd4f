-- ===== src/Prelude/Weight.antt =====
-- How many bits of a mask are set.
use Prim.Native.Nat.{ℕ, zero, suc, ◌+◌, ◌≤◌, ◌<◌}
use mathlib.Core.Path.{◌≡◌, refl, sym, ap, ◌∙◌}
use mathlib.Core.Logic.{◌≢◌}
use mathlib.Core.Bool.{Bool, true, false}
use native.Mathlib.Decide.{ℕ_discrete}
use native.Mathlib.Decide.{dec_lt}
use native.Mathlib.Omega.{arith}
use odp.Prelude.Tests.{if◌then◌else◌, update, update_self, update-ne}

-- The number of bits set below `n`.
unfoldable pub weight : (ℕ → Bool) → ℕ → ℕ
weight m zero = 0
weight m (suc n) = weight m n + (if m n then 1 else 0)

pub weight-ext : (f g : ℕ → Bool) (n : ℕ) → ((i : ℕ) → i < n → f i ≡ g i) → weight f n ≡ weight g n
unfolding weight
weight-ext f g zero h = refl
weight-ext f g (suc n) h = rw (h n (omega arith), weight-ext f g n (λ i l. h i (omega arith))) refl

-- A bit that was clear and is set.
pub weight-set :
    (m : ℕ → Bool) (i n : ℕ) → i < n → m i ≡ false → weight (update m i true) n ≡ weight m n + 1
unfolding weight
weight-set m i zero l e = absurd (omega arith)
weight-set m i (suc n) l e = elim (ℕ_discrete i n) [
  | yes p ↦
      rw
        (
          sym p,
          update_self m i true,
          e,
          weight-ext (update m i true) m i (λ j h. update-ne m i true j (λ q. omega arith)),
        )
        (omega arith)
  | no ne ↦
      rw (update-ne m i true n (λ q. ne (sym q)), weight-set m i n (omega arith) e) (omega arith)
]

-- A bit that was set and is cleared.
pub weight-clear :
    (m : ℕ → Bool) (i n : ℕ) → i < n → m i ≡ true → weight (update m i false) n + 1 ≡ weight m n
unfolding weight
weight-clear m i zero l e = absurd (omega arith)
weight-clear m i (suc n) l e = elim (ℕ_discrete i n) [
  | yes p ↦
      rw
        (
          sym p,
          update_self m i false,
          e,
          weight-ext (update m i false) m i (λ j h. update-ne m i false j (λ q. omega arith)),
        )
        (omega arith)
  | no ne ↦
      let ih = weight-clear m i n (omega arith) e in
      rw (update-ne m i false n (λ q. ne (sym q)), sym ih) (omega arith)
]

pub weight-false : (n : ℕ) → weight (λ i. false) n ≡ 0
unfolding weight
weight-false zero = refl
weight-false (suc n) = rw (weight-false n) refl

pub weight_le : (m : ℕ → Bool) (n : ℕ) → weight m n ≤ n
unfolding weight
weight_le m zero = omega arith
weight_le m (suc n) = ground (arith, weight_le m n)

pub weight_full : (m : ℕ → Bool) (n : ℕ) → ((j : ℕ) → j < n → m j ≡ true) → weight m n ≡ n
unfolding weight
weight_full m zero h = refl
weight_full m (suc n) h =
    rw (h n (omega arith), weight_full m n (λ j l. h j (omega arith))) (omega arith)

-- What a count over all objects becomes when one of them changes.
pub weight-update {ℓ} :
    {A : Type ℓ} (f : A → Bool) (g : ℕ → A) (i : ℕ) (a : A) (n : ℕ)
    → i < n
    → weight (λ x. f (update g i a x)) n + (if f (g i) then 1 else 0)
      ≡ weight (λ x. f (g x)) n + (if f a then 1 else 0)
unfolding weight
weight-update f g i a zero l = absurd (omega arith)
weight-update f g i a (suc n) l = elim (ℕ_discrete i n) [
  | yes p ↦
      rw
        (
          sym p,
          update_self g i a,
          weight-ext (λ x. f (update g i a x)) (λ x. f (g x)) i
              (λ j h. ap f (update-ne g i a j (λ q. omega arith))),
        )
        (omega arith)
  | no ne ↦
      rw (update-ne g i a n (λ q. ne (sym q)))
        (omega (arith, weight-update f g i a n (omega arith)))
]

-- A bit that is set counts, and two of them count twice.
pub weight_pos : (m : ℕ → Bool) (i n : ℕ) → i < n → m i ≡ true → 1 ≤ weight m n
weight_pos m i n l e = omega (arith, weight-clear m i n l e)

pub weight_two :
    (m : ℕ → Bool) (i j n : ℕ) → i < n → j < n → i ≢ j → m i ≡ true → m j ≡ true → 2 ≤ weight m n
weight_two m i j n li lj ne ei ej =
    let left =
      weight_pos (update m i false) j n lj (update-ne m i false j (λ q. ne (sym q)) ∙ ej) in
    omega (arith, weight-clear m i n li ei, left)

-- If all count, each is set; if not, some is clear.
pub weight-all : (m : ℕ → Bool) (n : ℕ) → weight m n ≡ n → (j : ℕ) → j < n → m j ≡ true
unfolding weight
weight-all m zero e j l = absurd (omega arith)
weight-all m (suc n) e j l = elim (ℕ_discrete j n) [
  | yes p ↦ rw p (ground (arith, weight_le m n))
  | no ne ↦ weight-all m n (ground (arith, weight_le m n)) j (omega arith)
]

pub weight-clear_one : (m : ℕ → Bool) (n : ℕ) → weight m n < n → (j : ℕ) × (j < n) × (m j ≡ false)
unfolding weight
weight-clear_one m zero l = absurd (omega arith)
weight-clear_one m (suc n) l = elim (dec_lt (weight m n) n) [
  | yes h ↦ let (j, lj, e) = weight-clear_one m n h in (j, omega arith, e)
  | no h ↦ (n, omega arith, ground (arith, weight_le m n))
]
