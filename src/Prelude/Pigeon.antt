-- ===== src/Prelude/Pigeon.antt =====
-- Distinct numbers below a bound are no more than the bound.
use Prim.Native.Nat.{ℕ, zero, suc, ◌≤◌, ◌<◌}
use mathlib.Core.Path.{◌≡◌, refl}
use mathlib.Core.List.{List, [], ◌∷◌}
use native.Mathlib.Omega.{arith}
use odp.Prelude.Tests.{◌==◌, if◌then◌else◌}
use odp.Prelude.Lists.{length, All, NotIn, Distinct}

without : ℕ → List ℕ → List ℕ
without m [] = []
without m (x ∷ xs) = let rest = without m xs in if x == m then rest else x ∷ rest

All-without : (m : ℕ) (xs : List ℕ) → All (λ x. x < suc m) xs → All (λ x. x < m) (without m xs)
unfolding without
All-without m [] a = tt
All-without m (x ∷ xs) a = ground (arith, All-without m xs a.1)

NotIn-without : (m y : ℕ) (xs : List ℕ) → NotIn y xs → NotIn y (without m xs)
unfolding without
NotIn-without m y [] n = tt
NotIn-without m y (x ∷ xs) n = ground (arith, NotIn-without m y xs n.1)

Distinct-without : (m : ℕ) (xs : List ℕ) → Distinct xs → Distinct (without m xs)
unfolding without
Distinct-without m [] d = tt
Distinct-without m (x ∷ xs) d = ground (arith, Distinct-without m xs d.1, NotIn-without m x xs d.0)

length-without_absent : (m : ℕ) (xs : List ℕ) → NotIn m xs → length (without m xs) ≡ length xs
unfolding without
length-without_absent m [] n = refl
length-without_absent m (x ∷ xs) n = ground (arith, length-without_absent m xs n.1)

length-without : (m : ℕ) (xs : List ℕ) → Distinct xs → length xs ≤ suc (length (without m xs))
unfolding without
length-without m [] d = omega arith
length-without m (x ∷ xs) d = ground (arith, length-without m xs d.1, length-without_absent m xs)

pub length_le_of_Distinct :
    (m : ℕ) (xs : List ℕ) → Distinct xs → All (λ x. x < m) xs → length xs ≤ m
length_le_of_Distinct m [] d a = omega arith
length_le_of_Distinct zero (x ∷ xs) d a = absurd (omega arith)
length_le_of_Distinct (suc m) (x ∷ xs) d a = omega (
  arith,
  length-without m (x ∷ xs) d,
  length_le_of_Distinct m (without m (x ∷ xs)) (Distinct-without m (x ∷ xs) d)
      (All-without m (x ∷ xs) a),
)
