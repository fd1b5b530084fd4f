-- ===== src/Cpumask/Tests.antt =====
-- odp_cpumask.c: the theorems at a mask of CPUs 0 and 5.
use odp.Prelude.{ℕ, ◌≡◌, refl, true, ◌||◌, ◌==◌, List, [], ◌∷◌, arith, min, if◌then◌else◌, ltb}
use odp.Cpumask.{
  Mask, odp_cpumask_to_str, odp_cpumask_from_str, odp_cpumask_def_worker, odp_cpumask_count,
}
use odp.Cpumask.RoundTrip.{from_str-to_str}
use odp.Cpumask.Scan.{odp_cpumask_def_worker_lem}

abbrev two_cpus : Mask
two_cpus = λ c. c == 0 || c == 5

abbrev cpus_text : List ℕ
cpus_text = b'0' ∷ b'x' ∷ b'2' ∷ b'1' ∷ []

from_str-to_str_example : odp_cpumask_from_str 8 cpus_text 5 ≡ two_cpus 5
unfolding odp_cpumask_to_str
from_str-to_str_example = from_str-to_str 8 10 5 two_cpus cpus_text (λ c l. ground arith) refl 5

odp_cpumask_def_worker_lem_example :
    let (n, m) = odp_cpumask_def_worker 8 two_cpus 1 in
    (n ≡ (
      if 1 == 0 || ltb 8 1
      then odp_cpumask_count 8 two_cpus
      else min 1 (odp_cpumask_count 8 two_cpus)))
    × (odp_cpumask_count 8 m ≡ n)
    × ((c : ℕ) → m c ≡ true → two_cpus c ≡ true)
odp_cpumask_def_worker_lem_example = odp_cpumask_def_worker_lem 8 two_cpus 1
