-- ===== src/Cpumask/Scan.antt =====
-- odp_cpumask.c and odp_cpumask_task.c: the loops that look for the CPUs of a mask.
use odp.Prelude.{
  ℕ, zero, suc, ◌+◌, ◌-◌, ◌≤◌, ◌<◌, ◌≡◌, refl, sym, ◌∙◌, ◌⊎◌, inl, inr, true, false, none, some,
  arith, ltb, ◌==◌, ◌||◌, if◌then◌else◌, Bool-cases, ℕ_discrete, update, update-ne, min,
}
use odp.Prelude.Weight.{weight, weight-set, weight-false}
use odp.Cpumask.{
  Mask, odp_cpumask_zero, first_from, odp_cpumask_next, odp_cpumask_last, odp_cpumask_count,
  take_cpus, odp_cpumask_def_worker,
}

-- `odp_cpumask_last` finds the highest CPU that is set below `size`, or none is set there.
pub odp_cpumask_last_lem :
    (size : ℕ) (m : Mask)
    → ((odp_cpumask_last size m ≡ none) × ((c : ℕ) → c < size → m c ≡ false))
      ⊎ ((cpu : ℕ) × (odp_cpumask_last size m ≡ some cpu)
          × (cpu < size)
          × (m cpu ≡ true)
          × ((c : ℕ) → cpu < c → c < size → m c ≡ false))
unfolding odp_cpumask_last
odp_cpumask_last_lem zero m = inl (refl, λ c l. absurd (omega arith))
odp_cpumask_last_lem (suc n) m = elim (Bool-cases (m n)) [
  | inl e ↦ inr (n, rw e refl, omega arith, e, λ c a b. absurd (omega arith))
  | inr e ↦ elim (odp_cpumask_last_lem n m) [
    | inl (out, none_set) ↦ inl (
      rw (e, out) refl,
      λ c l. elim (ℕ_discrete c n) [ yes p ↦ rw p e | no ne ↦ none_set c (omega arith) ],
    )
    | inr (cpu, found, l, set, above) ↦ inr (
      cpu,
      rw (e, found) refl,
      omega arith,
      set,
      λ c a b. elim (ℕ_discrete c n) [ yes p ↦ rw p e | no ne ↦ above c a (omega arith) ],
    )
  ]
]

first_from_lem :
    (m : Mask) (i n : ℕ)
    → ((first_from m i n ≡ none) × ((c : ℕ) → i ≤ c → c < i + n → m c ≡ false))
      ⊎ ((k : ℕ) × (first_from m i n ≡ some k)
          × (i ≤ k)
          × (k < i + n)
          × (m k ≡ true)
          × ((c : ℕ) → i ≤ c → c < k → m c ≡ false))
unfolding first_from
first_from_lem m i zero = inl (refl, λ c a b. absurd (omega arith))
first_from_lem m i (suc n) = elim (Bool-cases (m i)) [
  | inl e ↦ inr (i, rw e refl, omega arith, omega arith, e, λ c a b. absurd (omega arith))
  | inr e ↦ elim (first_from_lem m (suc i) n) [
    | inl (out, clear) ↦ inl (
      rw (e, out) refl,
      λ c a b. elim (ℕ_discrete c i) [
        | yes p ↦ rw p e
        | no ne ↦ clear c (omega arith) (omega arith)
      ],
    )
    | inr (k, found, lo, hi, set, before) ↦ inr (
      k,
      rw (e, found) refl,
      omega arith,
      omega arith,
      set,
      λ c a b. elim (ℕ_discrete c i) [ yes p ↦ rw p e | no ne ↦ before c (omega arith) b ],
    )
  ]
]

-- `odp_cpumask_next` finds the lowest CPU above the given one, or none is set there.
pub odp_cpumask_next_lem :
    (size cpu : ℕ) (m : Mask)
    → ((odp_cpumask_next size cpu m ≡ none) × ((c : ℕ) → cpu < c → c < size → m c ≡ false))
      ⊎ ((k : ℕ) × (odp_cpumask_next size cpu m ≡ some k)
          × (cpu < k)
          × (k < size)
          × (m k ≡ true)
          × ((c : ℕ) → cpu < c → c < k → m c ≡ false))
unfolding odp_cpumask_next
odp_cpumask_next_lem size cpu m = elim (first_from_lem m (cpu + 1) (size - (cpu + 1))) [
  | inl (out, clear) ↦ inl (out, λ c a b. clear c (omega arith) (omega arith))
  | inr (k, found, lo, hi, set, before) ↦
      inr (k, found, omega arith, omega arith, set, λ c a b. before c (omega arith) b)
]

-- What the loop of `odp_cpumask_def_worker` leaves: the count goes up to `num` at most, by as many
-- CPUs of the affinity as there are, and the mask gains as many, all of the affinity.
record Taken (size : ℕ) (cpuset : Mask) (num i cpu : ℕ) (m : Mask) : Type 0 where
  count : (take_cpus size cpuset num i cpu m).0 ≡ min num (cpu + weight cpuset i)
  grows :
      weight (take_cpus size cpuset num i cpu m).1 size + cpu
      ≡ weight m size + (take_cpus size cpuset num i cpu m).0
  within :
      (c : ℕ) → (take_cpus size cpuset num i cpu m).1 c ≡ true → (m c ≡ true) ⊎ (cpuset c ≡ true)

take_cpus_lem :
    (size : ℕ) (cpuset : Mask) (num i cpu : ℕ) (m : Mask)
    → i ≤ size
    → cpu ≤ num
    → ((c : ℕ) → c < i → m c ≡ false)
    → Taken size cpuset num i cpu m
unfolding take_cpus weight
take_cpus_lem size cpuset num zero cpu m fits le clear = record {
  count = omega arith;
  grows = omega arith;
  within = λ c e. inl e;
}
take_cpus_lem size cpuset num (suc i) cpu m fits le clear = elim (Bool-cases (ltb cpu num)) [
  | inr e ↦
      let full : cpu ≡ num = ground arith in
      record {
        count = rw (take_cpus, e) (omega arith);
        grows = rw (take_cpus, e) (omega arith);
        within = rw (take_cpus, e) (λ c h. inl h);
      }
  | inl e ↦
      let less : cpu < num = ground arith in
      elim (Bool-cases (cpuset i)) [
        | inr off ↦
            let ih =
              take_cpus_lem size cpuset num i cpu m (omega arith) le
                (λ c l. clear c (omega arith)) in
            record {
              count = rw (take_cpus, e, off) (omega (arith, ih.count));
              grows = rw (take_cpus, e, off) ih.grows;
              within = rw (take_cpus, e, off) ih.within;
            }
        | inl on ↦
            let inside : ltb i size ≡ true = ground arith in
            let m' = update m i true in
            let ih =
              take_cpus_lem size cpuset num i (cpu + 1) m' (omega arith) (omega arith)
                (λ c l. update-ne m i true c (λ q. omega arith) ∙ clear c (omega arith)) in
            let gain = weight-set m i size (omega arith) (clear i (omega arith)) in
            record {
              count = rw (take_cpus, e, on, inside) (omega (arith, ih.count));
              grows = rw (take_cpus, e, on, inside) (omega (arith, ih.grows, gain));
              within =
                  rw (take_cpus, e, on, inside)
                    (λ c h. elim (ih.within c h) [
                      | inr w ↦ inr w
                      | inl w ↦ elim (ℕ_discrete c i) [
                        | yes p ↦ inr (rw p on)
                        | no ne ↦ inl (sym (update-ne m i true c ne) ∙ w)
                      ]
                    ]);
            }
      ]
]

-- odp_cpumask_def_worker takes as many CPUs as were asked for and are there, or all if 0 or more
-- than the set's size were asked for; the mask holds exactly that many, all of the thread's
-- affinity, and their number is returned.
pub odp_cpumask_def_worker_lem :
    (size : ℕ) (cpuset : Mask) (num : ℕ)
    → let (n, m) = odp_cpumask_def_worker size cpuset num in
      (n ≡ (
        if num == 0 || ltb size num
        then odp_cpumask_count size cpuset
        else min num (odp_cpumask_count size cpuset)))
      × (odp_cpumask_count size m ≡ n)
      × ((c : ℕ) → m c ≡ true → cpuset c ≡ true)
unfolding odp_cpumask_def_worker odp_cpumask_count
odp_cpumask_def_worker_lem size cpuset num =
    let n = if num == 0 || ltb size num then weight cpuset size else num in
    let t =
      take_cpus_lem size cpuset n size 0 odp_cpumask_zero (omega arith) (omega arith)
        (λ c l. refl) in
    (
      elim (Bool-cases (num == 0 || ltb size num)) [
        | inl e ↦ t.count ∙ rw e (omega arith)
        | inr e ↦ t.count ∙ rw e (omega arith)
      ],
      omega (arith, t.grows, weight-false size),
      λ c e. elim (t.within c e) [ inl w ↦ cc | inr w ↦ w ],
    )
