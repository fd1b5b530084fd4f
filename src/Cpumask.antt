-- ===== src/Cpumask.antt =====
-- platform/linux-generic/odp_cpumask.c, odp_cpumask_task.c and odp_thrmask.c: masks of CPUs and of
-- threads, and their text.
--
-- A mask is a function from CPUs. `size` is CPU_SETSIZE of the C library, and `CPU_SET` and
-- `CPU_CLR` leave a mask alone at a CPU from `size` on, as documented. Characters are their codes;
-- a string is a list of them without the null at its end. A thread mask is a CPU mask, and its
-- functions are those of CPU masks.
pub mod Text
pub mod RoundTrip
pub mod Scan
mod Tests
use odp.Prelude.{
  ℕ, zero, suc, ◌+◌, ◌-◌, ◌*◌, ◌/◌, ◌%◌, ◌^◌, Bool, true, false, not, ◌&&◌, ◌||◌, Option, none,
  some, List, [], ◌∷◌, ltb, leb, ◌==◌, if◌then◌else◌, update, length,
}
use odp.Prelude.Weight.{weight}
use Prim.Native.Nat.{bit_or, bit_and}
use mathlib.Core.List.{reverse}

abbrev pub Mask : Type 0
Mask = ℕ → Bool

abbrev pub odp_cpumask_zero : Mask
odp_cpumask_zero = λ cpu. false

abbrev pub odp_cpumask_set : ℕ → ℕ → Mask → Mask
odp_cpumask_set size cpu m = if ltb cpu size then update m cpu true else m

abbrev pub odp_cpumask_clr : ℕ → ℕ → Mask → Mask
odp_cpumask_clr size cpu m = if ltb cpu size then update m cpu false else m

abbrev pub odp_cpumask_isset : ℕ → Mask → Bool
odp_cpumask_isset cpu m = m cpu

-- The loop of `odp_cpumask_setall`, from the CPU `cpu` on with `n` to go.
unfoldable pub setall_from : ℕ → ℕ → ℕ → Mask → Mask
setall_from size zero cpu m = m
setall_from size (suc n) cpu m = setall_from size n (cpu + 1) (odp_cpumask_set size cpu m)

unfoldable pub odp_cpumask_setall : ℕ → Mask → Mask
unfolding setall_from
odp_cpumask_setall size m = setall_from size size 0 m

unfoldable pub odp_cpumask_count : ℕ → Mask → ℕ
unfolding weight
odp_cpumask_count size m = weight m size

abbrev pub odp_cpumask_and : Mask → Mask → Mask
odp_cpumask_and a b = λ cpu. a cpu && b cpu

abbrev pub odp_cpumask_or : Mask → Mask → Mask
odp_cpumask_or a b = λ cpu. a cpu || b cpu

abbrev pub xor : Bool → Bool → Bool
xor true b = not b
xor false b = b

abbrev pub odp_cpumask_xor : Mask → Mask → Mask
odp_cpumask_xor a b = λ cpu. xor (a cpu) (b cpu)

-- Whether two masks have the same CPUs below `n`.
unfoldable pub odp_cpumask_equal : ℕ → Mask → Mask → Bool
odp_cpumask_equal zero a b = true
odp_cpumask_equal (suc n) a b = odp_cpumask_equal n a b && not (xor (a n) (b n))

-- The first CPU that is set from `cpu` on, of the `n` left: the loops of `odp_cpumask_first` and
-- `odp_cpumask_next`. -1 is `none`.
unfoldable pub first_from : Mask → ℕ → ℕ → Option ℕ
first_from m cpu zero = none
first_from m cpu (suc n) = let rest = first_from m (suc cpu) n in if m cpu then some cpu else rest

unfoldable pub odp_cpumask_first : ℕ → Mask → Option ℕ
unfolding first_from
odp_cpumask_first size m = first_from m 0 size

-- `odp_cpumask_next` at a CPU that is not negative.
unfoldable pub odp_cpumask_next : ℕ → ℕ → Mask → Option ℕ
unfolding first_from
odp_cpumask_next size cpu m = first_from m (cpu + 1) (size - (cpu + 1))

-- The last CPU that is set below `size`.
unfoldable pub odp_cpumask_last : ℕ → Mask → Option ℕ
odp_cpumask_last zero m = none
odp_cpumask_last (suc n) m = let rest = odp_cpumask_last n m in if m n then some n else rest

-- The value of a hexadecimal digit.
unfoldable pub nibble : ℕ → Option ℕ
nibble c =
    if leb b'0' c && leb c b'9'
    then some (c - b'0')
    else if leb b'A' c && leb c b'F'
    then some (c - b'A' + 10)
    else if leb b'a' c && leb c b'f'
    then some (c - b'a' + 10)
    else none

-- One round of `for (idx = 0; idx < 4; idx++, cpu++)`.
abbrev pub set_bit_of : ℕ → ℕ → ℕ → ℕ → Mask → Mask
set_bit_of size value idx cpu m =
    if value / 2 ^ idx % 2 == 0 then m else odp_cpumask_set size (cpu + idx) m

unfoldable pub set_nibble : ℕ → ℕ → ℕ → Mask → Mask
set_nibble size value cpu m =
    set_bit_of size value 3 cpu
      (set_bit_of size value 2 cpu (set_bit_of size value 1 cpu (set_bit_of size value 0 cpu m)))

-- The loop of `odp_cpumask_from_str` over the characters from the last one back; `none` when it
-- meets a character that is no digit.
unfoldable pub from_chars : ℕ → List ℕ → ℕ → Mask → Option Mask
unfolding nibble set_nibble
from_chars size [] cpu m = some m
from_chars size (c ∷ cs) cpu m = elim (ltb cpu size) [
  | false ↦ some m
  | true ↦ elim (nibble c) [
    | none ↦ none
    | some value ↦ from_chars size cs (cpu + 4) (set_nibble size value cpu m)
  ]
]

-- The text after a leading "0x", of which only the second character is looked at.
unfoldable pub strip : List ℕ → List ℕ
strip [] = []
strip (a ∷ []) = a ∷ []
strip (a ∷ b ∷ cs) = if b == b'x' || b == b'X' then cs else a ∷ b ∷ cs

-- The mask that it leaves: that of the digits, or none of the CPUs.
unfoldable pub odp_cpumask_from_str : ℕ → List ℕ → Mask
unfolding strip from_chars
odp_cpumask_from_str size str = elim (from_chars size (reverse (strip str)) 0 odp_cpumask_zero) [
  | none ↦ odp_cpumask_zero
  | some m ↦ m
]

abbrev pub digit : ℕ → ℕ
digit value = if ltb value 10 then b'0' + value else b'A' + value - 10

-- `if (CPU_ISSET(cpu, &mask->set)) value |= 1 << (cpu % 4)`
abbrev pub add_bit : Mask → ℕ → ℕ → ℕ
add_bit m cpu value = if m cpu then bit_or value (2 ^ (cpu % 4)) else value

-- The loop `do … while (cpu--)` of `odp_cpumask_to_str`.
unfoldable pub to_chars : Mask → ℕ → ℕ → List ℕ
to_chars m zero value = digit (add_bit m 0 value) ∷ []
to_chars m (suc cpu) value =
    let v = add_bit m (suc cpu) value in
    let at_end = suc cpu % 4 == 0 in
    let rest = to_chars m cpu (if at_end then 0 else v) in if at_end then digit v ∷ rest else rest

-- The return value and the string, or `none` for -1.
unfoldable pub odp_cpumask_to_str : ℕ → Mask → ℕ → Option (ℕ × List ℕ)
unfolding odp_cpumask_last to_chars
odp_cpumask_to_str size m len = if ltb len 4 then none else elim (odp_cpumask_last size m) [
  | none ↦ some (4, b'0' ∷ b'x' ∷ b'0' ∷ [])
  | some cpu ↦
      let str = b'0' ∷ b'x' ∷ to_chars m cpu 0 in
      if ltb len (3 + (cpu / 4 + 1)) then none else some (length str + 1, str)
]

-- The loop of `odp_cpumask_def_worker` over the CPUs below `i`, with `cpu` found so far: their
-- number and the mask. `cpuset` is the thread's affinity.
unfoldable pub take_cpus : ℕ → Mask → ℕ → ℕ → ℕ → Mask → ℕ × Mask
take_cpus size cpuset num zero cpu m = (cpu, m)
take_cpus size cpuset num (suc i) cpu m = elim (ltb cpu num) [
  | false ↦ (cpu, m)
  | true ↦
      take_cpus size cpuset num i (if cpuset i then cpu + 1 else cpu)
        (if cpuset i then odp_cpumask_set size i m else m)
]

-- The count that `odp_cpumask_def_worker` returns, and its mask, at a count that is not negative.
unfoldable pub odp_cpumask_def_worker : ℕ → Mask → ℕ → ℕ × Mask
unfolding take_cpus odp_cpumask_count
odp_cpumask_def_worker size cpuset num =
    let n = if num == 0 || ltb size num then odp_cpumask_count size cpuset else num in
    take_cpus size cpuset n size 0 odp_cpumask_zero

abbrev pub odp_cpumask_def_control : ℕ → ℕ × Mask
odp_cpumask_def_control size = (1, odp_cpumask_set size 0 odp_cpumask_zero)
