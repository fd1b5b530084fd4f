-- ===== src/Shm.antt =====
-- platform/linux-generic/odp_shared_memory.c: the table of shared memory blocks.
--
-- The answers of the operating system are the record `Os`. Addresses are numbers, `none` is NULL,
-- MAP_FAILED or a file descriptor of -1. A handle is the index of its block and one, 0 is
-- ODP_SHM_INVALID. Each call runs under the table's lock as one step. The code divides by the
-- alignment; what an alignment of 0 gives here means nothing, and the theorems take one that is not 0.
pub mod Reserve
mod Tests
use Prim.Native.Nat.{bit_and}
use odp.Prelude.{
  ℕ, zero, suc, ◌+◌, ◌-◌, ◌*◌, ◌/◌, ◌%◌, ◌&&◌, Bool, true, false, not, ◌||◌, Option, none, some,
  List, [], ◌∷◌, ◌==◌, ltb, leb, if◌then◌else◌, get_elem?, set, take, length, sub32, add32, u64_mod,
}
use odp.Queue.Table.{same_name}

abbrev pub shm_name_len : ℕ
shm_name_len = 32

-- odp_shm_block_t.
pub record Block : Type 0 where
  pub name : List ℕ
  pub size : ℕ
  pub align : ℕ
  pub alloc_size : ℕ
  pub addr_orig : Option ℕ
  pub addr : Option ℕ
  pub huge : Bool
  pub hdl : ℕ
  pub flags : ℕ
  pub page_sz : ℕ
  pub fd : Option ℕ

-- A block as `memset` leaves it; the descriptor is then 0.
abbrev pub zero_block : Block
zero_block = record {
  name = [];
  size = 0;
  align = 0;
  alloc_size = 0;
  addr_orig = none;
  addr = none;
  huge = false;
  hdl = 0;
  flags = 0;
  page_sz = 0;
  fd = some 0;
}

-- What `odp_sys_page_size`, `odp_sys_huge_page_size`, `shm_open`, the two `ftruncate` and the two
-- `mmap` answer in a call of `odp_shm_reserve`.
pub record Os : Type 0 where
  pub page_sz : ℕ
  pub huge_sz : ℕ
  pub fd : Option ℕ
  pub trunc_huge : Bool
  pub map_huge : Option ℕ
  pub trunc : Bool
  pub map : Option ℕ

-- `flags & ODP_SHM_PROC`
abbrev pub is_proc : ℕ → Bool
is_proc flags = not (bit_and flags 2 == 0)

abbrev pub from_handle : ℕ → ℕ
from_handle shm = sub32 shm 1

abbrev pub to_handle : ℕ → ℕ
to_handle index = add32 index 1

-- The index in a table of what stands at that index in its tail.
abbrev pub after : Option ℕ → Option ℕ
after none = none
after (some i) = some (suc i)

-- The first block of the name: `find_block`.
unfoldable pub find_block : List ℕ → List Block → Option ℕ
unfolding same_name
find_block name [] = none
find_block name (b ∷ bs) =
    let rest = find_block name bs in if same_name name b.name then some 0 else after rest

abbrev pub is_null : Option ℕ → Bool
is_null none = true
is_null (some a) = false

-- The loop of `odp_shm_reserve` over the table.
unfoldable pub free_block : List Block → Option ℕ
free_block [] = none
free_block (b ∷ bs) = let rest = free_block bs in if is_null b.addr then some 0 else after rest

-- A mapping: its address, its size, whether its pages are huge and their size.
pub record Mapping : Type 0 where
  pub start : ℕ
  pub mapped_size : ℕ
  pub is_huge : Bool
  pub page : ℕ

abbrev pub map_normal : ℕ → ℕ → Os → Option Mapping
map_normal flags alloc_size os = if is_proc flags && not os.trunc then none else elim os.map [
  | none ↦ none
  | some a ↦
      some (record { start = a; mapped_size = alloc_size; is_huge = false; page = os.page_sz })
]

-- `(size + align + (huge_sz - 1)) & (-huge_sz)`
abbrev pub huge_size : ℕ → ℕ → ℕ
huge_size alloc_size huge_sz =
    bit_and ((alloc_size + huge_sz + u64_mod - 1) % u64_mod) ((u64_mod - huge_sz) % u64_mod)

-- Huge pages if they are needed and to be had, otherwise normal ones.
unfoldable pub map_block : ℕ → ℕ → Os → Option Mapping
map_block flags alloc_size os =
    if not (os.huge_sz == 0) && ltb os.page_sz alloc_size
    then (if is_proc flags && not os.trunc_huge then none else elim os.map_huge [
      | none ↦ map_normal flags alloc_size os
      | some a ↦ some (record {
        start = a;
        mapped_size = huge_size alloc_size os.huge_sz;
        is_huge = true;
        page = os.huge_sz;
      })
    ])
    else map_normal flags alloc_size os

-- ODP_ALIGN_ROUNDUP_PTR, in the 64 bits of `uintptr_t`.
abbrev pub align_roundup : ℕ → ℕ → ℕ
align_roundup x align = align * ((x + align + u64_mod - 1) % u64_mod / align) % u64_mod

abbrev pub pointer : ℕ → Option ℕ
pointer a = if a == 0 then none else some a

abbrev pub filled : List ℕ → ℕ → ℕ → ℕ → Os → Mapping → ℕ → Block
filled name size align flags os m i = record {
  name = take (shm_name_len - 1) name;
  size = size;
  align = align;
  alloc_size = m.mapped_size;
  addr_orig = some m.start;
  addr = pointer (align_roundup m.start align);
  huge = m.is_huge;
  hdl = to_handle i;
  flags = flags;
  page_sz = m.page;
  fd = if is_proc flags then os.fd else none;
}

-- The block takes its handle before anything is mapped, and keeps it if nothing can be.
unfoldable pub give_handle : ℕ → Option Block → List Block → List Block
give_handle i none t = t
give_handle i (some b) t = set t i (record b { hdl = to_handle i })

unfoldable pub take_block :
    List ℕ → ℕ → ℕ → ℕ → Os → Option Mapping → ℕ → List Block → ℕ × List Block
unfolding give_handle
take_block name size align flags os none i t = (0, give_handle i (get_elem? t i) t)
take_block name size align flags os (some m) i t =
    (to_handle i, set t i (filled name size align flags os m i))

unfoldable pub place_block :
    List ℕ → ℕ → ℕ → ℕ → Os → Option ℕ → Option ℕ → List Block → ℕ × List Block
unfolding take_block map_block
place_block name size align flags os (some j) slot t = (0, t)
place_block name size align flags os none none t = (0, t)
place_block name size align flags os none (some i) t =
    take_block name size align flags os (map_block flags ((size + align) % u64_mod) os) i t

unfoldable pub odp_shm_reserve : List ℕ → ℕ → ℕ → ℕ → Os → List Block → ℕ × List Block
unfolding place_block find_block free_block
odp_shm_reserve name size align flags os t =
    if is_proc flags && is_null os.fd
    then (0, t)
    else place_block name size align flags os (find_block name t) (free_block t) t

-- `unmapped` and `unlinked` are the answers of `munmap` and `shm_unlink`; false is the return of -1.
unfoldable pub free_at : Bool → Bool → ℕ → Option Block → List Block → Bool × List Block
free_at unmapped unlinked i none t = (false, t)
free_at unmapped unlinked i (some b) t =
    if is_null b.addr
    then (true, t)
    else if not unmapped || (is_proc b.flags && not unlinked)
    then (false, t)
    else (true, set t i zero_block)

unfoldable pub odp_shm_free : ℕ → Bool → Bool → List Block → Bool × List Block
unfolding free_at
odp_shm_free shm unmapped unlinked t =
    if shm == 0 || leb (length t) (from_handle shm)
    then (false, t)
    else free_at unmapped unlinked (from_handle shm) (get_elem? t (from_handle shm)) t

unfoldable pub handle_of : Option Block → ℕ
handle_of none = 0
handle_of (some b) = b.hdl

unfoldable pub handle_at : List Block → Option ℕ → ℕ
unfolding handle_of
handle_at t none = 0
handle_at t (some i) = handle_of (get_elem? t i)

unfoldable pub odp_shm_lookup : List ℕ → List Block → ℕ
unfolding find_block handle_at
odp_shm_lookup name t = handle_at t (find_block name t)

unfoldable pub odp_shm_addr : ℕ → List Block → Option ℕ
odp_shm_addr shm t = elim (get_elem? t (from_handle shm)) [ none ↦ none | some b ↦ b.addr ]

-- odp_shm_info_t, filled by `odp_shm_info`.
unfoldable pub odp_shm_info : ℕ → List Block → Option (List ℕ × Option ℕ × ℕ × ℕ × ℕ)
odp_shm_info shm t = elim (get_elem? t (from_handle shm)) [
  | none ↦ none
  | some b ↦ some (b.name, b.addr, b.size, b.page_sz, b.flags)
]
