-- ===== src/Shm/Tests.antt =====
-- Shared memory blocks on concrete inputs.
use odp.Prelude.{
  ℕ, zero, suc, ◌≡◌, ◌≢◌, refl, true, false, none, some, List, [], ◌∷◌, arith, get_elem?, subst,
}
use odp.Shm.{
  Block, zero_block, Os, Mapping, odp_shm_reserve, odp_shm_free, odp_shm_addr, find_block,
  free_block, map_block,
}
use odp.Classify.Rules.{some_inj}
use odp.Shm.Reserve.{Served, IsRoom, odp_shm_reserve-Served, odp_shm_free-reserve}

abbrev pool_block : Block
pool_block = record zero_block {
  name = (112 ∷ 48 ∷ []);
  size = 16;
  addr_orig = some 4096;
  addr = some 4096;
  hdl = 1;
}

abbrev blocks : List Block
blocks = (pool_block ∷ zero_block ∷ zero_block ∷ [])

abbrev os : Os
os = record {
  page_sz = 4096;
  huge_sz = 2097152;
  fd = some 3;
  trunc_huge = true;
  map_huge = none;
  trunc = true;
  map = some 1000000;
}

abbrev ring : List ℕ
ring = (114 ∷ 105 ∷ 110 ∷ 103 ∷ [])

-- No huge pages are to be had: the block falls back on normal ones.
reserved : (odp_shm_reserve ring 8000 64 2 os blocks).0 ≡ 2
unfolding odp_shm_reserve
reserved = refl

reserved_addr : odp_shm_addr 2 (odp_shm_reserve ring 8000 64 2 os blocks).1 ≡ some 1000000
unfolding odp_shm_reserve odp_shm_addr
reserved_addr = refl

reserve_twice :
    (odp_shm_reserve ring 8000 64 2 os (odp_shm_reserve ring 8000 64 2 os blocks).1).0 ≡ 0
unfolding odp_shm_reserve
reserve_twice = refl

free_huge :
    (odp_shm_free 2 false true
      (odp_shm_reserve ring 8000 64 2 (record os { map_huge = some 2097152 }) blocks).1).0
    ≡ false
unfolding odp_shm_reserve odp_shm_free
free_huge = refl

reserved_some : (odp_shm_reserve ring 8000 64 2 os blocks).0 ≢ 0
reserved_some e = absurd (ground (arith, reserved))

blocks_zeroed : (i : ℕ) (b : Block) → get_elem? blocks i ≡ some b → b.addr ≡ none → b ≡ zero_block
blocks_zeroed zero b e n = absurd (ground arith)
blocks_zeroed (suc zero) b e n = ground arith
blocks_zeroed (suc (suc zero)) b e n = ground arith
blocks_zeroed (suc (suc (suc i))) b e n = absurd (ground arith)

abbrev mapped : Mapping
mapped = record { start = 1000000; mapped_size = 8064; is_huge = false; page = 4096 }

mapped-IsRoom : IsRoom mapped 64
mapped-IsRoom = record { some_align = omega arith; not_null = omega arith; no_wrap = omega arith }

any-IsRoom : (m : Mapping) → map_block 2 8064 os ≡ some m → IsRoom m 64
unfolding map_block
any-IsRoom m e = subst (λ x. IsRoom x 64) (some_inj mapped m e) mapped-IsRoom

ring_new : find_block ring blocks ≡ none
unfolding find_block
ring_new = refl

second_free : free_block blocks ≡ some 1
unfolding free_block
second_free = refl

falls_back : map_block 2 8064 os ≡ some mapped
unfolding map_block
falls_back = refl

odp_shm_reserve-Served_example :
    ((odp_shm_reserve ring 8000 64 2 os blocks).0 ≡ 2)
    × Served ring 8000 64 2 mapped blocks
        (odp_shm_reserve ring 8000 64 2 os blocks).1
        (odp_shm_reserve ring 8000 64 2 os blocks).0
odp_shm_reserve-Served_example =
    odp_shm_reserve-Served ring 8000 64 2 os blocks 1 mapped (omega arith) (omega arith) refl
      ring_new second_free falls_back mapped-IsRoom

odp_shm_free-reserve_example :
    odp_shm_free
      (odp_shm_reserve ring 8000 64 2 os blocks).0
      true
      true
      (odp_shm_reserve ring 8000 64 2 os blocks).1
    ≡ (true, blocks)
odp_shm_free-reserve_example =
    odp_shm_free-reserve ring 8000 64 2 os blocks (omega arith) blocks_zeroed any-IsRoom
      reserved_some
