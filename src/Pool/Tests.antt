-- ===== src/Pool/Tests.antt =====
-- odp_pool.c: the theorems at a concrete pool.
use odp.Prelude.{refl, false, none, some, [], ◌∷◌, arith, update}
use odp.Pool.{Pool, Buf, Stats, packet, get_blk, ret_buf, get_blks}
use odp.Pool.Lists.{Holds}
use odp.Pool.Alloc.{get_blks-ret_buf}

abbrev no_stats : Stats
no_stats = record {
  bufallocs = 0;
  buffrees = 0;
  blkallocs = 0;
  blkfrees = 0;
  bufempty = 0;
  blkempty = 0;
  high_wm_count = 0;
  low_wm_count = 0;
}

abbrev empty_buf : Buf
empty_buf = record {
  allocator = none;
  hdrdata = false;
  zeroized = false;
  type = packet;
  size = 0;
  segcount = 0;
  addr = λ i. 0;
  frame_len = 0;
  headroom = 0;
  tailroom = 0;
}

-- Free buffers 1 and 2, free blocks 100 and 200 of 64 bytes each.
abbrev pool_2 : Pool
pool_2 = record {
  buf_freelist = some 1;
  blk_freelist = some 100;
  bufcount = 2;
  blkcount = 2;
  stats = no_stats;
  low_wm_assert = false;
  unsegmented = false;
  zeroized = false;
  seg_size = 64;
  buf_num = 3;
  high_wm = 2;
  low_wm = 1;
  headroom = 0;
  tailroom = 0;
  next = update (λ i. none) 1 (some 2);
  blk_next = update (λ i. none) 100 (some 200);
  bufs = λ i. empty_buf;
}

pool_2-Holds : Holds pool_2 (1 ∷ 2 ∷ []) (100 ∷ 200 ∷ [])
pool_2-Holds = record {
  buf_chain = (refl, (refl, refl));
  blk_chain = (refl, (refl, refl));
  bufs_distinct = ground arith;
  blks_distinct = ground arith;
  buf_total = refl;
  blk_total = refl;
  bufs_small = omega arith;
  blks_small = omega arith;
}

get_blks-ret_buf_example :
    Holds (ret_buf 3 (get_blks 200 200 3 pool_2).1) (3 ∷ 1 ∷ 2 ∷ []) (100 ∷ 200 ∷ [])
unfolding get_blks get_blk
get_blks-ret_buf_example =
    get_blks-ret_buf 200 3 pool_2 (1 ∷ 2 ∷ []) (100 ∷ 200 ∷ []) pool_2-Holds (ground arith)
      (omega arith) (omega arith) refl refl (omega arith) refl
