-- ===== src/Pool/Alloc.antt =====
-- odp_pool.c: what buffer allocation and free do.
use odp.Prelude.{
  ℕ, ◌+◌, ◌<◌, ◌≡◌, sym, ap, subst, true, false, List, [], ◌∷◌, ◌++◌, arith, NotIn, Distinct,
  length, length-append, u32_mod,
}
use odp.Pool.{Pool, returns_blocks, get_blks, ret_buf}
use odp.Pool.Lists.{Holds, upto, length-upto}
use odp.Pool.Blocks.{get_blks-Taken}
use odp.Pool.Buffers.{blocks_of, ret_buf-Holds}

-- If a buffer off the free list that has no segments and gives its blocks back when freed finds
-- too few free blocks, ret_buf leaves a pool that holds that buffer before the other free ones
-- and the same free blocks in the same order as before the allocation. The segment size is
-- positive, the size asked for is positive and the number of free buffers is below the 32-bit
-- limit.
pub get_blks-ret_buf :
    (needed buf : ℕ) (s : Pool) (frees blks : List ℕ)
    → Holds s frees blks
    → NotIn buf frees
    → 0 < s.seg_size
    → 0 < needed
    → (s.bufs buf).segcount ≡ 0
    → returns_blocks (s.bufs buf) ≡ true
    → length frees + 1 < u32_mod
    → (get_blks needed needed buf s).0 ≡ false
    → Holds (ret_buf buf (get_blks needed needed buf s).1) (buf ∷ frees) blks
unfolding blocks_of
get_blks-ret_buf needed buf s frees blks v n seg pos none_yet gives fr failed =
    let t =
      get_blks-Taken needed needed buf s frees blks v seg (omega arith) pos
        (omega (arith, v.blks_small)) in
    let s' = (get_blks needed needed buf s).1 in
    let count : (s'.bufs buf).segcount ≡ t.taken = omega (arith, t.count) in
    let out : t.rest ≡ [] = t.runs_out failed in
    let places : upto (s'.bufs buf).addr 0 t.taken ++ t.rest ≡ blks =
      subst (λ k. upto (s'.bufs buf).addr k t.taken ++ t.rest ≡ blks) none_yet t.blocks in
    let still : returns_blocks (s'.bufs buf) ≡ true = rw (t.hdrdata, t.type) gives in
    let back : blocks_of (s'.bufs buf) ++ t.rest ≡ blks = rw (still, count) places in
    subst (Holds (ret_buf buf s') (buf ∷ frees)) back (
      ret_buf-Holds buf s' frees t.rest t.lists n (subst Distinct (sym back) v.blks_distinct) fr (
        omega (
          arith,
          ap length places,
          length-append (upto (s'.bufs buf).addr 0 t.taken) t.rest,
          length-upto (s'.bufs buf).addr 0 t.taken,
          v.blks_small,
          count,
        )))
