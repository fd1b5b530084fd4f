-- ===== src/Pool/Buffers.antt =====
-- odp_pool_internal.h: the list of free buffers, its watermarks, and the flush of a local cache.
use odp.Prelude.{
  ℕ, zero, suc, ◌+◌, ◌<◌, ◌≡◌, inl, inr, true, false, none, some, List, [], ◌∷◌, ◌++◌, arith, NotIn,
  Distinct, length, u32_mod, Bool-cases, if◌then◌else◌,
}
use odp.Pool.{
  Pool, Buf, get_buf, ret_buf, push_buf, release_segs, ret_blks, ret_blk, returns_blocks,
}
use odp.Pool.Lists.{Stacked-update, Holds, upto}
use odp.Pool.Blocks.{ret_blks-Holds}

-- `get_buf` takes the first free buffer and marks it with the thread.
pub get_buf-Holds :
    (thr : ℕ) (s : Pool) (buf : ℕ) (frees blks : List ℕ)
    → Holds s (buf ∷ frees) blks
    → ((get_buf thr s).0 ≡ some buf)
      × Holds (get_buf thr s).1 frees blks
      × ((get_buf thr s).1.bufs buf ≡ record (s.bufs buf) { allocator = some thr })
      × ((get_buf thr s).1.seg_size ≡ s.seg_size)
unfolding get_buf
get_buf-Holds thr s buf frees blks v = ground arith

pub get_buf_empty :
    (thr : ℕ) (s : Pool) (blks : List ℕ)
    → Holds s [] blks
    → ((get_buf thr s).0 ≡ none) × Holds (get_buf thr s).1 [] blks
unfolding get_buf
get_buf_empty thr s blks v = ground arith

push_buf-Holds :
    (buf : ℕ) (s : Pool) (frees blks : List ℕ)
    → Holds s frees blks
    → NotIn buf frees
    → length frees + 1 < u32_mod
    → Holds (push_buf buf s) (buf ∷ frees) blks
unfolding push_buf
push_buf-Holds buf s frees blks v n room = record {
  buf_chain =
      ground (arith, Stacked-update s.next s.buf_freelist frees buf s.buf_freelist n v.buf_chain);
  blk_chain = v.blk_chain;
  bufs_distinct = (n, v.bufs_distinct);
  blks_distinct = v.blks_distinct;
  buf_total = omega (arith, v.buf_total);
  blk_total = v.blk_total;
  bufs_small = omega arith;
  blks_small = v.blks_small;
}

-- The low watermark is asserted only below the high one, and not asserted only above the low one.
abbrev pub IsMarked : Pool → Type 0
IsMarked s =
    (s.low_wm_assert ≡ true → s.bufcount < s.high_wm)
    × (s.low_wm_assert ≡ false → s.low_wm < s.bufcount)

-- If a pool holds a free buffer, its low watermark is below its high one, and the low condition
-- is asserted only below the high watermark and not asserted only above the low one, all this
-- still holds of the condition after get_buf.
pub get_buf-IsMarked :
    (thr : ℕ) (s : Pool) (buf : ℕ) (frees blks : List ℕ)
    → Holds s (buf ∷ frees) blks
    → s.low_wm < s.high_wm
    → IsMarked s
    → IsMarked (get_buf thr s).1
unfolding get_buf
get_buf-IsMarked thr s buf frees blks v lt m = ground arith

push_buf-IsMarked :
    (buf : ℕ) (s : Pool) (frees blks : List ℕ)
    → Holds s frees blks
    → length frees + 1 < u32_mod
    → s.low_wm < s.high_wm
    → IsMarked s
    → IsMarked (push_buf buf s)
unfolding push_buf
push_buf-IsMarked buf s frees blks v room lt m = ground arith

-- The blocks that a buffer gives back when it is freed, in the order of its places.
unfoldable pub blocks_of : Buf → List ℕ
blocks_of b = if returns_blocks b then upto b.addr 0 b.segcount else []

-- What the loop of `ret_buf` leaves alone.
record Kept (s s' : Pool) : Type 0 where
  bufs : s'.bufs ≡ s.bufs
  bufcount : s'.bufcount ≡ s.bufcount
  low_wm_assert : s'.low_wm_assert ≡ s.low_wm_assert
  low_wm : s'.low_wm ≡ s.low_wm
  high_wm : s'.high_wm ≡ s.high_wm
  next : s'.next ≡ s.next

ret_blks-Kept : (n : ℕ) (addr : ℕ → ℕ) (s : Pool) → Kept s (ret_blks n addr s)
unfolding ret_blks ret_blk
ret_blks-Kept zero addr s = ground arith
ret_blks-Kept (suc n) addr s =
    let k = ret_blks-Kept n addr (ret_blk (addr n) s) in
    record {
      bufs = k.bufs;
      bufcount = k.bufcount;
      low_wm_assert = k.low_wm_assert;
      low_wm = k.low_wm;
      high_wm = k.high_wm;
      next = k.next;
    }

release_segs-Holds :
    (buf : ℕ) (s : Pool) (frees blks : List ℕ)
    → Holds s frees blks
    → Distinct (blocks_of (s.bufs buf) ++ blks)
    → length blks + (s.bufs buf).segcount < u32_mod
    → Holds (release_segs buf s) frees (blocks_of (s.bufs buf) ++ blks)
unfolding release_segs blocks_of
release_segs-Holds buf s frees blks v d room = elim (Bool-cases (returns_blocks (s.bufs buf))) [
  | inl yes' ↦
      let d' : Distinct (upto (s.bufs buf).addr 0 (s.bufs buf).segcount ++ blks) = rw yes' at d in
      let w = ret_blks-Holds (s.bufs buf).segcount (s.bufs buf).addr s frees blks v d' room in
      rw yes' (record {
        buf_chain = w.buf_chain;
        blk_chain = w.blk_chain;
        bufs_distinct = w.bufs_distinct;
        blks_distinct = w.blks_distinct;
        buf_total = w.buf_total;
        blk_total = w.blk_total;
        bufs_small = w.bufs_small;
        blks_small = w.blks_small;
      })
  | inr no' ↦ rw no' v
]

pub ret_buf-Holds :
    (buf : ℕ) (s : Pool) (frees blks : List ℕ)
    → Holds s frees blks
    → NotIn buf frees
    → Distinct (blocks_of (s.bufs buf) ++ blks)
    → length frees + 1 < u32_mod
    → length blks + (s.bufs buf).segcount < u32_mod
    → Holds (ret_buf buf s) (buf ∷ frees) (blocks_of (s.bufs buf) ++ blks)
unfolding ret_buf
ret_buf-Holds buf s frees blks v n d fr br =
    push_buf-Holds buf (release_segs buf s) frees (blocks_of (s.bufs buf) ++ blks)
      (release_segs-Holds buf s frees blks v d br) n fr
