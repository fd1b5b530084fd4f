-- ===== src/Pool.antt =====
-- platform/linux-generic/include/odp_pool_internal.h and odp_pool.c: the free lists of a buffer
-- pool, a thread's local cache, and buffer allocation and free.
--
-- A buffer header and a block are numbers, a null pointer is `none`. `next` is the link field of
-- all headers, `blk_next` that of all free blocks. Each access to a free list is one step, as
-- under its lock, and the statistics follow it at once. `thr` is `odp_thread_id()`. The memsets of
-- secure pools are not compiled in by default (ODP_CONFIG_SECURE_POOLS) and are left out.
pub mod Lists
pub mod Blocks
pub mod Buffers
pub mod Alloc
pub mod Table
mod Tests
use odp.Prelude.{
  ℕ, zero, suc, ◌+◌, ◌-◌, ◌*◌, ◌%◌, Bool, true, false, not, ◌&&◌, ◌||◌, Option, none, some, ltb,
  leb, ◌==◌, if◌then◌else◌, add32, sub32, add64, sub64, update, u32_mod, u64_mod,
}

abbrev pub max_seg : ℕ
max_seg = 6

-- The event types of buffers: ODP_EVENT_BUFFER, ODP_EVENT_PACKET and ODP_EVENT_TIMEOUT.
pub data BufType : Type 0 where
  buffer packet timeout : BufType

abbrev pub is_buffer : BufType → Bool
is_buffer buffer = true
is_buffer packet = false
is_buffer timeout = false

abbrev pub is_packet : BufType → Bool
is_packet buffer = false
is_packet packet = true
is_packet timeout = false

-- odp_buffer_hdr_t: `allocator` is `none` for ODP_FREEBUF. The three last fields are those of
-- odp_packet_hdr_t that `packet_init` sets from its arguments.
pub record Buf : Type 0 where
  pub allocator : Option ℕ
  pub hdrdata : Bool
  pub zeroized : Bool
  pub type : BufType
  pub size : ℕ
  pub segcount : ℕ
  pub addr : ℕ → ℕ
  pub frame_len : ℕ
  pub headroom : ℕ
  pub tailroom : ℕ

pub record Stats : Type 0 where
  pub bufallocs : ℕ
  pub buffrees : ℕ
  pub blkallocs : ℕ
  pub blkfrees : ℕ
  pub bufempty : ℕ
  pub blkempty : ℕ
  pub high_wm_count : ℕ
  pub low_wm_count : ℕ

-- struct pool_entry_s, with the memory that its lists run through.
pub record Pool : Type 0 where
  pub buf_freelist : Option ℕ
  pub blk_freelist : Option ℕ
  pub bufcount : ℕ
  pub blkcount : ℕ
  pub stats : Stats
  pub low_wm_assert : Bool
  pub unsegmented : Bool
  pub zeroized : Bool
  pub seg_size : ℕ
  pub buf_num : ℕ
  pub high_wm : ℕ
  pub low_wm : ℕ
  pub headroom : ℕ
  pub tailroom : ℕ
  pub next : ℕ → Option ℕ
  pub blk_next : ℕ → Option ℕ
  pub bufs : ℕ → Buf

-- local_cache_t.
pub record Cache : Type 0 where
  pub buf_freelist : Option ℕ
  pub bufallocs : ℕ
  pub buffrees : ℕ

unfoldable pub get_blk : Pool → Option ℕ × Pool
get_blk s = elim s.blk_freelist [
  | none ↦ (none, record s { stats = record s.stats { blkempty = add64 s.stats.blkempty 1 } })
  | some blk ↦ (
    some blk,
    record s {
      blk_freelist = s.blk_next blk;
      blkcount = sub32 s.blkcount 1;
      stats = record s.stats { blkallocs = add64 s.stats.blkallocs 1 };
    },
  )
]

unfoldable pub ret_blk : ℕ → Pool → Pool
ret_blk blk s = record s {
  blk_next = update s.blk_next blk s.blk_freelist;
  blk_freelist = some blk;
  blkcount = add32 s.blkcount 1;
  stats = record s.stats { blkfrees = add64 s.stats.blkfrees 1 };
}

unfoldable pub get_buf : ℕ → Pool → Option ℕ × Pool
get_buf thr s =
    let bufcount = sub32 s.bufcount 1 in
    let low = bufcount == s.low_wm && not s.low_wm_assert in
    elim s.buf_freelist [
      | none ↦ (none, record s { stats = record s.stats { bufempty = add64 s.stats.bufempty 1 } })
      | some buf ↦ (
        some buf,
        record s {
          buf_freelist = s.next buf;
          bufcount = bufcount;
          low_wm_assert = s.low_wm_assert || low;
          stats = record s.stats {
            low_wm_count = if low then add64 s.stats.low_wm_count 1 else s.stats.low_wm_count;
            bufallocs = add64 s.stats.bufallocs 1;
          };
          bufs = update s.bufs buf (record (s.bufs buf) { allocator = some thr });
        },
      )
    ]

-- The loop `while (buf->segcount > 0) ret_blk(pool, buf->addr[--buf->segcount])`, with `n` the
-- segment count.
unfoldable pub ret_blks : ℕ → (ℕ → ℕ) → Pool → Pool
ret_blks zero addr s = s
ret_blks (suc n) addr s = ret_blks n addr (ret_blk (addr n) s)

-- Whether `ret_buf` gives a buffer's blocks back.
abbrev pub returns_blocks : Buf → Bool
returns_blocks b = not b.hdrdata && not (is_buffer b.type)

-- The part of `ret_buf` before the free list is locked.
unfoldable pub release_segs : ℕ → Pool → Pool
release_segs buf s =
    let s1 = ret_blks (s.bufs buf).segcount (s.bufs buf).addr s in
    if returns_blocks (s.bufs buf)
    then record s1 { bufs = update s1.bufs buf (record (s.bufs buf) { segcount = 0; size = 0 }) }
    else s

-- The part from there on.
unfoldable pub push_buf : ℕ → Pool → Pool
push_buf buf s =
    let bufcount = add32 s.bufcount 1 in
    let high = bufcount == s.high_wm && s.low_wm_assert in
    record s {
      bufs = update s.bufs buf (record (s.bufs buf) { allocator = none });
      next = update s.next buf s.buf_freelist;
      buf_freelist = some buf;
      bufcount = bufcount;
      low_wm_assert = s.low_wm_assert && not high;
      stats = record s.stats {
        high_wm_count = if high then add64 s.stats.high_wm_count 1 else s.stats.high_wm_count;
        buffrees = add64 s.stats.buffrees 1;
      };
    }

unfoldable pub ret_buf : ℕ → Pool → Pool
ret_buf buf s = push_buf buf (release_segs buf s)

-- `buf->addr[buf->segcount++] = blk`
abbrev pub add_seg : ℕ → ℕ → Pool → Pool
add_seg buf blk s = record s {
  bufs = update s.bufs buf (record (s.bufs buf) {
    addr = update (s.bufs buf).addr (s.bufs buf).segcount blk;
    segcount = add32 (s.bufs buf).segcount 1;
  });
}

-- The loop `do … while (needed > 0)` that gets a buffer its blocks: whether it did, and the pool.
-- `needed` is positive; `fuel` bounds the rounds, and its end counts as no block.
unfoldable pub get_blks : ℕ → ℕ → ℕ → Pool → Bool × Pool
get_blks zero needed buf s = (false, s)
get_blks (suc fuel) needed buf s =
    let (blk, s1) = get_blk s in
    elim blk [
      | none ↦ (false, s1)
      | some b ↦
          let s2 = add_seg buf b s1 in
          elim (leb needed s.seg_size) [
            | true ↦ (true, s2)
            | false ↦ get_blks fuel (needed - s.seg_size) buf s2
          ]
    ]

-- `buf->size = buf->segcount * pool->seg_size`
abbrev pub set_size : ℕ → Pool → Pool
set_size buf s = record s {
  bufs =
      update s.bufs buf
        (record (s.bufs buf) { size = (s.bufs buf).segcount * s.seg_size % u32_mod });
}

unfoldable pub get_local_buf : ℕ → ℕ → Cache → Pool → Option ℕ × Cache × Pool
get_local_buf thr totsize c s = elim c.buf_freelist [
  | none ↦ (none, c, s)
  | some buf ↦
      let c1 = record c { buf_freelist = s.next buf } in
      let needed = totsize - (s.bufs buf).size in
      let (ok, s1) = get_blks needed needed buf s in
      let mark = λ (t : Pool). record t {
        bufs = update t.bufs buf (record (t.bufs buf) { allocator = some thr });
      } in
      let c2 = record c1 { bufallocs = add64 c.bufallocs 1 } in
      if ltb (s.bufs buf).size totsize
      then (if ok
          then (some buf, c2, mark (set_size buf s1))
          else (none, record c1 { buffrees = sub64 c.buffrees 1 }, ret_buf buf s1))
      else (some buf, c2, mark s)
]

unfoldable pub ret_local_buf : ℕ → Cache → Pool → Cache × Pool
ret_local_buf buf c s = (
  record c { buf_freelist = some buf; buffrees = add64 c.buffrees 1 },
  record s {
    bufs = update s.bufs buf (record (s.bufs buf) { allocator = none });
    next = update s.next buf c.buf_freelist;
  },
)

-- The loop of `flush_cache`: the number of buffers flushed, and the pool.
unfoldable pub flush_from : ℕ → Option ℕ → Pool → ℕ × Pool
flush_from zero p s = (0, s)
flush_from (suc fuel) none s = (0, s)
flush_from (suc fuel) (some buf) s =
    let (n, s1) = flush_from fuel (s.next buf) (ret_buf buf s) in (add32 n 1, s1)

unfoldable pub flush_cache : ℕ → Cache → Pool → Cache × Pool
flush_cache fuel c s =
    let (n, s1) = flush_from fuel c.buf_freelist s in
    (
      record { buf_freelist = none; bufallocs = 0; buffrees = 0 },
      record s1 {
        stats = record s1.stats {
          bufallocs = add64 s1.stats.bufallocs c.bufallocs;
          buffrees = add64 s1.stats.buffrees (sub64 c.buffrees n);
        };
      },
    )

-- `packet_init`: lengths from the pool and the size asked for. The parser's metadata, which it
-- resets too, is not part of this model.
abbrev pub packet_init : ℕ → ℕ → Pool → Pool
packet_init buf size s = record s {
  bufs = update s.bufs buf (record (s.bufs buf) {
    frame_len = size;
    headroom = s.headroom;
    tailroom =
        (s.seg_size * (s.bufs buf).segcount % u32_mod + u64_mod - (s.headroom + size)) % u32_mod;
  });
}

-- From the flags on: a buffer that was found is handed out.
abbrev pub hand_out : ℕ → ℕ → Pool → Pool
hand_out buf size s =
    let s1 = record s {
      bufs = update s.bufs buf (record (s.bufs buf) { zeroized = s.zeroized });
    } in
    if is_packet (s.bufs buf).type then packet_init buf size s1 else s1

unfoldable pub buffer_alloc : ℕ → ℕ → Cache → Pool → Option ℕ × Cache × Pool
buffer_alloc thr size c s =
    let totsize = s.headroom + size + s.tailroom in
    let too_big =
      (s.unsegmented && ltb s.seg_size totsize)
      || (not s.unsegmented && ltb (s.seg_size * max_seg % u32_mod) totsize) in
    let (local, c1, s1) = get_local_buf thr totsize c s in
    let (found, s2) = get_buf thr s1 in
    if too_big then (none, c, s) else elim local [
      | some buf ↦ (some buf, c1, hand_out buf size s1)
      | none ↦ elim found [
        | none ↦ (none, c1, s2)
        | some buf ↦
            let needed = totsize - (s2.bufs buf).size in
            let (ok, s3) = get_blks needed needed buf s2 in
            if ltb (s2.bufs buf).size totsize
            then (if ok
                then (some buf, c1, hand_out buf size (set_size buf s3))
                else (none, c1, ret_buf buf s3))
            else (some buf, c1, hand_out buf size s2)
      ]
    ]

unfoldable pub odp_buffer_free : ℕ → Cache → Pool → Cache × Pool
odp_buffer_free buf c s = if s.low_wm_assert then (c, ret_buf buf s) else ret_local_buf buf c s
