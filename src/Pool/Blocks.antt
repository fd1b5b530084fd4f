-- ===== src/Pool/Blocks.antt =====
-- odp_pool_internal.h: the list of free blocks, and the loops that give a buffer its blocks and
-- take them back.
use odp.Prelude.{
  ℕ, zero, suc, ◌+◌, ◌-◌, ◌*◌, ◌≤◌, ◌<◌, ◌≡◌, ◌≢◌, refl, sym, ap, ap₂, subst, ◌∙◌, inl, inr, Bool,
  true, false, none, some, List, [], ◌∷◌, ◌++◌, arith, NotIn, Distinct, length, u32_mod, leb,
  Bool-cases,
}
use odp.Pool.{Pool, get_blk, ret_blk, ret_blks, get_blks, add_seg}
use odp.Pool.Lists.{Stacked-update, Holds, Distinct-suffix, upto, upto-snoc}

-- `get_blk` takes the first free block.
pub get_blk-Holds :
    (s : Pool) (frees : List ℕ) (b : ℕ) (bs : List ℕ)
    → Holds s frees (b ∷ bs)
    → ((get_blk s).0 ≡ some b)
      × Holds (get_blk s).1 frees bs
      × ((get_blk s).1.bufs ≡ s.bufs)
      × ((get_blk s).1.seg_size ≡ s.seg_size)
unfolding get_blk
get_blk-Holds s frees b bs v = ground arith

-- Without a free block it returns a null pointer and keeps the lists.
pub get_blk_empty :
    (s : Pool) (frees : List ℕ)
    → Holds s frees []
    → ((get_blk s).0 ≡ none) × Holds (get_blk s).1 frees [] × ((get_blk s).1.bufs ≡ s.bufs)
unfolding get_blk
get_blk_empty s frees v = ground arith

pub ret_blk-Holds :
    (s : Pool) (frees : List ℕ) (b : ℕ) (bs : List ℕ)
    → Holds s frees bs
    → NotIn b bs
    → length bs + 1 < u32_mod
    → Holds (ret_blk b s) frees (b ∷ bs)
unfolding ret_blk
ret_blk-Holds s frees b bs v n room =
    ground (arith, Stacked-update s.blk_next s.blk_freelist bs b s.blk_freelist n v.blk_chain)

-- The loop of `ret_buf` gives all blocks of a buffer back, the first one on top.
pub ret_blks-Holds :
    (n : ℕ) (addr : ℕ → ℕ) (s : Pool) (frees bs : List ℕ)
    → Holds s frees bs
    → Distinct (upto addr 0 n ++ bs)
    → length bs + n < u32_mod
    → Holds (ret_blks n addr s) frees (upto addr 0 n ++ bs)
unfolding ret_blks
ret_blks-Holds zero addr s frees bs v d room = v
ret_blks-Holds (suc n) addr s frees bs v d room =
    let e = upto-snoc addr 0 n n bs (omega arith) in
    let d' = subst Distinct e d in
    let top = Distinct-suffix (upto addr 0 n) (addr n ∷ bs) d' in
    subst (Holds (ret_blks n addr (ret_blk (addr n) s)) frees) (sym e) (
      ret_blks-Holds n addr (ret_blk (addr n) s) frees (addr n ∷ bs)
        (ret_blk-Holds s frees (addr n) bs v top.0 (omega arith)) d' (omega arith))

-- What the loop that gets `buf` its blocks has done when it ends: it took blocks from the front of
-- the list and put them at the buffer's next places, in their order. It stops with success only
-- if they cover what is needed, and without only if no block is left.
pub record Taken (needed buf : ℕ) (s : Pool) (frees blks : List ℕ) (ok : Bool) (s' : Pool)
    : Type 0 where
  pub taken : ℕ
  pub rest : List ℕ
  pub lists : Holds s' frees rest
  pub count : (s'.bufs buf).segcount ≡ (s.bufs buf).segcount + taken
  pub blocks : upto (s'.bufs buf).addr (s.bufs buf).segcount taken ++ rest ≡ blks
  pub before : (i : ℕ) → i < (s.bufs buf).segcount → (s'.bufs buf).addr i ≡ (s.bufs buf).addr i
  pub size : (s'.bufs buf).size ≡ (s.bufs buf).size
  pub type : (s'.bufs buf).type ≡ (s.bufs buf).type
  pub hdrdata : (s'.bufs buf).hdrdata ≡ (s.bufs buf).hdrdata
  pub others : (b : ℕ) → b ≢ buf → s'.bufs b ≡ s.bufs b
  pub covers : ok ≡ true → needed ≤ taken * s.seg_size
  pub tight : ok ≡ true → taken * s.seg_size < needed + s.seg_size
  pub runs_out : ok ≡ false → rest ≡ []

-- The pool after one round that found block `b`.
abbrev grown : ℕ → ℕ → Pool → Pool
grown buf b s = add_seg buf b (get_blk s).1

grown-Holds :
    (buf : ℕ) (s : Pool) (frees : List ℕ) (b : ℕ) (bs : List ℕ)
    → Holds s frees (b ∷ bs)
    → Holds (grown buf b s) frees bs
grown-Holds buf s frees b bs v =
    let w = (get_blk-Holds s frees b bs v).1 in
    record {
      buf_chain = w.buf_chain;
      blk_chain = w.blk_chain;
      bufs_distinct = w.bufs_distinct;
      blks_distinct = w.blks_distinct;
      buf_total = w.buf_total;
      blk_total = w.blk_total;
      bufs_small = w.bufs_small;
      blks_small = w.blks_small;
    }

-- The buffer after it, and the others.
record Grown (buf b : ℕ) (s : Pool) : Type 0 where
  segcount : ((grown buf b s).bufs buf).segcount ≡ (s.bufs buf).segcount + 1
  last : ((grown buf b s).bufs buf).addr (s.bufs buf).segcount ≡ b
  before :
      (i : ℕ) → i < (s.bufs buf).segcount → ((grown buf b s).bufs buf).addr i ≡ (s.bufs buf).addr i
  size : ((grown buf b s).bufs buf).size ≡ (s.bufs buf).size
  type : ((grown buf b s).bufs buf).type ≡ (s.bufs buf).type
  hdrdata : ((grown buf b s).bufs buf).hdrdata ≡ (s.bufs buf).hdrdata
  others : (x : ℕ) → x ≢ buf → (grown buf b s).bufs x ≡ s.bufs x
  seg_size : (grown buf b s).seg_size ≡ s.seg_size

add_seg-Grown :
    (buf : ℕ) (s : Pool) (frees : List ℕ) (b : ℕ) (bs : List ℕ)
    → Holds s frees (b ∷ bs)
    → (s.bufs buf).segcount + 1 < u32_mod
    → Grown buf b s
unfolding get_blk
add_seg-Grown buf s frees b bs v room = record {
  segcount = ground arith;
  last = ground arith;
  before = λ i h. ground arith;
  size = ground arith;
  type = ground arith;
  hdrdata = ground arith;
  others = λ x ne. ground arith;
  seg_size = ground arith;
}

-- A first round, and a later run of the loop.
Taken-round :
    (needed left buf : ℕ) (s : Pool) (frees : List ℕ) (b : ℕ) (bs : List ℕ) (ok : Bool) (s' : Pool)
    → Grown buf b s
    → needed ≤ left + s.seg_size
    → (t : Taken left buf (grown buf b s) frees bs ok s')
    → (ok ≡ true → t.taken * s.seg_size < needed)
    → Taken needed buf s frees (b ∷ bs) ok s'
Taken-round needed left buf s frees b bs ok s' g le t below = record {
  taken = suc t.taken;
  rest = t.rest;
  lists = t.lists;
  count = omega (arith, t.count, g.segcount);
  blocks =
      ap₂ ◌∷◌ (t.before (s.bufs buf).segcount (omega (arith, g.segcount)) ∙ g.last)
        (ap (λ k. upto (s'.bufs buf).addr k t.taken ++ t.rest) (sym g.segcount) ∙ t.blocks);
  before = λ i h. t.before i (omega (arith, g.segcount)) ∙ g.before i h;
  size = t.size ∙ g.size;
  type = t.type ∙ g.type;
  hdrdata = t.hdrdata ∙ g.hdrdata;
  others = λ x ne. t.others x ne ∙ g.others x ne;
  covers = λ e. omega (arith, t.covers e, le, ap (λ (k : ℕ). t.taken * k) g.seg_size);
  tight = λ e. omega (arith, below e);
  runs_out = t.runs_out;
}

-- No round after the last.
Taken-nil :
    (buf : ℕ) (s : Pool) (frees bs : List ℕ)
    → Holds s frees bs
    → 0 < s.seg_size
    → Taken 0 buf s frees bs true s
Taken-nil buf s frees bs v seg = record {
  taken = 0;
  rest = bs;
  lists = v;
  count = omega arith;
  blocks = refl;
  before = λ i h. refl;
  size = refl;
  type = refl;
  hdrdata = refl;
  others = λ x ne. refl;
  covers = λ e. omega arith;
  tight = λ e. omega arith;
  runs_out = λ e. cc;
}

pub get_blks-Taken :
    (fuel needed buf : ℕ) (s : Pool) (frees blks : List ℕ)
    → Holds s frees blks
    → 0 < s.seg_size
    → needed ≤ fuel
    → 0 < needed
    → (s.bufs buf).segcount + length blks < u32_mod
    → Taken needed buf s frees blks (get_blks fuel needed buf s).0 (get_blks fuel needed buf s).1
unfolding get_blks Taken-nil
get_blks-Taken zero needed buf s frees blks v seg enough pos room = absurd (omega arith)
get_blks-Taken (suc fuel) needed buf s frees [] v seg enough pos room =
    let (e, w, same) = get_blk_empty s frees v in
    rw (e, get_blks)
      (record {
        taken = 0;
        rest = [];
        lists = w;
        count = rw same (omega arith);
        blocks = refl;
        before = λ i h. rw same refl;
        size = rw same refl;
        type = rw same refl;
        hdrdata = rw same refl;
        others = λ x ne. rw same refl;
        covers = λ e. cc;
        tight = λ e. cc;
        runs_out = λ e. refl;
      })
get_blks-Taken (suc fuel) needed buf s frees (b ∷ bs) v seg enough pos room =
    let (e, w, same, sz) = get_blk-Holds s frees b bs v in
    let g = add_seg-Grown buf s frees b bs v (omega arith) in
    let h = grown-Holds buf s frees b bs v in
    elim (Bool-cases (leb needed s.seg_size)) [
      | inl enough' ↦
          rw (e, get_blks, enough')
            (Taken-round needed 0 buf s frees b bs true (grown buf b s) g (ground arith)
              (Taken-nil buf (grown buf b s) frees bs h (rw g.seg_size seg)) (λ e. omega arith))
      | inr more ↦
          let ih =
            get_blks-Taken fuel (needed - s.seg_size) buf (grown buf b s) frees bs h
              (rw g.seg_size seg) (omega arith) (ground arith) (omega (arith, g.segcount, room)) in
          rw (e, get_blks, more)
            (Taken-round needed (needed - s.seg_size) buf s frees b bs _ _ g (omega arith) ih (λ e.
              let lt : s.seg_size < needed = ground arith in
              omega (arith, ih.tight e, lt, g.seg_size, ap (λ (k : ℕ). ih.taken * k) g.seg_size)))
    ]
