-- ===== src/Pool/Lists.antt =====
-- odp_pool_internal.h: what the free lists of a pool hold.
use odp.Prelude.{
  ℕ, zero, suc, ◌+◌, ◌≤◌, ◌<◌, ◌≡◌, refl, ap, ap₂, List, Option, none, some, [], ◌∷◌, ◌++◌, arith,
  NotIn, Distinct, length, update, u32_mod,
}
use odp.Pool.{Pool}

-- From a pointer, the links run through the list to a null pointer.
abbrev pub Stacked : (ℕ → Option ℕ) → Option ℕ → List ℕ → Type 0
Stacked h p [] = p ≡ none
Stacked h p (x ∷ xs) = (p ≡ some x) × Stacked h (h x) xs

pub Stacked-update :
    (h : ℕ → Option ℕ) (p : Option ℕ) (xs : List ℕ) (x : ℕ) (q : Option ℕ)
    → NotIn x xs
    → Stacked h p xs
    → Stacked (update h x q) p xs
Stacked-update h p [] x q n c = c
Stacked-update h p (y ∷ ys) x q n c = (c.0, ground (arith, Stacked-update h (h y) ys x q n.1 c.1))

-- The pool's lists: its free buffers and its free blocks, none twice, and their counts.
pub record Holds (s : Pool) (frees blks : List ℕ) : Type 0 where
  pub buf_chain : Stacked s.next s.buf_freelist frees
  pub blk_chain : Stacked s.blk_next s.blk_freelist blks
  pub bufs_distinct : Distinct frees
  pub blks_distinct : Distinct blks
  pub buf_total : s.bufcount ≡ length frees
  pub blk_total : s.blkcount ≡ length blks
  pub bufs_small : length frees < u32_mod
  pub blks_small : length blks < u32_mod

pub Distinct-suffix : (xs ys : List ℕ) → Distinct (xs ++ ys) → Distinct ys
Distinct-suffix [] ys d = d
Distinct-suffix (x ∷ xs) ys d = Distinct-suffix xs ys d.1

-- The blocks at `n` places of an array from index `i` on.
abbrev pub upto : (ℕ → ℕ) → ℕ → ℕ → List ℕ
upto addr i zero = []
upto addr i (suc n) = addr i ∷ upto addr (i + 1) n

pub upto-snoc :
    (addr : ℕ → ℕ) (i n j : ℕ) (bs : List ℕ)
    → i + n ≡ j
    → upto addr i (suc n) ++ bs ≡ upto addr i n ++ addr j ∷ bs
upto-snoc addr i zero j bs e = ap (λ k. addr k ∷ bs) (omega arith)
upto-snoc addr i (suc n) j bs e =
    ap (λ xs. addr i ∷ xs) (upto-snoc addr (i + 1) n j bs (omega arith))

pub length-upto : (addr : ℕ → ℕ) (i n : ℕ) → length (upto addr i n) ≡ n
length-upto addr i zero = refl
length-upto addr i (suc n) = ap suc (length-upto addr (i + 1) n)

-- Only the places themselves matter.
pub upto-ext :
    (f g : ℕ → ℕ) (i n : ℕ) → ((j : ℕ) → i ≤ j → j < i + n → f j ≡ g j) → upto f i n ≡ upto g i n
upto-ext f g i zero h = refl
upto-ext f g i (suc n) h =
    ap₂ ◌∷◌ (h i (omega arith) (omega arith))
      (upto-ext f g (i + 1) n (λ j p q. h j (omega arith) (omega arith)))
