-- ===== src/Shm/Reserve.antt =====
-- odp_shared_memory.c: reserving a block, finding it and freeing it.
use odp.Prelude.{
  ℕ, zero, suc, ◌+◌, ◌-◌, ◌*◌, ◌/◌, ◌%◌, ne-eq_false, ◌≤◌, ◌<◌, ◌≡◌, ◌≢◌, refl, subst, sym, ap, ◌∙◌,
  Bool, true, false, ◌&&◌, ◌||◌, Option, none, some, List, [], ◌∷◌, arith, ◌==◌, if◌then◌else◌,
  get_elem?, set, take, length, length-set, get_elem?-set_self, get_elem?-set_ne, u32_mod, u64_mod,
  leb,
}
use native.Mathlib.Nat.{mod-lt, mod-eq_of_lt, div-add-mod}
use odp.Queue.Table.{same_name}
use odp.Shm.{
  Block, after, zero_block, free_at, handle_at, handle_of, odp_shm_info, Os, Mapping, is_proc,
  is_null, from_handle, to_handle, find_block, free_block, map_block, filled, take_block,
  place_block, align_roundup, odp_shm_reserve, odp_shm_free, odp_shm_lookup, odp_shm_addr,
  shm_name_len, pointer,
}

same_name_self : (name : List ℕ) → same_name name name ≡ true
unfolding same_name
same_name_self [] = refl
same_name_self (a ∷ as') = ground (arith, same_name_self as')

-- What a search that found something, or nothing, says of the head of the table and of its tail.
first-none :
    (s : Bool) (o : Option ℕ) → (if s then some 0 else after o) ≡ none → (s ≡ false) × (o ≡ none)
first-none true o e = absurd (ground arith)
first-none false none e = (refl, refl)
first-none false (some j) e = absurd (ground arith)

first-zero : (s : Bool) (o : Option ℕ) → (if s then some 0 else after o) ≡ some 0 → s ≡ true
first-zero true o e = refl
first-zero false none e = absurd (ground arith)
first-zero false (some j) e = absurd (ground arith)

first-suc :
    (s : Bool) (o : Option ℕ) (i : ℕ) → (if s then some 0 else after o) ≡ some (suc i) → o ≡ some i
first-suc true o i e = absurd (ground arith)
first-suc false none i e = absurd (ground arith)
first-suc false (some j) i e = ground arith

is_null-true : (a : Option ℕ) → is_null a ≡ true → a ≡ none
is_null-true none e = refl
is_null-true (some a) e = absurd (ground arith)

free_block-get :
    (t : List Block) (i : ℕ)
    → free_block t ≡ some i
    → (i < length t) × ((b : Block) × (get_elem? t i ≡ some b) × (b.addr ≡ none))
unfolding free_block
free_block-get [] i e = absurd (ground arith)
free_block-get (b ∷ bs) zero e =
    (omega arith, (b, refl, is_null-true b.addr (first-zero (is_null b.addr) (free_block bs) e)))
free_block-get (b ∷ bs) (suc i) e =
    let (l, rest) = free_block-get bs i (first-suc (is_null b.addr) (free_block bs) i e) in
    (omega arith, rest)

-- A name that was not in the table, once put at a place.
find_block-set :
    (name : List ℕ) (t : List Block) (i : ℕ) (b : Block)
    → find_block name t ≡ none
    → i < length t
    → b.name ≡ name
    → find_block name (set t i b) ≡ some i
unfolding find_block
find_block-set name [] i b e l n = absurd (omega arith)
find_block-set name (c ∷ t) zero b e l n = rw (ap (same_name name) n ∙ same_name_self name) refl
find_block-set name (c ∷ t) (suc i) b e l n =
    let (s, r) = first-none (same_name name c.name) (find_block name t) e in
    rw s (rw (find_block-set name t i b r (omega arith) n) refl)

take-whole : (n : ℕ) (xs : List ℕ) → length xs ≤ n → take n xs ≡ xs
take-whole zero [] h = refl
take-whole zero (x ∷ xs) h = absurd (omega arith)
take-whole (suc n) [] h = refl
take-whole (suc n) (x ∷ xs) h = ap (λ r. x ∷ r) (take-whole n xs (omega arith))

-- What a call that got a block did.
record Placed (name : List ℕ) (size align flags : ℕ) (os : Os) (t : List Block) (r : ℕ × List Block)
    : Type 0 where
  new : find_block name t ≡ none
  index : ℕ
  free : free_block t ≡ some index
  mapping : Mapping
  mapped : map_block flags ((size + align) % u64_mod) os ≡ some mapping
  placed : r ≡ (to_handle index, set t index (filled name size align flags os mapping index))

take_block-cases :
    (name : List ℕ) (size align flags : ℕ) (os : Os) (o : Option Mapping) (i : ℕ) (t : List Block)
    → (take_block name size align flags os o i t).0 ≢ 0
    → (m : Mapping) × (o ≡ some m)
      × (take_block name size align flags os o i t
          ≡ (to_handle i, set t i (filled name size align flags os m i)))
unfolding take_block
take_block-cases name size align flags os none i t h = absurd (h refl)
take_block-cases name size align flags os (some m) i t h = (m, refl, refl)

place_block-Placed :
    (name : List ℕ) (size align flags : ℕ) (os : Os) (old slot : Option ℕ) (t : List Block)
    → find_block name t ≡ old
    → free_block t ≡ slot
    → (place_block name size align flags os old slot t).0 ≢ 0
    → Placed name size align flags os t (place_block name size align flags os old slot t)
unfolding place_block
place_block-Placed name size align flags os (some j) slot t e f h = absurd (h refl)
place_block-Placed name size align flags os none none t e f h = absurd (h refl)
place_block-Placed name size align flags os none (some i) t e f h =
    let (m, o, q) =
      take_block-cases name size align flags os (map_block flags ((size + align) % u64_mod) os) i t
        h in
    record { new = e; index = i; free = f; mapping = m; mapped = o; placed = q }

-- A call that does not give 0 is past its first test.
past :
    {A : Type 0} (c : Bool) (t : A) (r : ℕ × A)
    → (if c then (0, t) else r).0 ≢ 0
    → (if c then (0, t) else r) ≡ r
past true t r h = absurd (h refl)
past false t r h = refl

reserve-Placed :
    (name : List ℕ) (size align flags : ℕ) (os : Os) (t : List Block)
    → (odp_shm_reserve name size align flags os t).0 ≢ 0
    → Placed name size align flags os t (odp_shm_reserve name size align flags os t)
unfolding odp_shm_reserve
reserve-Placed name size align flags os t h =
    let e =
      past (is_proc flags && is_null os.fd) t
        (place_block name size align flags os (find_block name t) (free_block t) t) h in
    subst (λ r. Placed name size align flags os t r) (sym e)
      (place_block-Placed name size align flags os (find_block name t) (free_block t) t refl refl
        (λ z. h (ap (λ r. r.0) e ∙ z)))

handle_suc : (i : ℕ) → i + 1 < u32_mod → to_handle i ≡ suc i
handle_suc i h = omega arith

-- The handle of the index leads back to the index.
handle_back : (i : ℕ) → i + 1 < u32_mod → from_handle (to_handle i) ≡ i
handle_back i h = omega arith

addr-get :
    (shm : ℕ) (t : List Block) (b : Block)
    → get_elem? t (from_handle shm) ≡ some b
    → odp_shm_addr shm t ≡ b.addr
unfolding odp_shm_addr
addr-get shm t b e = rw (e, odp_shm_addr) refl

info-get :
    (shm : ℕ) (t : List Block) (b : Block)
    → get_elem? t (from_handle shm) ≡ some b
    → odp_shm_info shm t ≡ some (b.name, b.addr, b.size, b.page_sz, b.flags)
unfolding odp_shm_info
info-get shm t b e = rw (e, odp_shm_info) refl

lookup-get :
    (name : List ℕ) (t : List Block) (i : ℕ) (b : Block)
    → find_block name t ≡ some i
    → get_elem? t i ≡ some b
    → odp_shm_lookup name t ≡ b.hdl
unfolding odp_shm_lookup handle_at handle_of
lookup-get name t i b e g = ap (handle_at t) e ∙ ap handle_of g

-- The mapping lies so that rounding its address up is no more than 2^64 and not NULL.
pub record IsRoom (m : Mapping) (align : ℕ) : Type 0 where
  pub some_align : 1 ≤ align
  pub not_null : 1 ≤ m.start
  pub no_wrap : m.start + align ≤ u64_mod

-- The address is the first multiple of the alignment from the start of the mapping on.
pub record IsAligned (start align a : ℕ) : Type 0 where
  pub not_below : start ≤ a
  pub near : a < start + align
  pub factor : ℕ
  pub multiple : a ≡ align * factor

align_roundup-IsAligned :
    (m : Mapping) (align : ℕ)
    → IsRoom m align
    → IsAligned m.start align (align_roundup m.start align)
align_roundup-IsAligned m align r =
    let x = m.start + align - 1 in
    let small : (m.start + align + u64_mod - 1) % u64_mod ≡ x =
      omega (arith, r.not_null, r.no_wrap) in
    let parts : align * (x / align) + x % align ≡ x = div-add-mod x align in
    let rest : x % align < align = mod-lt x r.some_align in
    let top : align * (x / align) % u64_mod ≡ align * (x / align) =
      mod-eq_of_lt (grind (arith, parts, rest, r.not_null, r.no_wrap)) in
    let is : align_roundup m.start align ≡ align * (x / align) =
      ap (λ z. align * (z / align) % u64_mod) small ∙ top in
    record {
      not_below = grind (arith, is, parts, rest, r.not_null, r.no_wrap);
      near = grind (arith, is, parts, rest, r.not_null, r.no_wrap);
      factor = x / align;
      multiple = is;
    }

pointer-align_roundup :
    (m : Mapping) (align : ℕ)
    → IsRoom m align
    → pointer (align_roundup m.start align) ≡ some (align_roundup m.start align)
pointer-align_roundup m align r =
    let a = align_roundup-IsAligned m align r in
    ap (λ b. if b then none else some (align_roundup m.start align))
      (ne-eq_false (align_roundup m.start align) 0
        (λ e. absurd (omega (arith, e, a.not_below, r.not_null))))

-- What a caller sees of a reserved block, and what it finds unchanged.
abbrev pub Served : List ℕ → ℕ → ℕ → ℕ → Mapping → List Block → List Block → ℕ → Type 0
Served name size align flags m t t' h =
    (odp_shm_lookup name t ≡ 0)
    × (odp_shm_addr h t ≡ none)
    × (odp_shm_lookup name t' ≡ h)
    × ((a : ℕ) × IsAligned m.start align a
        × (odp_shm_addr h t' ≡ some a)
        × (odp_shm_info h t' ≡ some (name, some a, size, m.page, flags)))
    × (length t' ≡ length t)
    × ((other : ℕ) → from_handle h ≢ other → get_elem? t' other ≡ get_elem? t other)

lookup-none :
    (name : List ℕ) (t : List Block) → find_block name t ≡ none → odp_shm_lookup name t ≡ 0
unfolding odp_shm_lookup
lookup-none name t e = rw e refl

placed-Served :
    (name : List ℕ) (size align flags : ℕ) (os : Os) (t : List Block) (i : ℕ) (m : Mapping)
    → length name ≤ shm_name_len - 1
    → length t + 1 < u32_mod
    → find_block name t ≡ none
    → free_block t ≡ some i
    → IsRoom m align
    → Served name size align flags m t (set t i (filled name size align flags os m i)) (to_handle i)
placed-Served name size align flags os t i m short small e f room =
    let new = filled name size align flags os m i in
    let (l, (b, gb, nb)) = free_block-get t i f in
    let whole = take-whole (shm_name_len - 1) name short in
    let back = handle_back i (omega arith) in
    let get = get_elem?-set_self t i new l in
    let get' = ap (get_elem? (set t i new)) back ∙ get in
    (
      lookup-none name t e,
      addr-get (to_handle i) t b (ap (get_elem? t) back ∙ gb) ∙ nb,
      lookup-get name (set t i new) i new (find_block-set name t i new e l whole) get,
      (
        align_roundup m.start align,
        align_roundup-IsAligned m align room,
        addr-get (to_handle i) (set t i new) new get' ∙ pointer-align_roundup m align room,
        info-get (to_handle i) (set t i new) new get'
            ∙ ap (λ n. some (n, pointer (align_roundup m.start align), size, m.page, flags)) whole
            ∙ ap (λ x. some (name, x, size, m.page, flags)) (pointer-align_roundup m align room),
      ),
      length-set t i new,
      λ other ne. get_elem?-set_ne t i other new (λ q. ne (back ∙ q)),
    )

reserve-placed :
    (name : List ℕ) (size align flags : ℕ) (os : Os) (t : List Block) (i : ℕ) (m : Mapping)
    → (is_proc flags && is_null os.fd) ≡ false
    → find_block name t ≡ none
    → free_block t ≡ some i
    → map_block flags ((size + align) % u64_mod) os ≡ some m
    → odp_shm_reserve name size align flags os t
      ≡ (to_handle i, set t i (filled name size align flags os m i))
unfolding odp_shm_reserve place_block take_block
reserve-placed name size align flags os t i m c e f o =
    ap
      (λ g.
        if g
        then (0, t)
        else place_block name size align flags os (find_block name t) (free_block t) t)
      c
    ∙ ap (λ x. place_block name size align flags os x (free_block t) t) e
    ∙ ap (λ x. place_block name size align flags os none x t) f
    ∙ ap (λ x. take_block name size align flags os x i t) o

-- If shm_open gives a descriptor where one is needed, no block has the name, which has at most
-- 31 characters, some block is free, one of the mappings is made, the alignment is not 0, and
-- the mapping starts above 0 and at least the alignment below 2^64, odp_shm_reserve returns the
-- handle of the first free block. The name, which led to no block before, then leads to that
-- handle, and the handle to the first multiple of the alignment from the start of the mapping on
-- and to the properties asked for; no other block changes.
pub odp_shm_reserve-Served :
    (name : List ℕ) (size align flags : ℕ) (os : Os) (t : List Block) (i : ℕ) (m : Mapping)
    → length name ≤ shm_name_len - 1
    → length t + 1 < u32_mod
    → (is_proc flags && is_null os.fd) ≡ false
    → find_block name t ≡ none
    → free_block t ≡ some i
    → map_block flags ((size + align) % u64_mod) os ≡ some m
    → IsRoom m align
    → ((odp_shm_reserve name size align flags os t).0 ≡ suc i)
      × Served name size align flags m t
          (odp_shm_reserve name size align flags os t).1
          (odp_shm_reserve name size align flags os t).0
odp_shm_reserve-Served name size align flags os t i m short small c e f o room =
    let p = reserve-placed name size align flags os t i m c e f o in
    let (l, rest) = free_block-get t i f in
    (
      ap (λ r. r.0) p ∙ handle_suc i (omega arith),
      subst (λ r. Served name size align flags m t r.1 r.0) (sym p)
          (placed-Served name size align flags os t i m short small e f room),
    )

set-twice :
    (t : List Block) (i : ℕ) (b c : Block) → get_elem? t i ≡ some c → set (set t i b) i c ≡ t
set-twice [] i b c e = absurd (ground arith)
set-twice (x ∷ t) zero b c e = cc
set-twice (x ∷ t) (suc i) b c e = ap (λ r. x ∷ r) (set-twice t i b c e)

-- Freeing a block that the operating system lets go.
free_at-set :
    (t : List Block) (i : ℕ) (b : Block) (a : ℕ)
    → b.addr ≡ some a
    → free_at true true i (some b) t ≡ (true, set t i zero_block)
unfolding free_at
free_at-set t i b a n = rw n (ground arith)

in_table :
    (i n : ℕ)
    → i < n
    → n + 1 < u32_mod
    → (to_handle i == 0 || leb n (from_handle (to_handle i))) ≡ false
in_table i n l small = rw (handle_back i (omega arith), handle_suc i (omega arith)) (ground arith)

free-get :
    (t : List Block) (i : ℕ) (b : Block) (a : ℕ)
    → i < length t
    → length t + 1 < u32_mod
    → get_elem? t i ≡ some b
    → b.addr ≡ some a
    → odp_shm_free (to_handle i) true true t ≡ (true, set t i zero_block)
unfolding odp_shm_free
free-get t i b a l small g n =
    let shm = to_handle i in
    let back = handle_back i (omega arith) in
    ap
      (λ c.
        if c
        then (false, t)
        else free_at true true (from_handle shm) (get_elem? t (from_handle shm)) t)
      (in_table i (length t) l small)
    ∙ ap (λ j. free_at true true j (get_elem? t j) t) back
    ∙ ap (λ o. free_at true true i o t) g
    ∙ free_at-set t i b a n

-- If every block that has no address is zeroed, the alignment is not 0, and any mapping that is
-- made starts above 0 and at least the alignment below 2^64, freeing the block that
-- odp_shm_reserve has just reserved succeeds and restores the whole table, as long as munmap and
-- shm_unlink succeed.
pub odp_shm_free-reserve :
    (name : List ℕ) (size align flags : ℕ) (os : Os) (t : List Block)
    → length t + 1 < u32_mod
    → ((i : ℕ) (b : Block) → get_elem? t i ≡ some b → b.addr ≡ none → b ≡ zero_block)
    → ((m : Mapping) → map_block flags ((size + align) % u64_mod) os ≡ some m → IsRoom m align)
    → (odp_shm_reserve name size align flags os t).0 ≢ 0
    → odp_shm_free
        (odp_shm_reserve name size align flags os t).0
        true
        true
        (odp_shm_reserve name size align flags os t).1
      ≡ (true, t)
odp_shm_free-reserve name size align flags os t small z room nz =
    let p = reserve-Placed name size align flags os t nz in
    let new = filled name size align flags os p.mapping p.index in
    let (l, (b, gb, nb)) = free_block-get t p.index p.free in
    let freed =
      free-get (set t p.index new) p.index new (align_roundup p.mapping.start align)
        (subst (λ n. p.index < n) (sym (length-set t p.index new)) l)
        (subst (λ n. n + 1 < u32_mod) (sym (length-set t p.index new)) small)
        (get_elem?-set_self t p.index new l)
        (pointer-align_roundup p.mapping align (room p.mapping p.mapped)) in
    let back = set-twice t p.index new zero_block (gb ∙ ap some (z p.index b gb nb)) in
    subst (λ r. odp_shm_free r.0 true true r.1 ≡ (true, t)) (sym p.placed)
      (freed ∙ ap (λ r. (true, r)) back)
