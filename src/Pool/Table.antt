-- ===== src/Pool/Table.antt =====
-- odp_pool.c: lookup and destroy of the pools in the table.
use odp.Prelude.{ℕ, Bool, true, false, Option, none, some, List, [], ◌∷◌, ltb, if◌then◌else◌}
use odp.Queue.Table.{same_name}
use odp.Pool.{Pool, Cache, flush_cache}

-- What else an entry of the table has: its name and handle, its shared memory, `none` for
-- ODP_SHM_INVALID, and whether it is predefined.
pub record PoolSlot : Type 0 where
  pub pool : Pool
  pub name : List ℕ
  pub pool_hdl : ℕ
  pub pool_shm : Option ℕ
  pub predefined : Bool

-- The handle, or ODP_POOL_INVALID as `none`. The loop looks at every slot, in use or not.
unfoldable pub odp_pool_lookup : List ℕ → List PoolSlot → Option ℕ
odp_pool_lookup name [] = none
odp_pool_lookup name (p ∷ ps) =
    let rest = odp_pool_lookup name ps in if same_name name p.name then some p.pool_hdl else rest

-- Whether it returned 0, the calling thread's cache and the slot. A null slot is not passed.
-- `fuel` bounds the cache's length; `odp_shm_free` is not part of the model.
unfoldable pub odp_pool_destroy : ℕ → Cache → PoolSlot → Bool × Cache × PoolSlot
odp_pool_destroy fuel c p =
    let (c1, s1) = flush_cache fuel c p.pool in
    let p1 = record p { pool = s1 } in
    elim p.pool_shm [
      | none ↦ (false, c, p)
      | some shm ↦
          if p.predefined
          then (false, c, p)
          else (if ltb s1.bufcount s1.buf_num
              then (false, c1, p1)
              else (true, c1, record p1 { pool_shm = none }))
    ]
