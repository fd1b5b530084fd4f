-- ===== src/Thread/Tests.antt =====
-- odp_thread.c: the theorems at concrete globals.
use odp.Prelude.{some, arith}
use odp.Thread.{Globals, worker, init_global, init_local}
use odp.Thread.Ids.{IsValid, init_global-IsValid}
use odp.Thread.Calls.{init_local_lem}

init_local_lem_example : IsValid (init_local worker (some 2) init_global).1
init_local_lem_example = (init_local_lem worker 2 init_global init_global-IsValid (omega arith)).8

-- The globals with one thread.
abbrev one_thread : Globals
one_thread = (init_local worker (some 2) init_global).1
