-- ===== src/Packet/Copy.antt =====
-- platform/linux-generic/odp_packet.c: copying bytes out of a packet and into it, segment by segment.
--
-- The memory is a function of addresses. A copy through the null pointer that `packet_map` returns
-- past the frame is `faulted`. Fuel for the loops is the number of bytes to copy, since each round
-- copies at least one.
pub mod Segments
pub mod Bytes
pub mod RoundTrip
use odp.Prelude.{
  ℕ, zero, suc, ◌+◌, ◌-◌, Option, none, some, List, [], ◌∷◌, ◌++◌, ltb, if◌then◌else◌, min, length,
  take, drop, add32, update,
}
use odp.Packet.{Packet, packet_map}

abbrev pub Memory : Type 0
Memory = ℕ → ℕ

-- What `memcpy` reads from an address, and what it leaves when it writes to one.
unfoldable pub read : ℕ → ℕ → Memory → List ℕ
read a zero m = []
read a (suc n) m = m a ∷ read (a + 1) n m

unfoldable pub write : ℕ → List ℕ → Memory → Memory
write a [] m = m
write a (b ∷ bs) m = write (a + 1) bs (update m a b)

-- A return of -1, a fault, or a return of 0 with what was copied.
pub data Copied (A : Type 0) : Type 0 where
  refused faulted : Copied A
  copied : A → Copied A

abbrev pub prepend : List ℕ → Copied (List ℕ) → Copied (List ℕ)
prepend bs refused = refused
prepend bs faulted = faulted
prepend bs (copied cs) = copied (bs ++ cs)

unfoldable pub copy_out : ℕ → ℕ → ℕ → Packet → Memory → Copied (List ℕ)
unfolding read
copy_out fuel offset zero p m = copied []
copy_out zero offset (suc n) p m = faulted
copy_out (suc fuel) offset (suc n) p m = elim (packet_map offset p) [
  | none ↦ faulted
  | some (mapaddr, seglen) ↦
      let cpylen = min (suc n) seglen in
      prepend (read mapaddr cpylen m) (copy_out fuel (add32 offset cpylen) (suc n - cpylen) p m)
]

unfoldable pub odp_packet_copydata_out : ℕ → ℕ → Packet → Memory → Copied (List ℕ)
unfolding copy_out
odp_packet_copydata_out offset len p m =
    if ltb p.frame_len (add32 offset len) then refused else copy_out len offset len p m

-- The bytes still to copy are `src`.
unfoldable pub copy_in : ℕ → ℕ → List ℕ → Packet → Memory → Copied Memory
unfolding write
copy_in fuel offset [] p m = copied m
copy_in zero offset (b ∷ src) p m = faulted
copy_in (suc fuel) offset (b ∷ src) p m = elim (packet_map offset p) [
  | none ↦ faulted
  | some (mapaddr, seglen) ↦
      let cpylen = min (length (b ∷ src)) seglen in
      copy_in fuel (add32 offset cpylen) (drop cpylen (b ∷ src)) p
        (write mapaddr (take cpylen (b ∷ src)) m)
]

unfoldable pub odp_packet_copydata_in : ℕ → List ℕ → Packet → Memory → Copied Memory
unfolding copy_in
odp_packet_copydata_in offset src p m =
    if ltb p.frame_len (add32 offset (length src))
    then refused
    else copy_in (length src) offset src p m
