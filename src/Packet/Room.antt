-- ===== src/Packet/Room.antt =====
-- odp_packet_internal.h and odp_packet.c: pushing and pulling move the border between a packet's
-- frame and its room, and no byte.
use odp.Prelude.{
  ℕ, ◌+◌, ◌-◌, ◌*◌, ◌≤◌, ◌<◌, ◌≡◌, refl, ap, ◌∙◌, ◌⊎◌, inl, inr, true, false, none, some, arith,
  u32_mod, Bool-cases, add32, sub32, ltb,
}
use odp.Packet.{
  Packet, Rooms, packet_init, odp_packet_reset, packet_map, buffer_map, address, push_head,
  pull_head, push_tail, pull_tail, odp_packet_push_head, odp_packet_pull_head, odp_packet_push_tail,
  odp_packet_pull_tail, offset_invalid,
}

-- The rooms and the frame fill the segments, and the size of these is a 32-bit number.
pub record IsValid (p : Packet) : Type 0 where
  pub filled : p.headroom + p.frame_len + p.tailroom ≡ p.segcount * p.segsize
  pub size_is : p.size ≡ p.segcount * p.segsize
  pub small : p.size < u32_mod

-- The address of a byte of the frame, by its place in the packet's memory.
abbrev pub byte_at : ℕ → Packet → ℕ
byte_at k p = (buffer_map k k p).0

-- `packet_map` gives the address of the byte that is so far into the frame.
pub packet_map-byte_at :
    (o : ℕ) (p : Packet)
    → IsValid p
    → o ≤ p.frame_len
    → address (packet_map o p) ≡ some (byte_at (p.headroom + o) p)
packet_map-byte_at o p v l =
    let inside : ltb p.frame_len o ≡ false = ground arith in
    let word : add32 p.headroom o ≡ p.headroom + o = omega (arith, v.filled, v.size_is, v.small) in
    rw (inside, word) refl

-- What pushing or pulling does: `moved` is the packet after it, whose frame starts `gain` bytes
-- earlier, or later by `loss`. Its memory stays and the packet stays valid.
pub record Moved (p q : Packet) (gain loss : ℕ) : Type 0 where
  pub valid : IsValid q
  pub headroom : q.headroom + gain ≡ p.headroom + loss
  pub bytes : (k : ℕ) → byte_at k q ≡ byte_at k p

pub odp_packet_push_head_lem :
    (len : ℕ) (p : Packet)
    → IsValid p
    → ((p.headroom < len) × (odp_packet_push_head len p ≡ (none, p)))
      ⊎ ((len ≤ p.headroom)
          × ((odp_packet_push_head len p).0 ≡ some (byte_at (p.headroom - len) p))
          × Moved p (odp_packet_push_head len p).1 len 0
          × ((odp_packet_push_head len p).1.frame_len ≡ p.frame_len + len)
          × ((odp_packet_push_head len p).1.tailroom ≡ p.tailroom))
unfolding odp_packet_push_head
odp_packet_push_head_lem len p v = elim (Bool-cases (ltb p.headroom len)) [
  | inl e ↦ inl (ground arith, rw (odp_packet_push_head, e) refl)
  | inr e ↦
      let le : len ≤ p.headroom = ground arith in
      let h : sub32 p.headroom len ≡ p.headroom - len =
        omega (arith, v.filled, v.size_is, v.small) in
      let f : add32 p.frame_len len ≡ p.frame_len + len =
        omega (arith, v.filled, v.size_is, v.small) in
      let w : IsValid (push_head len p) = record {
        filled = omega (arith, h, f, v.filled);
        size_is = v.size_is;
        small = v.small;
      } in
      let at : address (packet_map 0 (push_head len p)) ≡ some (byte_at (p.headroom - len) p) =
        packet_map-byte_at 0 (push_head len p) w (omega arith)
        ∙ ap (λ k. some (byte_at k p)) (omega (arith, h)) in
      rw (odp_packet_push_head, e)
        (inr (
          le,
          at,
          record { valid = w; headroom = omega (arith, h, le); bytes = λ k. refl },
          f,
          refl,
        ))
]

odp_packet_pull_head_lem :
    (len : ℕ) (p : Packet)
    → IsValid p
    → ((p.frame_len < len) × (odp_packet_pull_head len p ≡ (none, p)))
      ⊎ ((len ≤ p.frame_len)
          × ((odp_packet_pull_head len p).0 ≡ some (byte_at (p.headroom + len) p))
          × Moved p (odp_packet_pull_head len p).1 0 len
          × ((odp_packet_pull_head len p).1.frame_len + len ≡ p.frame_len)
          × ((odp_packet_pull_head len p).1.tailroom ≡ p.tailroom))
unfolding odp_packet_pull_head
odp_packet_pull_head_lem len p v = elim (Bool-cases (ltb p.frame_len len)) [
  | inl e ↦ inl (ground arith, rw (odp_packet_pull_head, e) refl)
  | inr e ↦
      let le : len ≤ p.frame_len = ground arith in
      let h : add32 p.headroom len ≡ p.headroom + len =
        omega (arith, v.filled, v.size_is, v.small) in
      let f : sub32 p.frame_len len + len ≡ p.frame_len =
        omega (arith, v.filled, v.size_is, v.small) in
      let w : IsValid (pull_head len p) = record {
        filled = omega (arith, h, f, v.filled);
        size_is = v.size_is;
        small = v.small;
      } in
      let at : address (packet_map 0 (pull_head len p)) ≡ some (byte_at (p.headroom + len) p) =
        packet_map-byte_at 0 (pull_head len p) w (omega arith)
        ∙ ap (λ k. some (byte_at k p)) (omega (arith, h)) in
      rw (odp_packet_pull_head, e)
        (inr
          (le, at, record { valid = w; headroom = omega (arith, h); bytes = λ k. refl }, f, refl))
]

-- On a valid packet odp_packet_push_tail either finds the tailroom too small, returns NULL and
-- changes nothing, or returns the address just after the old frame, keeps the packet valid and
-- every byte where it is, and makes the frame len longer at its end.
pub odp_packet_push_tail_lem :
    (len : ℕ) (p : Packet)
    → IsValid p
    → ((p.tailroom < len) × (odp_packet_push_tail len p ≡ (none, p)))
      ⊎ ((len ≤ p.tailroom)
          × ((odp_packet_push_tail len p).0 ≡ some (byte_at (p.headroom + p.frame_len) p))
          × Moved p (odp_packet_push_tail len p).1 0 0
          × ((odp_packet_push_tail len p).1.frame_len ≡ p.frame_len + len)
          × ((odp_packet_push_tail len p).1.tailroom + len ≡ p.tailroom))
unfolding odp_packet_push_tail
odp_packet_push_tail_lem len p v = elim (Bool-cases (ltb p.tailroom len)) [
  | inl e ↦ inl (ground arith, rw (odp_packet_push_tail, e) refl)
  | inr e ↦
      let le : len ≤ p.tailroom = ground arith in
      let t : sub32 p.tailroom len + len ≡ p.tailroom =
        omega (arith, v.filled, v.size_is, v.small) in
      let f : add32 p.frame_len len ≡ p.frame_len + len =
        omega (arith, v.filled, v.size_is, v.small) in
      let w : IsValid (push_tail len p) = record {
        filled = omega (arith, t, f, v.filled);
        size_is = v.size_is;
        small = v.small;
      } in
      let at = packet_map-byte_at p.frame_len (push_tail len p) w (omega (arith, f)) in
      rw (odp_packet_push_tail, e)
        (inr (le, at, record { valid = w; headroom = refl; bytes = λ k. refl }, f, t))
]

-- On a valid packet odp_packet_pull_tail either finds the frame too short, returns NULL and
-- changes nothing, or returns the address just after the new frame, keeps the packet valid and
-- every byte where it is, and makes the frame len shorter at its end.
pub odp_packet_pull_tail_lem :
    (len : ℕ) (p : Packet)
    → IsValid p
    → ((p.frame_len < len) × (odp_packet_pull_tail len p ≡ (none, p)))
      ⊎ ((len ≤ p.frame_len)
          × ((odp_packet_pull_tail len p).0 ≡ some (byte_at (p.headroom + p.frame_len - len) p))
          × Moved p (odp_packet_pull_tail len p).1 0 0
          × ((odp_packet_pull_tail len p).1.frame_len + len ≡ p.frame_len)
          × ((odp_packet_pull_tail len p).1.tailroom ≡ p.tailroom + len))
unfolding odp_packet_pull_tail
odp_packet_pull_tail_lem len p v = elim (Bool-cases (ltb p.frame_len len)) [
  | inl e ↦ inl (ground arith, rw (odp_packet_pull_tail, e) refl)
  | inr e ↦
      let le : len ≤ p.frame_len = ground arith in
      let t : add32 p.tailroom len ≡ p.tailroom + len =
        omega (arith, v.filled, v.size_is, v.small) in
      let f : sub32 p.frame_len len + len ≡ p.frame_len =
        omega (arith, v.filled, v.size_is, v.small) in
      let w : IsValid (pull_tail len p) = record {
        filled = omega (arith, t, f, v.filled);
        size_is = v.size_is;
        small = v.small;
      } in
      let at : address (packet_map (pull_tail len p).frame_len (pull_tail len p))
          ≡ some (byte_at (p.headroom + p.frame_len - len) p) =
        packet_map-byte_at (pull_tail len p).frame_len (pull_tail len p) w (omega arith)
        ∙ ap (λ k. some (byte_at k p)) (omega (arith, f)) in
      rw (odp_packet_pull_tail, e)
        (inr (le, at, record { valid = w; headroom = refl; bytes = λ k. refl }, f, t))
]

pub odp_packet_pull_head-push_head :
    (len : ℕ) (p : Packet)
    → IsValid p
    → len ≤ p.headroom
    → (odp_packet_pull_head len (odp_packet_push_head len p).1).1 ≡ p
unfolding odp_packet_pull_head odp_packet_push_head
odp_packet_pull_head-push_head len p v le =
    let e : ltb p.headroom len ≡ false = ground arith in
    let h : add32 (sub32 p.headroom len) len ≡ p.headroom =
      omega (arith, v.filled, v.size_is, v.small) in
    let f : sub32 (add32 p.frame_len len) len ≡ p.frame_len =
      omega (arith, v.filled, v.size_is, v.small) in
    let sum : add32 p.frame_len len ≡ p.frame_len + len =
      omega (arith, v.filled, v.size_is, v.small) in
    let g : ltb (add32 p.frame_len len) len ≡ false = rw sum (ground arith) in rw (e, g, h, f) refl

-- Pulling from the tail of a valid packet what was pushed there within its tailroom restores the
-- packet.
pub odp_packet_pull_tail-push_tail :
    (len : ℕ) (p : Packet)
    → IsValid p
    → len ≤ p.tailroom
    → (odp_packet_pull_tail len (odp_packet_push_tail len p).1).1 ≡ p
unfolding odp_packet_pull_tail odp_packet_push_tail
odp_packet_pull_tail-push_tail len p v le =
    let e : ltb p.tailroom len ≡ false = ground arith in
    let h : add32 (sub32 p.tailroom len) len ≡ p.tailroom =
      omega (arith, v.filled, v.size_is, v.small) in
    let f : sub32 (add32 p.frame_len len) len ≡ p.frame_len =
      omega (arith, v.filled, v.size_is, v.small) in
    let sum : add32 p.frame_len len ≡ p.frame_len + len =
      omega (arith, v.filled, v.size_is, v.small) in
    let g : ltb (add32 p.frame_len len) len ≡ false = rw sum (ground arith) in rw (e, g, h, f) refl

pub odp_packet_reset_lem :
    (pool : Rooms) (len : ℕ) (p : Packet)
    → IsValid p
    → p.segsize ≡ pool.seg_size
    → pool.headroom + len + pool.tailroom < u32_mod
    → ((p.size < pool.headroom + len + pool.tailroom) × (odp_packet_reset pool len p ≡ (false, p)))
      ⊎ (((odp_packet_reset pool len p).0 ≡ true)
          × IsValid (odp_packet_reset pool len p).1
          × ((odp_packet_reset pool len p).1.headroom ≡ pool.headroom)
          × ((odp_packet_reset pool len p).1.frame_len ≡ len)
          × (pool.tailroom ≤ (odp_packet_reset pool len p).1.tailroom)
          × ((odp_packet_reset pool len p).1.l2_offset ≡ offset_invalid))
unfolding odp_packet_reset packet_init
odp_packet_reset_lem pool len p v same word =
    let sum : add32 (add32 pool.headroom len) pool.tailroom ≡ pool.headroom + len + pool.tailroom =
      omega arith in
    elim (Bool-cases (ltb p.size (pool.headroom + len + pool.tailroom))) [
      | inl e ↦ inl (ground arith, rw (odp_packet_reset, sum, e) refl)
      | inr e ↦
          let le : pool.headroom + len + pool.tailroom ≤ p.size = ground arith in
          let full : pool.seg_size * p.segcount ≡ p.size =
            omega (arith, v.size_is, ap (λ (k : ℕ). p.segcount * k) same) in
          let t : (packet_init pool len p).tailroom ≡ p.size - (pool.headroom + len) =
            rw full (omega (arith, le, word, v.small)) in
          let f : (packet_init pool len p).frame_len ≡ len = omega arith in
          rw (odp_packet_reset, sum, e)
            (inr (
              refl,
              record {
                filled = omega (arith, t, f, v.size_is, le);
                size_is = v.size_is;
                small = v.small;
              },
              refl,
              f,
              omega (arith, t, le),
              refl,
            ))
    ]
