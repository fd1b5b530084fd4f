-- ===== src/Packet/Copy/Segments.antt =====
-- odp_packet_internal.h: the bytes that `packet_map` gives are the next ones of the frame.
use odp.Prelude.{
  ℕ, zero, suc, ◌+◌, ◌-◌, ◌*◌, ◌/◌, ◌%◌, ◌≤◌, ◌<◌, ◌≡◌, refl, ap, ◌∙◌, true, false, some, arith,
  ltb, leb, if◌then◌else◌, add32, sub32, dec_lt,
}
use native.Mathlib.Nat.{
  div-add-mod, add-mul-div_left, add-mul-mod_self_left, mod-eq_of_lt, mod-lt, mod-le, div-eq_of_lt,
}
use odp.Packet.{Packet, packet_map, buffer_map}
use odp.Packet.Room.{IsValid, byte_at}

-- Within a segment, the segment stays and the place in it moves.
same_segment : (o i s : ℕ) → o % s + i < s → ((o + i) / s ≡ o / s) × ((o + i) % s ≡ o % s + i)
same_segment o i s l =
    let split : o + i ≡ o % s + i + s * (o / s) = omega (arith, div-add-mod o s) in
    rw split (
      add-mul-div_left (o % s + i) (o / s) (omega arith)
          ∙ ap (λ q. q + o / s) (div-eq_of_lt l)
          ∙ omega arith,
      add-mul-mod_self_left (o % s + i) s (o / s) ∙ mod-eq_of_lt l,
    )

-- The address of a byte by division alone.
by_division :
    (k limit : ℕ) (p : Packet)
    → 0 < p.segsize
    → (buffer_map k limit p).0 ≡ p.addr (k / p.segsize) + k % p.segsize
by_division k limit p s = elim (dec_lt k p.segsize) [
  | yes l ↦
      let first : ltb k p.segsize ≡ true = ground arith in
      rw (first, div-eq_of_lt l, mod-eq_of_lt l) refl
  | no g ↦ let later : ltb k p.segsize ≡ false = ground arith in rw later refl
]

segsize_pos : (p : Packet) (o : ℕ) → IsValid p → o < p.frame_len → 0 < p.segsize
segsize_pos p o v l = go p.segsize refl
  where
    go : (s : ℕ) → p.segsize ≡ s → 0 < p.segsize
    go zero e =
        let no_room : p.headroom + p.frame_len + p.tailroom ≡ p.segcount * 0 = rw e at v.filled in
        absurd (omega (arith, no_room, l))
    go (suc s) e = omega (arith, e)

-- What `packet_map` gives inside the frame: an address, and how many bytes follow there.
pub record Run (o : ℕ) (p : Packet) : Type 0 where
  pub mapaddr : ℕ
  pub seglen : ℕ
  pub mapped : packet_map o p ≡ some (mapaddr, seglen)
  pub some_bytes : 1 ≤ seglen
  pub fits : o + seglen ≤ p.frame_len
  pub bytes : (i : ℕ) → i < seglen → byte_at (p.headroom + o + i) p ≡ mapaddr + i

-- The length by division alone.
length_is :
    (o : ℕ) (p : Packet)
    → IsValid p
    → o < p.frame_len
    → let k = p.headroom + o in
      (buffer_map k (p.headroom + p.frame_len) p).1 ≡ (
        if leb (k % p.segsize + (p.frame_len - o)) p.segsize
        then p.frame_len - o
        else p.segsize - k % p.segsize)
length_is o p v l =
    let k = p.headroom + o in
    let rest : sub32 (p.headroom + p.frame_len) k ≡ p.frame_len - o =
      omega (arith, v.filled, v.size_is, v.small, l) in
    let sum : add32 (k % p.segsize) (p.frame_len - o) ≡ k % p.segsize + (p.frame_len - o) =
      omega (arith, v.filled, v.size_is, v.small, l, mod-le k p.segsize) in
    rw (place k, rest, sum) refl
  where
    place : (k : ℕ) → (if ltb k p.segsize then k else k % p.segsize) ≡ k % p.segsize
    place k = elim (dec_lt k p.segsize) [
      | yes h ↦ let first : ltb k p.segsize ≡ true = ground arith in rw (first, mod-eq_of_lt h) refl
      | no g ↦ let later : ltb k p.segsize ≡ false = ground arith in rw later refl
    ]

mapped_is :
    (o : ℕ) (p : Packet)
    → IsValid p
    → o < p.frame_len
    → packet_map o p ≡ some (buffer_map (p.headroom + o) (p.headroom + p.frame_len) p)
mapped_is o p v l =
    let inside : ltb p.frame_len o ≡ false = ground arith in
    let first : add32 p.headroom o ≡ p.headroom + o = omega (arith, v.filled, v.size_is, v.small) in
    let last : add32 p.headroom p.frame_len ≡ p.headroom + p.frame_len =
      omega (arith, v.filled, v.size_is, v.small) in
    rw (inside, first, last) refl

pub packet_map-Run : (o : ℕ) (p : Packet) → IsValid p → o < p.frame_len → Run o p
packet_map-Run o p v l =
    let s = segsize_pos p o v l in
    let k = p.headroom + o in
    let limit = p.headroom + p.frame_len in
    let len = length_is o p v l in
    let r = mod-lt k s in
    record {
      mapaddr = (buffer_map k limit p).0;
      seglen = (buffer_map k limit p).1;
      mapped = mapped_is o p v l;
      some_bytes = rw len (ground (arith, r));
      fits = rw len (ground (arith, r));
      bytes = λ i h.
          let h' = rw len at h in
          let inside : k % p.segsize + i < p.segsize = ground (arith, r, h') in
          let (d, m) = same_segment k i p.segsize inside in
          by_division (k + i) (k + i) p s ∙ omega (arith, ap p.addr d, m, by_division k limit p s);
    }
