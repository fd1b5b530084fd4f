-- ===== src/Packet/Edit/Insert.antt =====
-- odp_packet.c: inserting bytes into a packet and removing some keeps all others in their order.
use odp.Prelude.{ℕ, ◌+◌, ◌-◌, ◌≤◌, ◌≡◌, refl, sym, ap, ◌∙◌, false, some, arith, ltb, add32, sub32}
use odp.Packet.{Packet}
use odp.Packet.Room.{IsValid, byte_at}
use odp.Packet.Copy.{Memory, copied}
use odp.Packet.Copy.Bytes.{frame_bytes}
use odp.Packet.Copy.RoundTrip.{IsApart, frame_bytes-ext}
use odp.Packet.Edit.{
  copy_to_packet, copy_offsets, finish, and_copy, edited, odp_packet_add_data, odp_packet_rem_data,
}
use odp.Packet.Edit.Between.{AreApart, copy_to_packet_lem}

module _ (p q : Packet) (vp : IsValid p) (vq : IsValid q) (aq : IsApart q)
    (apart : AreApart p q) where
  -- Two copies from one packet to places of another that do not overlap.
  two_copies :
      (so do' n k : ℕ) (m : Memory)
      → k ≤ do'
      → k ≤ p.frame_len
      → k ≤ q.frame_len
      → so + n ≤ p.frame_len
      → do' + n ≤ q.frame_len
      → (m' : Memory) × (and_copy (copy_to_packet 0 0 k p q m) (copy_to_packet so do' n p q)
          ≡ copied m')
        × (frame_bytes q.headroom k q m' ≡ frame_bytes p.headroom k p m)
        × (frame_bytes (q.headroom + do') n q m' ≡ frame_bytes (p.headroom + so) n p m)
  two_copies so do' n k m below lp lq ls ld =
      let (m1, e1, c1) =
        copy_to_packet_lem p q vp vq aq apart 0 0 k m (omega arith) (omega arith) in
      let (m2, e2, c2) = copy_to_packet_lem p q vp vq aq apart so do' n m1 ls ld in
      let hp : p.headroom + 0 ≡ p.headroom = omega arith in
      let hq : q.headroom + 0 ≡ q.headroom = omega arith in
      let kept = frame_bytes-ext q q.headroom k m1 m2 (λ i l.
        c2.elsewhere (byte_at (q.headroom + i) q) (λ x h e.
          let same =
            aq (q.headroom + i) (q.headroom + do' + x) (omega (arith, vq.filled, vq.size_is, lq, l))
              (omega (arith, vq.filled, vq.size_is, ld, h)) e in
          absurd (omega (arith, same, below, l)))) in
      let source = frame_bytes-ext p (p.headroom + so) n m m1 (λ i l.
        c1.elsewhere (byte_at (p.headroom + so + i) p) (λ x h.
          apart (p.headroom + so + i) (q.headroom + 0 + x)
            (omega (arith, vp.filled, vp.size_is, ls, l))
            (omega (arith, vq.filled, vq.size_is, lq, h)))) in
      (
        m2,
        ap (λ r. and_copy r (copy_to_packet so do' n p q)) e1 ∙ e2,
        kept
            ∙ ap (λ x. frame_bytes x k q m1) (sym hq)
            ∙ c1.target
            ∙ ap (λ x. frame_bytes x k p m) hp,
        c2.target ∙ source,
      )

-- The copies that an insertion, or a removal, within the frame makes.
add_accepted :
    (offset len : ℕ) (p new : Packet) (m : Memory)
    → IsValid p
    → IsValid new
    → offset ≤ p.frame_len
    → new.frame_len ≡ p.frame_len + len
    → odp_packet_add_data offset len (some new) p m
      ≡ finish p new (
          and_copy
            (copy_to_packet 0 0 offset p new m)
            (copy_to_packet offset (offset + len) (p.frame_len - offset) p new))
unfolding odp_packet_add_data
add_accepted offset len p new m vp vn l size =
    let inside : ltb p.frame_len offset ≡ false = ground arith in
    let start : add32 offset len ≡ offset + len =
      omega (arith, vn.filled, vn.size_is, vn.small, l, size) in
    let count : sub32 p.frame_len offset ≡ p.frame_len - offset =
      omega (arith, vp.filled, vp.size_is, vp.small, l) in
    rw (inside, start, count) refl

rem_accepted :
    (offset len : ℕ) (p new : Packet) (m : Memory)
    → IsValid p
    → offset + len ≤ p.frame_len
    → odp_packet_rem_data offset len (some new) p m
      ≡ finish p new (
          and_copy
            (copy_to_packet 0 0 offset p new m)
            (copy_to_packet (offset + len) offset (p.frame_len - offset - len) p new))
unfolding odp_packet_rem_data
rem_accepted offset len p new m vp l =
    let start : add32 offset len ≡ offset + len =
      omega (arith, vp.filled, vp.size_is, vp.small, l) in
    let inside : ltb p.frame_len offset ≡ false = ground arith in
    let fits : ltb p.frame_len (offset + len) ≡ false = ground arith in
    let count : sub32 (sub32 p.frame_len offset) len ≡ p.frame_len - offset - len =
      omega (arith, vp.filled, vp.size_is, vp.small, l) in
    rw (start, inside, fits, count) refl

-- On a valid packet, with an offset within the frame and a new valid packet that is len longer
-- and shares no byte with it, odp_packet_add_data returns the new packet with the old offsets
-- and frees the old one; the bytes before the offset are at the start of the new frame, and
-- those from the offset on are at its end, after a gap of len.
pub odp_packet_add_data_lem :
    (offset len : ℕ) (p new : Packet) (m : Memory)
    → IsValid p
    → IsValid new
    → IsApart new
    → AreApart p new
    → offset ≤ p.frame_len
    → new.frame_len ≡ p.frame_len + len
    → let rest = p.frame_len - offset in
      (m' : Memory) × (odp_packet_add_data offset len (some new) p m
        ≡ edited (copy_offsets p new) p m')
      × (frame_bytes new.headroom offset new m' ≡ frame_bytes p.headroom offset p m)
      × (frame_bytes (new.headroom + (offset + len)) rest new m'
          ≡ frame_bytes (p.headroom + offset) rest p m)
odp_packet_add_data_lem offset len p new m vp vn an apart l size =
    let (m', e, a, b) =
      two_copies p new vp vn an apart offset (offset + len) (p.frame_len - offset) offset m
        (omega arith) l (omega arith) (omega arith) (omega arith) in
    (m', add_accepted offset len p new m vp vn l size ∙ ap (finish p new) e, a, b)

-- On a valid packet, with a part of the frame to remove and a new valid packet that is len
-- shorter and shares no byte with it, odp_packet_rem_data returns the new packet with the old
-- offsets and frees the old one; the new frame is the bytes before the part and then those after
-- it.
pub odp_packet_rem_data_lem :
    (offset len : ℕ) (p new : Packet) (m : Memory)
    → IsValid p
    → IsValid new
    → IsApart new
    → AreApart p new
    → offset + len ≤ p.frame_len
    → new.frame_len + len ≡ p.frame_len
    → let rest = p.frame_len - offset - len in
      (m' : Memory) × (odp_packet_rem_data offset len (some new) p m
        ≡ edited (copy_offsets p new) p m')
      × (frame_bytes new.headroom offset new m' ≡ frame_bytes p.headroom offset p m)
      × (frame_bytes (new.headroom + offset) rest new m'
          ≡ frame_bytes (p.headroom + (offset + len)) rest p m)
odp_packet_rem_data_lem offset len p new m vp vn an apart l size =
    let (m', e, a, b) =
      two_copies p new vp vn an apart (offset + len) offset (p.frame_len - offset - len) offset m
        (omega arith) (omega arith) (omega arith) (omega arith) (omega arith) in
    (m', rem_accepted offset len p new m vp l ∙ ap (finish p new) e, a, b)
