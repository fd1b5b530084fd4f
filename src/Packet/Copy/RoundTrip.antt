-- ===== src/Packet/Copy/RoundTrip.antt =====
-- odp_packet.c: what is copied into a packet is read back, and nothing else of it changes.
use odp.Prelude.{
  ℕ, zero, suc, ◌+◌, ◌≤◌, ◌<◌, ◌≡◌, ◌≢◌, refl, sym, ap, ap₂, ◌∙◌, ◌⊎◌, inl, inr, List, [], ◌∷◌,
  arith, ltb, length, add32, u32_mod, update, update_self, update-ne, Bool-cases,
}
use odp.Packet.{Packet}
use odp.Packet.Room.{IsValid, byte_at}
use odp.Packet.Copy.{Memory, refused, copied, odp_packet_copydata_out, odp_packet_copydata_in}
use odp.Packet.Copy.Bytes.{
  frame_bytes, store_bytes, shift, copy_out-frame_bytes, copy_in-store_bytes,
}

-- No two bytes of the packet's memory have one address: its segments do not overlap.
abbrev pub IsApart : Packet → Type 0
IsApart p = (j k : ℕ) → j < p.size → k < p.size → byte_at j p ≡ byte_at k p → j ≡ k

-- A write elsewhere.
pub store_bytes-else :
    (p : Packet) (k : ℕ) (bs : List ℕ) (m : Memory) (x : ℕ)
    → ((i : ℕ) → i < length bs → x ≢ byte_at (k + i) p)
    → store_bytes k bs p m x ≡ m x
unfolding store_bytes
store_bytes-else p k [] m x h = refl
store_bytes-else p k (b ∷ bs) m x h =
    let e : k ≡ k + 0 = omega arith in
    store_bytes-else p (k + 1) bs (update m (byte_at k p) b) x
      (λ i l q. h (suc i) (omega arith) (q ∙ ap (λ y. byte_at y p) (shift k i)))
    ∙ update-ne m (byte_at k p) b x (λ q. h 0 (omega arith) (q ∙ ap (λ y. byte_at y p) e))

pub frame_bytes-store_bytes :
    (p : Packet) (k : ℕ) (bs : List ℕ) (m : Memory)
    → IsApart p
    → k + length bs ≤ p.size
    → frame_bytes k (length bs) p (store_bytes k bs p m) ≡ bs
unfolding frame_bytes store_bytes
frame_bytes-store_bytes p k [] m a l = refl
frame_bytes-store_bytes p k (b ∷ bs) m a l =
    let m' = update m (byte_at k p) b in
    let kept =
      store_bytes-else p (k + 1) bs m' (byte_at k p)
        (λ i h q. absurd (omega (arith, a k (k + 1 + i) (omega arith) (omega arith) q))) in
    ap₂ (λ x xs. x ∷ xs) (kept ∙ update_self m (byte_at k p) b)
      (frame_bytes-store_bytes p (k + 1) bs m' a (omega arith))

pub frame_bytes-ext :
    (p : Packet) (j n : ℕ) (m m' : Memory)
    → ((i : ℕ) → i < n → m' (byte_at (j + i) p) ≡ m (byte_at (j + i) p))
    → frame_bytes j n p m' ≡ frame_bytes j n p m
unfolding frame_bytes
frame_bytes-ext p j zero m m' h = refl
frame_bytes-ext p j (suc n) m m' h =
    let e : j + 0 ≡ j = omega arith in
    ap₂ (λ x xs. x ∷ xs)
      (ap (λ y. m' (byte_at y p)) (sym e) ∙ h 0 (omega arith) ∙ ap (λ y. m (byte_at y p)) e)
      (frame_bytes-ext p (j + 1) n m m' (λ i l.
        ap (λ y. m' (byte_at y p)) (shift j i)
        ∙ h (suc i) (omega arith)
        ∙ ap (λ y. m (byte_at y p)) (sym (shift j i))))

-- x
pub odp_packet_copydata_out_lem :
    (offset len : ℕ) (p : Packet) (m : Memory)
    → IsValid p
    → offset + len < u32_mod
    → ((p.frame_len < offset + len) × (odp_packet_copydata_out offset len p m ≡ refused))
      ⊎ ((offset + len ≤ p.frame_len)
          × (odp_packet_copydata_out offset len p m
              ≡ copied (frame_bytes (p.headroom + offset) len p m)))
unfolding odp_packet_copydata_out
odp_packet_copydata_out_lem offset len p m v w =
    let sum : add32 offset len ≡ offset + len = omega arith in
    elim (Bool-cases (ltb p.frame_len (offset + len))) [
      | inl e ↦ inl (ground arith, rw (sum, e) refl)
      | inr e ↦
          let l : offset + len ≤ p.frame_len = ground arith in
          inr (l, rw (sum, e) (copy_out-frame_bytes p v len offset len m (omega arith) l))
    ]

-- The same for a copy into the packet.
pub odp_packet_copydata_in_lem :
    (offset : ℕ) (src : List ℕ) (p : Packet) (m : Memory)
    → IsValid p
    → offset + length src < u32_mod
    → ((p.frame_len < offset + length src) × (odp_packet_copydata_in offset src p m ≡ refused))
      ⊎ ((offset + length src ≤ p.frame_len)
          × (odp_packet_copydata_in offset src p m
              ≡ copied (store_bytes (p.headroom + offset) src p m)))
unfolding odp_packet_copydata_in
odp_packet_copydata_in_lem offset src p m v w =
    let sum : add32 offset (length src) ≡ offset + length src = omega arith in
    elim (Bool-cases (ltb p.frame_len (offset + length src))) [
      | inl e ↦ inl (ground arith, rw (sum, e) refl)
      | inr e ↦
          let l : offset + length src ≤ p.frame_len = ground arith in
          inr (l, rw (sum, e) (copy_in-store_bytes p v (length src) offset src m (omega arith) l))
    ]

-- Inside the frame neither copy is refused.
copydata_out_inside :
    (offset len : ℕ) (p : Packet) (m : Memory)
    → IsValid p
    → offset + len ≤ p.frame_len
    → odp_packet_copydata_out offset len p m ≡ copied (frame_bytes (p.headroom + offset) len p m)
copydata_out_inside offset len p m v l =
    elim (odp_packet_copydata_out_lem offset len p m v
      (omega (arith, v.filled, v.size_is, v.small, l))) [
        | inl (g, _) ↦ absurd (omega (arith, g, l))
        | inr (_, e) ↦ e
      ]

copydata_in_inside :
    (offset : ℕ) (src : List ℕ) (p : Packet) (m : Memory)
    → IsValid p
    → offset + length src ≤ p.frame_len
    → odp_packet_copydata_in offset src p m ≡ copied (store_bytes (p.headroom + offset) src p m)
copydata_in_inside offset src p m v l =
    elim (odp_packet_copydata_in_lem offset src p m v
      (omega (arith, v.filled, v.size_is, v.small, l))) [
        | inl (g, _) ↦ absurd (omega (arith, g, l))
        | inr (_, e) ↦ e
      ]

-- On a valid packet whose segments do not overlap, a copy into the frame succeeds, the same
-- bytes are then read back from there, and any part of the frame before or after them reads as
-- before, wherever the segments end.
pub copydata_out-in :
    (offset : ℕ) (src : List ℕ) (j n : ℕ) (p : Packet) (m : Memory)
    → IsValid p
    → IsApart p
    → offset + length src ≤ p.frame_len
    → j + n ≤ p.frame_len
    → (j + n ≤ offset) ⊎ (offset + length src ≤ j)
    → (m' : Memory) × (odp_packet_copydata_in offset src p m ≡ copied m')
      × (odp_packet_copydata_out offset (length src) p m' ≡ copied src)
      × (odp_packet_copydata_out j n p m' ≡ odp_packet_copydata_out j n p m)
copydata_out-in offset src j n p m v a l lj beside =
    let k = p.headroom + offset in
    let m' = store_bytes k src p m in
    (
      m',
      copydata_in_inside offset src p m v l,
      copydata_out_inside offset (length src) p m' v l
          ∙ ap copied (frame_bytes-store_bytes p k src m a (omega (arith, v.filled, v.size_is, l))),
      copydata_out_inside j n p m' v lj
          ∙ ap copied (
              frame_bytes-ext p (p.headroom + j) n m m' (λ i h.
                store_bytes-else p k src m (byte_at (p.headroom + j + i) p) (λ x g q.
                  let same =
                    a (p.headroom + j + i) (k + x) (omega (arith, v.filled, v.size_is, lj, h))
                      (omega (arith, v.filled, v.size_is, l, g)) q in
                  ground (arith, beside, same, h, g))))
          ∙ sym (copydata_out_inside j n p m v lj),
    )
