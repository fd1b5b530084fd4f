-- ===== src/Packet/Edit/Between.antt =====
-- odp_packet.c: copying between packets is byte by byte, however the two frames lie in segments.
use odp.Prelude.{
  ℕ, zero, suc, ◌+◌, ◌-◌, ◌≤◌, ◌<◌, ◌≡◌, ◌≢◌, refl, sym, ap, ap₂, subst, ◌∙◌, false, Option, none,
  some, ◌++◌, arith, ltb, min, length, add32,
}
use odp.Packet.{Packet, packet_map}
use odp.Packet.Room.{IsValid, byte_at}
use odp.Packet.Copy.{Memory, read, write, Copied, faulted, copied}
use odp.Packet.Copy.Segments.{packet_map-Run}
use odp.Packet.Copy.Bytes.{
  frame_bytes, store_bytes, read-frame_bytes, write-store_bytes, frame_bytes-append,
}
use odp.Packet.Copy.RoundTrip.{IsApart, store_bytes-else, frame_bytes-store_bytes, frame_bytes-ext}
use odp.Packet.Edit.{copy_between, copy_to_packet}

-- The packets share no byte.
abbrev pub AreApart : Packet → Packet → Type 0
AreApart p q = (j k : ℕ) → j < p.size → k < q.size → byte_at j p ≢ byte_at k q

-- What a copy of `n` bytes from place `j` of `p` to place `k` of `q` leaves.
pub record IsCopy (j k n : ℕ) (p q : Packet) (m m' : Memory) : Type 0 where
  pub target : frame_bytes k n q m' ≡ frame_bytes j n p m
  pub elsewhere : (x : ℕ) → ((i : ℕ) → i < n → x ≢ byte_at (k + i) q) → m' x ≡ m x

length-frame_bytes : (k n : ℕ) (p : Packet) (m : Memory) → length (frame_bytes k n p m) ≡ n
unfolding frame_bytes
length-frame_bytes k zero p m = refl
length-frame_bytes k (suc n) p m = ap suc (length-frame_bytes (k + 1) n p m)

copy_between-round :
    (fuel so do' n a la b lb : ℕ) (p q : Packet) (m : Memory)
    → packet_map so p ≡ some (a, la)
    → packet_map do' q ≡ some (b, lb)
    → let c = min (suc n) (min lb la) in
      copy_between (suc fuel) so do' (suc n) p q m
      ≡ copy_between fuel (add32 so c) (add32 do' c) (suc n - c) p q (write b (read a c m) m)
unfolding copy_between
copy_between-round fuel so do' n a la b lb p q m e f =
    ap₂
      (λ (x : Option (ℕ × ℕ)) (y : Option (ℕ × ℕ)). elim x as (λ _. Copied Memory) [
        | none ↦ faulted
        | some u ↦ elim y as (λ _. Copied Memory) [
          | none ↦ faulted
          | some w ↦
              copy_between fuel (add32 so (min (suc n) (min w.1 u.1)))
                (add32 do' (min (suc n) (min w.1 u.1))) (suc n - min (suc n) (min w.1 u.1)) p q
                (write w.0 (read u.0 (min (suc n) (min w.1 u.1)) m) m)
        ]
      ])
      e f

module _ (p q : Packet) (vp : IsValid p) (vq : IsValid q) (aq : IsApart q)
    (apart : AreApart p q) where
  -- The bytes of a run at one address and of a run at another.
  round_stores :
      (a b j k c : ℕ) (m : Memory)
      → ((i : ℕ) → i < c → byte_at (j + i) p ≡ a + i)
      → ((i : ℕ) → i < c → byte_at (k + i) q ≡ b + i)
      → write b (read a c m) m ≡ store_bytes k (frame_bytes j c p m) q m
  round_stores a b j k c m hp hq =
      ap (λ bs. write b bs m) (read-frame_bytes p a j c m hp)
      ∙ write-store_bytes q b k (frame_bytes j c p m) m
          (λ i l. hq i (omega (arith, l, length-frame_bytes j c p m)))

  -- A copy of the first bytes, and then of the rest.
  join_copies :
      (j k c n : ℕ) (m m' : Memory)
      → j + c + n ≤ p.size
      → k + c + n ≤ q.size
      → IsCopy (j + c) (k + c) n p q (store_bytes k (frame_bytes j c p m) q m) m'
      → IsCopy j k (c + n) p q m m'
  join_copies j k c n m m' lj lk rest =
      let bs = frame_bytes j c p m in
      let len = length-frame_bytes j c p m in
      let m1 = store_bytes k bs q m in
      record {
        target =
            frame_bytes-append q k c n m'
            ∙ ap₂ (λ xs ys. xs ++ ys)
                (frame_bytes-ext q k c m1 m' (λ i l. rest.elsewhere (byte_at (k + i) q) (λ x h e.
                    let same =
                      aq (k + i) (k + c + x) (omega (arith, lk, l)) (omega (arith, lk, h)) e in
                    absurd (omega (arith, same, l))))
                  ∙ ap (λ l. frame_bytes k l q m1) (sym len)
                  ∙ frame_bytes-store_bytes q k bs m aq (omega (arith, lk, len)))
                (rest.target
                  ∙ frame_bytes-ext p (j + c) n m m1 (λ i l.
                    store_bytes-else q k bs m (byte_at (j + c + i) p) (λ x h.
                      apart (j + c + i) (k + x) (omega (arith, lj, l))
                        (omega (arith, lk, h, len)))))
            ∙ sym (frame_bytes-append p j c n m);
        elsewhere = λ x h.
            rest.elsewhere x (λ i l e.
              let place : k + c + i ≡ k + (c + i) = omega arith in
              h (c + i) (omega (arith, l)) (e ∙ ap (λ y. byte_at y q) place))
            ∙ store_bytes-else q k bs m x (λ i l. h i (omega (arith, l, len)));
      }

  copy_between_lem :
      (fuel so do' n : ℕ) (m : Memory)
      → n ≤ fuel
      → so + n ≤ p.frame_len
      → do' + n ≤ q.frame_len
      → (m' : Memory) × (copy_between fuel so do' n p q m ≡ copied m')
        × IsCopy (p.headroom + so) (q.headroom + do') n p q m m'
  unfolding copy_between frame_bytes
  copy_between_lem fuel so do' zero m f ls ld =
      (m, refl, record { target = refl; elsewhere = λ x h. refl })
  copy_between_lem zero so do' (suc n) m f ls ld = absurd (omega (arith, f))
  copy_between_lem (suc fuel) so do' (suc n) m f ls ld =
      let rp = packet_map-Run so p vp (omega (arith, ls)) in
      let rq = packet_map-Run do' q vq (omega (arith, ld)) in
      let c = min (suc n) (min rq.seglen rp.seglen) in
      let j = p.headroom + so in
      let k = q.headroom + do' in
      let m1 = store_bytes k (frame_bytes j c p m) q m in
      let stored =
        round_stores rp.mapaddr rq.mapaddr j k c m (λ i l. rp.bytes i (omega (arith, l)))
          (λ i l. rq.bytes i (omega (arith, l))) in
      let next_s : add32 so c ≡ so + c = omega (arith, vp.filled, vp.size_is, vp.small, rp.fits) in
      let next_d : add32 do' c ≡ do' + c =
        omega (arith, vq.filled, vq.size_is, vq.small, rq.fits) in
      let (m', e, rest) =
        copy_between_lem fuel (so + c) (do' + c) (suc n - c) m1
          (omega (arith, f, rp.some_bytes, rq.some_bytes)) (omega (arith, ls))
          (omega (arith, ld)) in
      let pj : p.headroom + (so + c) ≡ j + c = omega arith in
      let pk : q.headroom + (do' + c) ≡ k + c = omega arith in
      let whole : c + (suc n - c) ≡ suc n = omega arith in
      let placed =
        subst (λ x. IsCopy x (k + c) (suc n - c) p q m1 m') pj
          (subst (λ y. IsCopy (p.headroom + (so + c)) y (suc n - c) p q m1 m') pk rest) in
      let joined =
        join_copies j k c (suc n - c) m m' (omega (arith, vp.filled, vp.size_is, ls))
          (omega (arith, vq.filled, vq.size_is, ld)) placed in
      (
        m',
        copy_between-round fuel so do' n rp.mapaddr rp.seglen rq.mapaddr rq.seglen p q m rp.mapped
              rq.mapped
            ∙ ap₂
                (λ x y.
                  copy_between fuel x y (suc n - c) p q (write rq.mapaddr (read rp.mapaddr c m) m))
                next_s next_d
            ∙ ap (λ x. copy_between fuel (so + c) (do' + c) (suc n - c) p q x) stored
            ∙ e,
        subst (λ x. IsCopy j k x p q m m') whole joined,
      )

  accepted :
      (so do' n : ℕ) (m : Memory)
      → so + n ≤ p.frame_len
      → do' + n ≤ q.frame_len
      → copy_to_packet so do' n p q m ≡ copy_between n so do' n p q m
  unfolding copy_to_packet
  accepted so do' n m ls ld =
      let sum_s : add32 so n ≡ so + n = omega (arith, vp.filled, vp.size_is, vp.small, ls) in
      let sum_d : add32 do' n ≡ do' + n = omega (arith, vq.filled, vq.size_is, vq.small, ld) in
      let fits_s : ltb p.frame_len (so + n) ≡ false = ground arith in
      let fits_d : ltb q.frame_len (do' + n) ≡ false = ground arith in
      rw (sum_s, sum_d, fits_s, fits_d) refl

  pub copy_to_packet_lem :
      (so do' n : ℕ) (m : Memory)
      → so + n ≤ p.frame_len
      → do' + n ≤ q.frame_len
      → (m' : Memory) × (copy_to_packet so do' n p q m ≡ copied m')
        × IsCopy (p.headroom + so) (q.headroom + do') n p q m m'
  copy_to_packet_lem so do' n m ls ld =
      let (m', e, c) = copy_between_lem n so do' n m (omega arith) ls ld in
      (m', accepted so do' n m ls ld ∙ e, c)
