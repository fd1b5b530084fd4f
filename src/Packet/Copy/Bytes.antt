-- ===== src/Packet/Copy/Bytes.antt =====
-- odp_packet.c: copying out of a packet and into it is reading and writing its frame byte by byte,
-- however the frame lies in the segments.
use odp.Prelude.{
  ℕ, zero, suc, ◌+◌, ◌-◌, ◌≤◌, ◌<◌, ◌≡◌, refl, sym, ap, ap₂, ◌∙◌, none, some, List, [], ◌∷◌, ◌++◌,
  arith, min, length, take, drop, length-take, length-drop, add32, update,
}
use odp.Packet.{Packet, packet_map}
use odp.Packet.Room.{IsValid, byte_at}
use odp.Packet.Copy.{Memory, read, write, Copied, faulted, copied, prepend, copy_out, copy_in}
use odp.Packet.Copy.Segments.{packet_map-Run}

-- `n` bytes of the packet from place `k`, and a write of bytes there.
unfoldable pub frame_bytes : ℕ → ℕ → Packet → Memory → List ℕ
frame_bytes k zero p m = []
frame_bytes k (suc n) p m = m (byte_at k p) ∷ frame_bytes (k + 1) n p m

unfoldable pub store_bytes : ℕ → List ℕ → Packet → Memory → Memory
store_bytes k [] p m = m
store_bytes k (b ∷ bs) p m = store_bytes (k + 1) bs p (update m (byte_at k p) b)

pub shift : (k i : ℕ) → k + 1 + i ≡ k + suc i
shift k i = omega arith

module _ (p : Packet) where
  abbrev at : ℕ → ℕ
  at k = byte_at k p

  -- Where a run of bytes starts, and goes on.
  run_first : (a k n : ℕ) → ((i : ℕ) → i < suc n → at (k + i) ≡ a + i) → at k ≡ a
  run_first a k n h =
      let here : k + 0 ≡ k = omega arith in
      let there : a + 0 ≡ a = omega arith in ap at (sym here) ∙ h 0 (omega arith) ∙ there

  run_next :
      (a k n : ℕ)
      → ((i : ℕ) → i < suc n → at (k + i) ≡ a + i)
      → (i : ℕ) → i < n
      → at (k + 1 + i) ≡ a + 1 + i
  run_next a k n h i l = ap at (shift k i) ∙ h (suc i) (omega arith) ∙ sym (shift a i)

  -- The bytes at an address are those of the packet that are there.
  pub read-frame_bytes :
      (a k n : ℕ) (m : Memory)
      → ((i : ℕ) → i < n → at (k + i) ≡ a + i)
      → read a n m ≡ frame_bytes k n p m
  unfolding read frame_bytes
  read-frame_bytes a k zero m h = refl
  read-frame_bytes a k (suc n) m h =
      ap₂ (λ x xs. m x ∷ xs) (sym (run_first a k n h))
        (read-frame_bytes (a + 1) (k + 1) n m (run_next a k n h))

  pub write-store_bytes :
      (a k : ℕ) (bs : List ℕ) (m : Memory)
      → ((i : ℕ) → i < length bs → at (k + i) ≡ a + i)
      → write a bs m ≡ store_bytes k bs p m
  unfolding write store_bytes
  write-store_bytes a k [] m h = refl
  write-store_bytes a k (b ∷ bs) m h =
      write-store_bytes (a + 1) (k + 1) bs (update m a b) (run_next a k (length bs) h)
      ∙ ap (λ x. store_bytes (k + 1) bs p (update m x b)) (sym (run_first a k (length bs) h))

  pub frame_bytes-append :
      (k c n : ℕ) (m : Memory)
      → frame_bytes k (c + n) p m ≡ frame_bytes k c p m ++ frame_bytes (k + c) n p m
  unfolding frame_bytes
  frame_bytes-append k zero n m =
      let e : 0 + n ≡ n = omega arith in
      let f : k ≡ k + 0 = omega arith in
      ap (λ x. frame_bytes k x p m) e ∙ ap (λ x. frame_bytes x n p m) f
  frame_bytes-append k (suc c) n m =
      let e : suc c + n ≡ suc (c + n) = omega arith in
      ap (λ x. frame_bytes k x p m) e
      ∙ ap (λ xs. m (at k) ∷ xs)
          (frame_bytes-append (k + 1) c n m
            ∙ ap (λ x. frame_bytes (k + 1) c p m ++ frame_bytes x n p m) (shift k c))

  store_bytes-append :
      (k c : ℕ) (bs : List ℕ) (m : Memory)
      → c ≤ length bs
      → store_bytes k bs p m ≡ store_bytes (k + c) (drop c bs) p (store_bytes k (take c bs) p m)
  unfolding store_bytes
  store_bytes-append k zero bs m l =
      let e : k ≡ k + 0 = omega arith in ap (λ x. store_bytes x bs p m) e
  store_bytes-append k (suc c) [] m l = absurd (omega arith)
  store_bytes-append k (suc c) (b ∷ bs) m l =
      store_bytes-append (k + 1) c bs (update m (at k) b) (omega arith)
      ∙ ap
          (λ x. store_bytes x (drop c bs) p (store_bytes (k + 1) (take c bs) p (update m (at k) b)))
          (shift k c)

  -- One round of each loop.
  copy_out-round :
      (fuel o n a l : ℕ) (m : Memory)
      → packet_map o p ≡ some (a, l)
      → copy_out (suc fuel) o (suc n) p m
        ≡ prepend
            (read a (min (suc n) l) m)
            (copy_out fuel (add32 o (min (suc n) l)) (suc n - min (suc n) l) p m)
  unfolding copy_out
  copy_out-round fuel o n a l m e =
      ap
        (λ q. elim q as (λ x. Copied (List ℕ)) [
          | none ↦ faulted
          | some x ↦
              prepend (read x.0 (min (suc n) x.1) m)
                (copy_out fuel (add32 o (min (suc n) x.1)) (suc n - min (suc n) x.1) p m)
        ])
        e

  copy_in-round :
      (fuel o a l b : ℕ) (bs : List ℕ) (m : Memory)
      → packet_map o p ≡ some (a, l)
      → let c = min (length (b ∷ bs)) l in
        copy_in (suc fuel) o (b ∷ bs) p m
        ≡ copy_in fuel (add32 o c) (drop c (b ∷ bs)) p (write a (take c (b ∷ bs)) m)
  unfolding copy_in
  copy_in-round fuel o a l b bs m e =
      ap
        (λ q. elim q as (λ x. Copied Memory) [
          | none ↦ faulted
          | some x ↦
              copy_in fuel (add32 o (min (length (b ∷ bs)) x.1))
                (drop (min (length (b ∷ bs)) x.1) (b ∷ bs)) p
                (write x.0 (take (min (length (b ∷ bs)) x.1) (b ∷ bs)) m)
        ])
        e

  module _ (v : IsValid p) where
    pub copy_out-frame_bytes :
        (fuel o n : ℕ) (m : Memory)
        → n ≤ fuel
        → o + n ≤ p.frame_len
        → copy_out fuel o n p m ≡ copied (frame_bytes (p.headroom + o) n p m)
    unfolding copy_out frame_bytes
    copy_out-frame_bytes fuel o zero m f l = refl
    copy_out-frame_bytes zero o (suc n) m f l = absurd (omega arith)
    copy_out-frame_bytes (suc fuel) o (suc n) m f l =
        let r = packet_map-Run o p v (omega arith) in
        let c = min (suc n) r.seglen in
        let k = p.headroom + o in
        let next : add32 o c ≡ o + c = omega (arith, v.filled, v.size_is, v.small, r.fits) in
        let ih =
          copy_out-frame_bytes fuel (o + c) (suc n - c) m (omega (arith, r.some_bytes))
            (omega (arith, r.some_bytes)) in
        let whole : c + (suc n - c) ≡ suc n = omega arith in
        let place : p.headroom + (o + c) ≡ k + c = omega arith in
        let here = read-frame_bytes r.mapaddr k c m (λ i h. r.bytes i (omega arith)) in
        copy_out-round fuel o n r.mapaddr r.seglen m r.mapped
        ∙ ap (λ x. prepend (read r.mapaddr c m) (copy_out fuel x (suc n - c) p m)) next
        ∙ ap (λ x. prepend (read r.mapaddr c m) x) ih
        ∙ ap copied (
            ap₂ (λ x y. x ++ frame_bytes y (suc n - c) p m) here place
            ∙ sym (frame_bytes-append k c (suc n - c) m)
            ∙ ap (λ x. frame_bytes k x p m) whole)

    pub copy_in-store_bytes :
        (fuel o : ℕ) (src : List ℕ) (m : Memory)
        → length src ≤ fuel
        → o + length src ≤ p.frame_len
        → copy_in fuel o src p m ≡ copied (store_bytes (p.headroom + o) src p m)
    unfolding copy_in store_bytes
    copy_in-store_bytes fuel o [] m f l = refl
    copy_in-store_bytes zero o (b ∷ bs) m f l = absurd (omega arith)
    copy_in-store_bytes (suc fuel) o (b ∷ bs) m f l =
        let r = packet_map-Run o p v (omega arith) in
        let src = b ∷ bs in
        let c = min (length src) r.seglen in
        let k = p.headroom + o in
        let next : add32 o c ≡ o + c = omega (arith, v.filled, v.size_is, v.small, r.fits) in
        let less = length-drop c src in
        let m' = store_bytes k (take c src) p m in
        let ih =
          copy_in-store_bytes fuel (o + c) (drop c src) m' (omega (arith, less, r.some_bytes))
            (omega (arith, less)) in
        let place : p.headroom + (o + c) ≡ k + c = omega arith in
        let here =
          write-store_bytes r.mapaddr k (take c src) m
            (λ i h. r.bytes i (omega (arith, h, length-take c src))) in
        copy_in-round fuel o r.mapaddr r.seglen b bs m r.mapped
        ∙ ap₂ (λ x y. copy_in fuel x (drop c src) p y) next here
        ∙ ih
        ∙ ap copied (
            ap (λ x. store_bytes x (drop c src) p m') place
            ∙ sym (store_bytes-append k c src m (omega arith)))
