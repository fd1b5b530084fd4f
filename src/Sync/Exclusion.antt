-- ===== src/Sync/Exclusion.antt =====
-- odp_ticketlock.c: mutual exclusion and progress.
use odp.Prelude.{
  ℕ, ◌+◌, ◌%◌, ◌<◌, ◌≤◌, ◌≡◌, ◌≢◌, refl, sym, ap, subst, ◌∙◌, ◌⊎◌, inl, inr, true, false, arith,
  List, [], ◌∷◌, ◌++◌, ℕ_discrete, u32_mod, add32, update, update_self, update-ne, length,
  length-append, All, NotIn, Distinct, Distinct-append, Apart-single, ==_iff, eq_self,
}
use odp.Prelude.Pigeon.{length_le_of_Distinct}
use odp.Sync.{
  Ticketlock, Phase, outside, waiting, loaded, free_seen, inside, releasing, System, moved, Step,
  take, enter, load_next, load_cur, busy, win, lose, load_turn, release, start, Reach, begin, next,
  IsTimelyStep, IsTimely, ticketlock_is_locked, take_ticket, is_turn, swap_ticket, store_turn,
}
use odp.Sync.Ticket.{
  Line, Placed, Queued, Trial, is_inside, is_first, is_away, Queued-update, Placed-snoc, away-NotIn,
  inside-first, turn-first, Trial-mono,
}

few : (count : ℕ) (s : System) → count < u32_mod → (v : Line count s) → length v.line < u32_mod
few count s bound v = omega (arith, length_le_of_Distinct count v.line v.distinct v.threads)

small : (count : ℕ) (s : System) → (v : Line count s) → s.lock.cur_ticket < u32_mod
small count s v = omega (arith, v.cur)

Placed-update :
    (ph : ℕ → Phase) (x : ℕ) (p : Phase) (t : ℕ) (xs : List ℕ)
    → NotIn x xs
    → Placed ph t xs
    → Placed (update ph x p) t xs
Placed-update ph x p t [] n q = tt
Placed-update ph x p t (y ∷ xs) n q =
    let same = update-ne ph x p y (λ e. n.0 (sym e)) in
    (ap (is_first t) same ∙ q.0, Queued-update ph x p (add32 t 1) xs n.1 q.1)

-- The head of a list, or `d`.
abbrev first : ℕ → List ℕ → ℕ
first d [] = d
first d (x ∷ xs) = x

Placed-Queued : (ph : ℕ → Phase) (t : ℕ) (xs : List ℕ) → Queued ph t xs → Placed ph t xs
Placed-Queued ph t [] q = tt
Placed-Queued ph t (x ∷ xs) q = (ap (is_first t) q.0 ∙ eq_self t, q.1)

All-snoc :
    (count x : ℕ) (xs : List ℕ)
    → All (λ y. y < count) xs
    → x < count
    → All (λ y. y < count) (xs ++ x ∷ [])
All-snoc count x [] a l = (l, tt)
All-snoc count x (y ∷ xs) a l = (a.0, All-snoc count x xs a.1 l)

NotIn-snoc : (z x : ℕ) (xs : List ℕ) → NotIn z (xs ++ x ∷ []) → (z ≢ x) × NotIn z xs
NotIn-snoc z x [] n = (n.0, tt)
NotIn-snoc z x (y ∷ xs) n = let (a, b) = NotIn-snoc z x xs n.1 in (a, (n.0, b))

Trial-update :
    (ph : ℕ → Phase) (x : ℕ) (p : Phase) (k t k' t' : ℕ)
    → k ≤ k'
    → t ≤ t'
    → ((z : ℕ) → Trial k t (ph z))
    → Trial k' t' p
    → (z : ℕ) → Trial k' t' (update ph x p z)
Trial-update ph x p k t k' t' a b h new z = elim (ℕ_discrete z x) [
  | yes e ↦
      subst (λ i. Trial k' t' (update ph x p i)) (sym e)
        (subst (λ q. Trial k' t' q) (sym (update_self ph x p)) new)
  | no n ↦
      subst (λ q. Trial k' t' q) (sym (update-ne ph x p z n))
        (Trial-mono k t k' t' (ph z) a b (h z))
]

-- A step of a thread that is away and stays so.
away-Line :
    (count : ℕ) (s : System) (x : ℕ) (p : Phase)
    → is_away (s.phases x) ≡ true
    → is_away p ≡ true
    → Trial s.tickets s.turns p
    → Line count s
    → Line count (moved s x p)
away-Line count s x p out away known v =
    let n = away-NotIn s.phases x s.lock.cur_ticket v.line (small count s v) v.placed out in
    record {
      line = v.line;
      distinct = v.distinct;
      threads = v.threads;
      cur = v.cur;
      ticket = v.ticket;
      total = v.total;
      placed = Placed-update s.phases x p s.lock.cur_ticket v.line n v.placed;
      absent = λ z m. elim (ℕ_discrete z x) [
        | yes e ↦
            ap (λ i. is_away (update s.phases x p i)) e
            ∙ ap is_away (update_self s.phases x p)
            ∙ away
        | no ne ↦ ap is_away (update-ne s.phases x p z ne) ∙ v.absent z m
      ];
      trial =
          Trial-update s.phases x p s.tickets s.turns s.tickets s.turns (omega arith) (omega arith)
            v.trial known;
    }

-- A step of the first of the line, which stays there.
first-Line :
    (count : ℕ) (s : System) (x : ℕ) (p : Phase) (ys : List ℕ)
    → (v : Line count s) → v.line ≡ x ∷ ys
    → is_first s.lock.cur_ticket p ≡ true
    → Trial s.tickets s.turns p
    → Line count (moved s x p)
first-Line count s x p ys v shape at known =
    let d = subst Distinct shape v.distinct in
    let q = subst (Placed s.phases s.lock.cur_ticket) shape v.placed in
    record {
      line = x ∷ ys;
      distinct = d;
      threads = subst (All (λ y. y < count)) shape v.threads;
      cur = v.cur;
      ticket = v.ticket;
      total = v.total ∙ ap (λ k. s.turns + length k) shape;
      placed = (
        ap (is_first s.lock.cur_ticket) (update_self s.phases x p) ∙ at,
        Queued-update s.phases x p (add32 s.lock.cur_ticket 1) ys d.0 q.1,
      );
      absent = λ z m.
          ap is_away (update-ne s.phases x p z m.0) ∙ v.absent z (subst (NotIn z) (sym shape) m);
      trial =
          Trial-update s.phases x p s.tickets s.turns s.tickets s.turns (omega arith) (omega arith)
            v.trial known;
    }

-- A thread that is away takes a ticket.
ticket-Line :
    (count : ℕ) (s : System) (x : ℕ) (p : Phase) (l' : Ticketlock)
    → count < u32_mod
    → x < count
    → is_away (s.phases x) ≡ true
    → (v : Line count s) → l'.cur_ticket ≡ s.lock.cur_ticket
    → l'.next_ticket ≡ add32 s.lock.next_ticket 1
    → Trial (s.tickets + 1) s.turns p
    → Placed (update s.phases x p) s.lock.cur_ticket (v.line ++ x ∷ [])
    → Line count (record (moved s x p) { lock = l'; tickets = s.tickets + 1 })
ticket-Line count s x p l' bound l out v same up known at =
    let n = away-NotIn s.phases x s.lock.cur_ticket v.line (small count s v) v.placed out in
    record {
      line = v.line ++ x ∷ [];
      distinct = Distinct-append v.line (x ∷ []) v.distinct (tt, tt) (Apart-single v.line x n);
      threads = All-snoc count x v.line v.threads l;
      cur = same ∙ v.cur;
      ticket = omega (arith, up, v.ticket);
      total = omega (arith, v.total, length-append v.line (x ∷ []));
      placed = subst (λ c. Placed (update s.phases x p) c (v.line ++ x ∷ [])) (sym same) at;
      absent = λ z m.
          let (ne, rest) = NotIn-snoc z x v.line m in
          ap is_away (update-ne s.phases x p z ne) ∙ v.absent z rest;
      trial =
          Trial-update s.phases x p s.tickets s.turns (s.tickets + 1) s.turns (omega arith)
            (omega arith) v.trial known;
    }

take-Line :
    (count : ℕ) (s : System) (x : ℕ)
    → count < u32_mod
    → x < count
    → s.phases x ≡ outside
    → Line count s
    → Line count (record (moved s x (waiting (take_ticket s.lock).0)) {
      lock = (take_ticket s.lock).1;
      tickets = s.tickets + 1;
    })
take-Line count s x bound l e v =
    let w = waiting s.lock.next_ticket in
    let n =
      away-NotIn s.phases x s.lock.cur_ticket v.line (small count s v) v.placed (ap is_away e) in
    let num : s.lock.next_ticket ≡ (s.lock.cur_ticket + length v.line) % u32_mod =
      omega (arith, v.ticket, v.cur, v.total) in
    ticket-Line count s x w (take_ticket s.lock).1 bound l (ap is_away e) v refl refl tt (
      Placed-snoc (update s.phases x w) x s.lock.cur_ticket v.line
        (Placed-update s.phases x w s.lock.cur_ticket v.line n v.placed)
        (update_self s.phases x w ∙ ap waiting num) (small count s v))

no_line : (xs : List ℕ) → length xs ≡ 0 → xs ≡ []
no_line [] e = refl
no_line (x ∷ xs) e = absurd (omega (arith, e))

-- The ticket of a `trylock` that is in time is the next one only if the line is empty.
win-Line :
    (count : ℕ) (s : System) (x n k : ℕ)
    → count < u32_mod
    → x < count
    → s.phases x ≡ free_seen n k
    → (swap_ticket n s.lock).0 ≡ true
    → s.tickets < k + u32_mod
    → Line count s
    → Line count
        (record (moved s x inside) { lock = (swap_ticket n s.lock).1; tickets = s.tickets + 1 })
win-Line count s x n k bound l e won timely v =
    let same : s.lock.next_ticket ≡ n = ground (arith, won) in
    let known : (n ≡ k % u32_mod) × (k ≤ s.turns) =
      subst (λ p. Trial s.tickets s.turns p) e (v.trial x) in
    let none_in =
      no_line v.line (omega (arith, same, known.0, known.1, timely, v.ticket, v.total)) in
    let lock' : (swap_ticket n s.lock).1 ≡ record s.lock { next_ticket = add32 n 1 } =
      ground (arith, same) in
    ticket-Line count s x inside (swap_ticket n s.lock).1 bound l (ap is_away e) v
      (ap (λ z. z.cur_ticket) lock')
      (ap (λ z. z.next_ticket) lock' ∙ ap (λ z. add32 z 1) (sym same)) tt
      (subst (λ xs. Placed (update s.phases x inside) s.lock.cur_ticket (xs ++ x ∷ []))
        (sym none_in) (ap (is_first s.lock.cur_ticket) (update_self s.phases x inside), tt))

release-Line :
    (count : ℕ) (s : System) (x c : ℕ)
    → count < u32_mod
    → s.phases x ≡ releasing c
    → Line count s
    → Line count (record (moved s x outside) { lock = store_turn c s.lock; turns = s.turns + 1 })
release-Line count s x c bound e v =
    let (ys, shape) =
      inside-first s.phases x s.lock.cur_ticket v.line (small count s v) v.placed v.absent
        (ap is_inside e) in
    let d = subst Distinct shape v.distinct in
    let p = subst (Placed s.phases s.lock.cur_ticket) shape v.placed in
    let k = subst (All (λ y. y < count)) shape v.threads in
    let own : c ≡ s.lock.cur_ticket =
      (==_iff c s.lock.cur_ticket).0 (sym (ap (is_first s.lock.cur_ticket) e) ∙ p.0) in
    record {
      line = ys;
      distinct = d.1;
      threads = k.1;
      cur = omega (arith, own, v.cur);
      ticket = v.ticket;
      total = omega (arith, v.total, ap length shape);
      placed =
          subst (λ z. Placed (update s.phases x outside) (add32 z 1) ys) (sym own)
            (Placed-Queued (update s.phases x outside) (add32 s.lock.cur_ticket 1) ys
              (Queued-update s.phases x outside (add32 s.lock.cur_ticket 1) ys d.0 p.1));
      absent = λ z m. elim (ℕ_discrete z x) [
        | yes same ↦
            ap (λ i. is_away (update s.phases x outside i)) same
            ∙ ap is_away (update_self s.phases x outside)
        | no ne ↦
            ap is_away (update-ne s.phases x outside z ne)
            ∙ v.absent z (subst (NotIn z) (sym shape) (ne, m))
      ];
      trial =
          Trial-update s.phases x outside s.tickets s.turns s.tickets (s.turns + 1) (omega arith)
            (omega arith) v.trial tt;
    }

enter-Line :
    (count : ℕ) (s : System) (x t : ℕ)
    → count < u32_mod
    → s.phases x ≡ waiting t
    → is_turn t s.lock ≡ true
    → Line count s
    → Line count (moved s x inside)
enter-Line count s x t bound e turn v =
    let at : t ≡ s.lock.cur_ticket = ground arith in
    let (ys, shape) =
      turn-first s.phases x s.lock.cur_ticket v.line (small count s v) (few count s bound v)
        v.placed v.absent (e ∙ ap waiting at) in
    first-Line count s x inside ys v shape refl tt

load_turn-Line :
    (count : ℕ) (s : System) (x : ℕ)
    → s.phases x ≡ inside
    → Line count s
    → Line count (moved s x (releasing s.lock.cur_ticket))
load_turn-Line count s x e v =
    let (ys, shape) =
      inside-first s.phases x s.lock.cur_ticket v.line (small count s v) v.placed v.absent
        (ap is_inside e) in
    first-Line count s x (releasing s.lock.cur_ticket) ys v shape (eq_self s.lock.cur_ticket) tt

load_next-known :
    (count : ℕ) (s : System)
    → count < u32_mod
    → Line count s
    → Trial s.tickets s.turns (loaded s.lock.next_ticket s.tickets)
load_next-known count s bound v =
    (v.ticket, omega arith, omega (arith, v.total, few count s bound v))

load_cur-known :
    (count : ℕ) (s : System) (x n k : ℕ)
    → s.phases x ≡ loaded n k
    → is_turn n s.lock ≡ true
    → s.tickets < k + u32_mod
    → Line count s
    → Trial s.tickets s.turns (free_seen n k)
load_cur-known count s x n k e turn timely v =
    let known : (n ≡ k % u32_mod) × (k ≤ s.tickets) × (k < s.turns + u32_mod) =
      subst (λ p. Trial s.tickets s.turns p) e (v.trial x) in
    let same : n ≡ s.lock.cur_ticket = ground (arith, turn) in
    (known.0, omega (arith, same, known.0, known.2, timely, v.cur, v.total))

lost : (n : ℕ) (l : Ticketlock) → (swap_ticket n l).0 ≡ false → (swap_ticket n l).1 ≡ l
lost n l e = ground (arith, e)

Step-Line :
    (count : ℕ) (s t : System)
    → count < u32_mod
    → (st : Step count s t) → IsTimelyStep count s t st
    → Line count s
    → Line count t
Step-Line count s t bound (take x l e) z v = take-Line count s x bound l e v
Step-Line count s t bound (enter x k e turn) z v = enter-Line count s x k bound e turn v
Step-Line count s t bound (load_next x l e) z v =
    away-Line count s x (loaded s.lock.next_ticket s.tickets) (ap is_away e) refl
      (load_next-known count s bound v) v
Step-Line count s t bound (load_cur x n k e turn) z v =
    away-Line count s x (free_seen n k) (ap is_away e) refl
      (load_cur-known count s x n k e turn z v) v
Step-Line count s t bound (busy x n k e turn) z v =
    away-Line count s x outside (ap is_away e) refl tt v
Step-Line count s t bound (win x n k l e won) z v = win-Line count s x n k bound l e won z v
Step-Line count s t bound (lose x n k e no_swap) z v =
    subst (λ l. Line count (record (moved s x outside) { lock = l })) (sym (lost n s.lock no_swap))
      (away-Line count s x outside (ap is_away e) refl tt v)
Step-Line count s t bound (load_turn x e) z v = load_turn-Line count s x e v
Step-Line count s t bound (release x c e) z v = release-Line count s x c bound e v

start-Line : (count : ℕ) → Line count start
start-Line count = record {
  line = [];
  distinct = tt;
  threads = tt;
  cur = refl;
  ticket = refl;
  total = refl;
  placed = tt;
  absent = λ z m. refl;
  trial = λ z. tt;
}

pub Reach-Line :
    (count : ℕ) (s : System)
    → count < u32_mod
    → (r : Reach count s) → IsTimely count s r
    → Line count s
Reach-Line count s bound begin z = start-Line count
Reach-Line count s bound (next r t before st) z =
    Step-Line count r t bound st z.1 (Reach-Line count r bound before z.0)

-- Whatever accesses fewer than 2^32 threads make to a ticket lock with lock, trylock and unlock,
-- and in whatever order, at most one thread is past the lock or in unlock, although tickets wrap
-- around; on the condition that a trylock whose test or exchange succeeds has fewer than 2^32
-- tickets taken since its first access.
pub Reach-exclusive :
    (count : ℕ) (s : System) (x y : ℕ)
    → count < u32_mod
    → (r : Reach count s) → IsTimely count s r
    → is_inside (s.phases x) ≡ true
    → is_inside (s.phases y) ≡ true
    → x ≡ y
Reach-exclusive count s x y bound r z a b =
    let v = Reach-Line count s bound r z in
    let (xs, e) =
      inside-first s.phases x s.lock.cur_ticket v.line (small count s v) v.placed v.absent a in
    let (ys, f) =
      inside-first s.phases y s.lock.cur_ticket v.line (small count s v) v.placed v.absent b in
    ap (first 0) (sym e ∙ f)

-- What a line says of the lock.
line-progress :
    (s : System) (xs : List ℕ)
    → s.lock.cur_ticket < u32_mod
    → length xs < u32_mod
    → s.lock.next_ticket ≡ (s.lock.cur_ticket + length xs) % u32_mod
    → Placed s.phases s.lock.cur_ticket xs
    → ((z : ℕ) → NotIn z xs → is_away (s.phases z) ≡ true)
    → ((ticketlock_is_locked s.lock ≡ false) × ((x : ℕ) → is_away (s.phases x) ≡ true))
      ⊎ ((ticketlock_is_locked s.lock ≡ true)
          × ((x : ℕ) × (is_first s.lock.cur_ticket (s.phases x) ≡ true)))
line-progress s [] low l e p away =
    let same : s.lock.cur_ticket ≡ s.lock.next_ticket = omega (arith, e) in
    inl (ground arith, λ x. away x tt)
line-progress s (x ∷ xs) low l e p away =
    let ne : s.lock.cur_ticket ≢ s.lock.next_ticket = λ q. omega (arith, e, q, l) in
    let locked : ticketlock_is_locked s.lock ≡ true = ground arith in inr (locked, (x, p.0))

pub Reach-progress :
    (count : ℕ) (s : System)
    → count < u32_mod
    → (r : Reach count s) → IsTimely count s r
    → ((ticketlock_is_locked s.lock ≡ false) × ((x : ℕ) → is_away (s.phases x) ≡ true))
      ⊎ ((ticketlock_is_locked s.lock ≡ true)
          × ((x : ℕ) × (is_first s.lock.cur_ticket (s.phases x) ≡ true)))
Reach-progress count s bound r z =
    let v = Reach-Line count s bound r z in
    line-progress s v.line (small count s v) (few count s bound v)
      (omega (arith, v.ticket, v.cur, v.total)) v.placed v.absent
