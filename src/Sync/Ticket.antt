-- ===== src/Sync/Ticket.antt =====
-- odp_ticketlock.c: the threads that hold or wait for the lock stand in a line, in the order of
-- their tickets.
use odp.Prelude.{
  ℕ, suc, ◌+◌, ◌%◌, ◌<◌, ◌≤◌, ◌≡◌, ◌≢◌, ◌==◌, Bool, true, false, eq_self, ==_iff, sym, ap, ◌∙◌, ◌⊎◌,
  inl, inr, arith, List, [], ◌∷◌, ◌++◌, ℕ_discrete, u32_mod, add32, update, update-ne, length, All,
  NotIn, Distinct,
}
use odp.Sync.{Phase, outside, waiting, loaded, free_seen, inside, releasing, System}

-- These threads wait with the tickets from `t` on.
abbrev pub Queued : (ℕ → Phase) → ℕ → List ℕ → Type 0
Queued ph t [] = Unit
Queued ph t (x ∷ xs) = (ph x ≡ waiting t) × Queued ph (add32 t 1) xs

abbrev pub is_inside : Phase → Bool
is_inside inside = true
is_inside (releasing c) = true
is_inside p = false

-- Inside, or with the ticket whose turn it is, or about to end that turn.
abbrev pub is_first : ℕ → Phase → Bool
is_first cur inside = true
is_first cur (releasing c) = c == cur
is_first cur (waiting t) = t == cur
is_first cur p = false

-- Neither past the lock nor with a ticket.
abbrev pub is_away : Phase → Bool
is_away outside = true
is_away (loaded n k) = true
is_away (free_seen n k) = true
is_away p = false

abbrev pub Placed : (ℕ → Phase) → ℕ → List ℕ → Type 0
Placed ph cur [] = Unit
Placed ph cur (x ∷ xs) = (is_first cur (ph x) ≡ true) × Queued ph (add32 cur 1) xs

-- What a thread in `trylock` knows of the counts.
abbrev pub Trial : ℕ → ℕ → Phase → Type 0
Trial tickets turns (loaded n k) = (n ≡ k % u32_mod) × (k ≤ tickets) × (k < turns + u32_mod)
Trial tickets turns (free_seen n k) = (n ≡ k % u32_mod) × (k ≤ turns)
Trial tickets turns p = Unit

-- The line, which holds exactly the threads that are not away.
pub record Line (count : ℕ) (s : System) : Type 0 where
  pub line : List ℕ
  pub distinct : Distinct line
  pub threads : All (λ x. x < count) line
  pub cur : s.lock.cur_ticket ≡ s.turns % u32_mod
  pub ticket : s.lock.next_ticket ≡ s.tickets % u32_mod
  pub total : s.tickets ≡ s.turns + length line
  pub placed : Placed s.phases s.lock.cur_ticket line
  pub absent : (x : ℕ) → NotIn x line → is_away (s.phases x) ≡ true
  pub trial : (x : ℕ) → Trial s.tickets s.turns (s.phases x)

pub Queued-update :
    (ph : ℕ → Phase) (x : ℕ) (p : Phase) (t : ℕ) (xs : List ℕ)
    → NotIn x xs
    → Queued ph t xs
    → Queued (update ph x p) t xs
Queued-update ph x p t [] n q = tt
Queued-update ph x p t (y ∷ xs) n q =
    (update-ne ph x p y (λ e. n.0 (sym e)) ∙ q.0, Queued-update ph x p (add32 t 1) xs n.1 q.1)

-- A thread is in the queue with one of its tickets, or not in it.
Queued-find :
    (ph : ℕ → Phase) (x : ℕ) (t : ℕ) (xs : List ℕ)
    → t < u32_mod
    → Queued ph t xs
    → NotIn x xs ⊎ ((j : ℕ) × (j < length xs) × (ph x ≡ waiting ((t + j) % u32_mod)))
Queued-find ph x t [] small q = inl tt
Queued-find ph x t (y ∷ xs) small q = elim (ℕ_discrete x y) [
  | yes e ↦ inr (0, omega arith, ap ph e ∙ q.0 ∙ ap waiting (omega arith))
  | no n ↦ elim (Queued-find ph x (add32 t 1) xs (omega arith) q.1) [
    | inl out ↦ inl (n, out)
    | inr (j, l, e) ↦ inr (suc j, omega arith, e ∙ ap waiting (omega arith))
  ]
]

Queued-snoc :
    (ph : ℕ → Phase) (x : ℕ) (t : ℕ) (xs : List ℕ)
    → Queued ph t xs
    → ph x ≡ waiting ((t + length xs) % u32_mod)
    → t < u32_mod
    → Queued ph t (xs ++ x ∷ [])
Queued-snoc ph x t [] q e small = (e ∙ ap waiting (omega arith), tt)
Queued-snoc ph x t (y ∷ xs) q e small =
    (q.0, Queued-snoc ph x (add32 t 1) xs q.1 (e ∙ ap waiting (omega arith)) (omega arith))

pub Placed-snoc :
    (ph : ℕ → Phase) (x : ℕ) (t : ℕ) (xs : List ℕ)
    → Placed ph t xs
    → ph x ≡ waiting ((t + length xs) % u32_mod)
    → t < u32_mod
    → Placed ph t (xs ++ x ∷ [])
Placed-snoc ph x t [] q e small =
    let here : (t + 0) % u32_mod ≡ t = omega arith in
    (ap (is_first t) (e ∙ ap waiting here) ∙ eq_self t, tt)
Placed-snoc ph x t (y ∷ xs) q e small =
    (q.0, Queued-snoc ph x (add32 t 1) xs q.1 (e ∙ ap waiting (omega arith)) (omega arith))

-- A phase that is at the front of the line or in it is not away.
first-away : (cur : ℕ) (p : Phase) → is_first cur p ≡ true → is_away p ≢ true
first-away cur outside f a = absurd (ground arith)
first-away cur (waiting t) f a = absurd (ground arith)
first-away cur (loaded n k) f a = absurd (ground arith)
first-away cur (free_seen n k) f a = absurd (ground arith)
first-away cur inside f a = absurd (ground arith)
first-away cur (releasing c) f a = absurd (ground arith)

waiting-away : (p : Phase) (t : ℕ) → p ≡ waiting t → is_away p ≢ true
waiting-away p t e a = absurd (ground (arith, ap is_away e))

first-waiting : (cur t : ℕ) (p : Phase) → is_first cur p ≡ true → p ≡ waiting t → t ≡ cur
first-waiting cur t p f e = (==_iff t cur).0 (sym (ap (is_first cur) e) ∙ f)

-- A thread that is away is not in the line.
pub away-NotIn :
    (ph : ℕ → Phase) (x : ℕ) (t : ℕ) (xs : List ℕ)
    → t < u32_mod
    → Placed ph t xs
    → is_away (ph x) ≡ true
    → NotIn x xs
away-NotIn ph x t [] small p a = tt
away-NotIn ph x t (y ∷ xs) small p a = (
  (λ same. first-away t (ph y) p.0 (ap (λ z. is_away (ph z)) (sym same) ∙ a)),
  elim (Queued-find ph x (add32 t 1) xs (omega arith) p.1) [
    | inl n ↦ n
    | inr (j, l, w) ↦ absurd (waiting-away (ph x) ((add32 t 1 + j) % u32_mod) w a)
  ],
)

-- A thread of the line that does not wait with a later ticket is the first.
first-of :
    (ph : ℕ → Phase) (x : ℕ) (t : ℕ) (xs : List ℕ)
    → t < u32_mod
    → Placed ph t xs
    → ((z : ℕ) → NotIn z xs → is_away (ph z) ≡ true)
    → is_away (ph x) ≢ true
    → ((j : ℕ) → suc j < length xs → ph x ≢ waiting ((add32 t 1 + j) % u32_mod))
    → (ys : List ℕ) × (xs ≡ x ∷ ys)
first-of ph x t [] small p away n later = absurd (n (away x tt))
first-of ph x t (y ∷ xs) small p away n later = elim (ℕ_discrete x y) [
  | yes same ↦ (xs, ap (λ k. k ∷ xs) (sym same))
  | no ne ↦ elim (Queued-find ph x (add32 t 1) xs (omega arith) p.1) [
    | inl out ↦ absurd (n (away x (ne, out)))
    | inr (j, l, w) ↦ absurd (later j (omega (arith, l)) w)
  ]
]

pub inside-first :
    (ph : ℕ → Phase) (x : ℕ) (t : ℕ) (xs : List ℕ)
    → t < u32_mod
    → Placed ph t xs
    → ((z : ℕ) → NotIn z xs → is_away (ph z) ≡ true)
    → is_inside (ph x) ≡ true
    → (ys : List ℕ) × (xs ≡ x ∷ ys)
inside-first ph x t xs small p away i =
    first-of ph x t xs small p away (inside-away (ph x) i)
      (λ j l w. absurd (ground (arith, i, ap is_inside w)))
  where
    inside-away : (q : Phase) → is_inside q ≡ true → is_away q ≢ true
    inside-away outside h a = absurd (ground arith)
    inside-away (waiting n) h a = absurd (ground arith)
    inside-away (loaded n k) h a = absurd (ground arith)
    inside-away (free_seen n k) h a = absurd (ground arith)
    inside-away inside h a = absurd (ground arith)
    inside-away (releasing c) h a = absurd (ground arith)

abbrev ticket_of : Phase → ℕ
ticket_of (waiting t) = t
ticket_of p = 0

-- So is a thread that waits and whose turn it is.
pub turn-first :
    (ph : ℕ → Phase) (x : ℕ) (t : ℕ) (xs : List ℕ)
    → t < u32_mod
    → length xs < u32_mod
    → Placed ph t xs
    → ((z : ℕ) → NotIn z xs → is_away (ph z) ≡ true)
    → ph x ≡ waiting t
    → (ys : List ℕ) × (xs ≡ x ∷ ys)
turn-first ph x t xs small few p away e =
    first-of ph x t xs small p away (waiting-away (ph x) t e) (λ j l w.
      let same : t ≡ (add32 t 1 + j) % u32_mod = ap ticket_of (sym e ∙ w) in
      absurd (omega (arith, same, l, few, small)))

-- What is known in `trylock` stays true.
pub Trial-mono : (k t k' t' : ℕ) (p : Phase) → k ≤ k' → t ≤ t' → Trial k t p → Trial k' t' p
Trial-mono k t k' t' outside a b h = tt
Trial-mono k t k' t' (waiting n) a b h = tt
Trial-mono k t k' t' (loaded n w) a b h = (h.0, omega (arith, h.1), omega (arith, h.2))
Trial-mono k t k' t' (free_seen n w) a b h = (h.0, omega (arith, h.1))
Trial-mono k t k' t' inside a b h = tt
Trial-mono k t k' t' (releasing c) a b h = tt
