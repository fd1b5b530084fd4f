-- ===== src/Schedule/Protocol/Tokens.antt =====
-- odp_schedule.c: where the command event of each queue is.
use odp.Prelude.{
  ℕ, ◌+◌, ◌<◌, ◌≡◌, ◌≢◌, refl, sym, ap, ◌∙◌, ◌⊎◌, Bool, true, false, Option, none, some, List, [],
  ◌∷◌, ◌++◌, ◌==◌, if◌then◌else◌, arith, update, update_self, update-ne, ℕ_discrete,
}
use odp.Prelude.Weight.{weight, weight-update}
use odp.Queue.{Status, free, destroyed, ready, notsched, sched}
use odp.Queue.Heap.{Fifo}
use odp.Schedule.Protocol.{
  Config, Hand, empty, taken, holding, returning, finalizing, polling, Thread, System, moved,
}

-- How often a number is on a list.
unfoldable pub occurrences : ℕ → List ℕ → ℕ
occurrences e [] = 0
occurrences e (x ∷ xs) = occurrences e xs + (if e == x then 1 else 0)

pub occurrences-snoc :
    (e x : ℕ) (xs : List ℕ)
    → occurrences e (xs ++ x ∷ []) ≡ occurrences e xs + (if e == x then 1 else 0)
unfolding occurrences
occurrences-snoc e x [] = refl
occurrences-snoc e x (y ∷ ys) = rw (occurrences-snoc e x ys) (omega arith)

-- Does the thread have the command event of queue `q`?
abbrev pub in_hand : ℕ → Hand → Bool
in_hand q empty = false
in_hand q (taken r) = r == q
in_hand q (holding r) = r == q
in_hand q (returning r) = r == q
in_hand q (finalizing r) = r == q
in_hand q (polling p e) = false

abbrev pub is_pending : ℕ → Option ℕ → Bool
is_pending q none = false
is_pending q (some r) = r == q

abbrev pub bit : Bool → ℕ
bit b = if b then 1 else 0

abbrev pub on_pri : Config → (ℕ → Fifo) → ℕ → ℕ
on_pri c qs q = occurrences (c.command q) (qs (c.pri q)).items

abbrev pub hands : ℕ → (ℕ → Thread) → ℕ → ℕ
hands count ts q = weight (λ x. in_hand q (ts x).hand) count

abbrev pub pendings : ℕ → (ℕ → Thread) → ℕ → ℕ
pendings count ts q = weight (λ x. is_pending q (ts x).pending) count

-- Is a queue of this status scheduled?
abbrev pub is_live : Status → Bool
is_live free = false
is_live destroyed = true
is_live ready = false
is_live notsched = false
is_live sched = true

-- A queue that is not SCHED is empty, and no scheduled queue is READY.
abbrev pub IsTidy : Fifo → Type 0
IsTidy f = (f.status ≡ sched) ⊎ ((f.items ≡ []) × (f.status ≢ ready))

abbrev pub IsSound : Config → (ℕ → Fifo) → Hand → Type 0
IsSound c qs empty = Unit
IsSound c qs (taken r) = Unit
IsSound c qs (holding r) = Unit
IsSound c qs (returning r) = Unit
IsSound c qs (finalizing r) = (qs r).status ≡ destroyed
IsSound c qs (polling p e) = (c.is_sched p ≡ false) × ((q : ℕ) → c.command q ≢ e)

pub record IsValid (c : Config) (count : ℕ) (s : System) : Type 0 where
  pub one :
      (q : ℕ)
      → c.is_sched q ≡ true
      → on_pri c s.queues q + hands count s.threads q + pendings count s.threads q
        ≡ bit (is_live (s.queues q).status)
  pub home :
      (q p : ℕ)
      → c.is_sched p ≡ false
      → p ≢ c.pri q
      → occurrences (c.command q) (s.queues p).items ≡ 0
  pub tidy : (q : ℕ) → c.is_sched q ≡ true → IsTidy (s.queues q)
  pub pri_ready : (p : ℕ) → c.is_sched p ≡ false → (s.queues p).status ≡ ready
  pub sound : (x : ℕ) → x < count → IsSound c s.queues (s.threads x).hand

-- What a thread has of the command event of a queue.
abbrev pub share : ℕ → Thread → ℕ
share q t = bit (in_hand q t.hand) + bit (is_pending q t.pending)

-- A property of one queue that holds of the new value and of all others.
pub at_update {ℓ} :
    (P : ℕ → Fifo → Type ℓ) (qs : ℕ → Fifo) (k : ℕ) (f : Fifo) (q : ℕ)
    → (q ≡ k → P q f)
    → (q ≢ k → P q (qs q))
    → P q (update qs k f q)
at_update P qs k f q new old = elim (ℕ_discrete q k) [
  | yes e ↦ rw (e, update_self qs k f) (rw e at (new e))
  | no n ↦ rw (update-ne qs k f q n) (old n)
]

module _ (c : Config) (count : ℕ) (s : System) (v : IsValid c count s) where
  -- What a step has to show.
  pub moved-IsValid :
      (k : ℕ) (f : Fifo) (x : ℕ) (t : Thread)
      → x < count
      → ((q : ℕ)
          → c.is_sched q ≡ true
          → on_pri c (update s.queues k f) q + share q t + bit (is_live (s.queues q).status)
            ≡ on_pri c s.queues q
              + share q (s.threads x)
              + bit (is_live (update s.queues k f q).status))
      → ((q : ℕ) → c.is_sched k ≡ false → k ≢ c.pri q → occurrences (c.command q) f.items ≡ 0)
      → (c.is_sched k ≡ true → IsTidy f)
      → (c.is_sched k ≡ false → f.status ≡ ready)
      → IsSound c (update s.queues k f) t.hand
      → ((y : ℕ) → y < count → y ≢ x → IsSound c (update s.queues k f) (s.threads y).hand)
      → IsValid c count (moved s k f x t)
  moved-IsValid k f x t l bal ho ti re so others = record {
    one = λ q i. omega (
      arith,
      bal q i,
      v.one q i,
      weight-update (λ y. in_hand q y.hand) s.threads x t count l,
      weight-update (λ y. is_pending q y.pending) s.threads x t count l,
    );
    home = λ q p i n.
        at_update (λ j g. occurrences (c.command q) g.items ≡ 0) s.queues k f p
          (λ e. ho q (sym (ap c.is_sched e) ∙ i) (λ r. n (e ∙ r))) (λ e. v.home q p i n);
    tidy = λ q i.
        at_update (λ j g. IsTidy g) s.queues k f q (λ e. ti (sym (ap c.is_sched e) ∙ i))
          (λ e. v.tidy q i);
    pri_ready = λ q i.
        at_update (λ j g. g.status ≡ ready) s.queues k f q (λ e. re (sym (ap c.is_sched e) ∙ i))
          (λ e. v.pri_ready q i);
    sound = λ y ly. elim (ℕ_discrete y x) [
      | yes e ↦ rw (e, update_self s.threads x t) so
      | no n ↦ rw (update-ne s.threads x t y n) (others y ly n)
    ];
  }
