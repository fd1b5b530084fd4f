-- ===== src/Schedule/Protocol/Atomic.antt =====
-- odp_schedule.c: each scheduled queue has one command event, so one thread at a time has an
-- atomic queue.
use odp.Prelude.{ℕ, refl, sym, ap, inr, false, none, some, arith}
use odp.Prelude.Weight.{weight-false, weight-ext}
use odp.Schedule.Protocol.{
  Config, IsConfig, empty, taken, holding, returning, polling, System, Step, enqueued,
  enqueued_multi, scheduled, took, took_pktio, took_none, dequeued, returned, released,
  polled_again, polled_last, finalized, destroyed_by, IsStart, Reach, begin, next,
}
use odp.Schedule.Protocol.Tokens.{occurrences, in_hand, is_pending, bit, IsSound, IsValid}
use odp.Schedule.Protocol.Moves.{
  pri_moved, put_command, put_pktio, same_command, take_event, take_none,
}
use odp.Schedule.Protocol.Steps.{
  share-hand, share-pending, no_bit, enqueued-IsValid, enqueued_multi-IsValid, dequeued-IsValid,
  finalized-IsValid, destroyed_by-IsValid,
}

Step-IsValid :
    (c : Config) (w : IsConfig c) (count : ℕ) {s t : System}
    → Step c count s t
    → IsValid c count s
    → IsValid c count t
Step-IsValid c w count {s} (enqueued x r b l i e) v = enqueued-IsValid c w count s v x r l b i e
Step-IsValid c w count {s} (enqueued_multi x r b bs l i e) v =
    enqueued_multi-IsValid c w count s v x r l b bs i e
Step-IsValid c w count {s} (scheduled x r l e) v =
    put_command c w count s v r x _ l
      (λ q. omega (arith, share-pending (s.threads x) (some r) none q e)) (v.sound x l)
Step-IsValid c w count {s} (took x p r l i j e g) v =
    take_event c w count s v p (c.command r) x _ l i g
      (λ q. omega (
        arith,
        share-hand (s.threads x) empty (taken r) q e,
        ap (λ b. bit b) (same_command c w count s v r q),
      ))
      tt
Step-IsValid c w count {s} (took_pktio x p e l i n h g) v =
    take_event c w count s v p e x _ l i g
      (λ q. omega (
        arith,
        share-hand (s.threads x) empty (polling p e) q h,
        no_bit e (c.command q) (λ a. n q (sym a)),
      ))
      (i, n)
Step-IsValid c w count {s} (took_none x p l i h g) v = take_none c w count s v p x l i g
Step-IsValid c w count {s} (dequeued x r l i e) v = dequeued-IsValid c w count s v x r l i e
Step-IsValid c w count {s} (returned x r l e) v =
    put_command c w count s v r x _ l
      (λ q. omega (arith, share-hand (s.threads x) (returning r) empty q e)) tt
Step-IsValid c w count {s} (released x r l e) v =
    put_command c w count s v r x _ l
      (λ q. omega (arith, share-hand (s.threads x) (holding r) empty q e)) tt
Step-IsValid c w count {s} (polled_again x p e l h) v =
    let (i, n) : IsSound c s.queues (polling p e) = rw h at (v.sound x l) in
    put_pktio c w count s v p e x _ l i n
      (λ q. omega (arith, share-hand (s.threads x) (polling p e) empty q h)) tt
Step-IsValid c w count {s} (polled_last x p e l h) v =
    let (i, n) : IsSound c s.queues (polling p e) = rw h at (v.sound x l) in
    let share_same = λ (q : ℕ). share-hand (s.threads x) (polling p e) empty q h in
    pri_moved c w count s v p (s.queues p) x _ l i (λ q _ _. omega (arith, share_same q))
      (λ q _ _. omega (arith, share_same q)) (λ q m. v.home q p i m) (v.pri_ready p i) tt
Step-IsValid c w count {s} (finalized x r l i e) v = finalized-IsValid c w count s v x r l i e
Step-IsValid c w count {s} (destroyed_by x r l i) v = destroyed_by-IsValid c w count s v x r l i

begin-IsValid : (c : Config) (count : ℕ) (s : System) → IsStart c s → IsValid c count s
unfolding occurrences
begin-IsValid c count s st = record {
  one = λ q i.
      rw (st.no_items (c.pri q), st.scheduled_status q i)
        (omega (
          arith,
          weight-ext (λ x. in_hand q (s.threads x).hand) (λ x. false) count
              (λ x l. ap (λ t. in_hand q t.hand) (st.outside x)),
          weight-ext (λ x. is_pending q (s.threads x).pending) (λ x. false) count
              (λ x l. ap (λ t. is_pending q t.pending) (st.outside x)),
          weight-false count,
        ));
  home = λ q p i n. rw (st.no_items p) refl;
  tidy = λ q i. inr (st.no_items q, rw (st.scheduled_status q i) (λ e. cc));
  pri_ready = st.pri_status;
  sound = λ x l. rw (st.outside x) tt;
}

pub Reach-IsValid :
    (c : Config) (w : IsConfig c) (count : ℕ) {s : System} → Reach c count s → IsValid c count s
Reach-IsValid c w count (begin {s} st) = begin-IsValid c count s st
Reach-IsValid c w count (next r st) = Step-IsValid c w count st (Reach-IsValid c w count r)
