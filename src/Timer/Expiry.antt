-- ===== src/Timer/Expiry.antt =====
-- odp_timer.c: the scan of a timer pool expires exactly the timers that are due.
use Prim.Native.Nat.{bit_or}
use odp.Prelude.{
  ℕ, zero, suc, ◌+◌, ◌≤◌, ◌<◌, ◌≡◌, ◌≢◌, refl, ap, ap₂, ◌∙◌, inl, inr, Bool, true, false, none,
  some, List, ◌∷◌, arith, leb, if◌then◌else◌, Bool-cases, Option-cases, update, update-ne, length,
  ℕ_discrete,
}
use odp.Timer.{
  TimerPool, TickBuf, Timer, tmo_inactive, timer_expire, scan_one, expire_from, timer_pool_expire,
  stamped,
}

-- A timer after a scan at `tick`: if it was due, that is its expiration tick was reached and it
-- had a timeout buffer, it has none and its tick has the inactive bit.
abbrev pub expired : ℕ → TickBuf → TickBuf
expired tick tb = elim tb.tmo_buf [
  | none ↦ tb
  | some buf ↦
      if leb tb.exp_tck tick
      then record { exp_tck = bit_or tb.exp_tck tmo_inactive; tmo_buf = none }
      else tb
]

-- The event that one timer posts, onto those in `out`.
unfoldable pub post : ℕ → TickBuf → ℕ → List (ℕ × ℕ) → List (ℕ × ℕ)
post tick tb queue out = elim tb.tmo_buf [
  | none ↦ out
  | some buf ↦ if leb tb.exp_tck tick then (queue, buf) ∷ out else out
]

-- The events that `n` timers from index `i` on post, onto those in `out`.
unfoldable pub posted : ℕ → ℕ → ℕ → (ℕ → TickBuf) → (ℕ → Timer) → List (ℕ × ℕ) → List (ℕ × ℕ)
posted zero i tick tbs timers out = out
posted (suc n) i tick tbs timers out =
    posted n (i + 1) tick tbs timers (post tick (tbs i) (timers i).queue out)

-- Only the entries that are still to come matter.
posted-ext :
    (n i tick : ℕ) (f g : ℕ → TickBuf) (timers : ℕ → Timer) (out : List (ℕ × ℕ))
    → ((j : ℕ) → i ≤ j → f j ≡ g j)
    → posted n i tick f timers out ≡ posted n i tick g timers out
unfolding posted
posted-ext zero i tick f g timers out h = refl
posted-ext (suc n) i tick f g timers out h =
    posted-ext n (i + 1) tick f g timers (post tick (f i) (timers i).queue out)
      (λ j k. h j (omega arith))
    ∙ ap (λ tb. posted n (i + 1) tick g timers (post tick tb (timers i).queue out))
        (h i (omega arith))

-- What the loop of `odp_timer_pool_expire` leaves.
pub record Scanned (n i tick nexp : ℕ) (tp : TimerPool) (r : ℕ × TimerPool) : Type 0 where
  pub inside : (j : ℕ) → i ≤ j → j < i + n → r.1.tick_buf j ≡ expired tick (tp.tick_buf j)
  pub outside_below : (j : ℕ) → j < i → r.1.tick_buf j ≡ tp.tick_buf j
  pub outside_above : (j : ℕ) → i + n ≤ j → r.1.tick_buf j ≡ tp.tick_buf j
  pub sent : r.1.sent ≡ posted n i tick tp.tick_buf tp.timers tp.sent
  pub count : r.0 + length tp.sent ≡ nexp + length r.1.sent
  pub timers : r.1.timers ≡ tp.timers

-- One round of the loop.
record Round (accepts : ℕ → ℕ → Bool) (i tick : ℕ) (tp : TimerPool) : Type 0 where
  one : ℕ
  pool : TimerPool
  runs : scan_one accepts i tick tp ≡ some (one, pool)
  here : pool.tick_buf i ≡ expired tick (tp.tick_buf i)
  elsewhere : (j : ℕ) → j ≢ i → pool.tick_buf j ≡ tp.tick_buf j
  sent : pool.sent ≡ post tick (tp.tick_buf i) (tp.timers i).queue tp.sent
  count : one + length tp.sent ≡ length pool.sent
  timers : pool.timers ≡ tp.timers

module _ (accepts : ℕ → ℕ → Bool) (all : (q b : ℕ) → accepts q b ≡ true) (i tick : ℕ)
    (tp : TimerPool) where
  Round-later : leb (tp.tick_buf i).exp_tck tick ≡ false → Round accepts i tick tp
  unfolding scan_one timer_expire post
  Round-later later = record {
    one = 0;
    pool = tp;
    runs = ground arith;
    here = ground arith;
    elsewhere = λ j ne. refl;
    sent = ground arith;
    count = omega arith;
    timers = refl;
  }

  Round-empty :
      leb (tp.tick_buf i).exp_tck tick ≡ true
      → (tp.tick_buf i).tmo_buf ≡ none
      → Round accepts i tick tp
  unfolding scan_one timer_expire post
  Round-empty reached e = record {
    one = 0;
    pool = tp;
    runs = ground arith;
    here = ground arith;
    elsewhere = λ j ne. refl;
    sent = ground arith;
    count = omega arith;
    timers = refl;
  }

  Round-due :
      (buf : ℕ)
      → leb (tp.tick_buf i).exp_tck tick ≡ true
      → (tp.tick_buf i).tmo_buf ≡ some buf
      → Round accepts i tick tp
  unfolding scan_one timer_expire post
  Round-due buf reached e = record {
    one = 1;
    pool = record tp {
      tick_buf =
          update tp.tick_buf i
            (record { exp_tck = bit_or (tp.tick_buf i).exp_tck tmo_inactive; tmo_buf = none });
      heads = update tp.heads buf (stamped (tp.tick_buf i).exp_tck (tp.heads buf));
      sent = ((tp.timers i).queue, buf) ∷ tp.sent;
    };
    runs = ground (arith, all (tp.timers i).queue buf);
    here = ground arith;
    elsewhere = λ j ne. update-ne tp.tick_buf i _ j ne;
    sent = ground arith;
    count = omega arith;
    timers = refl;
  }

  round : Round accepts i tick tp
  round = elim (Bool-cases (leb (tp.tick_buf i).exp_tck tick)) [
    | inl reached ↦ elim (Option-cases (tp.tick_buf i).tmo_buf) [
      | inl e ↦ Round-empty reached e
      | inr (buf, e) ↦ Round-due buf reached e
    ]
    | inr later ↦ Round-later later
  ]

-- The rest of a scan after one round.
Scanned-Round :
    (accepts : ℕ → ℕ → Bool) (n i tick nexp : ℕ) (tp : TimerPool) (r : ℕ × TimerPool)
    → (one : Round accepts i tick tp) → Scanned n (i + 1) tick (nexp + one.one) one.pool r
    → Scanned (suc n) i tick nexp tp r
unfolding posted
Scanned-Round accepts n i tick nexp tp r one s = record {
  inside = λ j h k. elim (ℕ_discrete j i) [
    | yes e ↦ rw e (s.outside_below i (omega arith) ∙ one.here)
    | no ne ↦ s.inside j (omega arith) (omega arith) ∙ ap (expired tick) (one.elsewhere j ne)
  ];
  outside_below = λ j h. s.outside_below j (omega arith) ∙ one.elsewhere j (λ e. omega arith);
  outside_above = λ j h. s.outside_above j (omega arith) ∙ one.elsewhere j (λ e. omega arith);
  sent =
      s.sent
      ∙ posted-ext n (i + 1) tick one.pool.tick_buf tp.tick_buf one.pool.timers one.pool.sent
          (λ j h. one.elsewhere j (λ e. omega arith))
      ∙ ap₂ (posted n (i + 1) tick tp.tick_buf) one.timers one.sent;
  count = omega (arith, s.count, one.count);
  timers = s.timers ∙ one.timers;
}

expire_from-Scanned :
    (accepts : ℕ → ℕ → Bool) (all : (q b : ℕ) → accepts q b ≡ true) (n i tick nexp : ℕ)
    (tp : TimerPool)
    → (r : ℕ × TimerPool) × (expire_from accepts n i tick nexp tp ≡ some r)
      × Scanned n i tick nexp tp r
unfolding expire_from posted
expire_from-Scanned accepts all zero i tick nexp tp = (
  (nexp, tp),
  refl,
  record {
    inside = λ j h k. absurd (omega arith);
    outside_below = λ j h. refl;
    outside_above = λ j h. refl;
    sent = refl;
    count = refl;
    timers = refl;
  },
)
expire_from-Scanned accepts all (suc n) i tick nexp tp =
    let one = round accepts all i tick tp in
    let (r, e, s) = expire_from-Scanned accepts all n (i + 1) tick (nexp + one.one) one.pool in
    (r, rw (one.runs, expire_from) e, Scanned-Round accepts n i tick nexp tp r one s)

-- If the queues take every event, the scan of a timer pool at a tick ends. Every timer below the
-- watermark that is due loses its buffer and gets the inactive bit, and every other timer stays
-- as it was. The events posted are those of the due timers, each once, to its own queue and in
-- the order of the timers, and the count returned is their number.
pub timer_pool_expire-Scanned :
    (accepts : ℕ → ℕ → Bool) (tick : ℕ) (tp : TimerPool)
    → ((q b : ℕ) → accepts q b ≡ true)
    → (r : ℕ × TimerPool) × (timer_pool_expire accepts tick tp ≡ some r)
      × Scanned tp.high_wm 0 tick 0 tp r
unfolding timer_pool_expire
timer_pool_expire-Scanned accepts tick tp all =
    expire_from-Scanned accepts all tp.high_wm 0 tick 0 tp
