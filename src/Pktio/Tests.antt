-- ===== src/Pktio/Tests.antt =====
-- The theorems on packet interfaces at concrete tables and queues.
use odp.Prelude.{
  ℕ, zero, suc, ◌+◌, ◌≡◌, refl, Bool, true, false, Option, none, some, List, [], ◌∷◌, ◌==◌,
  if◌then◌else◌, arith,
}
use odp.Queue.{Status, ready, notsched}
use odp.Queue.Heap.{Heap, Fifo, is_bad}
use odp.Queue.Heap.Refine.{Represents}
use odp.Queue.Table.{zeroed}
use odp.Classify.{Classifier, first_free}
use odp.Pktio.{
  Entry, init_pktio_entry, opened, first_open, lookup_from, odp_pktio_lookup, odp_pktio_open,
  open_found,
}
use odp.Pktio.Receive.{Commands, pktin_poll}
use odp.Pktio.Shares.{kept}
use odp.Pktio.Feed.{IsOpen}
use odp.Pktio.Sort.{delivered}
use odp.Pktio.Poll.{fed_kept, pktin_poll-Represents}
use odp.Pktio.Open.{IsReady, odp_pktio_open_lem}
use odp.Pktio.Unique.{
  AreUnique, Call, opening, closing, run_calls, run_calls-AreUnique, open_found_race,
}

abbrev no_rules : Classifier
no_rules = record {
  num_pmr = 0;
  pmr = [];
  cos = [];
  error_cos = none;
  default_cos = none;
  l3_precedence = false;
  l2_cos_table = [];
  l3_cos_table = [];
  flow_set = 0;
  headroom = 0;
  skip = 0;
}

abbrev free_entry : ℕ → Entry
free_entry q = record {
  ops = none;
  taken = false;
  cls_enabled = false;
  handle = 0;
  inq_default = 0;
  outq_default = q;
  stopped = false;
  cls = no_rules;
  name = [];
  param = 0;
}

abbrev free_entries : List Entry
free_entries = free_entry 1 ∷ free_entry 2 ∷ []

-- "eth0"
abbrev eth0 : List ℕ
eth0 = 101 ∷ 116 ∷ 104 ∷ 48 ∷ []

-- The second implementation takes the name.
abbrev second_opens : List Bool
second_opens = false ∷ true ∷ []

eth0-IsReady : IsReady eth0 second_opens free_entries 1 0 (free_entry 1)
unfolding first_open first_free
eth0-IsReady = record { short = refl; taker = refl; place = refl; there = refl }

unknown : odp_pktio_lookup eth0 free_entries ≡ 0
unfolding odp_pktio_lookup lookup_from
unknown = refl

odp_pktio_open_lem_example : (odp_pktio_open eth0 0 second_opens free_entries).0 ≡ 1
odp_pktio_open_lem_example =
    (odp_pktio_open_lem eth0 0 second_opens free_entries 1 0 (free_entry 1) unknown eth0-IsReady).0

free_entries-AreUnique : AreUnique free_entries
free_entries-AreUnique zero j a b u v s = absurd (ground arith)
free_entries-AreUnique (suc zero) j a b u v s = absurd (ground arith)
free_entries-AreUnique (suc (suc i)) j a b u v s = absurd (ground arith)

abbrev three_calls : List Call
three_calls = opening eth0 0 second_opens ∷ opening eth0 0 second_opens ∷ closing true 1 ∷ []

run_calls-AreUnique_example : AreUnique (run_calls three_calls free_entries)
run_calls-AreUnique_example = run_calls-AreUnique three_calls free_entries free_entries-AreUnique

abbrev one_open : List Entry
one_open = opened eth0 0 1 1 (free_entry 1) ∷ free_entry 2 ∷ []

again-IsReady : IsReady eth0 second_opens one_open 1 1 (free_entry 2)
unfolding first_open first_free init_pktio_entry
again-IsReady = record { short = refl; taker = refl; place = refl; there = refl }

open_found_race_example :
    (open_found
      (odp_pktio_lookup eth0 free_entries)
      eth0
      0
      second_opens
      (open_found (odp_pktio_lookup eth0 free_entries) eth0 0 second_opens free_entries).1).0
    ≡ 2
open_found_race_example =
    (open_found_race eth0 0 0 second_opens second_opens free_entries 1 1 0 1 (free_entry 1)
      (free_entry 2) unknown eth0-IsReady again-IsReady).1

-- The queue 0 is the priority queue of all others, which are idle.
abbrev idle_status : ℕ → Status
idle_status zero = ready
idle_status (suc i) = notsched

abbrev idle_queues : Heap
idle_queues = record {
  links = λ i. none;
  entries = λ i. record (zeroed 0) { status = idle_status i };
}

abbrev idle_lists : ℕ → Fifo
idle_lists i = record { items = []; status = idle_status i }

abbrev events : Commands
events = record { command = λ q. 100 + q; pri = λ q. 0 }

abbrev is_plain : ℕ → Bool
is_plain zero = false
is_plain (suc i) = true

idle_queues-Represents : Represents idle_queues idle_lists
idle_queues-Represents = record {
  holds = λ i. record { chain = (refl, refl); distinct = tt };
  status = λ i. refl;
  apart = λ i j n. tt;
}

idle-used : (i : ℕ) → is_bad (idle_status i) ≡ false
idle-used zero = refl
idle-used (suc i) = refl

idle-IsOpen : IsOpen events is_plain (6 ∷ 5 ∷ []) idle_lists
idle-IsOpen = record {
  used = idle-used;
  new = λ i. (tt, (tt, tt));
  distinct = (((λ e. omega arith), tt), (tt, tt));
  pri_plain = λ q. refl;
  pri_ready = λ q. refl;
  one_command = λ q r e. omega (arith, e);
  command_new = λ q i y h. tt;
  command_other = λ q y h. ((λ e. omega (arith, e)), ((λ e. omega (arith, e)), tt));
}

-- The packet 5 goes to the queue 2.
abbrev to_queue_2 : ℕ → Option ℕ
to_queue_2 p = if p == 5 then some 2 else none

to_queue_2-is_plain : (p q : ℕ) → to_queue_2 p ≡ some q → is_plain q ≡ true
to_queue_2-is_plain p zero e = absurd (ground (arith, e))
to_queue_2-is_plain p (suc q) e = refl

abbrev in_use : Entry
in_use = record (free_entry 1) { taken = true; cls_enabled = true; inq_default = 4; handle = 1 }

-- The command events of the queues 2 and 3 go to the queue 0.
woken :
    (fed_kept events 3
      (kept to_queue_2 (6 ∷ 5 ∷ []))
      (delivered events to_queue_2 (6 ∷ 5 ∷ []) idle_lists)
      0).items
    ≡ 102 ∷ 103 ∷ []
unfolding fed_kept kept delivered
woken = refl

pktin_poll-Represents_example :
    (pktin_poll events to_queue_2 (some (6 ∷ 5 ∷ [])) in_use idle_queues).0 ≡ true
pktin_poll-Represents_example =
    (pktin_poll-Represents events to_queue_2 is_plain to_queue_2-is_plain (6 ∷ 5 ∷ []) idle_queues
      idle_lists idle_queues-Represents idle-IsOpen in_use refl refl refl refl refl).0
