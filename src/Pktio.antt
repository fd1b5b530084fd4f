-- ===== src/Pktio.antt =====
-- platform/linux-generic/odp_packet_io.c: the table of packet interfaces, and the way of received
-- packets to queues.
--
-- What an implementation of an interface (a socket, the loopback) answers is an argument; what it
-- writes into its own part of the entry, and to `stopped`, is left out. A handle is an index and one,
-- 0 is ODP_PKTIO_INVALID and ODP_QUEUE_INVALID. Each call runs under its locks as one step, but
-- `odp_pktio_open`, which takes the table's lock twice, is two.
pub mod Receive
pub mod Open
pub mod Unique
pub mod Shares
pub mod Feed
pub mod Sort
pub mod Poll
mod Tests
use odp.Prelude.{
  ℕ, zero, suc, ◌+◌, ◌-◌, Bool, true, false, not, ◌||◌, Option, none, some, List, [], ◌∷◌, ltb, leb,
  ◌==◌, if◌then◌else◌, get_elem?, set, take, length, sub32,
}
use odp.Queue.Table.{same_name}
use odp.Classify.{Classifier, first_free, behind}
use odp.Classify.Interface.{pktio_classifier_init}

-- struct pktio_entry: `ops` is the index of the implementation, `stopped` the state STATE_STOP.
pub record Entry : Type 0 where
  pub ops : Option ℕ
  pub taken : Bool
  pub cls_enabled : Bool
  pub handle : ℕ
  pub inq_default : ℕ
  pub outq_default : ℕ
  pub stopped : Bool
  pub cls : Classifier
  pub name : List ℕ
  pub param : ℕ

abbrev pub if_namesize : ℕ
if_namesize = 16

-- `get_pktio_entry` by its handle.
abbrev pub get_pktio_entry : ℕ → List Entry → Option Entry
get_pktio_entry id t = if id == 0 then none else get_elem? t (id - 1)

unfoldable pub init_pktio_entry : Entry → Entry
unfolding pktio_classifier_init
init_pktio_entry e = record e {
  taken = true;
  cls_enabled = true;
  inq_default = 0;
  cls = pktio_classifier_init e.cls;
}

-- The first implementation whose `open` returns 0.
unfoldable pub first_open : List Bool → Option ℕ
first_open [] = none
first_open (ok ∷ rest) = let later = first_open rest in if ok then some 0 else behind later

-- An entry whose interface could be opened, and one whose interface could not.
abbrev pub opened : List ℕ → ℕ → ℕ → ℕ → Entry → Entry
opened dev param k id e = record (init_pktio_entry e) {
  param = param;
  ops = some k;
  name = dev;
  handle = id;
}

abbrev pub not_opened : ℕ → Entry → Entry
not_opened param e = record (init_pktio_entry e) { param = param; taken = false; handle = 0 }

abbrev pub open_at : List ℕ → ℕ → Option ℕ → ℕ → Option Entry → List Entry → ℕ × List Entry
open_at dev param k i none t = (0, t)
open_at dev param none i (some e) t = (0, set t i (not_opened param e))
open_at dev param (some k) i (some e) t = (suc i, set t i (opened dev param k (suc i) e))

abbrev pub open_slot : List ℕ → ℕ → Option ℕ → Option ℕ → List Entry → ℕ × List Entry
open_slot dev param k none t = (0, t)
open_slot dev param k (some i) t = open_at dev param k i (get_elem? t i) t

-- `opens` is what each implementation's `open` says.
unfoldable pub setup_pktio_entry : List ℕ → ℕ → List Bool → List Entry → ℕ × List Entry
unfolding first_free first_open init_pktio_entry
setup_pktio_entry dev param opens t =
    if leb if_namesize (length dev)
    then (0, t)
    else open_slot dev param (first_open opens) (first_free (λ e. e.taken) t) t

-- The loop of `odp_pktio_lookup`. A name in the table is shorter than `IF_NAMESIZE`, so `strncmp`
-- compares the whole names.
unfoldable pub lookup_from : ℕ → List ℕ → List Entry → ℕ
unfolding same_name
lookup_from i dev [] = 0
lookup_from i dev (e ∷ es) =
    let rest = lookup_from (suc i) dev es in
    if e.taken then (if same_name e.name dev then suc i else rest) else rest

unfoldable pub odp_pktio_lookup : List ℕ → List Entry → ℕ
unfolding lookup_from
odp_pktio_lookup = lookup_from 0

-- The second step of `odp_pktio_open`, with what the first one found.
unfoldable pub open_found : ℕ → List ℕ → ℕ → List Bool → List Entry → ℕ × List Entry
unfolding setup_pktio_entry
open_found id dev param opens t = if id == 0 then setup_pktio_entry dev param opens t else (0, t)

unfoldable pub odp_pktio_open : List ℕ → ℕ → List Bool → List Entry → ℕ × List Entry
unfolding odp_pktio_lookup open_found
odp_pktio_open dev param opens t = open_found (odp_pktio_lookup dev t) dev param opens t

-- `closed` says whether the implementation's `close` returned 0; the entry is freed in any case.
abbrev pub close_entry : Bool → ℕ → Option Entry → List Entry → Bool × List Entry
close_entry closed id none t = (false, t)
close_entry closed id (some e) t =
    if e.taken then (closed, set t (id - 1) (record e { taken = false })) else (false, t)

unfoldable pub odp_pktio_close : Bool → ℕ → List Entry → Bool × List Entry
odp_pktio_close closed id t = close_entry closed id (get_pktio_entry id t) t

abbrev pub inq_of : Option Entry → ℕ
inq_of none = 0
inq_of (some e) = e.inq_default

abbrev pub outq_of : Option Entry → ℕ
outq_of none = 0
outq_of (some e) = e.outq_default

unfoldable pub odp_pktio_inq_getdef : ℕ → List Entry → ℕ
odp_pktio_inq_getdef id t = inq_of (get_pktio_entry id t)

unfoldable pub odp_pktio_outq_getdef : ℕ → List Entry → ℕ
odp_pktio_outq_getdef id t = outq_of (get_pktio_entry id t)
