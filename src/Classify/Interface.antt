-- ===== src/Classify/Interface.antt =====
-- odp_classification.c: the classifier of a packet interface.
use odp.Prelude.{
  ℕ, ◌%◌, Bool, true, false, Option, none, some, List, [], ◌∷◌, ltb, leb, if◌then◌else◌, set, add32,
}
use odp.Classify.{
  PmrRef, rule, rule_set, Cos, Pmr, Tables, Classifier, get_cos_entry, get_pmr_entry,
  get_pmr_set_entry,
}

-- `pktio_classifier_init`: the tables of QoS values and the precedence keep what they hold.
unfoldable pub pktio_classifier_init : Classifier → Classifier
pktio_classifier_init cls = record cls {
  num_pmr = 0;
  flow_set = 0;
  error_cos = none;
  default_cos = none;
  headroom = 0;
  skip = 0;
  pmr = none ∷ none ∷ none ∷ none ∷ none ∷ none ∷ none ∷ none ∷ [];
  cos = none ∷ none ∷ none ∷ none ∷ none ∷ none ∷ none ∷ none ∷ [];
}

-- A call on an interface that needs a valid class of service: whether it returned 0, and the entry.
abbrev pub with_cos :
    (Classifier → Classifier) → Option Cos → Option Classifier → Bool × Option Classifier
with_cos f cos none = (false, none)
with_cos f none (some cls) = (false, some cls)
with_cos f (some c) (some cls) = (true, some (f cls))

unfoldable pub odp_pktio_default_cos_set : Tables → ℕ → Option Classifier → Bool × Option Classifier
odp_pktio_default_cos_set t cos =
    with_cos (λ cls. record cls { default_cos = some cos }) (get_cos_entry t cos)

unfoldable pub odp_pktio_error_cos_set : Tables → ℕ → Option Classifier → Bool × Option Classifier
odp_pktio_error_cos_set t cos =
    with_cos (λ cls. record cls { error_cos = some cos }) (get_cos_entry t cos)

abbrev pub with_entry : (Classifier → Classifier) → Option Classifier → Bool × Option Classifier
with_entry f none = (false, none)
with_entry f (some cls) = (true, some (f cls))

unfoldable pub odp_pktio_skip_set : ℕ → Option Classifier → Bool × Option Classifier
odp_pktio_skip_set offset = with_entry (λ cls. record cls { skip = offset })

unfoldable pub odp_pktio_headroom_set : ℕ → Option Classifier → Bool × Option Classifier
odp_pktio_headroom_set headroom = with_entry (λ cls. record cls { headroom = headroom })

-- The loop over pairs of a QoS value and a class of service. A pair with a class that is not valid,
-- or a value that the table does not have, is left out.
unfoldable pub update_qos : Tables → ℕ → List (ℕ × ℕ) → List (Option ℕ) → List (Option ℕ)
update_qos t max [] table = table
update_qos t max ((qos, cos) ∷ rest) table = update_qos t max rest (elim (get_cos_entry t cos) [
  | none ↦ table
  | some c ↦ if ltb qos max then set table qos (some cos) else table
])

unfoldable pub odp_cos_with_l2_priority :
    Tables → List (ℕ × ℕ) → Option Classifier → Bool × Option Classifier
unfolding update_qos
odp_cos_with_l2_priority t pairs =
    with_entry (λ cls. record cls { l2_cos_table = update_qos t 8 pairs cls.l2_cos_table })

unfoldable pub odp_cos_with_l3_qos :
    Tables → List (ℕ × ℕ) → Bool → Option Classifier → Bool × Option Classifier
unfolding update_qos
odp_cos_with_l3_qos t pairs l3_preference = with_entry (λ cls. record cls {
  l3_precedence = l3_preference;
  l3_cos_table = update_qos t 64 pairs cls.l3_cos_table;
})

-- A rule and its class of service behind those of the interface, if there is room.
abbrev pub add_rule : PmrRef → ℕ → Classifier → Bool × Option Classifier
add_rule pmr cos cls = if leb 8 (cls.num_pmr % 256) then (false, some cls) else (
  true,
  some (record cls {
    pmr = set cls.pmr (cls.num_pmr % 256) (some pmr);
    cos = set cls.cos (cls.num_pmr % 256) (some cos);
    num_pmr = add32 cls.num_pmr 1;
  }),
)

abbrev pub rule_cos :
    PmrRef → ℕ → Option Pmr → Option Cos → Option Classifier → Bool × Option Classifier
rule_cos pmr cos p c none = (false, none)
rule_cos pmr cos none c (some cls) = (false, some cls)
rule_cos pmr cos (some p) none (some cls) = (false, some cls)
rule_cos pmr cos (some p) (some c) (some cls) = add_rule pmr cos cls

unfoldable pub odp_pktio_pmr_cos : Tables → ℕ → ℕ → Option Classifier → Bool × Option Classifier
odp_pktio_pmr_cos t pmr cos = rule_cos (rule pmr) cos (get_pmr_entry t pmr) (get_cos_entry t cos)

unfoldable pub odp_pktio_pmr_match_set_cos :
    Tables → ℕ → ℕ → Option Classifier → Bool × Option Classifier
odp_pktio_pmr_match_set_cos t pmr_set cos =
    rule_cos (rule_set pmr_set) cos (get_pmr_set_entry t pmr_set) (get_cos_entry t cos)
