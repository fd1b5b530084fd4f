-- ===== src/Pktio/Shares.antt =====
-- odp_packet_io.c: the packets received for each queue, and those for none.
use odp.Prelude.{
  ℕ, ◌≡◌, ap, Bool, true, false, Option, none, some, List, [], ◌∷◌, ◌==◌, if◌then◌else◌,
}

-- The packets that are put on a queue, and those that are put on none.
abbrev pub goes_to : Option ℕ → ℕ → Bool
goes_to none i = false
goes_to (some q) i = q == i

abbrev pub stays : Option ℕ → Bool
stays none = true
stays (some q) = false

unfoldable pub sent : (ℕ → Option ℕ) → ℕ → List ℕ → List ℕ
sent decide i [] = []
sent decide i (p ∷ ps) =
    let rest = sent decide i ps in if goes_to (decide p) i then p ∷ rest else rest

unfoldable pub kept : (ℕ → Option ℕ) → List ℕ → List ℕ
kept decide [] = []
kept decide (p ∷ ps) = let rest = kept decide ps in if stays (decide p) then p ∷ rest else rest

module _ (decide : ℕ → Option ℕ) where
  pub sent-none :
      (p i : ℕ) (ps : List ℕ) → decide p ≡ none → sent decide i (p ∷ ps) ≡ sent decide i ps
  unfolding sent
  sent-none p i ps e = ap (λ o. if goes_to o i then p ∷ sent decide i ps else sent decide i ps) e

  pub sent-some :
      (p q i : ℕ) (ps : List ℕ)
      → decide p ≡ some q
      → sent decide i (p ∷ ps) ≡ (if q == i then p ∷ sent decide i ps else sent decide i ps)
  unfolding sent
  sent-some p q i ps e = ap (λ o. if goes_to o i then p ∷ sent decide i ps else sent decide i ps) e

  pub kept-none :
      (p : ℕ) (ps : List ℕ) → decide p ≡ none → kept decide (p ∷ ps) ≡ p ∷ kept decide ps
  unfolding kept
  kept-none p ps e = ap (λ o. if stays o then p ∷ kept decide ps else kept decide ps) e

  pub kept-some :
      (p q : ℕ) (ps : List ℕ) → decide p ≡ some q → kept decide (p ∷ ps) ≡ kept decide ps
  unfolding kept
  kept-some p q ps e = ap (λ o. if stays o then p ∷ kept decide ps else kept decide ps) e
