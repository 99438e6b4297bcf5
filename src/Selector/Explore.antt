-- ===== src/Selector/Explore.antt =====
-- The exploration slots add ranked bidders that are not yet selected, each once and each of low
-- confidence, for any fair source of random samples.
use thenexusengine.Common.{
  ℕ, ◌-◌, ◌≤◌, ◌<◌, ◌≡◌, refl, inl, inr, ap, String, false, not, ◌&&◌, List, [], ◌∷◌, length, arith,
  ◌==◌, string_eq, Bool-cases, ltb, leb, min, null,
}
use thenexusengine.Common.Members.{
  contains, count, eq_self, eq_of_beq, contains-append, absent_of_count, set_add_absent,
}
use thenexusengine.Scores.{BidderScore}
use thenexusengine.Selector.Categories.{category_of}
use thenexusengine.Selector.Config.{SelectorConfig, exploration_slot}
use thenexusengine.Selector.Steps.{
  Random, Selection, selected_as, add, add_chosen, exploration_candidates, add_exploration_slots,
}
use thenexusengine.Selector.Growth.{IsJustified}
use thenexusengine.Selector.Adds.{
  score_codes, In, Unique, Adds, here, Adds-trans, add_once, contains-score_codes, In-filter,
}

-- `random.sample(population, k)` gives `k` elements from distinct positions of the population.
pub record IsSample (population : List BidderScore) (k : ℕ) (chosen : List BidderScore)
    : Type 0 where
  pub size : length chosen ≡ k
  pub members : (s : BidderScore) → In s chosen → In s population
  pub positions : (c : String) → count (score_codes chosen) c ≤ count (score_codes population) c

pub record IsFair (rng : Random) : Type 0 where
  pub sampled :
      (seed : ℕ) (population : List BidderScore) (k : ℕ)
      → k ≤ length population
      → IsSample population k (rng.sample seed population k).0

-- The number of slots that are filled.
abbrev pub slots : SelectorConfig → List BidderScore → Selection → ℕ
slots config ranked st = min config.exploration_slots (
    min (config.max_bidders - length st.selected)
      (length (exploration_candidates config ranked st)))

pub slots-le :
    (config : SelectorConfig) (ranked : List BidderScore) (st : Selection)
    → slots config ranked st ≤ length (exploration_candidates config ranked st)
slots-le config ranked st = omega arith

module _ (config : SelectorConfig) (anchors required : List String)
    (ranked : List BidderScore) where
  abbrev Grows : Selection → Selection → Type 0
  Grows = Adds ranked (IsJustified config anchors required)

  -- The candidates of the exploration slots.
  exploration_candidates-In :
      (rest : List BidderScore) (st : Selection) (s : BidderScore)
      → In s (exploration_candidates config rest st)
      → In s rest
        × (contains st.selected_codes s.bidder_code ≡ false)
        × (s.confidence < config.exploration_confidence_threshold)
  unfolding exploration_candidates
  exploration_candidates-In rest st s m =
      let (there, passes) =
        In-filter
          (λ x.
            not (contains st.selected_codes x.bidder_code)
            && ltb x.confidence config.exploration_confidence_threshold)
          s rest m in
      (there, ground arith, ground arith)

  count-exploration_candidates-le :
      (rest : List BidderScore) (st : Selection) (c : String)
      → count (score_codes (exploration_candidates config rest st)) c ≤ count (score_codes rest) c
  unfolding exploration_candidates
  count-exploration_candidates-le [] st c = omega arith
  count-exploration_candidates-le (x ∷ rest) st c =
      ground (arith, count-exploration_candidates-le rest st c)

  -- What holds of the chosen that are left holds after the first of them is added.
  still_fresh :
      (s x : BidderScore) (chosen : List BidderScore) (st : Selection)
      → Unique (score_codes (s ∷ chosen))
      → contains st.selected_codes s.bidder_code ≡ false
      → In x chosen
      → contains st.selected_codes x.bidder_code ≡ false
      → contains
          (add (selected_as exploration_slot (category_of s.bidder_code) s) st).selected_codes
          x.bidder_code
        ≡ false
  unfolding add
  still_fresh s x chosen st u fresh m fresh_x =
      let a = s.bidder_code in
      let b = x.bidder_code in
      let others = absent_of_count (score_codes chosen) a (ground (arith, u a, eq_self a)) in
      let other : (a == b) ≡ false = elim (Bool-cases (a == b)) [
        | inl same ↦ absurd (
            cc (
              others,
              contains-score_codes x chosen m,
              ap (contains (score_codes chosen)) (eq_of_beq a b same),
            ))
        | inr differ ↦ differ
      ] in
      rw (set_add_absent st.selected_codes a fresh, contains-append, fresh_x, other)

  add_chosen-Adds :
      (chosen : List BidderScore) (st : Selection)
      → Unique (score_codes chosen)
      → ((s : BidderScore)
          → In s chosen
          → In s ranked
            × (contains st.selected_codes s.bidder_code ≡ false)
            × (s.confidence < config.exploration_confidence_threshold))
      → Grows st (add_chosen chosen st)
  unfolding add_chosen
  add_chosen-Adds [] st u h = here
  add_chosen-Adds (s ∷ chosen) st u h =
      let (m, fresh, low) = h s (inl refl) in
      let b = selected_as exploration_slot (category_of s.bidder_code) s in
      Adds-trans (add_once b fresh (s, m, refl, refl, refl) low) (
        add_chosen-Adds chosen (add b st) (λ c. ground (arith, u c))
          (λ x k.
            let (m', fresh', low') = h x (inr k) in
            (m', still_fresh s x chosen st u fresh k fresh', low')))

  pub add_exploration_slots-Adds :
      (rng : Random) (st : Selection) (seed : ℕ)
      → IsFair rng
      → Unique (score_codes ranked)
      → Grows st (add_exploration_slots config rng ranked st seed).0
  unfolding add_exploration_slots
  add_exploration_slots-Adds rng st seed fair u =
      let candidates = exploration_candidates config ranked st in
      let k = slots config ranked st in
      let sample = fair.sampled seed candidates k (slots-le config ranked st) in
      let chosen = (rng.sample seed candidates k).0 in
      let added =
        add_chosen-Adds chosen st
          (λ c. omega (arith, sample.positions c, count-exploration_candidates-le ranked st c, u c))
          (λ s m. exploration_candidates-In ranked st s (sample.members s m)) in
      elim (Bool-cases (leb config.max_bidders (length st.selected))) [
        | inl full ↦ rw full here
        | inr room ↦ elim (Bool-cases (null candidates)) [
          | inl nobody ↦ rw (room, nobody) here
          | inr some_there ↦ elim (Bool-cases (leb k 0)) [
            | inl zero_slots ↦ rw (room, some_there, zero_slots) here
            | inr slots_left ↦ rw (room, some_there, slots_left) added
          ]
        ]
      ]
