-- ===== src/Selector/Normal.antt =====
-- The four steps together: what `select_partners` selects without bypass.
use thenexusengine.Common.{
  ℕ, refl, String, Bool, true, false, List, All, arith, string_eq, if◌then◌else◌,
}
use thenexusengine.Common.Members.{All-self}
use thenexusengine.Scores.{BidderScore}
use thenexusengine.Request.{ClassifiedRequest}
use thenexusengine.Selector.Config.{SelectedBidder}
use thenexusengine.Selector.Steps.{
  Selection, nothing_selected, add_anchor_bidders, add_high_scorers, get_required_categories,
  ensure_diversity,
}
use thenexusengine.Selector.Select.{PartnerSelector, get_anchor_bidders, select_normal}
use thenexusengine.Selector.Adds.{
  score_codes, Unique, Adds, here, Adds-trans, Adds-IsSound, Adds-All, IsSound,
}
use thenexusengine.Selector.Growth.{
  IsJustified, add_anchor_bidders-Adds, add_high_scorers-Adds, add_categories-Adds,
}
use thenexusengine.Selector.Explore.{IsFair, add_exploration_slots-Adds}

if_Adds :
    {ranked : List BidderScore} {Q : SelectedBidder → Type 0} {s t u : Selection} (b : Bool)
    → Adds ranked Q s t
    → Adds ranked Q s u
    → Adds ranked Q s (if b then t else u)
if_Adds true a c = a
if_Adds false a c = c

module _ (p : PartnerSelector) (ranked : List BidderScore) (request : ClassifiedRequest)
    (seed : ℕ) where
  abbrev pub anchors : List String
  anchors = get_anchor_bidders p request.publisher_id

  abbrev pub required : List String
  required = get_required_categories p.config request

  abbrev pub Grows : Selection → Selection → Type 0
  Grows = Adds ranked (IsJustified p.config anchors required)

  -- The selection after each step.
  abbrev pub anchored : Selection
  anchored = add_anchor_bidders ranked anchors nothing_selected

  abbrev pub scored : Selection
  scored = (add_high_scorers p.config p.rng ranked anchored seed).0

  abbrev pub diverse : Selection
  diverse =
      if p.config.diversity_enabled then ensure_diversity p.config ranked request scored else scored

  abbrev pub normal : Selection
  normal = (select_normal p ranked request seed).0

  pub anchored-Adds : Grows nothing_selected anchored
  anchored-Adds =
      add_anchor_bidders-Adds p.config anchors required ranked anchors nothing_selected
        (All-self anchors)

  pub scored-Adds : Grows anchored scored
  scored-Adds =
      add_high_scorers-Adds p.config anchors required ranked p.rng ranked anchored seed (λ s m. m)

  pub diverse-Adds : Grows scored diverse
  unfolding ensure_diversity
  diverse-Adds =
      if_Adds p.config.diversity_enabled
        (add_categories-Adds p.config anchors required ranked required _ scored (All-self required))
        here

  pub scored-IsSound : IsSound ranked scored
  scored-IsSound =
      Adds-IsSound (Adds-trans anchored-Adds scored-Adds)
        (record { synced = refl; within = λ c. omega arith })

  module _ (fair : IsFair p.rng) (unique : Unique (score_codes ranked)) where
    pub normal-diverse-Adds : Grows diverse normal
    unfolding select_normal
    normal-diverse-Adds =
        add_exploration_slots-Adds p.config anchors required ranked p.rng diverse _ fair unique

    pub normal-Adds : Grows nothing_selected normal
    normal-Adds =
        Adds-trans anchored-Adds
          (Adds-trans scored-Adds (Adds-trans diverse-Adds normal-diverse-Adds))

    -- The set of codes is that of the list, and no bidder is selected more often than it is ranked.
    pub normal-IsSound : IsSound ranked normal
    normal-IsSound = Adds-IsSound normal-Adds (record { synced = refl; within = λ c. omega arith })

    -- Each selected bidder is selected for a reason that holds: an anchor is one of the publisher's
    -- anchors, a high score is above both thresholds, an exploration is above the score's and below
    -- the confidence's, a bidder for diversity is of a required category, and one in an exploration
    -- slot is below the confidence for exploration.
    pub select_normal-IsJustified : All (IsJustified p.config anchors required) normal.selected
    select_normal-IsJustified = Adds-All normal-Adds tt
