-- ===== src/Selector/Bounds.antt =====
-- How many bidders a selection holds.
use thenexusengine.Common.{
  ℕ, ◌+◌, ◌≤◌, ◌<◌, ◌≡◌, refl, inl, inr, ap, String, Bool, true, false, none, some, List, [], ◌∷◌,
  length, length-append, arith, string_eq, Bool-cases, Option-cases, if◌then◌else◌, max, min, leb,
  null, length-take-le, length-take-le_length, take,
}
use thenexusengine.Common.Members.{contains, set_add}
use thenexusengine.Scores.{BidderScore}
use thenexusengine.Request.{ClassifiedRequest}
use thenexusengine.Selector.Config.{SelectorConfig, SelectedBidder, diversity}
use thenexusengine.Selector.Steps.{
  Random, Selection, Visit, stop, skip, pick, nothing_selected, selected_as, add, visit_anchor,
  add_anchor_bidders, visit_score, add_high_scorers, best_in_category, add_categories,
  ensure_diversity, add_chosen, exploration_candidates, add_exploration_slots,
}
use thenexusengine.Selector.Select.{
  PartnerSelector, get_anchor_bidders, select_normal, default_anchors,
}
use thenexusengine.Selector.Explore.{IsFair, slots, slots-le}
use thenexusengine.Selector.Normal.{anchors, required, anchored, scored, diverse}

length-add :
    (b : SelectedBidder) (st : Selection) → length (add b st).selected ≡ length st.selected + 1
unfolding add
length-add b st = omega (arith, length-append st.selected (b ∷ []))

length-visit_anchor-le :
    (ranked : List BidderScore) (c : String) (st : Selection)
    → length (visit_anchor ranked c st).selected ≤ length st.selected + 1
unfolding visit_anchor
length-visit_anchor-le ranked c st = grind (arith, length-add)

length-add_anchor_bidders-le :
    (ranked : List BidderScore) (more : List String) (st : Selection)
    → length (add_anchor_bidders ranked more st).selected ≤ length st.selected + length more
unfolding add_anchor_bidders
length-add_anchor_bidders-le ranked [] st = omega arith
length-add_anchor_bidders-le ranked (c ∷ more) st = omega (
  arith,
  length-visit_anchor-le ranked c st,
  length-add_anchor_bidders-le ranked more (visit_anchor ranked c st),
)

module _ (config : SelectorConfig) where
  -- A step that stops at the limit stays under it, or where it began.
  abbrev Bounded : Selection → Selection → Type 0
  Bounded st st' = length st'.selected ≤ max config.max_bidders (length st.selected)

  visit_score-room :
      (rng : Random) (s : BidderScore) (st : Selection) (seed seed' : ℕ) {reason : _}
      → visit_score config rng s st seed ≡ pick reason seed'
      → length st.selected < config.max_bidders
  unfolding visit_score
  visit_score-room rng s st seed seed' e = ground arith

  add_high_scorers-Bounded :
      (rng : Random) (rest : List BidderScore) (st : Selection) (seed : ℕ)
      → Bounded st (add_high_scorers config rng rest st seed).0
  unfolding add_high_scorers
  add_high_scorers-Bounded rng [] st seed = omega arith
  add_high_scorers-Bounded rng (s ∷ rest) st seed =
      visited (visit_score config rng s st seed) refl
        (λ st' seed'. add_high_scorers-Bounded rng rest st' seed')
    where
      visited :
          (v : Visit)
          → visit_score config rng s st seed ≡ v
          → ((st' : Selection) (seed' : ℕ)
              → Bounded st' (add_high_scorers config rng rest st' seed').0)
          → Bounded st (add_high_scorers config rng (s ∷ rest) st seed).0
      visited stop e ih = rw (e, add_high_scorers) (omega arith)
      visited (skip seed') e ih = rw (e, add_high_scorers) (ih st seed')
      visited (pick reason seed') e ih =
          rw (e, add_high_scorers)
            (omega
              (arith, ih (add _ st) seed', length-add _ st, visit_score-room rng s st seed seed' e))

  add_categories-Bounded :
      (ranked : List BidderScore) (more present : List String) (st : Selection)
      → Bounded st (add_categories config ranked more present st)
  unfolding add_categories
  add_categories-Bounded ranked [] present st = omega arith
  add_categories-Bounded ranked (c ∷ more) present st = elim (Bool-cases (contains present c)) [
    | inl old ↦ rw (old, add_categories) (add_categories-Bounded ranked more present st)
    | inr new ↦ elim (Bool-cases (leb config.max_bidders (length st.selected))) [
      | inl full ↦ rw (new, full, add_categories) (omega arith)
      | inr room ↦ elim (Option-cases (best_in_category c st.selected_codes ranked)) [
        | inl absent ↦
            rw (new, room, absent, add_categories) (add_categories-Bounded ranked more present st)
        | inr (s, found) ↦
            let more_room : length st.selected < config.max_bidders = ground arith in
            let b = selected_as diversity (some c) s in
            rw (new, room, found, add_categories)
              (omega (
                arith,
                length-add b st,
                add_categories-Bounded ranked more (set_add present c) (add b st),
              ))
      ]
    ]
  ]

  length-add_chosen :
      (chosen : List BidderScore) (st : Selection)
      → length (add_chosen chosen st).selected ≡ length st.selected + length chosen
  unfolding add_chosen
  length-add_chosen [] st = omega arith
  length-add_chosen (s ∷ chosen) st =
      omega (arith, length-add_chosen chosen (add _ st), length-add _ st)

  add_exploration_slots-Bounded :
      (rng : Random) (ranked : List BidderScore) (st : Selection) (seed : ℕ)
      → IsFair rng
      → Bounded st (add_exploration_slots config rng ranked st seed).0
  unfolding add_exploration_slots
  add_exploration_slots-Bounded rng ranked st seed fair =
      let candidates = exploration_candidates config ranked st in
      let k = slots config ranked st in
      let sample = fair.sampled seed candidates k (slots-le config ranked st) in
      let chosen = (rng.sample seed candidates k).0 in
      let grown = length-add_chosen chosen st in
      let size = sample.size in
      elim (Bool-cases (leb config.max_bidders (length st.selected))) [
        | inl full ↦ rw full (omega arith)
        | inr room ↦ elim (Bool-cases (null candidates)) [
          | inl nobody ↦ rw (room, nobody) (omega arith)
          | inr some_there ↦ elim (Bool-cases (leb k 0)) [
            | inl zero_slots ↦ rw (room, some_there, zero_slots) (omega arith)
            | inr slots_left ↦ rw (room, some_there, slots_left) (omega arith)
          ]
        ]
      ]

if_Bounded :
    (config : SelectorConfig) (b : Bool) (st st' : Selection)
    → Bounded config st st'
    → Bounded config st (if b then st' else st)
if_Bounded config true st st' h = h
if_Bounded config false st st' h = omega arith

module _ (p : PartnerSelector) (ranked : List BidderScore) (request : ClassifiedRequest)
    (seed : ℕ) where
  -- The normal selection holds at most `max_bidders` bidders, or as many as there are anchors where
  -- these are more.
  pub length-select_normal-le :
      IsFair p.rng
      → length (select_normal p ranked request seed).0.selected
        ≤ max p.config.max_bidders (length (get_anchor_bidders p request.publisher_id))
  unfolding select_normal ensure_diversity
  length-select_normal-le fair =
      let first = anchored p ranked request seed in
      let second = scored p ranked request seed in
      let third = diverse p ranked request seed in
      let a =
        length-add_anchor_bidders-le ranked (anchors p ranked request seed) nothing_selected in
      let b = add_high_scorers-Bounded p.config p.rng ranked first seed in
      let c : length third.selected ≤ max p.config.max_bidders (length second.selected) =
        if_Bounded p.config p.config.diversity_enabled second _
          (add_categories-Bounded p.config ranked (required p ranked request seed) _ second) in
      let seed' = (add_high_scorers p.config p.rng ranked first seed).1 in
      let d = add_exploration_slots-Bounded p.config p.rng ranked third seed' fair in
      omega (arith, a, b, c, d)

  -- Without a provider there are at most `anchor_bidder_count` anchors, and at most three.
  pub length-default_anchors-le :
      p.anchor_provider ≡ none
      → length (get_anchor_bidders p request.publisher_id) ≤ min p.config.anchor_bidder_count 3
  unfolding get_anchor_bidders
  length-default_anchors-le e = omega (
    arith,
    ap length (only_default e),
    length-take-le p.config.anchor_bidder_count default_anchors,
    length-take-le_length p.config.anchor_bidder_count default_anchors,
  )
    where
      only_default :
          p.anchor_provider ≡ none
          → get_anchor_bidders p request.publisher_id
            ≡ take p.config.anchor_bidder_count default_anchors
      only_default h = ground arith
