-- ===== src/Selector/Steps.antt =====
-- src/idr/selector/partner_selector.py: the four steps that add bidders to a selection.
use thenexusengine.Common.{
  ℕ, ◌-◌, String, Bool, true, false, ◌&&◌, not, Option, none, some, List, [], ◌∷◌, ◌++◌, map,
  length, filter, null, min, ltb, leb, if◌then◌else◌, ◌==◌, string_eq,
}
use thenexusengine.Common.Members.{contains, set_add}
use thenexusengine.Scores.{Float, BidderScore}
use thenexusengine.Request.{AdFormat, ClassifiedRequest}
use thenexusengine.Selector.Categories.{category_of}
use thenexusengine.Selector.Config.{
  SelectorConfig, SelectedBidder, SelectionReason, anchor, high_score, exploration, diversity,
  exploration_slot,
}

-- `random.Random`, with its state as a number: `random()` and `sample(population, k)`.
pub record Random : Type 0 where
  pub random : ℕ → Float × ℕ
  pub sample : ℕ → List BidderScore → ℕ → List BidderScore × ℕ

-- The list and the set that the steps change.
pub record Selection : Type 0 where
  pub selected : List SelectedBidder
  pub selected_codes : List String

abbrev pub nothing_selected : Selection
nothing_selected = record { selected = []; selected_codes = [] }

abbrev pub selected_as : SelectionReason → Option String → BidderScore → SelectedBidder
selected_as reason category s = record {
  bidder_code = s.bidder_code;
  score = s.total_score;
  confidence = s.confidence;
  reason = reason;
  category = category;
}

-- `selected.append(…)` and `selected_codes.add(…)`.
unfoldable pub add : SelectedBidder → Selection → Selection
add b st = record {
  selected = st.selected ++ b ∷ [];
  selected_codes = set_add st.selected_codes b.bidder_code;
}

-- `{s.bidder_code: s for s in ranked}`: of two scores with one code the later stays.
unfoldable pub score_lookup : List BidderScore → String → Option BidderScore
score_lookup [] code = none
score_lookup (s ∷ ranked) code = elim (score_lookup ranked code) [
  | some t ↦ some t
  | none ↦ if s.bidder_code == code then some s else none
]

-- One round of `_add_anchor_bidders`.
unfoldable pub visit_anchor : List BidderScore → String → Selection → Selection
visit_anchor ranked code st =
    if contains (map (λ s. s.bidder_code) ranked) code && not (contains st.selected_codes code)
    then elim (score_lookup ranked code) [
      | none ↦ st
      | some s ↦ add (record (selected_as anchor (category_of code) s) { bidder_code = code }) st
    ]
    else st

unfoldable pub add_anchor_bidders : List BidderScore → List String → Selection → Selection
add_anchor_bidders ranked [] st = st
add_anchor_bidders ranked (code ∷ anchors) st =
    add_anchor_bidders ranked anchors (visit_anchor ranked code st)

-- What a round of `_add_high_scorers` does: `break`, `continue`, or select for a reason, with the
-- state of the random numbers after it.
pub data Visit : Type 0 where
  stop : Visit
  skip : ℕ → Visit
  pick : SelectionReason → ℕ → Visit

unfoldable pub visit_score : SelectorConfig → Random → BidderScore → Selection → ℕ → Visit
visit_score config rng s st seed =
    let (draw, seed') = rng.random seed in
    if contains st.selected_codes s.bidder_code
    then skip seed
    else if leb config.max_bidders (length st.selected)
    then stop
    else if ltb s.total_score config.min_score_threshold
    then skip seed
    else if ltb s.confidence config.low_confidence_threshold
    then if ltb config.exploration_rate draw then skip seed' else pick exploration seed'
    else pick high_score seed

unfoldable pub add_high_scorers :
    SelectorConfig → Random → List BidderScore → Selection → ℕ → Selection × ℕ
add_high_scorers config rng [] st seed = (st, seed)
add_high_scorers config rng (s ∷ ranked) st seed = elim (visit_score config rng s st seed) [
  | stop ↦ (st, seed)
  | skip seed' ↦ add_high_scorers config rng ranked st seed'
  | pick reason seed' ↦
      add_high_scorers config rng ranked (add (selected_as reason (category_of s.bidder_code) s) st)
        seed'
]

unfoldable pub get_required_categories : SelectorConfig → ClassifiedRequest → List String
get_required_categories config request = filter (contains config.diversity_categories) (
    "premium"
    ∷ ("mid_tier" ∷ elim request.ad_format [
      | AdFormat.video ↦ "video_specialist" ∷ []
      | AdFormat.native ↦ "native" ∷ []
      | _ ↦ []
    ]))

-- `{BIDDER_CATEGORIES.get(code) for b in selected if …}`
unfoldable pub categories_of : List SelectedBidder → List String
categories_of [] = []
categories_of (b ∷ selected) = elim (category_of b.bidder_code) [
  | none ↦ categories_of selected
  | some c ↦ c ∷ categories_of selected
]

abbrev pub is_in_category : String → BidderScore → Bool
is_in_category category s = elim (category_of s.bidder_code) [
  | none ↦ false
  | some c ↦ c == category
]

-- The inner loop of `_ensure_diversity`: the best scorer of a category that is not selected.
unfoldable pub best_in_category : String → List String → List BidderScore → Option BidderScore
best_in_category category selected_codes [] = none
best_in_category category selected_codes (s ∷ ranked) =
    if is_in_category category s && not (contains selected_codes s.bidder_code)
    then some s
    else best_in_category category selected_codes ranked

-- The loop over the required categories, with the categories present.
unfoldable pub add_categories :
    SelectorConfig → List BidderScore → List String → List String → Selection → Selection
add_categories config ranked [] present st = st
add_categories config ranked (c ∷ required) present st = elim (contains present c) [
  | true ↦ add_categories config ranked required present st
  | false ↦ elim (leb config.max_bidders (length st.selected)) [
    | true ↦ st
    | false ↦ elim (best_in_category c st.selected_codes ranked) [
      | none ↦ add_categories config ranked required present st
      | some s ↦
          add_categories config ranked required (set_add present c)
            (add (selected_as diversity (some c) s) st)
    ]
  ]
]

unfoldable pub ensure_diversity :
    SelectorConfig → List BidderScore → ClassifiedRequest → Selection → Selection
ensure_diversity config ranked request st =
    add_categories config ranked (get_required_categories config request)
      (categories_of st.selected) st

-- The loop over the chosen candidates.
unfoldable pub add_chosen : List BidderScore → Selection → Selection
add_chosen [] st = st
add_chosen (s ∷ chosen) st =
    add_chosen chosen (add (selected_as exploration_slot (category_of s.bidder_code) s) st)

unfoldable pub exploration_candidates :
    SelectorConfig → List BidderScore → Selection → List BidderScore
exploration_candidates config ranked st =
    filter
      (λ s.
        not (contains st.selected_codes s.bidder_code)
        && ltb s.confidence config.exploration_confidence_threshold)
      ranked

unfoldable pub add_exploration_slots :
    SelectorConfig → Random → List BidderScore → Selection → ℕ → Selection × ℕ
add_exploration_slots config rng ranked st seed =
    let candidates = exploration_candidates config ranked st in
    let exploration_count =
      min config.exploration_slots
        (min (config.max_bidders - length st.selected) (length candidates)) in
    let (chosen, seed') = rng.sample seed candidates exploration_count in
    if leb config.max_bidders (length st.selected)
    then (st, seed)
    else if null candidates
    then (st, seed)
    else if leb exploration_count 0
    then (st, seed)
    else (add_chosen chosen st, seed')
