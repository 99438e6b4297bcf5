-- ===== src/Selector/Config.antt =====
-- src/idr/selector/partner_selector.py: the reasons, the configuration and the results of a
-- selection. The counts of the configuration are not negative. Floats stand for themselves by
-- their bit patterns (`Scores`).
use thenexusengine.Common.{
  ℕ, String, Bool, true, false, ◌&&◌, not, Option, List, [], ◌∷◌, map, length, filter, null,
  if◌then◌else◌,
}
use thenexusengine.Scores.{Float}
use thenexusengine.Privacy.Filter.{Details, PrivacySummary}

pub data SelectionReason : Type 0 where
  anchor high_score exploration diversity exploration_slot bypass : SelectionReason

pub data ExclusionReason : Type 0 where
  low_score max_bidders_reached privacy_no_tcf privacy_no_vendor : ExclusionReason
  privacy_no_purpose privacy_ccpa_optout privacy_coppa privacy_region : ExclusionReason
  privacy_personalization : ExclusionReason

pub record SelectorConfig : Type 0 where
  pub bypass_enabled : Bool
  pub shadow_mode : Bool
  pub privacy_enabled : Bool
  pub privacy_strict_mode : Bool
  pub max_bidders : ℕ
  pub min_score_threshold : Float
  pub exploration_rate : Float
  pub exploration_slots : ℕ
  pub low_confidence_threshold : Float
  pub exploration_confidence_threshold : Float
  pub anchor_bidder_count : ℕ
  pub diversity_enabled : Bool
  pub diversity_categories : List String

-- The defaults of the class, with 25.0, 0.1, 0.5 and 0.3 as bit patterns.
abbrev pub default_config : SelectorConfig
default_config = record {
  bypass_enabled = false;
  shadow_mode = false;
  privacy_enabled = true;
  privacy_strict_mode = false;
  max_bidders = 15;
  min_score_threshold = 0x4039000000000000;
  exploration_rate = 0x3fb999999999999a;
  exploration_slots = 2;
  low_confidence_threshold = 0x3fe0000000000000;
  exploration_confidence_threshold = 0x3fd3333333333333;
  anchor_bidder_count = 3;
  diversity_enabled = true;
  diversity_categories = "premium" ∷ "mid_tier" ∷ "video_specialist" ∷ "native" ∷ [];
}

abbrev pub bypass_config : SelectorConfig
bypass_config = record default_config { bypass_enabled = true }

abbrev pub shadow_config : SelectorConfig
shadow_config = record default_config { shadow_mode = true }

-- The fields of a resolved configuration that the selector reads.
pub record ResolvedConfig : Type 0 where
  pub bypass_enabled : Bool
  pub shadow_mode : Bool
  pub privacy_enabled : Bool
  pub privacy_strict_mode : Bool
  pub max_bidders : ℕ
  pub min_score_threshold : Float
  pub exploration_enabled : Bool
  pub exploration_rate : Float
  pub exploration_slots : ℕ
  pub low_confidence_threshold : Float
  pub exploration_confidence_threshold : Float
  pub anchor_bidders_enabled : Bool
  pub anchor_bidder_count : ℕ
  pub custom_anchor_bidders : List String
  pub diversity_enabled : Bool
  pub diversity_categories : List String

unfoldable pub from_resolved_config : ResolvedConfig → SelectorConfig
from_resolved_config resolved = record {
  bypass_enabled = resolved.bypass_enabled;
  shadow_mode = resolved.shadow_mode;
  privacy_enabled = resolved.privacy_enabled;
  privacy_strict_mode = resolved.privacy_strict_mode;
  max_bidders = resolved.max_bidders;
  min_score_threshold = resolved.min_score_threshold;
  exploration_rate = if resolved.exploration_enabled then resolved.exploration_rate else 0;
  exploration_slots = if resolved.exploration_enabled then resolved.exploration_slots else 0;
  low_confidence_threshold = resolved.low_confidence_threshold;
  exploration_confidence_threshold = resolved.exploration_confidence_threshold;
  anchor_bidder_count = if resolved.anchor_bidders_enabled then resolved.anchor_bidder_count else 0;
  diversity_enabled = resolved.diversity_enabled;
  diversity_categories = resolved.diversity_categories;
}

pub record SelectedBidder : Type 0 where
  pub bidder_code : String
  pub score : Float
  pub confidence : Float
  pub reason : SelectionReason
  pub category : Option String

pub record ExcludedBidder : Type 0 where
  pub bidder_code : String
  pub reason : ExclusionReason
  pub details : Details

-- The result without the time that the selection took. `none` is the empty summary.
pub record SelectionResult : Type 0 where
  pub selected : List SelectedBidder
  pub excluded : List String
  pub total_candidates : ℕ
  pub bypass_mode : Bool
  pub shadow_mode : Bool
  pub shadow_would_exclude : List String
  pub privacy_filtered : List ExcludedBidder
  pub privacy_summary : Option PrivacySummary

abbrev pub codes : List SelectedBidder → List String
codes = map (λ b. b.bidder_code)

unfoldable pub selected_bidder_codes : SelectionResult → List String
selected_bidder_codes r = codes r.selected

abbrev pub is_anchor : SelectionReason → Bool
is_anchor = elim [ anchor ↦ true | _ ↦ false ]

abbrev pub is_exploration : SelectionReason → Bool
is_exploration = elim [ exploration ↦ true | exploration_slot ↦ true | _ ↦ false ]

abbrev pub is_diversity : SelectionReason → Bool
is_diversity = elim [ diversity ↦ true | _ ↦ false ]

unfoldable pub anchor_count : SelectionResult → ℕ
anchor_count r = length (filter (λ b. is_anchor b.reason) r.selected)

unfoldable pub exploration_count : SelectionResult → ℕ
exploration_count r = length (filter (λ b. is_exploration b.reason) r.selected)

unfoldable pub diversity_count : SelectionResult → ℕ
diversity_count r = length (filter (λ b. is_diversity b.reason) r.selected)

unfoldable pub privacy_filtered_count : SelectionResult → ℕ
privacy_filtered_count r = length r.privacy_filtered

unfoldable pub is_filtered : SelectionResult → Bool
is_filtered r = not r.bypass_mode && not r.shadow_mode && not (null r.excluded)
