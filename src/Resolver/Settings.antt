-- ===== src/Resolver/Settings.antt =====
-- src/idr/config/feature_config.py and config_resolver.py: the settings of one level and how they
-- merge. Modelled are the sections `idr` and `privacy` in the fields that the selector reads.
use thenexusengine.Common.{ℕ, String, Bool, true, false, Option, none, some, List, [], ◌∷◌}
use thenexusengine.Scores.{Float}

-- `none` is None: inherit from the parent.
pub record IdrSettings : Type 0 where
  pub enabled : Option Bool
  pub bypass_enabled : Option Bool
  pub shadow_mode : Option Bool
  pub max_bidders : Option ℕ
  pub min_score_threshold : Option Float
  pub exploration_enabled : Option Bool
  pub exploration_rate : Option Float
  pub exploration_slots : Option ℕ
  pub low_confidence_threshold : Option Float
  pub exploration_confidence_threshold : Option Float
  pub anchor_bidders_enabled : Option Bool
  pub anchor_bidder_count : Option ℕ
  pub custom_anchor_bidders : Option (List String)
  pub diversity_enabled : Option Bool
  pub diversity_categories : Option (List String)

pub record PrivacySettings : Type 0 where
  pub privacy_enabled : Option Bool
  pub privacy_strict_mode : Option Bool

pub record FeatureConfig : Type 0 where
  pub config_id : String
  pub idr : Option IdrSettings
  pub privacy : Option PrivacySettings

abbrev pub default_idr : IdrSettings
default_idr = record {
  enabled = some true;
  bypass_enabled = some false;
  shadow_mode = some false;
  max_bidders = some 15;
  min_score_threshold = some 0x4039000000000000;
  exploration_enabled = some true;
  exploration_rate = some 0x3fb999999999999a;
  exploration_slots = some 2;
  low_confidence_threshold = some 0x3fe0000000000000;
  exploration_confidence_threshold = some 0x3fd3333333333333;
  anchor_bidders_enabled = some true;
  anchor_bidder_count = some 3;
  custom_anchor_bidders = some [];
  diversity_enabled = some true;
  diversity_categories = some ("premium" ∷ ("mid_tier" ∷ ("video_specialist" ∷ ("native" ∷ []))));
}

abbrev pub default_privacy : PrivacySettings
default_privacy = record { privacy_enabled = some true; privacy_strict_mode = some false }

-- `_merge_value`, of values that are no dictionaries.
abbrev pub merge_value {ℓ} : {A : Type ℓ} → Option A → Option A → Option A
merge_value none parent = parent
merge_value (some v) parent = some v

unfoldable pub merge_idr : IdrSettings → IdrSettings → IdrSettings
merge_idr c p = record {
  enabled = merge_value c.enabled p.enabled;
  bypass_enabled = merge_value c.bypass_enabled p.bypass_enabled;
  shadow_mode = merge_value c.shadow_mode p.shadow_mode;
  max_bidders = merge_value c.max_bidders p.max_bidders;
  min_score_threshold = merge_value c.min_score_threshold p.min_score_threshold;
  exploration_enabled = merge_value c.exploration_enabled p.exploration_enabled;
  exploration_rate = merge_value c.exploration_rate p.exploration_rate;
  exploration_slots = merge_value c.exploration_slots p.exploration_slots;
  low_confidence_threshold = merge_value c.low_confidence_threshold p.low_confidence_threshold;
  exploration_confidence_threshold =
      merge_value c.exploration_confidence_threshold p.exploration_confidence_threshold;
  anchor_bidders_enabled = merge_value c.anchor_bidders_enabled p.anchor_bidders_enabled;
  anchor_bidder_count = merge_value c.anchor_bidder_count p.anchor_bidder_count;
  custom_anchor_bidders = merge_value c.custom_anchor_bidders p.custom_anchor_bidders;
  diversity_enabled = merge_value c.diversity_enabled p.diversity_enabled;
  diversity_categories = merge_value c.diversity_categories p.diversity_categories;
}

unfoldable pub merge_privacy : PrivacySettings → PrivacySettings → PrivacySettings
merge_privacy c p = record {
  privacy_enabled = merge_value c.privacy_enabled p.privacy_enabled;
  privacy_strict_mode = merge_value c.privacy_strict_mode p.privacy_strict_mode;
}

-- `_merge_settings`, with the merge of two settings objects.
abbrev pub merge_settings {ℓ} : {A : Type ℓ} → (A → A → A) → Option A → Option A → Option A
merge_settings merge none parent = parent
merge_settings merge (some child) none = some child
merge_settings merge (some child) (some parent) = some (merge child parent)

unfoldable pub merge_configs : FeatureConfig → FeatureConfig → FeatureConfig
merge_configs child parent = record {
  config_id = child.config_id;
  idr = merge_settings merge_idr child.idr parent.idr;
  privacy = merge_settings merge_privacy child.privacy parent.privacy;
}
