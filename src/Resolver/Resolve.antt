-- ===== src/Resolver/Resolve.antt =====
-- src/idr/config/config_resolver.py: what `resolve_for_ad_unit` merges, and `to_resolved_config`. The
-- cache is in Resolver.Cache.
use thenexusengine.Common.{
  ℕ, String, Bool, true, false, ◌||◌, Option, none, some, List, [], ◌∷◌, null, if◌then◌else◌, ◌==◌,
  string_eq, nat_eq,
}
use thenexusengine.Common.Members.{lookup}
use thenexusengine.Selector.Config.{ResolvedConfig}
use thenexusengine.Resolver.Settings.{FeatureConfig, default_idr, default_privacy, merge_configs}

pub record AdUnitConfig : Type 0 where
  pub unit_id : String
  pub features : FeatureConfig

pub record SiteConfig : Type 0 where
  pub site_id : String
  pub ad_units : List AdUnitConfig
  pub features : FeatureConfig

pub record PublisherConfig : Type 0 where
  pub publisher_id : String
  pub sites : List SiteConfig
  pub features : FeatureConfig

-- The configurations of a `ConfigResolver`.
pub record Hierarchy : Type 0 where
  pub global_config : FeatureConfig
  pub publisher_configs : List (String × PublisherConfig)

unfoldable pub get_site : List SiteConfig → String → Option SiteConfig
get_site [] site_id = none
get_site (s ∷ sites) site_id = if s.site_id == site_id then some s else get_site sites site_id

unfoldable pub get_unit : List AdUnitConfig → String → Option AdUnitConfig
get_unit [] unit_id = none
get_unit (u ∷ units) unit_id = if u.unit_id == unit_id then some u else get_unit units unit_id

-- `if features.config_id: merged = merge_configs(features, merged)`
abbrev pub merge_level : FeatureConfig → FeatureConfig → FeatureConfig
merge_level features merged =
    if features.config_id == "" then merged else merge_configs features merged

unfoldable pub merged_for_ad_unit : Hierarchy → String → String → String → FeatureConfig
merged_for_ad_unit r publisher_id site_id unit_id = elim (lookup r.publisher_configs publisher_id) [
  | none ↦ r.global_config
  | some publisher ↦
      let merged = merge_level publisher.features r.global_config in
      elim (get_site publisher.sites site_id) [
        | none ↦ merged
        | some site ↦
            let merged' = merge_level site.features merged in
            elim (get_unit site.ad_units unit_id) [
              | none ↦ merged'
              | some unit ↦ merge_level unit.features merged'
            ]
      ]
]

-- `get_val`: the value of the settings, or of the default settings.
abbrev pub get_val {ℓ} : {A : Type ℓ} → Option A → Option A → Option A
get_val none default = default
get_val (some v) default = some v

-- `v or d`, where None, False, zero and the empty list are falsy.
abbrev pub bool_or : Option Bool → Bool → Bool
bool_or none d = d
bool_or (some v) d = v || d

abbrev pub nat_or : Option ℕ → ℕ → ℕ
nat_or none d = d
nat_or (some v) d = if v == 0 then d else v

abbrev pub list_or : Option (List String) → List String → List String
list_or none d = d
list_or (some v) d = if null v then d else v

-- `v if v is not None else d`
abbrev pub if_set : Option Bool → Bool → Bool
if_set none d = d
if_set (some v) d = v

-- `config.idr or default.idr`
abbrev pub section_or {ℓ} : {A : Type ℓ} → Option A → A → A
section_or none d = d
section_or (some s) d = s

unfoldable pub idr_enabled : FeatureConfig → Bool
idr_enabled config =
    bool_or (get_val (section_or config.idr default_idr).enabled default_idr.enabled) true

unfoldable pub to_resolved_config : FeatureConfig → ResolvedConfig
to_resolved_config config =
    let idr = section_or config.idr default_idr in
    let privacy = section_or config.privacy default_privacy in
    let d = default_idr in
    record {
      bypass_enabled = bool_or (get_val idr.bypass_enabled d.bypass_enabled) false;
      shadow_mode = bool_or (get_val idr.shadow_mode d.shadow_mode) false;
      privacy_enabled =
          if_set (get_val privacy.privacy_enabled default_privacy.privacy_enabled) true;
      privacy_strict_mode =
          bool_or (get_val privacy.privacy_strict_mode default_privacy.privacy_strict_mode) false;
      max_bidders = nat_or (get_val idr.max_bidders d.max_bidders) 15;
      min_score_threshold =
          nat_or (get_val idr.min_score_threshold d.min_score_threshold) 0x4039000000000000;
      exploration_enabled = if_set (get_val idr.exploration_enabled d.exploration_enabled) true;
      exploration_rate =
          nat_or (get_val idr.exploration_rate d.exploration_rate) 0x3fb999999999999a;
      exploration_slots = nat_or (get_val idr.exploration_slots d.exploration_slots) 2;
      low_confidence_threshold =
          nat_or (get_val idr.low_confidence_threshold d.low_confidence_threshold)
            0x3fe0000000000000;
      exploration_confidence_threshold =
          nat_or (get_val idr.exploration_confidence_threshold d.exploration_confidence_threshold)
            0x3fd3333333333333;
      anchor_bidders_enabled =
          if_set (get_val idr.anchor_bidders_enabled d.anchor_bidders_enabled) true;
      anchor_bidder_count = nat_or (get_val idr.anchor_bidder_count d.anchor_bidder_count) 3;
      custom_anchor_bidders =
          list_or (get_val idr.custom_anchor_bidders d.custom_anchor_bidders) [];
      diversity_enabled = if_set (get_val idr.diversity_enabled d.diversity_enabled) true;
      diversity_categories =
          list_or (get_val idr.diversity_categories d.diversity_categories)
            ("premium" ∷ ("mid_tier" ∷ ("video_specialist" ∷ ("native" ∷ []))));
    }
