-- ===== src/Resolver/Resolved.antt =====
-- src/idr/config/config_resolver.py: what `resolve_for_publisher`, `resolve_for_site`,
-- `resolve_for_ad_unit` and `resolve` compute where the cache has no answer.
use thenexusengine.Common.{
  ◌≡◌, String, none, some, List, [], ◌∷◌, ◌++◌, if◌then◌else◌, ◌==◌, string_eq, arith,
}
use thenexusengine.Common.Members.{lookup}
use thenexusengine.Common.Text.{concat}
use thenexusengine.Selector.Config.{ResolvedConfig}
use thenexusengine.Resolver.Settings.{FeatureConfig}
use thenexusengine.Resolver.Resolve.{
  Hierarchy, get_site, get_unit, merge_level, merged_for_ad_unit, to_resolved_config,
}

pub data ConfigLevel : Type 0 where
  global publisher site ad_unit : ConfigLevel

-- A `ResolvedConfig` with what names it.
pub record Resolved : Type 0 where
  pub config_id : String
  pub config_level : ConfigLevel
  pub resolution_chain : List String
  pub settings : ResolvedConfig

-- What is asked for: the arguments of the three methods.
pub data Query : Type 0 where
  for_publisher : (publisher_id : String) → Query
  for_site : (publisher_id site_id : String) → Query
  for_ad_unit : (publisher_id site_id unit_id : String) → Query

-- `cache_key`
unfoldable pub cache_key : Query → String
cache_key (for_publisher p) = concat "publisher:" p
cache_key (for_site p s) = concat "site:" (concat p (concat ":" s))
cache_key (for_ad_unit p s u) = concat "ad_unit:" (concat p (concat ":" (concat s (concat ":" u))))

-- A merged configuration with its `resolution_chain`, and one level more.
abbrev pub Walk : Type 0
Walk = FeatureConfig × List String

abbrev pub walk_level : String → FeatureConfig → Walk → Walk
walk_level name features (merged, chain) =
    if features.config_id == ""
    then (merged, chain)
    else (merge_level features merged, chain ++ name ∷ [])

abbrev pub walk_global : Hierarchy → Walk
walk_global h = (h.global_config, "global" ∷ [])

unfoldable pub walk : Hierarchy → Query → Walk
walk h (for_publisher p) = elim (lookup h.publisher_configs p) [
  | none ↦ walk_global h
  | some pub_config ↦ walk_level (concat "publisher:" p) pub_config.features (walk_global h)
]
walk h (for_site p s) = elim (lookup h.publisher_configs p) [
  | none ↦ walk_global h
  | some pub_config ↦
      let walked = walk_level (concat "publisher:" p) pub_config.features (walk_global h) in
      elim (get_site pub_config.sites s) [
        | none ↦ walked
        | some site_config ↦ walk_level (concat "site:" s) site_config.features walked
      ]
]
walk h (for_ad_unit p s u) = elim (lookup h.publisher_configs p) [
  | none ↦ walk_global h
  | some pub_config ↦
      let walked = walk_level (concat "publisher:" p) pub_config.features (walk_global h) in
      elim (get_site pub_config.sites s) [
        | none ↦ walked
        | some site_config ↦
            let walked' = walk_level (concat "site:" s) site_config.features walked in
            elim (get_unit site_config.ad_units u) [
              | none ↦ walked'
              | some unit ↦ walk_level (concat "ad_unit:" u) unit.features walked'
            ]
      ]
]

abbrev pub level_of : Query → ConfigLevel
level_of (for_publisher p) = ConfigLevel.publisher
level_of (for_site p s) = ConfigLevel.site
level_of (for_ad_unit p s u) = ConfigLevel.ad_unit

-- The answer that the configurations give.
unfoldable pub fresh : Hierarchy → Query → Resolved
fresh h q = record {
  config_id = cache_key q;
  config_level = level_of q;
  resolution_chain = (walk h q).1;
  settings = to_resolved_config (walk h q).0;
}

-- The merge of `walk` is that of `merged_for_ad_unit`.
pub walk-merged :
    (h : Hierarchy) (p s u : String) → (walk h (for_ad_unit p s u)).0 ≡ merged_for_ad_unit h p s u
unfolding walk merged_for_ad_unit
walk-merged h p s u = ground arith
