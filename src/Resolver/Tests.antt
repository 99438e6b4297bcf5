-- ===== src/Resolver/Tests.antt =====
-- The resolver on a small hierarchy, and its theorems at it.
use thenexusengine.Common.{
  ℕ, String, string_eq, Option, List, map, ◌≤◌, ◌≡◌, refl, true, false, none, some, [], ◌∷◌,
}
use thenexusengine.Resolver.Settings.{
  IdrSettings, FeatureConfig, default_idr, default_privacy, merge_idr, merge_configs,
}
use thenexusengine.Common.Dicts.{dict_set}
use thenexusengine.Common.Text.{has_part, starts_with, count_char}
use thenexusengine.Resolver.Resolved.{cache_key, fresh, walk, for_publisher, for_site}
use thenexusengine.Resolver.Cache.{
  init, resolve_for, apply, change, save_site, import_configs, import_publishers, put_site,
  clear_publisher_cache,
}
use thenexusengine.Resolver.Refinement.{
  Action, asks, changes, Answer, answered, returned, perform, run, specify, specification,
  run_refines,
}
use mathlib.Core.Option
use thenexusengine.Resolver.Store
use thenexusengine.Resolver.Store.{
  no_memory, stored_unit, save_ad_units, save_ad_unit, load_site, load_ad_units, load_ad_unit,
  load_each, ids_behind, remove_from, text_length,
}
use thenexusengine.Resolver.Saved.{load_ad_units-save_ad_units}
use thenexusengine.Resolver.Resolve.{
  SiteConfig, AdUnitConfig, Hierarchy, get_site, get_unit, merged_for_ad_unit, to_resolved_config,
  idr_enabled,
}
use thenexusengine.Resolver.Precedence.{with_numbers, resolved_with, to_resolved_config_positive}

abbrev unset : IdrSettings
unset = record {
  enabled = none;
  bypass_enabled = none;
  shadow_mode = none;
  max_bidders = none;
  min_score_threshold = none;
  exploration_enabled = none;
  exploration_rate = none;
  exploration_slots = none;
  low_confidence_threshold = none;
  exploration_confidence_threshold = none;
  anchor_bidders_enabled = none;
  anchor_bidder_count = none;
  custom_anchor_bidders = none;
  diversity_enabled = none;
  diversity_categories = none;
}

abbrev resolver : Hierarchy
resolver = record {
  global_config = record {
    config_id = "global";
    idr = some default_idr;
    privacy = some default_privacy;
  };
  publisher_configs =
      (
        "p",
        record {
          publisher_id = "p";
          sites =
              record {
                site_id = "s";
                ad_units =
                    record {
                      unit_id = "u";
                      features = record { config_id = "u1"; idr = some unset; privacy = none };
                    }
                    ∷ [];
                features = record {
                  config_id = "s1";
                  idr = some (record unset { max_bidders = some 4; exploration_slots = some 0 });
                  privacy = none;
                };
              }
              ∷ [];
          features = record {
            config_id = "p1";
            idr = some (record unset { max_bidders = some 9 });
            privacy = none;
          };
        },
      )
      ∷ [];
}

-- The site sets a value, its ad unit does not. An explicit 0 becomes the default.
resolved :
    ((to_resolved_config (merged_for_ad_unit resolver "p" "s" "u")).max_bidders ≡ 4)
    × ((to_resolved_config (merged_for_ad_unit resolver "p" "s" "u")).exploration_slots ≡ 2)
unfolding to_resolved_config merged_for_ad_unit merge_configs merge_idr get_site get_unit
resolved = (refl, refl)

abbrev off : FeatureConfig
off = record {
  config_id = "off";
  idr = some (record unset { enabled = some false; max_bidders = some 0 });
  privacy = none;
}

to_resolved_config_positive_example :
    let resolved = to_resolved_config off in
    let zeros = resolved_with off (with_numbers unset 0 0 0 0 0 0 0 false) in
    let set = resolved_with off (with_numbers unset 1 2 3 4 5 6 7 true) in
    ((1 ≤ resolved.max_bidders)
      × (1 ≤ resolved.min_score_threshold)
      × (1 ≤ resolved.exploration_rate)
      × (1 ≤ resolved.exploration_slots)
      × (1 ≤ resolved.low_confidence_threshold)
      × (1 ≤ resolved.exploration_confidence_threshold)
      × (1 ≤ resolved.anchor_bidder_count)
      × (idr_enabled off ≡ true))
    × ((zeros.max_bidders ≡ 15)
        × (zeros.min_score_threshold ≡ 0x4039000000000000)
        × (zeros.exploration_rate ≡ 0x3fb999999999999a)
        × (zeros.exploration_slots ≡ 2)
        × (zeros.low_confidence_threshold ≡ 0x3fe0000000000000)
        × (zeros.exploration_confidence_threshold ≡ 0x3fd3333333333333)
        × (zeros.anchor_bidder_count ≡ 3)
        × (idr_enabled (record off { idr = some (with_numbers unset 0 0 0 0 0 0 0 false) }) ≡ true))
    × ((set.max_bidders ≡ 1)
        × (set.min_score_threshold ≡ 2)
        × (set.exploration_rate ≡ 3)
        × (set.exploration_slots ≡ 4)
        × (set.low_confidence_threshold ≡ 5)
        × (set.exploration_confidence_threshold ≡ 6)
        × (set.anchor_bidder_count ≡ 7))
to_resolved_config_positive_example = to_resolved_config_positive off unset 0 1 2 3 4 5 6

-- A resolver asked twice, with a change of the site between.
abbrev site : SiteConfig
site = record {
  site_id = "s";
  ad_units = [];
  features = record {
    config_id = "s2";
    idr = some (record unset { max_bidders = some 6 });
    privacy = none;
  };
}

abbrev actions : List Action
actions = asks (for_site "p" "s") ∷ (changes (save_site "p" site) ∷ (asks (for_site "p" "s") ∷ []))

run_refines_example : run actions (init resolver) ≡ specification actions resolver
unfolding count_char
run_refines_example = run_refines actions resolver ((refl, refl), (tt, ((refl, refl), tt)))

-- Without the cleared cache the second answer would be the first one.
abbrev max_bidders_of : Answer → ℕ
max_bidders_of (answered v) = v.settings.max_bidders
max_bidders_of (returned b) = 0

answers : map max_bidders_of (run actions (init resolver)) ≡ 4 ∷ (0 ∷ (6 ∷ []))
unfolding run perform resolve_for apply change cache_key fresh walk to_resolved_config merge_configs
    merge_idr get_site put_site clear_publisher_cache has_part starts_with dict_set
answers = refl

-- The site `b:c` of the publisher `a` and the site `c` of the publisher `a:b` share a key.
shared_key : cache_key (for_site "a" "b:c") ≡ cache_key (for_site "a:b" "c")
unfolding cache_key
shared_key = refl

-- An import that an exception ends has changed the global configuration, and the cache still has
-- the old answer.
abbrev stale : List Action
stale =
    asks (for_publisher "q")
    ∷ (changes (
          import_configs
            (some (record {
              config_id = "global";
              idr = some (record default_idr { max_bidders = some 2 });
              privacy = none;
            }))
            (("x", none) ∷ []))
        ∷ (asks (for_publisher "q") ∷ []))

stale_answers :
    (map max_bidders_of (run stale (init resolver)) ≡ 15 ∷ (0 ∷ (15 ∷ [])))
    × (map max_bidders_of (specification stale resolver) ≡ 15 ∷ (0 ∷ (2 ∷ [])))
unfolding run specification specify perform resolve_for apply change import_publishers cache_key
    fresh walk to_resolved_config merge_configs merge_idr dict_set
stale_answers = (refl, refl)

abbrev unit_named : String → Option IdrSettings → AdUnitConfig
unit_named id idr = record {
  unit_id = id;
  features = record { config_id = ""; idr = idr; privacy = some default_privacy };
}

-- The last one has no section for the router and is not stored.
abbrev units : List AdUnitConfig
units =
    unit_named "top" (some unset) ∷ (unit_named "side" (some unset) ∷ (unit_named "bad" none ∷ []))

load_ad_units-save_ad_units_example :
    load_ad_units "p" "s" (save_ad_units "p" "s" units no_memory)
    ≡ map stored_unit (unit_named "top" (some unset) ∷ (unit_named "side" (some unset) ∷ []))
unfolding has_part starts_with
load_ad_units-save_ad_units_example =
    load_ad_units-save_ad_units "p" "s" units no_memory tt (refl, (refl, (refl, tt)))
      (refl, (refl, (refl, tt)))

abbrev site_of : List AdUnitConfig → SiteConfig
site_of ad_units = record {
  site_id = "s";
  ad_units = ad_units;
  features = record { config_id = ""; idr = some unset; privacy = some default_privacy };
}

-- A site that is saved without an ad unit still has it when it is loaded.
kept_unit :
    Option.map
      (λ (s : SiteConfig). map (λ (u : AdUnitConfig). u.unit_id) s.ad_units)
      (load_site "p"
        (Store.save_site "p" (site_of []) (Store.save_site "p" (site_of units) no_memory).1).1
        "s")
    ≡ some ("top" ∷ ("side" ∷ []))
unfolding Store.save_site save_ad_units save_ad_unit load_site load_ad_units load_ad_unit load_each
    ids_behind remove_from text_length starts_with dict_set
kept_unit = refl
