-- ===== src/Resolver/Cache.antt =====
-- src/idr/config/config_resolver.py: `ConfigResolver`, its cache and the operations that change its
-- configurations. What they write to the store after that is left out. The lists of a publisher are
-- changed in place; no other publisher shares them.
use thenexusengine.Common.{
  String, Bool, true, false, not, Option, none, some, List, [], ◌∷◌, filter, if◌then◌else◌, ◌==◌,
  string_eq,
}
use thenexusengine.Common.Members.{lookup}
use thenexusengine.Common.Dicts.{dict_set, dict_del}
use thenexusengine.Common.Text.{has_part}
use thenexusengine.Resolver.Settings.{FeatureConfig}
use thenexusengine.Resolver.Resolve.{AdUnitConfig, SiteConfig, PublisherConfig, Hierarchy, get_site}
use thenexusengine.Resolver.Resolved.{Query, Resolved, cache_key, fresh}

pub record ConfigResolver : Type 0 where
  pub configs : Hierarchy
  pub resolved_cache : List (String × Resolved)

abbrev pub init : Hierarchy → ConfigResolver
init h = record { configs = h; resolved_cache = [] }

-- `resolve_for_publisher`, `resolve_for_site` and `resolve_for_ad_unit`.
unfoldable pub resolve_for : Query → ConfigResolver → Resolved × ConfigResolver
resolve_for q r = elim (lookup r.resolved_cache (cache_key q)) [
  | some resolved ↦ (resolved, r)
  | none ↦
      let resolved = fresh r.configs q in
      (resolved, record r { resolved_cache = dict_set r.resolved_cache (cache_key q) resolved })
]

-- The list with a site or an ad unit in the place of the first with its identifier, or at the end.
unfoldable pub put_site : List SiteConfig → SiteConfig → List SiteConfig
put_site [] site = site ∷ []
put_site (s ∷ sites) site =
    if s.site_id == site.site_id then site ∷ sites else s ∷ put_site sites site

unfoldable pub put_unit : List AdUnitConfig → AdUnitConfig → List AdUnitConfig
put_unit [] unit = unit ∷ []
put_unit (u ∷ units) unit =
    if u.unit_id == unit.unit_id then unit ∷ units else u ∷ put_unit units unit

-- The change of a site object that stands in the list of a publisher.
unfoldable pub change_site :
    List SiteConfig → String → (List AdUnitConfig → List AdUnitConfig) → List SiteConfig
change_site [] site_id change = []
change_site (s ∷ sites) site_id change =
    if s.site_id == site_id
    then record s { ad_units = change s.ad_units } ∷ sites
    else s ∷ change_site sites site_id change

-- The operations that change configurations.
pub data Change : Type 0 where
  set_global_config : FeatureConfig → Change
  register_publisher : PublisherConfig → Change
  delete_publisher : (publisher_id : String) → Change
  save_site : (publisher_id : String) → SiteConfig → Change
  delete_site : (publisher_id site_id : String) → Change
  save_ad_unit : (publisher_id site_id : String) → AdUnitConfig → Change
  delete_ad_unit : (publisher_id site_id unit_id : String) → Change
  -- the global configuration of the data, if any, and its publishers, where `none` is an exception
  -- of the parser
  import_configs : Option FeatureConfig → List (String × Option PublisherConfig) → Change
  -- what the store answers, where `none` is an exception
  sync_from_store : Option FeatureConfig → Option (List (String × PublisherConfig)) → Change

-- What an operation does: nothing, where it returns False; a change; or a part of one that an
-- exception ends, where it returns False and the cache is left as it is.
pub data Changed : Type 0 where
  refused : Changed
  done : Hierarchy → Changed
  broken : Hierarchy → Changed

abbrev pub set_publisher : Hierarchy → String → PublisherConfig → Hierarchy
set_publisher h publisher_id config = record h {
  publisher_configs = dict_set h.publisher_configs publisher_id config;
}

-- `publisher.sites` after a change.
abbrev pub with_sites : Hierarchy → String → PublisherConfig → List SiteConfig → Hierarchy
with_sites h publisher_id config sites =
    set_publisher h publisher_id (record config { sites = sites })

-- The loop of `import_configs` over the publishers.
unfoldable pub import_publishers : List (String × Option PublisherConfig) → Hierarchy → Changed
import_publishers [] h = done h
import_publishers ((p, none) ∷ imported) h = broken h
import_publishers ((p, some config) ∷ imported) h =
    import_publishers imported (set_publisher h p config)

unfoldable pub change : Change → Hierarchy → Changed
change (set_global_config config) h = done (record h { global_config = config })
change (register_publisher config) h = done (set_publisher h config.publisher_id config)
change (delete_publisher p) h = elim (lookup h.publisher_configs p) [
  | none ↦ refused
  | some _ ↦ done (record h { publisher_configs = dict_del h.publisher_configs p })
]
change (save_site p site) h = elim (lookup h.publisher_configs p) [
  | none ↦ refused
  | some config ↦ done (with_sites h p config (put_site config.sites site))
]
change (delete_site p s) h = elim (lookup h.publisher_configs p) [
  | none ↦ refused
  | some config ↦ done (with_sites h p config (filter (λ x. not (x.site_id == s)) config.sites))
]
change (save_ad_unit p s unit) h = elim (lookup h.publisher_configs p) [
  | none ↦ refused
  | some config ↦ elim (get_site config.sites s) [
    | none ↦ refused
    | some _ ↦
        done (with_sites h p config (change_site config.sites s (λ units. put_unit units unit)))
  ]
]
change (delete_ad_unit p s u) h = elim (lookup h.publisher_configs p) [
  | none ↦ refused
  | some config ↦ elim (get_site config.sites s) [
    | none ↦ refused
    | some _ ↦
        done
          (with_sites h p config (change_site config.sites s (filter (λ x. not (x.unit_id == u)))))
  ]
]
change (import_configs global publishers) h =
    import_publishers publishers
      (elim global [ none ↦ h | some config ↦ record h { global_config = config } ])
change (sync_from_store global publishers) h = done (elim global [
  | none ↦ h
  | some config ↦ elim publishers [
    | none ↦ record h { global_config = config }
    | some loaded ↦ record { global_config = config; publisher_configs = loaded }
  ]
])

-- The publisher whose entries `_clear_publisher_cache` drops; without one the whole cache is cleared.
abbrev pub publisher_of : Change → Option String
publisher_of (set_global_config _) = none
publisher_of (register_publisher config) = some config.publisher_id
publisher_of (delete_publisher p) = some p
publisher_of (save_site p _) = some p
publisher_of (delete_site p _) = some p
publisher_of (save_ad_unit p _ _) = some p
publisher_of (delete_ad_unit p _ _) = some p
publisher_of (import_configs _ _) = none
publisher_of (sync_from_store _ _) = none

-- `_clear_publisher_cache`
unfoldable pub clear_publisher_cache : String → List (String × Resolved) → List (String × Resolved)
clear_publisher_cache publisher_id cache =
    filter (λ (e : String × Resolved). not (has_part e.0 publisher_id)) cache

abbrev pub clear_for : Option String → List (String × Resolved) → List (String × Resolved)
clear_for none cache = []
clear_for (some p) cache = clear_publisher_cache p cache

unfoldable pub apply : Change → ConfigResolver → Bool × ConfigResolver
apply c r = elim (change c r.configs) [
  | refused ↦ (false, r)
  | done configs ↦ (
    true,
    record { configs = configs; resolved_cache = clear_for (publisher_of c) r.resolved_cache },
  )
  | broken configs ↦ (false, record r { configs = configs })
]
