-- ===== src/Resolver/Store.antt =====
-- src/idr/config/config_store.py: `ConfigStore` without a database, in memory. Its one dictionary is
-- modelled by one for each beginning of the keys, `publisher:`, `site:` and `ad_unit:`, with whole
-- keys, and the dictionary of a configuration by the configuration. That a save also sets
-- `config_id` in the object that it is given is left out.
use thenexusengine.Common.{
  ℕ, zero, suc, ◌-◌, String, Bool, true, false, ◌&&◌, is_some, Option, none, some, List, [], ◌∷◌,
  if◌then◌else◌, string_eq,
}
use mathlib.Core.Option
use thenexusengine.Common.Members.{lookup}
use thenexusengine.Common.Dicts.{dict_set, dict_del}
use thenexusengine.Common.Text.{concat, starts_with}
use thenexusengine.Resolver.Settings.{FeatureConfig, default_idr, default_privacy}
use thenexusengine.Resolver.Resolve.{AdUnitConfig, SiteConfig, PublisherConfig}

pub record SiteData : Type 0 where
  pub site_id : String
  pub features : FeatureConfig

pub record PublisherData : Type 0 where
  pub publisher_id : String
  pub features : FeatureConfig

pub record Memory : Type 0 where
  pub global : Option FeatureConfig
  pub publishers : List (String × PublisherData)
  pub sites : List (String × SiteData)
  pub ad_units : List (String × AdUnitConfig)

abbrev pub no_memory : Memory
no_memory = record { global = none; publishers = []; sites = []; ad_units = [] }

abbrev pub site_prefix : String → String
site_prefix p = concat "site:" (concat p ":")

abbrev pub unit_prefix : String → String → String
unit_prefix p s = concat "ad_unit:" (concat p (concat ":" (concat s ":")))

abbrev pub with_id : String → FeatureConfig → FeatureConfig
with_id config_id features = record features { config_id = config_id }

-- `len(s)`, and `s.replace(part, "")` after some characters that are skipped.
unfoldable pub text_length : String → ℕ
text_length String.[] = 0
text_length (String.◌∷◌ c s) = suc (text_length s)

unfoldable pub remove_from : String → ℕ → String → String
remove_from part n String.[] = ""
remove_from part (suc n) (String.◌∷◌ c s) = remove_from part n s
remove_from part zero (String.◌∷◌ c s) =
    let rest = remove_from part zero s in
    let dropped = remove_from part (text_length part - 1) s in
    if starts_with (String.◌∷◌ c s) part then dropped else String.◌∷◌ c rest

-- The identifiers behind a prefix, of some keys.
unfoldable pub ids_behind : {A : Type 0} → String → List (String × A) → List String
ids_behind part [] = []
ids_behind part ((k, v) ∷ entries) =
    let rest = ids_behind part entries in
    if starts_with k part then remove_from part 0 k ∷ rest else rest

-- Whether `to_dict` gives a dictionary: it raises `AttributeError` where a section is None, which the
-- save catches, to return False with nothing stored. The sections that are not modelled are taken as
-- there. A dictionary without the values that are None is read back as the same settings.
abbrev pub has_sections : FeatureConfig → Bool
has_sections features = is_some features.idr && is_some features.privacy

-- The ad unit as it is stored.
abbrev pub stored_unit : AdUnitConfig → AdUnitConfig
stored_unit u = record u { features = with_id (concat "ad_unit:" u.unit_id) u.features }

abbrev pub set_unit :
    String → String → List (String × AdUnitConfig) → AdUnitConfig → List (String × AdUnitConfig)
set_unit p s units u = dict_set units (concat (unit_prefix p s) u.unit_id) (stored_unit u)

unfoldable pub save_ad_unit : String → String → AdUnitConfig → Memory → Bool × Memory
save_ad_unit p s u m =
    if has_sections u.features
    then (true, record m { ad_units = set_unit p s m.ad_units u })
    else (false, m)

unfoldable pub save_ad_units : String → String → List AdUnitConfig → Memory → Memory
save_ad_units p s [] m = m
save_ad_units p s (u ∷ units) m = save_ad_units p s units (save_ad_unit p s u m).1

unfoldable pub save_site : String → SiteConfig → Memory → Bool × Memory
save_site p site m =
    let stored : Memory = record m {
      sites = dict_set m.sites (concat (site_prefix p) site.site_id) (record {
        site_id = site.site_id;
        features = with_id (concat "site:" site.site_id) site.features;
      });
    } in
    if has_sections site.features
    then (true, save_ad_units p site.site_id site.ad_units stored)
    else (false, m)

unfoldable pub save_sites : String → List SiteConfig → Memory → Memory
save_sites p [] m = m
save_sites p (site ∷ sites) m = save_sites p sites (save_site p site m).1

unfoldable pub save_publisher : PublisherConfig → Memory → Bool × Memory
save_publisher config m =
    let stored : Memory = record m {
      publishers = dict_set m.publishers (concat "publisher:" config.publisher_id) (record {
        publisher_id = config.publisher_id;
        features = with_id (concat "publisher:" config.publisher_id) config.features;
      });
    } in
    if has_sections config.features
    then (true, save_sites config.publisher_id config.sites stored)
    else (false, m)

unfoldable pub save_global_config : FeatureConfig → Memory → Bool × Memory
save_global_config config m =
    if has_sections config
    then (true, record m { global = some (with_id "global" config) })
    else (false, m)

-- `get_default_global_config`
abbrev pub default_global_config : FeatureConfig
default_global_config = record {
  config_id = "global";
  idr = some default_idr;
  privacy = some default_privacy;
}

unfoldable pub load_global_config : Memory → FeatureConfig
load_global_config m = Option.get_or m.global default_global_config

unfoldable pub load_ad_unit : String → String → Memory → String → Option AdUnitConfig
load_ad_unit p s m u = lookup m.ad_units (concat (unit_prefix p s) u)

-- The loop of `load_ad_units` over the identifiers.
unfoldable pub load_each {ℓ} : {A : Type ℓ} → (String → Option A) → List String → List A
load_each load [] = []
load_each load (id ∷ ids) =
    let rest = load_each load ids in elim (load id) [ none ↦ rest | some a ↦ a ∷ rest ]

unfoldable pub load_ad_units : String → String → Memory → List AdUnitConfig
load_ad_units p s m = load_each (load_ad_unit p s m) (ids_behind (unit_prefix p s) m.ad_units)

unfoldable pub load_site : String → Memory → String → Option SiteConfig
load_site p m s = elim (lookup m.sites (concat (site_prefix p) s)) [
  | none ↦ none
  | some row ↦
      some
        (record { site_id = row.site_id; features = row.features; ad_units = load_ad_units p s m })
]

unfoldable pub load_sites : String → Memory → List SiteConfig
load_sites p m = load_each (load_site p m) (ids_behind (site_prefix p) m.sites)

unfoldable pub load_publisher : Memory → String → Option PublisherConfig
load_publisher m p = elim (lookup m.publishers (concat "publisher:" p)) [
  | none ↦ none
  | some row ↦
      some (record {
        publisher_id = row.publisher_id;
        features = row.features;
        sites = load_sites p m;
      })
]

unfoldable pub list_publishers : Memory → List String
list_publishers m = ids_behind "publisher:" m.publishers

-- The loop of `load_all_publishers`.
unfoldable pub load_publishers :
    Memory → List String → List (String × PublisherConfig) → List (String × PublisherConfig)
load_publishers m [] publishers = publishers
load_publishers m (p ∷ ids) publishers = elim (load_publisher m p) [
  | none ↦ load_publishers m ids publishers
  | some config ↦ load_publishers m ids (dict_set publishers p config)
]

unfoldable pub load_all_publishers : Memory → List (String × PublisherConfig)
load_all_publishers m = load_publishers m (list_publishers m) []

unfoldable pub delete_ad_unit : String → String → String → Memory → Memory
delete_ad_unit p s u m = record m { ad_units = dict_del m.ad_units (concat (unit_prefix p s) u) }

unfoldable pub delete_ad_units : String → String → List AdUnitConfig → Memory → Memory
delete_ad_units p s [] m = m
delete_ad_units p s (u ∷ units) m = delete_ad_units p s units (delete_ad_unit p s u.unit_id m)

unfoldable pub delete_site : String → String → Memory → Memory
delete_site p s m =
    let cleared = delete_ad_units p s (load_ad_units p s m) m in
    record cleared { sites = dict_del cleared.sites (concat (site_prefix p) s) }

unfoldable pub delete_sites : String → List SiteConfig → Memory → Memory
delete_sites p [] m = m
delete_sites p (site ∷ sites) m = delete_sites p sites (delete_site p site.site_id m)

unfoldable pub delete_publisher : String → Memory → Memory
delete_publisher p m =
    let cleared = delete_sites p (load_sites p m) m in
    record cleared { publishers = dict_del cleared.publishers (concat "publisher:" p) }
