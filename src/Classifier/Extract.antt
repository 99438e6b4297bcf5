-- ===== src/Classifier/Extract.antt =====
-- src/idr/classifier/request_classifier.py: the methods on an impression, a device and a source.
use thenexusengine.Common.{
  ℕ, suc, String, Bool, ◌&&◌, ◌||◌, Option, none, some, List, [], ◌∷◌, ◌++◌, null, if◌then◌else◌,
  ◌==◌, string_eq, nat_eq,
}
use mathlib.Core.Option
use thenexusengine.Common.Members.{contains, lookup}
use thenexusengine.Common.Text.{concat, is_empty, lower, has_part, before, after, ends_with}
use thenexusengine.Common.Text.Decimal.{show}
use thenexusengine.Request.{AdFormat, AdPosition, DeviceType}
use thenexusengine.Classifier.Ortb.{
  Size, Imp, no_imp, no_banner, has_banner, has_video, Device, Source, has_source, no_content,
}

-- What `parse_user_agent` of src/idr/utils/user_agent.py returns, as far as it is read.
pub record ParsedUserAgent : Type 0 where
  pub browser : String
  pub os : String
  pub is_mobile : Bool
  pub is_tablet : Bool

-- `value or other`, where a text may be missing.
abbrev pub or_else : Option String → String → String
or_else none other = other
or_else (some s) other = if is_empty s then other else s

abbrev pub nonempty : Option String → Option String
nonempty none = none
nonempty (some s) = if is_empty s then none else some s

abbrev pub get_first_impression : List Imp → Imp
get_first_impression [] = no_imp
get_first_impression (imp ∷ imps) = imp

unfoldable pub determine_format : Imp → AdFormat
determine_format imp =
    if has_video imp.video
    then AdFormat.video
    else if imp.native
    then AdFormat.native
    else if imp.audio
    then AdFormat.audio
    else AdFormat.banner

-- `if w and h: sizes.append(f"{w}x{h}")`
abbrev pub sized : Option ℕ → Option ℕ → List String
sized (some (suc w)) (some (suc h)) = concat (show (suc w)) (concat "x" (show (suc h))) ∷ []
sized w h = []

abbrev pub size_text : Size → List String
size_text s = sized s.w s.h

unfoldable pub format_sizes : List Size → List String
format_sizes [] = []
format_sizes (s ∷ sizes) = size_text s ++ format_sizes sizes

unfoldable pub extract_sizes : Imp → List String
extract_sizes imp =
    let banner = Option.get_or imp.banner no_banner in
    let formats = format_sizes banner.format in
    let banner_sizes =
      if has_banner banner then (if null formats then size_text banner.size else formats) else [] in
    elim imp.video [
      | none ↦ banner_sizes
      | some video ↦
          if has_video (some video) && null banner_sizes then size_text video.size else banner_sizes
    ]

-- POSITION_MAP
abbrev pub position_map : List (ℕ × String)
position_map =
    (0, "unknown")
    ∷ ((1, "atf")
        ∷ ((2, "unknown")
            ∷ ((3, "btf")
                ∷ ((4, "unknown") ∷ ((5, "unknown") ∷ ((6, "unknown") ∷ ((7, "unknown") ∷ [])))))))

-- `AdPosition(text)`, where `none` is a ValueError.
abbrev pub ad_position : String → Option AdPosition
ad_position text =
    if text == "atf"
    then some AdPosition.atf
    else if text == "btf"
    then some AdPosition.btf
    else if text == "unknown"
    then some AdPosition.unknown
    else none

unfoldable pub determine_position : Imp → AdPosition
determine_position imp =
    let pos = Option.get_or (Option.get_or imp.banner no_banner).pos 0 in
    Option.get_or (ad_position (Option.get_or (lookup position_map pos) "unknown"))
      AdPosition.unknown

-- OPENRTB_DEVICE_TYPE_MAP
abbrev pub openrtb_device_type_map : List (ℕ × String)
openrtb_device_type_map =
    (1, "mobile")
    ∷ ((2, "desktop")
        ∷ ((3, "ctv") ∷ ((4, "mobile") ∷ ((5, "tablet") ∷ ((6, "ctv") ∷ ((7, "ctv") ∷ []))))))

-- CONNECTION_TYPE_MAP
abbrev pub connection_type_map : List (ℕ × String)
connection_type_map =
    (0, "unknown")
    ∷ ((1, "ethernet")
        ∷ ((2, "wifi")
            ∷ ((3, "cellular_unknown")
                ∷ ((4, "2g") ∷ ((5, "3g") ∷ ((6, "4g") ∷ ((7, "5g") ∷ [])))))))

-- `DeviceType(text)`, where `none` is a ValueError.
abbrev pub device_type_of : String → Option DeviceType
device_type_of text =
    if text == "desktop"
    then some DeviceType.desktop
    else if text == "mobile"
    then some DeviceType.mobile
    else if text == "tablet"
    then some DeviceType.tablet
    else if text == "ctv"
    then some DeviceType.ctv
    else none

-- The type that the device states, if it is a known one.
abbrev pub stated_type : Option ℕ → Option DeviceType
stated_type none = none
stated_type (some id) = elim (lookup openrtb_device_type_map id) [
  | none ↦ none
  | some text ↦ device_type_of text
]

unfoldable pub classify_device : Device → ParsedUserAgent → DeviceType
classify_device device ua = elim (stated_type device.devicetype) [
  | some stated ↦ stated
  | none ↦
      let os_lower = lower (Option.get_or device.os "") in
      if ua.is_tablet
      then DeviceType.tablet
      else if ua.is_mobile
      then DeviceType.mobile
      else if contains ("ios" ∷ ("android" ∷ [])) os_lower
      then DeviceType.mobile
      else if contains ("tvos" ∷ ("tizen" ∷ ("webos" ∷ ("roku" ∷ [])))) os_lower
      then DeviceType.ctv
      else DeviceType.desktop
]

unfoldable pub extract_os : Device → ParsedUserAgent → String
extract_os device ua = elim (nonempty device.os) [ some os ↦ lower os | none ↦ ua.os ]

unfoldable pub extract_connection_type : Device → String
extract_connection_type device = elim device.connectiontype [
  | none ↦ "unknown"
  | some id ↦ Option.get_or (lookup connection_type_map id) "unknown"
]

-- The identifiers, with the random part that is used where there is none.
unfoldable pub extract_ad_unit_id : String → Imp → String
extract_ad_unit_id random imp = or_else imp.tagid (concat "unit_" random)

unfoldable pub extract_site_id : String → Source → String
extract_site_id random source = or_else source.id (concat "site_" random)

unfoldable pub extract_publisher_id : String → Source → String
extract_publisher_id random source =
    or_else source.publisher_id (or_else source.id (concat "pub_" random))

unfoldable pub extract_domain_from_url : String → String
extract_domain_from_url url =
    let host : String = elim (after "://" url) [ some rest ↦ before "://" rest | none ↦ url ] in
    before ":" (before "/" host)

unfoldable pub extract_domain : Source → Source → String
extract_domain site app =
    if has_source site
    then or_else site.domain (extract_domain_from_url (Option.get_or site.page ""))
    else if has_source app
    then Option.get_or app.bundle ""
    else ""

unfoldable pub extract_page_type : Source → Option String
extract_page_type site = elim (nonempty (Option.get_or site.content no_content).context) [
  | some context ↦ some context
  | none ↦
      let page = lower (Option.get_or site.page "") in
      if has_part page "/article" || (has_part page "/news" || has_part page "/post")
      then some "article"
      else if ends_with b'/' page || has_part page "home"
      then some "homepage"
      else if has_part page "/category" || has_part page "/section"
      then some "section"
      else if has_part page "/search"
      then some "search"
      else if has_part page "/video" || has_part page "/watch"
      then some "video"
      else none
]

abbrev pub all_categories : Source → Source → List String
all_categories site app =
    let site_categories =
      if has_source site then site.cat ++ (site.pagecat ++ site.sectioncat) else [] in
    let app_categories = if has_source app then app.cat else [] in
    let content =
      Option.get_or
        (if has_source site then site.content else if has_source app then app.content else none)
        no_content in
    site_categories ++ (app_categories ++ content.cat)

-- The loop that drops repeated categories.
unfoldable pub deduplicate : List String → List String → List String → List String
deduplicate seen unique_categories [] = unique_categories
deduplicate seen unique_categories (cat ∷ categories) =
    if contains seen cat
    then deduplicate seen unique_categories categories
    else deduplicate (cat ∷ seen) (unique_categories ++ cat ∷ []) categories

unfoldable pub extract_categories : Source → Source → List String
extract_categories site app = deduplicate [] [] (all_categories site app)
