-- ===== src/Bidders/Manager.antt =====
-- src/idr/bidders/manager.py: `BidderManager`. Keyword arguments beyond those named are left out, and
-- so is `test_endpoint`, which sends a request.
use thenexusengine.Common.{
  ℕ, String, Bool, not, Option, none, some, List, [], ◌∷◌, map, all, null, if◌then◌else◌, string_eq,
}
use mathlib.Core.Option
use thenexusengine.Common.Members.{contains}
use thenexusengine.Keys.Hash.{Hash}
use thenexusengine.Bidders.Redis.{Set}
use thenexusengine.Bidders.Code.{normalize_code}
use thenexusengine.Common.Text.{is_empty}
use thenexusengine.Bidders.Url.{validate_url}
use thenexusengine.Bidders.Model.{
  BidderConfig, BidderStatus, testing, BidderEndpoint, endpoint_at, BidderCapabilities,
  default_capabilities, default_rate_limits, post_init, text_or,
}
use thenexusengine.Common.Sorting.{sort_by}
use thenexusengine.Bidders.Storage.{Store, save, get, get_all, get_active, delete, exists}

pub data ManagerError : Type 0 where
  invalid_config already_exists not_found failed : ManagerError

-- What a method returns, or the exception that it raises.
pub data Result (A : Type 0) : Type 0 where
  ok : A → Result A
  error : ManagerError → Result A

-- The arguments of `create_bidder`, where the empty list of media types stands for None too.
pub record NewBidder : Type 0 where
  pub name : String
  pub endpoint_url : String
  pub media_types : List String
  pub bidder_code : Option String
  pub description : String
  pub timeout_ms : ℕ
  pub protocol_version : String
  pub auth_type : Option String
  pub auth_token : Option String
  pub gvl_vendor_id : Option ℕ
  pub priority : ℕ
  pub status : BidderStatus
  pub custom_headers : List (String × String)

-- The configuration that the constructor makes of the arguments that have no default.
abbrev pub new_config : String → String → BidderEndpoint → BidderConfig
new_config bidder_code name endpoint = record {
  bidder_code = bidder_code;
  name = name;
  endpoint = endpoint;
  bidder_family = "";
  instance_number = 1;
  publisher_id = none;
  description = "";
  capabilities = default_capabilities;
  rate_limits = default_rate_limits;
  status = testing;
  gvl_vendor_id = none;
  priority = 50;
  maintainer_email = "";
  maintainer_name = "";
  allowed_publishers = [];
  blocked_publishers = [];
  allowed_countries = [];
  blocked_countries = [];
  created_at = none;
  updated_at = none;
  last_active_at = none;
  total_requests = 0;
  total_bids = 0;
  total_wins = 0;
  total_errors = 0;
  avg_latency_ms = 0;
  avg_bid_cpm = 0;
}

-- `bidder_code`, or a code from the name, normalized.
abbrev pub code_for : NewBidder → String
code_for n = normalize_code (Option.get_or (text_or n.bidder_code none) (normalize_code n.name))

abbrev pub media_types_for : NewBidder → List String
media_types_for n = if null n.media_types then "banner" ∷ [] else n.media_types

abbrev pub valid_media_types : List String
valid_media_types = "banner" ∷ ("video" ∷ ("audio" ∷ ("native" ∷ [])))

abbrev pub created : String → NewBidder → BidderConfig
created now n =
    let media_types = media_types_for n in
    let video = contains media_types "video" in
    let endpoint : BidderEndpoint = record (endpoint_at n.endpoint_url) {
      timeout_ms = n.timeout_ms;
      protocol_version = n.protocol_version;
      auth_type = n.auth_type;
      auth_token = n.auth_token;
      custom_headers = n.custom_headers;
    } in
    let capabilities : BidderCapabilities = record default_capabilities {
      media_types = media_types;
      video_protocols = if video then 2 ∷ (3 ∷ (5 ∷ (6 ∷ []))) else [];
      video_mimes = if video then "video/mp4" ∷ ("video/webm" ∷ []) else [];
    } in
    post_init now (record (new_config (code_for n) n.name endpoint) {
      description = n.description;
      capabilities = capabilities;
      status = n.status;
      gvl_vendor_id = n.gvl_vendor_id;
      priority = n.priority;
    })

-- The copy that `duplicate_bidder` of the manager makes.
abbrev pub duplicated : String → String → Option String → BidderConfig → BidderConfig
duplicated now new_name new_endpoint_url source =
    let e = source.endpoint in
    let c = source.capabilities in
    let endpoint : BidderEndpoint =
      record (endpoint_at (Option.get_or (text_or new_endpoint_url none) e.url)) {
        method = e.method;
        timeout_ms = e.timeout_ms;
        protocol_version = e.protocol_version;
        auth_type = e.auth_type;
        custom_headers = e.custom_headers;
      } in
    let capabilities : BidderCapabilities = record default_capabilities {
      media_types = c.media_types;
      currencies = c.currencies;
      site_enabled = c.site_enabled;
      app_enabled = c.app_enabled;
      video_protocols = c.video_protocols;
      video_mimes = c.video_mimes;
    } in
    post_init now (record (new_config (normalize_code new_name) new_name endpoint) {
      description = source.description;
      capabilities = capabilities;
      rate_limits = source.rate_limits;
      gvl_vendor_id = source.gvl_vendor_id;
      priority = source.priority;
      maintainer_email = source.maintainer_email;
    })

-- The configuration that `import_bidder` saves.
abbrev pub imported : String → BidderConfig → BidderConfig
imported now c = record (post_init now c) {
  created_at = some now;
  updated_at = some now;
  total_requests = 0;
  total_bids = 0;
  total_wins = 0;
  total_errors = 0;
}

module _ {H Z I : Type 0} (hashes : Hash H BidderConfig)
    (hgetall : H → List (String × BidderConfig)) (sets : Set Z) (scores : Hash I ℕ) where
  -- `if not self.storage.save(config): raise …`, with what is returned.
  abbrev pub saved :
      String → Option (Store H Z I) → BidderConfig → Result BidderConfig × Option (Store H Z I)
  saved now st c =
      let (done, after) = save hashes hgetall sets scores now st c in
      (if done then ok (record c { updated_at = some now }) else error failed, after)

  unfoldable pub create_bidder :
      String → Option (Store H Z I) → NewBidder → Result BidderConfig × Option (Store H Z I)
  create_bidder now st n =
      if not (validate_url n.endpoint_url)
      then (error invalid_config, st)
      else if is_empty (code_for n)
      then (error invalid_config, st)
      else if exists hashes hgetall sets scores st (code_for n)
      then (error already_exists, st)
      else if not (all (contains valid_media_types) (media_types_for n))
      then (error invalid_config, st)
      else saved now st (created now n)

  unfoldable pub get_bidder : String → Option (Store H Z I) → String → Result BidderConfig
  get_bidder now st code = elim (get hashes hgetall sets scores now st code) [
    | none ↦ error not_found
    | some c ↦ ok c
  ]

  -- `edit` is what the keyword arguments set, in the endpoint, the capabilities and the fields.
  unfoldable pub update_bidder :
      String
      → Option (Store H Z I)
      → String
      → (BidderConfig → BidderConfig)
      → Result BidderConfig × Option (Store H Z I)
  update_bidder now st code edit = elim (get hashes hgetall sets scores now st code) [
    | none ↦ (error not_found, st)
    | some c ↦ saved now st (edit c)
  ]

  -- `enable_bidder`, `disable_bidder`, `pause_bidder` and `set_testing`.
  unfoldable pub change_status :
      BidderStatus
      → String
      → Option (Store H Z I)
      → String
      → Result BidderConfig × Option (Store H Z I)
  change_status status now st code = update_bidder now st code (λ c. record c { status = status })

  unfoldable pub delete_bidder : Option (Store H Z I) → String → Result Bool × Option (Store H Z I)
  delete_bidder st code =
      if not (exists hashes hgetall sets scores st code)
      then (error not_found, st)
      else let (done, after) = delete hashes hgetall sets scores st code in (ok done, after)

  unfoldable pub list_bidders : String → Option (Store H Z I) → Bool → List BidderConfig
  list_bidders now st include_disabled =
      if include_disabled
      then sort_by (λ c. c.priority)
          (map (λ (e : String × BidderConfig). e.1) (get_all hashes hgetall sets scores now st))
      else get_active hashes hgetall sets scores now st

  unfoldable pub duplicate_bidder :
      String
      → Option (Store H Z I)
      → String
      → String
      → Option String
      → Result BidderConfig × Option (Store H Z I)
  duplicate_bidder now st source_code new_name new_endpoint_url =
      elim (get hashes hgetall sets scores now st source_code) [
        | none ↦ (error not_found, st)
        | some source ↦ saved now st (duplicated now new_name new_endpoint_url source)
      ]

  -- `config` is the configuration of the dictionary.
  unfoldable pub import_bidder :
      String → Option (Store H Z I) → BidderConfig → Result BidderConfig × Option (Store H Z I)
  import_bidder now st config =
      let c = imported now config in
      if exists hashes hgetall sets scores st c.bidder_code
      then (error already_exists, st)
      else saved now st c
