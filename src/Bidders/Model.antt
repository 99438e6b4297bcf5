-- ===== src/Bidders/Model.antt =====
-- src/idr/bidders/models.py: the configuration of a bidder. The two transforms of requests and
-- responses, which the registry only copies, are left out.
use thenexusengine.Common.{
  ℕ, String, Bool, true, false, Option, none, some, List, [], ◌∷◌, if◌then◌else◌,
}
use thenexusengine.Scores.{Float}
use thenexusengine.Bidders.Code.{normalize_code, extract_family, extract_instance_number}
use thenexusengine.Common.Text.{is_empty}

pub data BidderStatus : Type 0 where
  active paused testing disabled : BidderStatus

pub record BidderEndpoint : Type 0 where
  pub url : String
  pub method : String
  pub timeout_ms : ℕ
  pub protocol_version : String
  pub auth_type : Option String
  pub auth_username : Option String
  pub auth_password : Option String
  pub auth_token : Option String
  pub auth_header_name : Option String
  pub auth_header_value : Option String
  pub custom_headers : List (String × String)

abbrev pub endpoint_at : String → BidderEndpoint
endpoint_at url = record {
  url = url;
  method = "POST";
  timeout_ms = 200;
  protocol_version = "2.6";
  auth_type = none;
  auth_username = none;
  auth_password = none;
  auth_token = none;
  auth_header_name = none;
  auth_header_value = none;
  custom_headers = [];
}

pub record BidderCapabilities : Type 0 where
  pub media_types : List String
  pub currencies : List String
  pub site_enabled : Bool
  pub app_enabled : Bool
  pub video_protocols : List ℕ
  pub video_mimes : List String
  pub video_linearity : List ℕ
  pub video_playback_methods : List ℕ
  pub video_max_duration : Option ℕ
  pub video_min_duration : Option ℕ
  pub banner_mimes : List String
  pub banner_expdir : List ℕ
  pub native_api : List ℕ
  pub audio_mimes : List String
  pub audio_protocols : List ℕ
  pub supports_gdpr : Bool
  pub supports_ccpa : Bool
  pub supports_coppa : Bool
  pub supports_gpp : Bool
  pub supports_schain : Bool
  pub supports_eids : Bool
  pub supports_first_party_data : Bool
  pub supports_ctv : Bool
  pub supports_ad_pods : Bool
  pub supports_dooh : Bool

abbrev pub default_capabilities : BidderCapabilities
default_capabilities = record {
  media_types = "banner" ∷ [];
  currencies = "USD" ∷ [];
  site_enabled = true;
  app_enabled = true;
  video_protocols = [];
  video_mimes = [];
  video_linearity = [];
  video_playback_methods = [];
  video_max_duration = none;
  video_min_duration = none;
  banner_mimes = "text/html" ∷ [];
  banner_expdir = [];
  native_api = [];
  audio_mimes = [];
  audio_protocols = [];
  supports_gdpr = true;
  supports_ccpa = true;
  supports_coppa = true;
  supports_gpp = true;
  supports_schain = true;
  supports_eids = true;
  supports_first_party_data = true;
  supports_ctv = false;
  supports_ad_pods = false;
  supports_dooh = false;
}

-- The limits. The counters beside them are not stored and never used.
pub record BidderRateLimits : Type 0 where
  pub qps_limit : ℕ
  pub daily_limit : ℕ
  pub concurrent_limit : ℕ

abbrev pub default_rate_limits : BidderRateLimits
default_rate_limits = record { qps_limit = 1000; daily_limit = 0; concurrent_limit = 100 }

pub record BidderConfig : Type 0 where
  pub bidder_code : String
  pub name : String
  pub endpoint : BidderEndpoint
  pub bidder_family : String
  pub instance_number : ℕ
  pub publisher_id : Option String
  pub description : String
  pub capabilities : BidderCapabilities
  pub rate_limits : BidderRateLimits
  pub status : BidderStatus
  pub gvl_vendor_id : Option ℕ
  pub priority : ℕ
  pub maintainer_email : String
  pub maintainer_name : String
  pub allowed_publishers : List String
  pub blocked_publishers : List String
  pub allowed_countries : List String
  pub blocked_countries : List String
  pub created_at : Option String
  pub updated_at : Option String
  pub last_active_at : Option String
  pub total_requests : ℕ
  pub total_bids : ℕ
  pub total_wins : ℕ
  pub total_errors : ℕ
  pub avg_latency_ms : Float
  pub avg_bid_cpm : Float

-- The value if it is there and not empty, or the other.
abbrev pub text_or : Option String → Option String → Option String
text_or none other = other
text_or (some s) other = if is_empty s then other else some s

-- `__post_init__`, at the time `now`.
unfoldable pub post_init : String → BidderConfig → BidderConfig
post_init now c =
    let created_at = text_or c.created_at (some now) in
    let bidder_code = normalize_code c.bidder_code in
    record c {
      bidder_code = bidder_code;
      bidder_family =
          if is_empty c.bidder_family then extract_family bidder_code else c.bidder_family;
      instance_number =
          if is_empty c.bidder_family
          then extract_instance_number bidder_code
          else c.instance_number;
      created_at = created_at;
      updated_at = text_or c.updated_at created_at;
    }

abbrev pub is_enabled_status : BidderStatus → Bool
is_enabled_status active = true
is_enabled_status testing = true
is_enabled_status paused = false
is_enabled_status disabled = false

unfoldable pub is_enabled : BidderConfig → Bool
is_enabled c = is_enabled_status c.status
