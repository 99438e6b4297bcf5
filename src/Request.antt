-- ===== src/Request.antt =====
-- src/idr/models/classified_request.py: the classified request and its derived properties.
use thenexusengine.Common.{
  ℕ, String, Bool, true, false, not, Option, none, some, List, [], ◌∷◌, null,
}
use thenexusengine.Scores.{Float}
use thenexusengine.Privacy.Signals.{ConsentSignals, can_personalize_ads}

pub data AdFormat : Type 0 where
  banner video native audio : AdFormat

pub data DeviceType : Type 0 where
  desktop mobile tablet ctv : DeviceType

abbrev pub ad_format_value : AdFormat → String
ad_format_value banner = "banner"
ad_format_value video = "video"
ad_format_value native = "native"
ad_format_value audio = "audio"

abbrev pub device_type_value : DeviceType → String
device_type_value desktop = "desktop"
device_type_value mobile = "mobile"
device_type_value tablet = "tablet"
device_type_value ctv = "ctv"

pub data AdPosition : Type 0 where
  atf btf unknown : AdPosition

-- What is read of a `datetime`.
pub record Timestamp : Type 0 where
  pub isoformat : String
  pub hour : ℕ
  pub weekday : ℕ

pub record ClassifiedRequest : Type 0 where
  pub impression_id : String
  pub ad_format : AdFormat
  pub ad_unit_id : String
  pub ad_sizes : List String
  pub position : AdPosition
  pub device_type : DeviceType
  pub os : String
  pub browser : String
  pub connection_type : String
  pub country : String
  pub region : String
  pub dma : Option String
  pub publisher_id : String
  pub site_id : String
  pub domain : String
  pub page_type : Option String
  pub categories : List String
  pub user_ids : List (String × String)
  pub has_consent : Bool
  pub consent_string : Option String
  pub consent_signals : Option ConsentSignals
  pub timestamp : Timestamp
  pub hour_of_day : ℕ
  pub day_of_week : ℕ
  pub floor_price : Option Float
  pub floor_currency : String

-- `__post_init__`
abbrev pub post_init : ClassifiedRequest → ClassifiedRequest
post_init r = record r { hour_of_day = r.timestamp.hour; day_of_week = r.timestamp.weekday }

unfoldable pub primary_ad_size : ClassifiedRequest → Option String
primary_ad_size r = elim r.ad_sizes [ [] ↦ none | x ∷ xs ↦ some x ]

unfoldable pub is_mobile : ClassifiedRequest → Bool
is_mobile r = elim r.device_type [ mobile ↦ true | tablet ↦ true | _ ↦ false ]

unfoldable pub has_user_ids : ClassifiedRequest → Bool
has_user_ids r = not (null r.user_ids)

unfoldable pub gdpr_applies : ClassifiedRequest → Bool
gdpr_applies r = elim r.consent_signals [ none ↦ false | some s ↦ s.gdpr_applies ]

unfoldable pub ccpa_applies : ClassifiedRequest → Bool
ccpa_applies r = elim r.consent_signals [ none ↦ false | some s ↦ s.ccpa_applies ]

unfoldable pub coppa_applies : ClassifiedRequest → Bool
coppa_applies r = elim r.consent_signals [ none ↦ false | some s ↦ s.coppa_applies ]

unfoldable pub can_personalize : ClassifiedRequest → Bool
can_personalize r = elim r.consent_signals [ none ↦ r.has_consent | some s ↦ can_personalize_ads s ]
