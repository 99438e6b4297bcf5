-- ===== src/Privacy/Signals.antt =====
-- src/idr/privacy/consent_models.py, `ConsentSignals`. Of a bid request the keys that are read are
-- modelled, each present or absent, with the type that OpenRTB gives it.
pub mod Laws
use thenexusengine.Common.{
  ℕ, String, Bool, true, false, ◌&&◌, not, Option, none, some, List, if◌then◌else◌, is_some, ◌==◌,
  nat_eq, string_eq,
}
use thenexusengine.Privacy.Tcf
use thenexusengine.Privacy.Tcf.{Decoder, TcfConsent}
use thenexusengine.Privacy.UsPrivacy
use thenexusengine.Privacy.UsPrivacy.{UsPrivacy}
use thenexusengine.Privacy.Gpp
use thenexusengine.Privacy.Gpp.{GppConsent}
use mathlib.Core.Option

pub record RegsExt : Type 0 where
  pub gdpr : Option ℕ
  pub us_privacy : Option String

pub record Regs : Type 0 where
  pub ext : Option RegsExt
  pub gpp : Option String
  pub coppa : Option ℕ

pub record UserExt : Type 0 where
  pub consent : Option String

pub record User : Type 0 where
  pub ext : Option UserExt

pub record Geo : Type 0 where
  pub country : Option String
  pub region : Option String

pub record Device : Type 0 where
  pub geo : Option Geo

pub record BidRequest : Type 0 where
  pub regs : Option Regs
  pub user : Option User
  pub device : Option Device

pub record ConsentSignals : Type 0 where
  pub gdpr_applies : Bool
  pub ccpa_applies : Bool
  pub coppa_applies : Bool
  pub tcf : Option TcfConsent
  pub us_privacy : Option UsPrivacy
  pub gpp : Option GppConsent
  pub country : String
  pub region : String

-- The empty dictionaries that stand in for missing ones.
abbrev pub no_regs_ext : RegsExt
no_regs_ext = record { gdpr = none; us_privacy = none }

abbrev pub no_regs : Regs
no_regs = record { ext = none; gpp = none; coppa = none }

abbrev pub no_user_ext : UserExt
no_user_ext = record { consent = none }

abbrev pub no_user : User
no_user = record { ext = none }

abbrev pub no_geo : Geo
no_geo = record { country = none; region = none }

abbrev pub no_device : Device
no_device = record { geo = none }

-- `parse(s) if s else None`
abbrev pub parse_if {ℓ} : {A : Type ℓ} → (String → A) → String → Option A
parse_if parse s = if s == "" then none else some (parse s)

unfoldable pub from_openrtb : Decoder → BidRequest → ConsentSignals
from_openrtb decoder request =
    let regs = Option.get_or request.regs no_regs in
    let regs_ext = Option.get_or regs.ext no_regs_ext in
    let user = Option.get_or request.user no_user in
    let user_ext = Option.get_or user.ext no_user_ext in
    let geo = Option.get_or (Option.get_or request.device no_device).geo no_geo in
    let us_privacy_string = Option.get_or regs_ext.us_privacy "" in
    record {
      gdpr_applies = Option.get_or regs_ext.gdpr 0 == 1;
      ccpa_applies = not (us_privacy_string == "");
      coppa_applies = Option.get_or regs.coppa 0 == 1;
      tcf = parse_if (Tcf.parse decoder) (Option.get_or user_ext.consent "");
      us_privacy = parse_if UsPrivacy.parse us_privacy_string;
      gpp = parse_if Gpp.parse (Option.get_or regs.gpp "");
      country = Option.get_or geo.country "";
      region = Option.get_or geo.region "";
    }

-- `self.tcf and test(self.tcf)`
abbrev pub holds {ℓ} : {A : Type ℓ} → (A → Bool) → Option A → Bool
holds test none = false
holds test (some a) = test a

unfoldable pub has_valid_consent : ConsentSignals → Bool
has_valid_consent s = if s.gdpr_applies then holds (λ t. t.has_consent) s.tcf else true

unfoldable pub can_process_for_basic_ads : ConsentSignals → Bool
can_process_for_basic_ads s =
    if s.gdpr_applies && not (holds Tcf.can_process_for_ads s.tcf)
    then false
    else if holds UsPrivacy.has_opted_out s.us_privacy
    then false
    else if s.coppa_applies
    then false
    else true

unfoldable pub can_personalize_ads : ConsentSignals → Bool
unfolding can_process_for_basic_ads
can_personalize_ads s =
    if not (can_process_for_basic_ads s)
    then false
    else if s.gdpr_applies && not (holds Tcf.can_personalize_ads s.tcf)
    then false
    else true

unfoldable pub can_share_with_vendor : ConsentSignals → ℕ → Bool
can_share_with_vendor s vendor_id =
    if s.gdpr_applies && not (holds (λ t. Tcf.has_vendor_consent t vendor_id) s.tcf)
    then false
    else true

pub record RestrictionsSummary : Type 0 where
  pub gdpr_applies : Bool
  pub ccpa_applies : Bool
  pub coppa_applies : Bool
  pub has_tcf_consent : Bool
  pub ccpa_opted_out : Bool
  pub can_basic_ads : Bool
  pub can_personalize : Bool

unfoldable pub get_restrictions_summary : ConsentSignals → RestrictionsSummary
get_restrictions_summary s = record {
  gdpr_applies = s.gdpr_applies;
  ccpa_applies = s.ccpa_applies;
  coppa_applies = s.coppa_applies;
  has_tcf_consent = holds (λ t. t.has_consent) s.tcf;
  ccpa_opted_out = holds UsPrivacy.has_opted_out s.us_privacy;
  can_basic_ads = can_process_for_basic_ads s;
  can_personalize = can_personalize_ads s;
}
