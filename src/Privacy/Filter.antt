-- ===== src/Privacy/Filter.antt =====
-- src/idr/privacy/privacy_filter.py, `PrivacyFilter`.
pub mod Permits
pub mod Batch
pub mod Summary
pub mod Regions
use thenexusengine.Common.{
  ℕ, zero, suc, ◌+◌, ◌-◌, String, Bool, true, false, ◌&&◌, not, Option, none, some, List, [], ◌∷◌,
  ◌++◌, if◌then◌else◌, null, is_some, length, filter, ◌==◌, nat_eq, string_eq, HasEq,
}
use thenexusengine.Common.Members.{contains, lookup}
use thenexusengine.Common.Text.{lower}
use thenexusengine.Privacy.Tcf
use thenexusengine.Privacy.Tcf.{TcfConsent}
use thenexusengine.Privacy.UsPrivacy
use thenexusengine.Privacy.Signals.{ConsentSignals, holds, can_personalize_ads}
use thenexusengine.Privacy.Bidders.{
  BidderPrivacyRequirements, bidder_privacy_config, default_privacy_requirements,
}
use mathlib.Core.Option

pub data FilterReason : Type 0 where
  allowed no_tcf_consent no_vendor_consent no_purpose_consent ccpa_opt_out : FilterReason
  coppa_restricted region_blocked personalization_denied : FilterReason

-- The text of `details`, by its template and what fills it in.
pub data Details : Type 0 where
  nothing : Details
  no_coppa_mode : (bidder_code : String) → Details
  not_available_in blocked_in : (bidder_code country : String) → Details
  no_valid_tcf_consent : Details
  no_consent_for_gvl_id : (gvl_id : ℕ) → Details
  no_known_gvl_id : (bidder_code : String) → Details
  missing_purpose : (purpose_id : ℕ) → Details
  opted_out : Details
  requires_personalization_consent : (bidder_code : String) → Details

pub record PrivacyFilterResult : Type 0 where
  pub bidder_code : String
  pub allowed : Bool
  pub reason : FilterReason
  pub details : Details

abbrev accept : String → PrivacyFilterResult
accept code = record {
  bidder_code = code;
  allowed = true;
  reason = FilterReason.allowed;
  details = nothing;
}

abbrev reject : String → FilterReason → Details → PrivacyFilterResult
reject code reason details = record {
  bidder_code = code;
  allowed = false;
  reason = reason;
  details = details;
}

pub record PrivacyFilter : Type 0 where
  pub bidder_configs : List (String × BidderPrivacyRequirements)
  pub strict_mode : Bool

-- `bidder_configs or BIDDER_PRIVACY_CONFIG`: an empty dictionary is falsy.
unfoldable pub init : Option (List (String × BidderPrivacyRequirements)) → Bool → PrivacyFilter
init none strict_mode = record { bidder_configs = bidder_privacy_config; strict_mode = strict_mode }
init (some []) strict_mode = record {
  bidder_configs = bidder_privacy_config;
  strict_mode = strict_mode;
}
init (some (c ∷ cs)) strict_mode = record { bidder_configs = c ∷ cs; strict_mode = strict_mode }

unfoldable pub get_bidder_config : PrivacyFilter → String → BidderPrivacyRequirements
get_bidder_config f bidder_code =
    Option.get_or (lookup f.bidder_configs (lower bidder_code)) default_privacy_requirements

-- `config.gvl_id` as a condition.
abbrev pub known_gvl_id : BidderPrivacyRequirements → Option ℕ
known_gvl_id config = elim config.gvl_id [ none ↦ none | some n ↦ if n == 0 then none else some n ]

-- The loop over the required purposes: the first that lacks consent.
unfoldable pub missing_purpose_of : List ℕ → List ℕ → Option ℕ
missing_purpose_of [] consented = none
missing_purpose_of (p ∷ ps) consented =
    if contains consented p then missing_purpose_of ps consented else some p

-- The loop of `_check_tcf_consent` over the required purposes.
check_purposes : String → BidderPrivacyRequirements → TcfConsent → PrivacyFilterResult
check_purposes bidder_code config tcf =
    elim (missing_purpose_of config.required_purposes tcf.purpose_consent) [
      | none ↦ accept bidder_code
      | some p ↦ reject bidder_code no_purpose_consent (missing_purpose p)
    ]

unfoldable pub check_tcf_consent :
    PrivacyFilter → String → BidderPrivacyRequirements → ConsentSignals → PrivacyFilterResult
unfolding check_purposes
check_tcf_consent f bidder_code config consent = elim consent.tcf [
  | none ↦ reject bidder_code no_tcf_consent no_valid_tcf_consent
  | some tcf ↦
      if not tcf.has_consent
      then reject bidder_code no_tcf_consent no_valid_tcf_consent
      else elim (known_gvl_id config) [
        | some gvl_id ↦
            if not (Tcf.has_vendor_consent tcf gvl_id)
            then reject bidder_code no_vendor_consent (no_consent_for_gvl_id gvl_id)
            else check_purposes bidder_code config tcf
        | none ↦
            if f.strict_mode
            then reject bidder_code no_vendor_consent (no_known_gvl_id bidder_code)
            else check_purposes bidder_code config tcf
      ]
]

unfoldable pub check_ccpa_consent : String → ConsentSignals → PrivacyFilterResult
check_ccpa_consent bidder_code consent =
    if holds UsPrivacy.has_opted_out consent.us_privacy
    then reject bidder_code ccpa_opt_out opted_out
    else accept bidder_code

-- `filter_bidder`, from its last check up.
check_personalization : String → BidderPrivacyRequirements → ConsentSignals → PrivacyFilterResult
check_personalization bidder_code config consent =
    if config.requires_personalization && not (can_personalize_ads consent)
    then reject bidder_code personalization_denied (requires_personalization_consent bidder_code)
    else accept bidder_code

check_consent :
    PrivacyFilter → String → BidderPrivacyRequirements → ConsentSignals → PrivacyFilterResult
unfolding check_personalization
check_consent f bidder_code config consent =
    let tcf_result = check_tcf_consent f bidder_code config consent in
    let ccpa_result = check_ccpa_consent bidder_code consent in
    if consent.gdpr_applies && not tcf_result.allowed
    then tcf_result
    else if is_some consent.us_privacy && not ccpa_result.allowed
    then ccpa_result
    else check_personalization bidder_code config consent

unfoldable pub filter_bidder : PrivacyFilter → String → ConsentSignals → PrivacyFilterResult
unfolding check_consent
filter_bidder f bidder_code consent =
    let config = get_bidder_config f bidder_code in
    if consent.coppa_applies && not config.supports_coppa
    then reject bidder_code coppa_restricted (no_coppa_mode bidder_code)
    else if not (null config.allowed_regions)
        && not (contains config.allowed_regions consent.country)
    then reject bidder_code region_blocked (not_available_in bidder_code consent.country)
    else if not (null config.blocked_regions) && contains config.blocked_regions consent.country
    then reject bidder_code region_blocked (blocked_in bidder_code consent.country)
    else check_consent f bidder_code config consent

-- The loop of `filter_bidders`, with the two lists that it appends to.
filter_loop :
    PrivacyFilter
    → ConsentSignals
    → List String
    → List String
    → List PrivacyFilterResult
    → List String × List PrivacyFilterResult
filter_loop f consent [] passed results = (passed, results)
filter_loop f consent (code ∷ codes) passed results =
    let result = filter_bidder f code consent in
    filter_loop f consent codes (if result.allowed then passed ++ code ∷ [] else passed)
      (results ++ result ∷ [])

unfoldable pub filter_bidders :
    PrivacyFilter → List String → ConsentSignals → List String × List PrivacyFilterResult
unfolding filter_loop
filter_bidders f bidder_codes consent = filter_loop f consent bidder_codes [] []

-- `r.reason.name`
unfoldable pub reason_name : FilterReason → String
reason_name FilterReason.allowed = "ALLOWED"
reason_name no_tcf_consent = "NO_TCF_CONSENT"
reason_name no_vendor_consent = "NO_VENDOR_CONSENT"
reason_name no_purpose_consent = "NO_PURPOSE_CONSENT"
reason_name ccpa_opt_out = "CCPA_OPT_OUT"
reason_name coppa_restricted = "COPPA_RESTRICTED"
reason_name region_blocked = "REGION_BLOCKED"
reason_name personalization_denied = "PERSONALIZATION_DENIED"

-- `reasons[name] = reasons.get(name, 0) + 1`
unfoldable pub count_in : String → List (String × ℕ) → List (String × ℕ)
count_in name [] = (name, 1) ∷ []
count_in name ((k, n) ∷ reasons) =
    if k == name then (k, n + 1) ∷ reasons else (k, n) ∷ count_in name reasons

-- The loop over the results of `get_privacy_summary`.
unfoldable pub count_reasons : List PrivacyFilterResult → List (String × ℕ) → List (String × ℕ)
count_reasons [] reasons = reasons
count_reasons (r ∷ results) reasons =
    count_reasons results
      (if not r.allowed then count_in (reason_name r.reason) reasons else reasons)

pub record PrivacySummary : Type 0 where
  pub total_bidders : ℕ
  pub allowed : ℕ
  pub filtered : ℕ
  pub filter_reasons : List (String × ℕ)
  pub gdpr_applies : Bool
  pub ccpa_applies : Bool
  pub coppa_applies : Bool
  pub has_tcf_consent : Bool
  pub ccpa_opted_out : Bool

unfoldable pub get_privacy_summary : ConsentSignals → List PrivacyFilterResult → PrivacySummary
get_privacy_summary consent filter_results =
    let filtered_count = length (filter (λ r. not r.allowed) filter_results) in
    record {
      total_bidders = length filter_results;
      allowed = length filter_results - filtered_count;
      filtered = filtered_count;
      filter_reasons = count_reasons filter_results [];
      gdpr_applies = consent.gdpr_applies;
      ccpa_applies = consent.ccpa_applies;
      coppa_applies = consent.coppa_applies;
      has_tcf_consent = holds (λ t. t.has_consent) consent.tcf;
      ccpa_opted_out = holds UsPrivacy.has_opted_out consent.us_privacy;
    }
