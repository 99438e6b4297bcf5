-- ===== src/Privacy/Tests.antt =====
-- Runs of the privacy code on small inputs, and its theorems at them.
use thenexusengine.Common.{
  eq_iff, ◌≤◌, ◌≡◌, ◌↔◌, refl, ◌⊎◌, String, true, false, Option, none, some, List, [], ◌∷◌, arith,
  ◌==◌, nat_eq, string_eq, if◌then◌else◌, leb,
}
use thenexusengine.Common.Text.{lower}
use thenexusengine.Privacy.Tcf.{
  allowed, denied, missing, failed, Decoded, Decoder, no_consent, parse, collect, collect_until,
  has_vendor_consent,
}
use thenexusengine.Privacy.Tcf.Parse.{
  decoded, Unreadable, parse_fails_closed, has_vendor_consent-parse,
}
use thenexusengine.Privacy.UsPrivacy
use thenexusengine.Privacy.UsPrivacy.Laws.{OptsOut, has_opted_out-parse}
use thenexusengine.Privacy.Signals.{
  BidRequest, from_openrtb, can_share_with_vendor, can_personalize_ads,
}
use thenexusengine.Privacy.Signals.Laws.{
  Personalizable, can_personalize_ads_iff, consent_text, can_share_with_vendor-from_openrtb,
}
use thenexusengine.Privacy.Bidders.{bidder_privacy_config}
use thenexusengine.Privacy.Filter
use thenexusengine.Privacy.Filter.{
  PrivacyFilter, PrivacyFilterResult, init, get_bidder_config, filter_bidder, filter_bidders,
  get_privacy_summary,
}
use thenexusengine.Privacy.Filter.Permits.{Permits, filter_bidder_iff}
use thenexusengine.Privacy.Filter.Regions.{adform-refused}
use thenexusengine.Privacy.Jurisdiction.{eu_eea_countries}

-- A decoded consent: the purposes up to 3, and the vendors 2 and 4 of four.
abbrev some_consent : Decoded
some_consent = record {
  is_purpose_allowed = λ i. if leb i 3 then allowed else denied;
  is_vendor_allowed = λ v.
      if leb v 4 then (if v == 2 then allowed else if v == 4 then allowed else denied) else missing;
  is_purpose_legitimate_interest_allowed = λ i. missing;
  is_special_feature_allowed = λ i. denied;
  version = none;
  cmp_id = some 7;
  cmp_version = none;
  consent_language = none;
  vendor_list_version = none;
}

-- A decoder that reads the text "CO" alone.
abbrev decode : String → Option Decoded
decode s = if s == "CO" then some some_consent else none

abbrev decoder : Decoder
decoder = some decode

-- The same, but a query for purpose 3 raises an unexpected exception.
abbrev broken : Decoder
broken = some (λ s.
    some (record some_consent { is_purpose_allowed = λ i. if i == 3 then failed else allowed }))

abbrev request : BidRequest
request = record {
  regs = some (record {
    ext = some (record { gdpr = some 1; us_privacy = none });
    gpp = none;
    coppa = none;
  });
  user = some (record { ext = some (record { consent = some "CO" }) });
  device = some (record { geo = some (record { country = some "DE"; region = none }) });
}

program : Unit {0}
unfolding parse collect collect_until has_vendor_consent from_openrtb can_share_with_vendor lower
    Filter.get_bidder_config bidder_privacy_config eu_eea_countries UsPrivacy.parse
program = tt

parsed :
    ((parse decoder "CO").vendor_consent ≡ 2 ∷ 4 ∷ [])
    × ((parse decoder "CO").purpose_consent ≡ 1 ∷ 2 ∷ 3 ∷ [])
    × ((parse decoder "CO").has_consent ≡ true)
    × (parse broken "CO" ≡ no_consent "CO")
unfolding program
parsed = (refl, refl, refl, refl)

parse_fails_closed_example : parse broken "CO" ≡ no_consent "CO"
parse_fails_closed_example =
    parse_fails_closed broken "CO"
      (Unreadable.purpose_failed _ 3 refl (omega arith) (omega arith) refl)

has_vendor_consent-parse_example :
    (c : Decoded) × (decoded decoder "CO" ≡ some c)
    × (c.is_vendor_allowed 4 ≡ allowed)
    × (1 ≤ 4)
    × (4 ≤ 1000)
    × ((c.is_purpose_allowed 1 ≡ allowed) ⊎ (c.is_purpose_legitimate_interest_allowed 1 ≡ allowed))
unfolding program
has_vendor_consent-parse_example = has_vendor_consent-parse decoder "CO" 4 refl

has_opted_out-parse_example :
    (UsPrivacy.has_opted_out (UsPrivacy.parse "1YYN") ≡ true) ↔ OptsOut "1YYN"
has_opted_out-parse_example = has_opted_out-parse "1YYN"

can_share_with_vendor-from_openrtb_example :
    (c : Decoded) × (decoded decoder (consent_text request) ≡ some c)
    × (c.is_vendor_allowed 2 ≡ allowed)
unfolding program
can_share_with_vendor-from_openrtb_example =
    can_share_with_vendor-from_openrtb decoder request 2 refl refl

can_personalize_ads_iff_example :
    (can_personalize_ads (from_openrtb decoder request) ≡ true)
    ↔ Personalizable (from_openrtb decoder request)
can_personalize_ads_iff_example = can_personalize_ads_iff (from_openrtb decoder request)

abbrev default_filter : PrivacyFilter
default_filter = record { bidder_configs = bidder_privacy_config; strict_mode = true }

filter_bidder_iff_example :
    ((filter_bidder default_filter "Criteo" (from_openrtb decoder request)).allowed ≡ true)
    ↔ Permits true (get_bidder_config default_filter "Criteo") (from_openrtb decoder request)
filter_bidder_iff_example = filter_bidder_iff default_filter "Criteo" (from_openrtb decoder request)

abbrev results : List PrivacyFilterResult
results = (filter_bidders default_filter ("ix" ∷ "criteo" ∷ []) (from_openrtb decoder request)).1

adform-refused_example :
    (filter_bidder (init none false) "adform" (from_openrtb decoder request)).allowed ≡ false
unfolding program
adform-refused_example =
    adform-refused false (from_openrtb decoder request) refl (λ e. ground (arith, eq_iff "DE" "GB"))
