-- ===== src/Classifier/Tests.antt =====
-- The classifier at a small request, and its theorems there.
use thenexusengine.Common.{
  ◌≡◌, refl, not, ◌&&◌, String, true, false, none, some, [], ◌∷◌, string_eq,
}
use thenexusengine.Common.Members.{lookup}
use thenexusengine.Common.Dicts.{dict_set}
use thenexusengine.Common.Text.{
  lower, has_part, starts_with, before, after, without_prefix, is_empty, ends_with,
}
use thenexusengine.Common.Text.Decimal.{show, show_onto}
use thenexusengine.Privacy.Tcf.{Decoder, Decoded, allowed, denied, missing}
use thenexusengine.Privacy.Signals.{from_openrtb, has_valid_consent}
use thenexusengine.Request.{Timestamp, AdFormat, AdPosition, gdpr_applies}
use thenexusengine.Classifier.Ortb.{
  Imp, no_imp, no_banner, no_device, Source, no_source, User, no_regs, OrtbRequest,
}
use thenexusengine.Classifier.Extract.{
  ParsedUserAgent, deduplicate, extract_categories, extract_domain_from_url, determine_format,
  format_sizes, extract_sizes, determine_position, extract_page_type, extract_domain,
}
use thenexusengine.Classifier.Ids.{extract_user_ids, add_eids, map_eid_source_to_type, first_domain}
use thenexusengine.Classifier.Classify.{Randoms, RequestClassifier, classify, bid_request}
use thenexusengine.Classifier.Laws.{lookup-extract_user_ids}
use thenexusengine.Classifier.Consent.{classify-has_valid_consent}

abbrev imp : Imp
imp = record no_imp {
  id = some "1";
  tagid = some "top";
  banner = some (record no_banner {
    format = record { w = some 300; h = some 250 } ∷ (record { w = some 728; h = some 90 } ∷ []);
    pos = some 1;
  });
}

abbrev site : Source
site = record no_source {
  id = some "s1";
  page = some "https://news.example.com:8080/home/a";
  cat = "IAB1" ∷ ("IAB2" ∷ []);
  pagecat = "IAB2" ∷ [];
  content = some (record { context = none; cat = "IAB3" ∷ ("IAB1" ∷ []) });
}

abbrev user : User
user = record {
  id = some "u7";
  buyeruid = some "";
  consent = none;
  eids =
      record { source = some "UIDAPI.com"; uids = some "abc" ∷ [] }
      ∷ (record { source = some "id5-sync.com"; uids = [] } ∷ []);
}

extracted :
    (extract_sizes imp ≡ "300x250" ∷ ("728x90" ∷ []))
    × (determine_position imp ≡ AdPosition.atf)
    × (determine_format imp ≡ AdFormat.banner)
    × (extract_domain site no_source ≡ "news.example.com")
    × (extract_page_type site ≡ some "article")
    × (extract_categories site no_source ≡ "IAB1" ∷ ("IAB2" ∷ ("IAB3" ∷ [])))
    × (extract_user_ids user ≡ ("uid2", "abc") ∷ (("user_id", "u7") ∷ []))
unfolding extract_sizes format_sizes show show_onto determine_position determine_format
    extract_domain extract_domain_from_url before after without_prefix starts_with extract_page_type
    lower has_part ends_with extract_categories deduplicate extract_user_ids add_eids
    map_eid_source_to_type first_domain dict_set
extracted = (refl, refl, refl, refl, refl, refl, refl)

lookup-extract_user_ids_example :
    (lookup (extract_user_ids user) "user_id" ≡ some "u7")
    × (lookup (extract_user_ids user) "buyer_uid" ≡ none)
    × ((k v : String) → lookup (extract_user_ids user) k ≡ some v → is_empty v ≡ false)
lookup-extract_user_ids_example = lookup-extract_user_ids user

-- A consent that allows every purpose and vendor.
abbrev consented : Decoded
consented = record {
  is_purpose_allowed = λ i. allowed;
  is_vendor_allowed = λ v. missing;
  is_purpose_legitimate_interest_allowed = λ i. missing;
  is_special_feature_allowed = λ i. denied;
  version = none;
  cmp_id = none;
  cmp_version = none;
  consent_language = none;
  vendor_list_version = none;
}

abbrev decoder : Decoder
decoder = some (λ s. some consented)

abbrev request : OrtbRequest
request = record {
  imp = imp ∷ [];
  device = some no_device;
  site = some site;
  app = none;
  user = some (record user { consent = some "CO" });
  regs = some (record no_regs { gdpr = some 1 });
  geo = none;
}

abbrev unknown_agent : String → ParsedUserAgent
unknown_agent ua = record {
  browser = "unknown";
  os = "unknown";
  is_mobile = false;
  is_tablet = false;
}

abbrev classifier : RequestClassifier
classifier = record { default_floor_currency = "USD" }

abbrev randoms : Randoms
randoms = record { ad_unit = "r1"; site = "r2"; publisher = "r3" }

abbrev now : Timestamp
now = record { isoformat = "2024-01-01T10:00:00+00:00"; hour = 10; weekday = 0 }

classify-has_valid_consent_example :
    let r = classify decoder unknown_agent classifier randoms now request in
    (gdpr_applies r ≡ true)
    × (r.has_consent ≡ true)
    × ((has_valid_consent (from_openrtb decoder (bid_request request)) && not r.has_consent)
        ≡ false)
classify-has_valid_consent_example =
    classify-has_valid_consent decoder unknown_agent classifier randoms now request refl
