-- ===== src/Privacy/Tcf.antt =====
-- src/idr/privacy/consent_models.py, `TCFPurpose` and `TCFConsent`. A set of numbers is the list
-- of its elements. The decoder of the third-party package iab-tcf is a parameter.
mod Collect
pub mod Parse
use thenexusengine.Common.{
  ℕ, zero, suc, ◌+◌, String, Bool, true, false, ◌&&◌, ◌||◌, not, Option, none, some, List, [], ◌∷◌,
  if◌then◌else◌, null,
}
use thenexusengine.Common.Members.{contains}
use thenexusengine.Common.{nat_eq, string_eq, ◌==◌}
use mathlib.Core.Option

pub data TcfPurpose : Type 0 where
  store_access basic_ads personalized_ads personalized_content ad_measurement : TcfPurpose
  content_measurement market_research product_development : TcfPurpose
  special_feature_geo special_feature_device : TcfPurpose

unfoldable pub purpose_value : TcfPurpose → ℕ
purpose_value store_access = 1
purpose_value basic_ads = 2
purpose_value personalized_ads = 3
purpose_value personalized_content = 4
purpose_value ad_measurement = 5
purpose_value content_measurement = 6
purpose_value market_research = 7
purpose_value product_development = 8
purpose_value special_feature_geo = 9
purpose_value special_feature_device = 10

-- What a query of the decoded consent does: it answers, it raises `AttributeError` or
-- `IndexError` (`missing`), or it raises something else (`failed`).
pub data Answer : Type 0 where
  allowed denied missing failed : Answer

-- The decoded consent, as far as `_parse_with_iab_tcf` reads it. An attribute may be absent.
pub record Decoded : Type 0 where
  pub is_purpose_allowed : ℕ → Answer
  pub is_vendor_allowed : ℕ → Answer
  pub is_purpose_legitimate_interest_allowed : ℕ → Answer
  pub is_special_feature_allowed : ℕ → Answer
  pub version : Option ℕ
  pub cmp_id : Option ℕ
  pub cmp_version : Option ℕ
  pub consent_language : Option String
  pub vendor_list_version : Option ℕ

-- `decode_v2`, where `none` is an exception; `none` in its place means that the package is not
-- installed.
abbrev pub Decoder : Type 0
Decoder = Option (String → Option Decoded)

pub record TcfConsent : Type 0 where
  pub raw_string : String
  pub version : ℕ
  pub has_consent : Bool
  pub vendor_consent : List ℕ
  pub purpose_consent : List ℕ
  pub legitimate_interest : List ℕ
  pub special_feature_optins : List ℕ
  pub cmp_id : ℕ
  pub cmp_version : ℕ
  pub consent_screen : ℕ
  pub consent_language : String
  pub vendor_list_version : ℕ

-- `cls(raw_string=…, has_consent=False)`: the defaults of every other field.
abbrev pub no_consent : String → TcfConsent
no_consent raw = record {
  raw_string = raw;
  version = 2;
  has_consent = false;
  vendor_consent = [];
  purpose_consent = [];
  legitimate_interest = [];
  special_feature_optins = [];
  cmp_id = 0;
  cmp_version = 0;
  consent_screen = 0;
  consent_language = "EN";
  vendor_list_version = 0;
}

-- `for i in range(id, id + n)` with `except (AttributeError, IndexError): pass`.
unfoldable pub collect : (ℕ → Answer) → ℕ → ℕ → Option (List ℕ)
collect ask zero id = some []
collect ask (suc n) id = elim (ask id) [
  | allowed ↦ Option.map (◌∷◌ id) (collect ask n (id + 1))
  | denied ↦ collect ask n (id + 1)
  | missing ↦ collect ask n (id + 1)
  | failed ↦ none
]

-- The same loop with `except (AttributeError, IndexError): break`.
unfoldable pub collect_until : (ℕ → Answer) → ℕ → ℕ → Option (List ℕ)
collect_until ask zero id = some []
collect_until ask (suc n) id = elim (ask id) [
  | allowed ↦ Option.map (◌∷◌ id) (collect_until ask n (id + 1))
  | denied ↦ collect_until ask n (id + 1)
  | missing ↦ some []
  | failed ↦ none
]

infixl 5 ◌>>=◌
abbrev ◌>>=◌ {ℓ κ} : {A : Type ℓ} {B : Type κ} → Option A → (A → Option B) → Option B
none >>= k = none
some a >>= k = k a

-- The body of the `try` of `_parse_with_iab_tcf`.
unfoldable pub extract : String → Decoded → Option TcfConsent
extract consent_string consent = do
  purpose_consent ← collect consent.is_purpose_allowed 11 1
  vendor_consent ← collect_until consent.is_vendor_allowed 1000 1
  legitimate_interest ← collect consent.is_purpose_legitimate_interest_allowed 11 1
  special_features ← collect consent.is_special_feature_allowed 2 1
  let has_basic_consent = contains purpose_consent 1 || contains legitimate_interest 1
  some (record {
    raw_string = consent_string;
    version = Option.get_or consent.version 2;
    has_consent = has_basic_consent;
    vendor_consent = vendor_consent;
    purpose_consent = purpose_consent;
    legitimate_interest = legitimate_interest;
    special_feature_optins = special_features;
    cmp_id = Option.get_or consent.cmp_id 0;
    cmp_version = Option.get_or consent.cmp_version 0;
    consent_screen = 0;
    consent_language = Option.get_or consent.consent_language "EN";
    vendor_list_version = Option.get_or consent.vendor_list_version 0;
  })

-- `_parse_with_iab_tcf`: any other exception ends in no consent.
unfoldable pub parse_with_iab_tcf : (String → Option Decoded) → String → TcfConsent
parse_with_iab_tcf decode consent_string =
    Option.get_or (decode consent_string >>= extract consent_string) (no_consent consent_string)

unfoldable pub parse : Decoder → String → TcfConsent
unfolding parse_with_iab_tcf extract
parse decoder consent_string = if consent_string == "" then no_consent "" else elim decoder [
  | none ↦ no_consent consent_string
  | some decode ↦ parse_with_iab_tcf decode consent_string
]

unfoldable pub has_purpose_consent : TcfConsent → TcfPurpose → Bool
has_purpose_consent t purpose = contains t.purpose_consent (purpose_value purpose)

unfoldable pub has_vendor_consent : TcfConsent → ℕ → Bool
has_vendor_consent t vendor_id =
    if not t.has_consent
    then false
    else if not (null t.vendor_consent)
    then contains t.vendor_consent vendor_id
    else false

unfoldable pub can_process_for_ads : TcfConsent → Bool
unfolding has_purpose_consent
can_process_for_ads t = t.has_consent && has_purpose_consent t basic_ads

unfoldable pub can_personalize_ads : TcfConsent → Bool
unfolding has_purpose_consent
can_personalize_ads t = t.has_consent && has_purpose_consent t personalized_ads
