-- ===== src/Privacy/Jurisdiction.antt =====
-- src/idr/privacy/privacy_filter.py, `infer_privacy_jurisdiction`. A set of regulations is the list
-- of its elements.
pub mod Laws
use thenexusengine.Common.{String, Bool, List, [], ◌∷◌, ◌++◌, if◌then◌else◌, ◌==◌, string_eq}
use thenexusengine.Common.Members.{contains}

pub data PrivacyRegulation : Type 0 where
  gdpr ccpa cpra lgpd pipl virginia colorado connecticut utah : PrivacyRegulation

unfoldable pub eu_eea_countries : List String
eu_eea_countries =
    "AT" ∷ "BE" ∷ "BG" ∷ "HR" ∷ "CY" ∷ "CZ" ∷ "DK" ∷ "EE" ∷ "FI" ∷ "FR" ∷ "DE" ∷ "GR" ∷ "HU" ∷ "IE"
    ∷ "IT" ∷ "LV" ∷ "LT" ∷ "LU" ∷ "MT" ∷ "NL" ∷ "PL" ∷ "PT" ∷ "RO" ∷ "SK" ∷ "SI" ∷ "ES" ∷ "SE"
    ∷ "IS" ∷ "LI" ∷ "NO" ∷ "GB" ∷ []

-- The chain of tests of `region` in the United States.
us_regulation : String → List PrivacyRegulation
us_regulation region =
    if region == "CA"
    then ccpa ∷ []
    else if region == "VA"
    then virginia ∷ []
    else if region == "CO"
    then colorado ∷ []
    else if region == "CT"
    then connecticut ∷ []
    else if region == "UT"
    then utah ∷ []
    else []

unfoldable pub infer_privacy_jurisdiction : String → String → List PrivacyRegulation
unfolding us_regulation
infer_privacy_jurisdiction country region =
    (if contains eu_eea_countries country then gdpr ∷ [] else [])
    ++ ((if country == "BR" then lgpd ∷ [] else [])
        ++ ((if country == "CN" then pipl ∷ [] else [])
            ++ (if country == "US" then us_regulation region else [])))
