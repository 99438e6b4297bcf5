-- ===== src/Privacy/Bidders.antt =====
-- src/idr/privacy/privacy_filter.py: the requirements of each known bidder.
use thenexusengine.Common.{ℕ, String, Bool, true, false, Option, none, some, List, [], ◌∷◌}

-- `gvl_id` 0 is falsy in the code, as a missing one is.
pub record BidderPrivacyRequirements : Type 0 where
  pub bidder_code : String
  pub gvl_id : Option ℕ
  pub required_purposes : List ℕ
  pub requires_personalization : Bool
  pub allowed_regions : List String
  pub blocked_regions : List String
  pub supports_coppa : Bool
  pub requires_consent_globally : Bool

-- An entry of the table: the key is the bidder's code, and the fields not given have their
-- defaults.
entry : String → ℕ → List ℕ → Bool → Bool → List String → String × BidderPrivacyRequirements
entry code gvl_id purposes personalization coppa regions = (
  code,
  record {
    bidder_code = code;
    gvl_id = some gvl_id;
    required_purposes = purposes;
    requires_personalization = personalization;
    allowed_regions = regions;
    blocked_regions = [];
    supports_coppa = coppa;
    requires_consent_globally = false;
  },
)

unfoldable pub bidder_privacy_config : List (String × BidderPrivacyRequirements)
unfolding entry
bidder_privacy_config =
    entry "appnexus" 32 (1 ∷ 2 ∷ 7 ∷ 9 ∷ 10 ∷ []) false true []
    ∷ entry "rubicon" 52 (1 ∷ 2 ∷ 7 ∷ 10 ∷ []) false true []
    ∷ entry "pubmatic" 76 (1 ∷ 2 ∷ 7 ∷ 10 ∷ []) false true []
    ∷ entry "openx" 69 (1 ∷ 2 ∷ 7 ∷ []) false true []
    ∷ entry "ix" 10 (1 ∷ 2 ∷ []) false true []
    ∷ entry "triplelift" 28 (1 ∷ 2 ∷ 7 ∷ []) false true []
    ∷ entry "sovrn" 13 (1 ∷ 2 ∷ []) false false []
    ∷ entry "sharethrough" 80 (1 ∷ 2 ∷ 7 ∷ []) false true []
    ∷ entry "gumgum" 61 (1 ∷ 2 ∷ []) false false []
    ∷ entry "33across" 58 (1 ∷ 2 ∷ 7 ∷ []) false true []
    ∷ entry "spotx" 165 (1 ∷ 2 ∷ 7 ∷ []) false true []
    ∷ entry "beachfront" 335 (1 ∷ 2 ∷ []) false false []
    ∷ entry "unruly" 36 (1 ∷ 2 ∷ 7 ∷ []) false false []
    ∷ entry "teads" 132 (1 ∷ 2 ∷ 7 ∷ 10 ∷ []) false true []
    ∷ entry "outbrain" 164 (1 ∷ 2 ∷ []) false false []
    ∷ entry "criteo" 91 (1 ∷ 2 ∷ 3 ∷ 4 ∷ []) true false []
    ∷ entry "taboola" 42 (1 ∷ 2 ∷ 3 ∷ []) true false []
    ∷ entry "medianet" 142 (1 ∷ 2 ∷ []) false false []
    ∷ entry "conversant" 24 (1 ∷ 2 ∷ 7 ∷ []) false true []
    ∷ entry "adform" 50 (1 ∷ 2 ∷ 7 ∷ []) false false ("EU" ∷ "GB" ∷ "EEA" ∷ [])
    ∷ entry "smartadserver" 45 (1 ∷ 2 ∷ []) false false []
    ∷ entry "improvedigital" 253 (1 ∷ 2 ∷ 7 ∷ []) false false []
    ∷ []

abbrev pub default_privacy_requirements : BidderPrivacyRequirements
default_privacy_requirements = record {
  bidder_code = "_default";
  gvl_id = none;
  required_purposes = 1 ∷ 2 ∷ [];
  requires_personalization = false;
  allowed_regions = [];
  blocked_regions = [];
  supports_coppa = false;
  requires_consent_globally = false;
}
