-- ===== src/Selector/Tests.antt =====
-- Runs of the selector on small inputs, and its theorems at them.
use thenexusengine.Common.{
  ℕ, zero, suc, ◌+◌, ◌≤◌, ◌≡◌, refl, inl, inr, String, true, false, none, some, List, [], ◌∷◌,
  length, take, All, max, arith, string_eq,
}
use thenexusengine.Common.Members.{contains, count, count_of_Distinct}
use thenexusengine.Common.Text.{lower}
use thenexusengine.Scores.{BidderScore, zero_score}
use thenexusengine.Request.{AdFormat, AdPosition, DeviceType, ClassifiedRequest}
use thenexusengine.Privacy.Tcf
use thenexusengine.Privacy.Tcf.{TcfConsent, no_consent}
use thenexusengine.Privacy.UsPrivacy
use thenexusengine.Privacy.Signals
use thenexusengine.Privacy.Signals.{ConsentSignals}
use thenexusengine.Privacy.Filter
use thenexusengine.Privacy.Filter.{PrivacyFilter, get_bidder_config, filter_bidder}
use thenexusengine.Privacy.Filter.Permits.{Permits}
use thenexusengine.Privacy.Bidders.{bidder_privacy_config}
use thenexusengine.Selector.Categories.{category_of, bidder_categories}
use thenexusengine.Selector.Config
use thenexusengine.Selector.Config.{
  SelectorConfig, ResolvedConfig, default_config, from_resolved_config, SelectionResult,
  SelectionReason, codes,
}
use thenexusengine.Selector.Steps
use thenexusengine.Selector.Steps.{Random, get_required_categories}
use thenexusengine.Selector.Select
use thenexusengine.Selector.Select.{
  PartnerSelector, rank, select_normal, select_partners, get_anchor_bidders, create_selector,
  default_anchors, left_out, publisher_or_default,
}
use thenexusengine.Selector.Adds.{score_codes, In, Unique}
use thenexusengine.Selector.Growth.{IsJustified}
use thenexusengine.Selector.Explore.{IsFair}
use thenexusengine.Selector.Partition.{Accounts, filtered, select_partners-Accounts}
use thenexusengine.Selector.Bounds.{length-select_normal-le}
use thenexusengine.Selector.Greedy.{select_normal-anchors, select_normal-high_scorers}
use thenexusengine.Selector.Diversity.{Represents, select_normal-Represents}
use thenexusengine.Selector.Normal.{select_normal-IsJustified}
use thenexusengine.Selector.Safety.{select_partners-Permits}

-- A source of random numbers that draws 0 and samples the first elements.
abbrev first : Random
first = record {
  random = λ seed. (0, seed + 1);
  sample = λ seed population k. (take k population, seed + 1);
}

length-take_self : (k : ℕ) (xs : List BidderScore) → k ≤ length xs → length (take k xs) ≡ k
length-take_self zero xs h = refl
length-take_self (suc k) [] h = absurd (omega arith)
length-take_self (suc k) (x ∷ xs) h = omega (arith, length-take_self k xs)

In-take : (k : ℕ) (xs : List BidderScore) (s : BidderScore) → In s (take k xs) → In s xs
In-take zero xs s m = absurd m
In-take (suc k) [] s m = absurd m
In-take (suc k) (x ∷ xs) s (inl e) = inl e
In-take (suc k) (x ∷ xs) s (inr m) = inr (In-take k xs s m)

count-take-le :
    (k : ℕ) (xs : List BidderScore) (c : String)
    → count (score_codes (take k xs)) c ≤ count (score_codes xs) c
count-take-le zero xs c = omega arith
count-take-le (suc k) [] c = omega arith
count-take-le (suc k) (x ∷ xs) c = ground (arith, count-take-le k xs c)

first-IsFair : IsFair first
first-IsFair = record {
  sampled = λ seed population k h. record {
    size = length-take_self k population h;
    members = In-take k population;
    positions = count-take-le k population;
  };
}

-- A consent for purposes 1, 2, 7, 9 and 10 and for the vendors 32, 52 and 13, but not 91.
abbrev consent : TcfConsent
consent = record (no_consent "CO") {
  has_consent = true;
  vendor_consent = 13 ∷ 32 ∷ 52 ∷ [];
  purpose_consent = 1 ∷ 2 ∷ 7 ∷ 9 ∷ 10 ∷ [];
}

abbrev signals : ConsentSignals
signals = record {
  gdpr_applies = true;
  ccpa_applies = false;
  coppa_applies = false;
  tcf = some consent;
  us_privacy = none;
  gpp = none;
  country = "DE";
  region = "";
}

abbrev request : ClassifiedRequest
request = record {
  impression_id = "1";
  ad_format = AdFormat.banner;
  ad_unit_id = "unit";
  ad_sizes = "300x250" ∷ [];
  position = AdPosition.atf;
  device_type = DeviceType.mobile;
  os = "ios";
  browser = "safari";
  connection_type = "wifi";
  country = "DE";
  region = "";
  dma = none;
  publisher_id = "pub";
  site_id = "site";
  domain = "example.com";
  page_type = none;
  categories = [];
  user_ids = [];
  has_consent = true;
  consent_string = none;
  consent_signals = some signals;
  timestamp = record { isoformat = "2024-01-01T10:00:00+00:00"; hour = 10; weekday = 0 };
  hour_of_day = 10;
  day_of_week = 0;
  floor_price = none;
  floor_currency = "USD";
}

abbrev score : String → ℕ → ℕ → BidderScore
score code total sure = record (zero_score code) { total_score = total; confidence = sure }

abbrev scores : List BidderScore
scores =
    score "sovrn" 40 9 ∷ score "criteo" 99 9 ∷ score "rubicon" 70 9 ∷ score "appnexus" 60 1 ∷ []

abbrev config : SelectorConfig
config = record default_config {
  max_bidders = 3;
  min_score_threshold = 25;
  exploration_rate = 5;
  low_confidence_threshold = 5;
  exploration_confidence_threshold = 3;
  anchor_bidder_count = 1;
}

abbrev default_filter : PrivacyFilter
default_filter = record { bidder_configs = bidder_privacy_config; strict_mode = false }

abbrev selector : PartnerSelector
selector = record {
  config = config;
  anchor_provider = none;
  privacy_filter = some default_filter;
  rng = first;
}

program : Unit {0}
unfolding select_partners rank Select.insert_ranked Select.privacy_step Select.apply_privacy_filter
    Select.excluded_of Select.exclusion_reason select_normal get_anchor_bidders Select.add_back
    Steps.add_anchor_bidders Steps.visit_anchor Steps.score_lookup Steps.add Steps.add_high_scorers
    Steps.visit_score Steps.ensure_diversity Steps.get_required_categories Steps.categories_of
    Steps.best_in_category Steps.add_categories Steps.add_exploration_slots
    Steps.exploration_candidates Steps.add_chosen category_of bidder_categories lower
    get_bidder_config Filter.filter_bidders filter_bidder Filter.check_tcf_consent
    Filter.check_ccpa_consent Filter.missing_purpose_of Filter.get_privacy_summary
    Filter.count_reasons Filter.count_in Filter.reason_name bidder_privacy_config
    Tcf.has_vendor_consent Signals.can_personalize_ads UsPrivacy.has_opted_out
program = tt

abbrev result : PartnerSelector → SelectionResult
unfolding select_partners
result p = elim (select_partners p scores request 0) [
  | some (r, s) ↦ r
  | none ↦ Select.bypass_result 0 (filtered p scores request 0)
]

run :
    (codes (result selector).selected ≡ "rubicon" ∷ "appnexus" ∷ "sovrn" ∷ [])
    × ((result selector).excluded ≡ [])
    × (Config.privacy_filtered_count (result selector) ≡ 1)
    × (Config.is_filtered (result selector) ≡ false)
unfolding program Config.privacy_filtered_count Config.is_filtered
run = (refl, refl, refl, refl)

-- More room, and a threshold that leaves sovrn to the diversity of categories.
abbrev roomy : PartnerSelector
roomy = record selector {
  config = record config { max_bidders = 9; min_score_threshold = 50; exploration_slots = 0 };
}

abbrev shadowed : PartnerSelector
shadowed = record selector {
  config = record config { shadow_mode = true; max_bidders = 2; diversity_enabled = false };
}

abbrev strong : BidderScore
strong = score "rubicon" 70 9

abbrev middling : BidderScore
middling = score "sovrn" 40 9

scores-Unique : Unique (score_codes scores)
scores-Unique = count_of_Distinct (score_codes scores) (refl, (refl, (refl, (refl, tt))))

select_partners-Accounts_example :
    (r : SelectionResult) × (seed' : ℕ) × (select_partners selector scores request 0
      ≡ some (r, seed'))
    × Accounts scores r
select_partners-Accounts_example =
    select_partners-Accounts selector scores request 0 first-IsFair scores-Unique

select_partners-Permits_example : Permits false (get_bidder_config default_filter "sovrn") signals
unfolding program
select_partners-Permits_example =
    select_partners-Permits selector scores request 0 1 (result selector) refl first-IsFair
      scores-Unique default_filter signals "sovrn" refl refl refl refl

length-select_normal-le_example :
    length (select_normal selector (rank scores) request 0).0.selected
    ≤ max 3 (length (get_anchor_bidders selector "pub"))
length-select_normal-le_example =
    length-select_normal-le selector (rank scores) request 0 first-IsFair

select_normal-high_scorers_example :
    contains (codes (select_normal roomy scores request 0).0.selected) "rubicon" ≡ true
unfolding program
select_normal-high_scorers_example =
    select_normal-high_scorers roomy scores request 0 first-IsFair scores-Unique strong
      (omega arith) (inr (inr (inl refl))) (omega arith) (omega arith)

select_normal-Represents_example :
    Represents (codes (select_normal roomy scores request 0).0.selected) "mid_tier"
unfolding program
select_normal-Represents_example =
    select_normal-Represents roomy scores request 0 first-IsFair scores-Unique "mid_tier" middling
      refl refl (inl refl) refl (omega arith)

select_normal-IsJustified_example :
    All
      (IsJustified config
        (get_anchor_bidders selector "pub")
        (get_required_categories config request))
      (select_normal selector scores request 0).0.selected
select_normal-IsJustified_example =
    select_normal-IsJustified selector scores request 0 first-IsFair scores-Unique

select_normal-anchors_example :
    contains (codes (select_normal selector scores request 0).0.selected) "rubicon" ≡ true
unfolding program
select_normal-anchors_example =
    select_normal-anchors selector scores request 0 first-IsFair scores-Unique "rubicon" refl refl

abbrev resolved : ResolvedConfig
resolved = record {
  bypass_enabled = false;
  shadow_mode = false;
  privacy_enabled = true;
  privacy_strict_mode = false;
  max_bidders = 15;
  min_score_threshold = 25;
  exploration_enabled = true;
  exploration_rate = 5;
  exploration_slots = 2;
  low_confidence_threshold = 5;
  exploration_confidence_threshold = 3;
  anchor_bidders_enabled = true;
  anchor_bidder_count = 2;
  custom_anchor_bidders = "sovrn" ∷ [];
  diversity_enabled = true;
  diversity_categories = [];
}
