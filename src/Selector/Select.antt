-- ===== src/Selector/Select.antt =====
-- src/idr/selector/partner_selector.py: `PartnerSelector` and the functions that make one.
use thenexusengine.Common.{
  ℕ, String, true, false, ◌&&◌, not, Option, none, some, List, [], ◌∷◌, ◌++◌, map, length, filter,
  null, take, is_some, if◌then◌else◌, ◌==◌, string_eq,
}
use thenexusengine.Common.Members.{contains, lookup}
use mathlib.Core.Option
use thenexusengine.Scores.{BidderScore, score_lt}
use thenexusengine.Request.{ClassifiedRequest}
use thenexusengine.Privacy.Filter.{
  FilterReason, no_tcf_consent, no_vendor_consent, no_purpose_consent, ccpa_opt_out,
  coppa_restricted, region_blocked, personalization_denied, PrivacyFilter, PrivacyFilterResult,
  PrivacySummary, filter_bidders, get_privacy_summary,
}
use thenexusengine.Selector.Categories.{category_of}
use thenexusengine.Selector.Config.{
  SelectorConfig, ResolvedConfig, from_resolved_config, SelectedBidder, SelectionResult,
  ExcludedBidder, ExclusionReason, privacy_no_tcf, privacy_no_vendor, privacy_no_purpose,
  privacy_ccpa_optout, privacy_coppa, privacy_region, privacy_personalization, bypass,
}
use thenexusengine.Selector.Steps.{
  Random, Selection, nothing_selected, selected_as, score_lookup, add_anchor_bidders,
  add_high_scorers, ensure_diversity, add_exploration_slots,
}

-- An `AnchorBidderProvider` is the function of the publisher and the limit that it answers by.
pub record PartnerSelector : Type 0 where
  pub config : SelectorConfig
  pub anchor_provider : Option (String → ℕ → List String)
  pub privacy_filter : Option PrivacyFilter
  pub rng : Random

-- `sorted(scores, key=lambda x: x.total_score, reverse=True)`, which keeps the order of equals.
unfoldable pub insert_ranked : BidderScore → List BidderScore → List BidderScore
insert_ranked s [] = s ∷ []
insert_ranked s (t ∷ ranked) = if score_lt s t then t ∷ insert_ranked s ranked else s ∷ t ∷ ranked

unfoldable pub rank : List BidderScore → List BidderScore
rank [] = []
rank (s ∷ scores) = insert_ranked s (rank scores)

abbrev pub default_anchors : List String
default_anchors = "rubicon" ∷ "appnexus" ∷ "pubmatic" ∷ []

unfoldable pub get_anchor_bidders : PartnerSelector → String → List String
get_anchor_bidders p publisher_id = elim p.anchor_provider [
  | some provider ↦ provider publisher_id p.config.anchor_bidder_count
  | none ↦ take p.config.anchor_bidder_count default_anchors
]

-- `reason_map.get(reason, ExclusionReason.PRIVACY_NO_TCF)`
unfoldable pub exclusion_reason : FilterReason → ExclusionReason
exclusion_reason no_tcf_consent = privacy_no_tcf
exclusion_reason no_vendor_consent = privacy_no_vendor
exclusion_reason no_purpose_consent = privacy_no_purpose
exclusion_reason ccpa_opt_out = privacy_ccpa_optout
exclusion_reason coppa_restricted = privacy_coppa
exclusion_reason region_blocked = privacy_region
exclusion_reason personalization_denied = privacy_personalization
exclusion_reason FilterReason.allowed = privacy_no_tcf

unfoldable pub excluded_of : List PrivacyFilterResult → List ExcludedBidder
excluded_of [] = []
excluded_of (r ∷ results) =
    if not r.allowed
    then record {
      bidder_code = r.bidder_code;
      reason = exclusion_reason r.reason;
      details = r.details;
    }
      ∷ excluded_of results
    else excluded_of results

pub record Filtered : Type 0 where
  pub ranked : List BidderScore
  pub excluded : List ExcludedBidder
  pub summary : Option PrivacySummary

unfoldable pub apply_privacy_filter :
    Option PrivacyFilter → List BidderScore → ClassifiedRequest → Filtered
apply_privacy_filter none ranked request = record { ranked = ranked; excluded = []; summary = none }
apply_privacy_filter (some f) ranked request = elim request.consent_signals [
  | none ↦ record { ranked = ranked; excluded = []; summary = none }
  | some signals ↦
      let (allowed_codes, results) = filter_bidders f (map (λ s. s.bidder_code) ranked) signals in
      record {
        ranked = filter (λ s. contains allowed_codes s.bidder_code) ranked;
        excluded = excluded_of results;
        summary = some (get_privacy_summary signals results);
      }
]

-- The privacy step of `select_partners`, with the guard before it.
unfoldable pub privacy_step : PartnerSelector → List BidderScore → ClassifiedRequest → Filtered
privacy_step p ranked request =
    if p.config.privacy_enabled && is_some p.privacy_filter && is_some request.consent_signals
    then apply_privacy_filter p.privacy_filter ranked request
    else record { ranked = ranked; excluded = []; summary = none }

-- The four steps of the normal selection.
unfoldable pub select_normal :
    PartnerSelector → List BidderScore → ClassifiedRequest → ℕ → Selection × ℕ
select_normal p ranked request seed =
    let anchored =
      add_anchor_bidders ranked (get_anchor_bidders p request.publisher_id) nothing_selected in
    let (scored, seed') = add_high_scorers p.config p.rng ranked anchored seed in
    let diverse =
      if p.config.diversity_enabled
      then ensure_diversity p.config ranked request scored
      else scored in
    add_exploration_slots p.config p.rng ranked diverse seed'

abbrev pub bypassed : BidderScore → SelectedBidder
bypassed s = selected_as bypass (category_of s.bidder_code) s

abbrev pub added_back : String → BidderScore → SelectedBidder
added_back code s = record (selected_as bypass (category_of code) s) { bidder_code = code }

-- The bidders that the shadow mode adds back: `none` is a `KeyError` of `score_lookup[code]`.
unfoldable pub add_back : List BidderScore → List String → Option (List SelectedBidder)
add_back ranked [] = some []
add_back ranked (code ∷ excluded) = elim (score_lookup ranked code) [
  | none ↦ none
  | some s ↦ Option.map (◌∷◌ (added_back code s)) (add_back ranked excluded)
]

-- The three results of `select_partners`, of a run over `total` scores.
abbrev pub bypass_result : ℕ → Filtered → SelectionResult
bypass_result total filtered = record {
  selected = map bypassed filtered.ranked;
  excluded = [];
  total_candidates = total;
  bypass_mode = true;
  shadow_mode = false;
  shadow_would_exclude = [];
  privacy_filtered = filtered.excluded;
  privacy_summary = filtered.summary;
}

abbrev pub shadow_result :
    ℕ → Filtered → Selection → List String → List SelectedBidder → SelectionResult
shadow_result total filtered selection excluded extra = record {
  selected = selection.selected ++ extra;
  excluded = [];
  total_candidates = total;
  bypass_mode = false;
  shadow_mode = true;
  shadow_would_exclude = excluded;
  privacy_filtered = filtered.excluded;
  privacy_summary = filtered.summary;
}

abbrev pub normal_result : ℕ → Filtered → Selection → List String → SelectionResult
normal_result total filtered selection excluded = record {
  selected = selection.selected;
  excluded = excluded;
  total_candidates = total;
  bypass_mode = false;
  shadow_mode = false;
  shadow_would_exclude = [];
  privacy_filtered = filtered.excluded;
  privacy_summary = filtered.summary;
}

-- `[s.bidder_code for s in ranked if s.bidder_code not in selected_codes]`
abbrev pub left_out : List BidderScore → List String → List String
left_out ranked selected_codes =
    filter (λ c. not (contains selected_codes c)) (map (λ s. s.bidder_code) ranked)

-- `select_partners`, with the state of the random numbers after it. `none` is an exception.
unfoldable pub select_partners :
    PartnerSelector → List BidderScore → ClassifiedRequest → ℕ → Option (SelectionResult × ℕ)
select_partners p scores request seed =
    let filtered = privacy_step p (rank scores) request in
    let (selection, seed') = select_normal p filtered.ranked request seed in
    let excluded = left_out filtered.ranked selection.selected_codes in
    let total = length scores in
    if p.config.bypass_enabled
    then some (bypass_result total filtered, seed)
    else if p.config.shadow_mode
    then Option.map (λ extra. (shadow_result total filtered selection excluded extra, seed'))
        (add_back filtered.ranked excluded)
    else some (normal_result total filtered selection excluded, seed')

-- `MockAnchorProvider` over a dictionary: the publisher's bidders or the default, up to the limit.
unfoldable pub mock_anchors : List (String × List String) → String → ℕ → List String
mock_anchors anchors publisher_id limit =
    take limit (Option.get_or (lookup anchors publisher_id) default_anchors)

-- `publisher_id or "default"`
abbrev pub publisher_or_default : Option String → String
publisher_or_default none = "default"
publisher_or_default (some publisher_id) = if publisher_id == "" then "default" else publisher_id

-- `create_selector_for_context`, for a configuration that was resolved.
unfoldable pub create_selector :
    Option String
    → ResolvedConfig
    → Option (String → ℕ → List String)
    → Option PrivacyFilter
    → Random
    → PartnerSelector
create_selector publisher_id resolved anchor_provider privacy_filter rng = record {
  config = from_resolved_config resolved;
  anchor_provider =
      if not (null resolved.custom_anchor_bidders)
      then some
          (mock_anchors ((publisher_or_default publisher_id, resolved.custom_anchor_bidders) ∷ []))
      else anchor_provider;
  privacy_filter = privacy_filter;
  rng = rng;
}
