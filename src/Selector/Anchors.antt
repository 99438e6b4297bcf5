-- ===== src/Selector/Anchors.antt =====
-- The custom anchors of a configuration, in `create_selector_for_context` and after it.
use thenexusengine.Common.{
  ℕ, ◌≡◌, ◌≢◌, String, Option, List, [], arith, ◌==◌, string_eq, take, if◌then◌else◌,
}
use thenexusengine.Privacy.Filter.{PrivacyFilter}
use thenexusengine.Selector.Config.{ResolvedConfig, from_resolved_config}
use thenexusengine.Selector.Steps.{Random}
use thenexusengine.Selector.Select.{
  get_anchor_bidders, mock_anchors, create_selector, publisher_or_default, default_anchors,
}

module _ (resolved : ResolvedConfig) (provider : Option (String → ℕ → List String))
    (privacy_filter : Option PrivacyFilter) (rng : Random) where
  -- The custom anchors of a configuration answer for a request only if the request's publisher is
  -- the one that the selector was created for, or "default" where it was created for none: any other
  -- request gets the default anchors, whatever provider was given.
  pub get_anchor_bidders-create_selector :
      (owner : Option String) (publisher : String)
      → resolved.custom_anchor_bidders ≢ []
      → get_anchor_bidders (create_selector owner resolved provider privacy_filter rng) publisher
        ≡ take (from_resolved_config resolved).anchor_bidder_count (
            if publisher_or_default owner == publisher
            then resolved.custom_anchor_bidders
            else default_anchors)
  unfolding get_anchor_bidders create_selector mock_anchors
  get_anchor_bidders-create_selector owner publisher custom = ground arith
