-- ===== src/Privacy/Filter/Batch.antt =====
-- `filter_bidders` and `get_privacy_summary`, against the filter of one bidder.
use thenexusengine.Common.{
  ◌≡◌, String, true, List, [], ◌∷◌, ◌++◌, map, arith, filter, string_eq, nat_eq, ◌∙◌, Bool-cases,
  inl, inr,
}
use thenexusengine.Privacy.Signals.{ConsentSignals}
use thenexusengine.Privacy.Filter.{
  PrivacyFilter, PrivacyFilterResult, FilterReason, filter_bidder, filter_loop, filter_bidders,
  check_tcf_consent, check_ccpa_consent,
}
use mathlib.Core.List.{append-nil, append_assoc}

-- A result that fits its bidder: the flag says whether the reason is `ALLOWED`.
pub record IsCoherent (code : String) (r : PrivacyFilterResult) : Type 0 where
  pub named : r.bidder_code ≡ code
  pub passed : r.allowed ≡ true → r.reason ≡ FilterReason.allowed
  pub refused : r.reason ≡ FilterReason.allowed → r.allowed ≡ true

module _ (f : PrivacyFilter) (s : ConsentSignals) where
  filter_loop_lem :
      (codes passed : List String) (results : List PrivacyFilterResult)
      → filter_loop f s codes passed results ≡ (
        passed ++ filter (λ c. (filter_bidder f c s).allowed) codes,
        results ++ map (λ c. filter_bidder f c s) codes,
      )
  unfolding filter_loop
  filter_loop_lem [] passed results = simp append-nil
  filter_loop_lem (c ∷ codes) passed results = elim (Bool-cases (filter_bidder f c s).allowed) [
    | inl y ↦ rw y (filter_loop_lem codes _ _ ∙ simp append_assoc)
    | inr n ↦ rw n (filter_loop_lem codes _ _ ∙ simp append_assoc)
  ]

  -- The allowed bidders are those that pass, in their order, and there is one result for each
  -- bidder, in their order.
  pub filter_bidders_lem :
      (codes : List String)
      → filter_bidders f codes s
        ≡ (filter (λ c. (filter_bidder f c s).allowed) codes, map (λ c. filter_bidder f c s) codes)
  unfolding filter_bidders
  filter_bidders_lem codes = filter_loop_lem codes [] []

  -- The result of one bidder carries its code, and its reason is `ALLOWED` exactly when the bidder
  -- is allowed.
  pub filter_bidder-IsCoherent : (code : String) → IsCoherent code (filter_bidder f code s)
  unfolding filter_bidder check_tcf_consent check_ccpa_consent
  filter_bidder-IsCoherent code = record {
    named = ground arith;
    passed = ground arith;
    refused = ground arith;
  }
