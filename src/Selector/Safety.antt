-- ===== src/Selector/Safety.antt =====
-- Results of `select_partners` against the privacy filter, and the modes.
use thenexusengine.Common.{
  ℕ, ◌≡◌, ◌⊎◌, inl, inr, ap, String, true, false, some, List, length, arith, string_eq, Bool-cases,
  Option-cases,
}
use mathlib.Core.Path.{subst}
use thenexusengine.Common.Members.{contains, count, count_present, present_of_count}
use thenexusengine.Scores.{BidderScore}
use thenexusengine.Request.{ClassifiedRequest}
use thenexusengine.Privacy.Signals.{ConsentSignals}
use thenexusengine.Privacy.Filter.{PrivacyFilter, get_bidder_config}
use thenexusengine.Privacy.Filter.Permits.{Permits, filter_bidder_iff}
use thenexusengine.Selector.Config.{SelectedBidder, SelectionResult, codes}
use thenexusengine.Selector.Select.{
  PartnerSelector, rank, select_partners, add_back, left_out, bypass_result, shadow_result,
  normal_result,
}
use thenexusengine.Selector.Adds.{score_codes, Unique}
use thenexusengine.Selector.Explore.{IsFair}
use thenexusengine.Selector.Partition.{
  Accounts, filtered, selection, count-filtered, select_partners-Accounts,
}
use thenexusengine.Selector.Privacy.{excluded_codes, passes_of_ranked}

module _ (p : PartnerSelector) (scores : List BidderScore) (request : ClassifiedRequest)
    (seed seed' : ℕ) (r : SelectionResult)
    (ran : select_partners p scores request seed ≡ some (r, seed')) where
  -- Which of the three results it is.
  select_partners-cases :
      ((p.config.bypass_enabled ≡ true)
        × (r ≡ bypass_result (length scores) (filtered p scores request seed)))
      ⊎ ((extra : List SelectedBidder) × (p.config.bypass_enabled ≡ false)
          × (p.config.shadow_mode ≡ true)
          × (add_back (filtered p scores request seed).ranked (
                left_out
                  (filtered p scores request seed).ranked
                  (selection p scores request seed).selected_codes)
              ≡ some extra)
          × (r
              ≡ shadow_result
                  (length scores)
                  (filtered p scores request seed)
                  (selection p scores request seed)
                  (left_out
                    (filtered p scores request seed).ranked
                    (selection p scores request seed).selected_codes)
                  extra))
      ⊎ ((p.config.bypass_enabled ≡ false)
          × (p.config.shadow_mode ≡ false)
          × (r
              ≡ normal_result
                  (length scores)
                  (filtered p scores request seed)
                  (selection p scores request seed)
                  (left_out
                    (filtered p scores request seed).ranked
                    (selection p scores request seed).selected_codes)))
  unfolding select_partners
  select_partners-cases = elim (Bool-cases p.config.bypass_enabled) [
    | inl on ↦ inl (on, ground arith)
    | inr off ↦ elim (Bool-cases p.config.shadow_mode) [
      | inr plain ↦ inr (inr (off, plain, ground arith))
      | inl shadow ↦
          let filtered' = filtered p scores request seed in
          elim (Option-cases (
            add_back filtered'.ranked
              (left_out filtered'.ranked (selection p scores request seed).selected_codes))) [
                | inl missed ↦ absurd (ground arith)
                | inr (extra, added) ↦ inr (inl (extra, off, shadow, added, ground arith))
              ]
    ]
  ]

  privacy_filtered-eq : r.privacy_filtered ≡ (filtered p scores request seed).excluded
  privacy_filtered-eq = elim select_partners-cases [
    | inl (_, e) ↦ ap (λ x. x.privacy_filtered) e
    | inr (inl (_, _, _, _, e)) ↦ ap (λ x. x.privacy_filtered) e
    | inr (inr (_, _, e)) ↦ ap (λ x. x.privacy_filtered) e
  ]

  module _ (fair : IsFair p.rng) (unique : Unique (score_codes scores)) where
    Accounts-result : Accounts scores r
    Accounts-result =
        let (r', s', e, all_of) = select_partners-Accounts p scores request seed fair unique in
        let same : r' ≡ r = ground arith in subst (Accounts scores) same all_of

    -- In every mode, the bypass and the shadow mode too, each selected bidder is permitted by every
    -- law that applies to the request, where privacy is enabled and there are a filter and signals.
    pub select_partners-Permits :
        (f : PrivacyFilter) (signals : ConsentSignals) (c : String)
        → p.config.privacy_enabled ≡ true
        → p.privacy_filter ≡ some f
        → request.consent_signals ≡ some signals
        → contains (codes r.selected) c ≡ true
        → Permits f.strict_mode (get_bidder_config f c) signals
    select_partners-Permits f signals c on has_filter has_signals chosen =
        let here = count_present (codes r.selected) c chosen in
        let reported = ap (λ xs. count (excluded_codes xs) c) privacy_filtered-eq in
        let total = Accounts-result c in
        let split = count-filtered p scores request seed c in
        let ranked_too =
          present_of_count (score_codes (filtered p scores request seed).ranked) c (omega arith) in
        (filter_bidder_iff f c signals).0 (
          passes_of_ranked p (rank scores) request f signals c on has_filter has_signals ranked_too)
