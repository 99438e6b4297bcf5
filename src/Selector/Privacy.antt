-- ===== src/Selector/Privacy.antt =====
-- The privacy step: who stays in the ranking, and who is reported as filtered.
use thenexusengine.Common.{
  ◌+◌, ◌≡◌, refl, ◌⊎◌, inl, inr, ◌∙◌, ap, String, Bool, true, some, List, [], ◌∷◌, map, filter,
  arith, ◌==◌, string_eq, Bool-cases, Option-cases,
}
use thenexusengine.Common.Members.{contains, count, eq_of_beq, contains-filter}
use thenexusengine.Scores.{BidderScore}
use thenexusengine.Request.{ClassifiedRequest}
use thenexusengine.Privacy.Signals.{ConsentSignals}
use thenexusengine.Privacy.Filter.{PrivacyFilter, filter_bidder}
use thenexusengine.Privacy.Filter.Batch.{filter_bidders_lem, filter_bidder-IsCoherent}
use thenexusengine.Selector.Config.{ExcludedBidder}
use thenexusengine.Selector.Select.{
  PartnerSelector, Filtered, excluded_of, apply_privacy_filter, privacy_step,
}
use thenexusengine.Selector.Adds.{score_codes, In, contains-score_codes}

abbrev pub excluded_codes : List ExcludedBidder → List String
excluded_codes = map (λ e. e.bidder_code)

filter-congr :
    (p q : BidderScore → Bool) (xs : List BidderScore)
    → ((s : BidderScore) → In s xs → p s ≡ q s)
    → filter p xs ≡ filter q xs
filter-congr p q [] h = refl
filter-congr p q (x ∷ xs) h =
    let rest = filter-congr p q xs (λ s m. h s (inr m)) in let head = h x (inl refl) in ground arith

module _ (f : PrivacyFilter) (signals : ConsentSignals) where
  abbrev pub passes : String → Bool
  passes c = (filter_bidder f c signals).allowed

  count-split :
      (ranked : List BidderScore) (c : String)
      → count (score_codes (filter (λ s. passes s.bidder_code) ranked)) c
          + count
              (excluded_codes
                (excluded_of (map (λ k. filter_bidder f k signals) (score_codes ranked))))
              c
        ≡ count (score_codes ranked) c
  unfolding excluded_of
  count-split [] c = omega arith
  count-split (s ∷ ranked) c =
      let named = (filter_bidder-IsCoherent f signals s.bidder_code).named in
      ground (arith, count-split ranked c)

  passes_of_filter :
      (ranked : List BidderScore) (c : String)
      → contains (score_codes (filter (λ s. passes s.bidder_code) ranked)) c ≡ true
      → passes c ≡ true
  passes_of_filter [] c m = absurd (ground arith)
  passes_of_filter (s ∷ ranked) c m = ground (
    arith,
    passes_of_filter ranked c,
    λ (e : (s.bidder_code == c) ≡ true). ap passes (eq_of_beq s.bidder_code c e),
  )

  -- Who stays are those that the filter lets pass.
  apply_privacy_filter_lem :
      (ranked : List BidderScore) (request : ClassifiedRequest)
      → request.consent_signals ≡ some signals
      → ((apply_privacy_filter (some f) ranked request).ranked
          ≡ filter (λ s. passes s.bidder_code) ranked)
        × ((apply_privacy_filter (some f) ranked request).excluded
            ≡ excluded_of (map (λ k. filter_bidder f k signals) (score_codes ranked)))
  unfolding apply_privacy_filter
  apply_privacy_filter_lem ranked request e =
      let by_filter = filter_bidders_lem f signals (score_codes ranked) in
      (
        rw (e, apply_privacy_filter)
            (ap (λ r. filter (λ s. contains r.0 s.bidder_code) ranked) by_filter
              ∙ filter-congr _ _ ranked (λ s m.
                let there = contains-score_codes s ranked m in
                let kept = contains-filter passes (score_codes ranked) s.bidder_code in
                ground arith)),
        rw (e, apply_privacy_filter) (ap (λ r. excluded_of r.1) by_filter),
      )

-- Does the configuration filter this request, and by which filter and signals?
pub data Guarded (p : PartnerSelector) (request : ClassifiedRequest) : Type 0 where
  guarded :
      (f : PrivacyFilter) (signals : ConsentSignals)
      → p.config.privacy_enabled ≡ true
      → p.privacy_filter ≡ some f
      → request.consent_signals ≡ some signals
      → Guarded p request

module _ (p : PartnerSelector) (ranked : List BidderScore) (request : ClassifiedRequest) where
  abbrev pub step : Filtered
  step = privacy_step p ranked request

  pub privacy_step_guarded :
      (f : PrivacyFilter) (signals : ConsentSignals)
      → p.config.privacy_enabled ≡ true
      → p.privacy_filter ≡ some f
      → request.consent_signals ≡ some signals
      → (step.ranked ≡ filter (λ s. passes f signals s.bidder_code) ranked)
        × (step.excluded ≡ excluded_of (map (λ k. filter_bidder f k signals) (score_codes ranked)))
  unfolding privacy_step
  privacy_step_guarded f signals on has_filter has_signals =
      let lem = apply_privacy_filter_lem f signals ranked request has_signals in
      (ground (arith, lem), ground (arith, lem))

  privacy_step_cases : Guarded p request ⊎ ((step.ranked ≡ ranked) × (step.excluded ≡ []))
  unfolding privacy_step
  privacy_step_cases = elim (Bool-cases p.config.privacy_enabled) [
    | inr off ↦ inr (ground arith, ground arith)
    | inl on ↦ elim (Option-cases p.privacy_filter) [
      | inl no_filter ↦ inr (ground arith, ground arith)
      | inr (f, has_filter) ↦ elim (Option-cases request.consent_signals) [
        | inl no_signals ↦ inr (ground arith, ground arith)
        | inr (signals, has_signals) ↦ inl (guarded f signals on has_filter has_signals)
      ]
    ]
  ]

  -- The privacy step splits the ranking in those who stay and those it reports.
  pub count-privacy_step :
      (c : String)
      → count (score_codes step.ranked) c + count (excluded_codes step.excluded) c
        ≡ count (score_codes ranked) c
  count-privacy_step c = elim privacy_step_cases [
    | inr (same, nobody) ↦ rw (same, nobody) (omega arith)
    | inl (guarded f signals on has_filter has_signals) ↦
        let (stay, go) = privacy_step_guarded f signals on has_filter has_signals in
        rw (stay, go) (count-split f signals ranked c)
  ]

  -- Whoever stays passes the filter.
  pub passes_of_ranked :
      (f : PrivacyFilter) (signals : ConsentSignals) (c : String)
      → p.config.privacy_enabled ≡ true
      → p.privacy_filter ≡ some f
      → request.consent_signals ≡ some signals
      → contains (score_codes step.ranked) c ≡ true
      → passes f signals c ≡ true
  passes_of_ranked f signals c on has_filter has_signals m =
      let (stay, _) = privacy_step_guarded f signals on has_filter has_signals in
      passes_of_filter f signals ranked c (rw stay at m)
