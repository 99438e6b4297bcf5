-- ===== src/Privacy/Filter/Permits.antt =====
-- When the filter lets a bidder pass, against an independent account of what each law asks.
use thenexusengine.Common.{
  ℕ, ◌≡◌, refl, ◌↔◌, ◌⊎◌, inl, inr, String, Bool, true, false, none, some, List, [], ◌∷◌, arith,
  nat_eq, string_eq, All, Option-cases, Bool-cases, null, not, ◌&&◌,
}
use thenexusengine.Common.Members.{contains}
use thenexusengine.Privacy.Tcf
use thenexusengine.Privacy.Tcf.{TcfConsent}
use thenexusengine.Privacy.UsPrivacy
use thenexusengine.Privacy.UsPrivacy.{UsPrivacy}
use thenexusengine.Privacy.Signals.{ConsentSignals, can_personalize_ads}
use thenexusengine.Privacy.Signals.Laws.{Personalizable, can_personalize_ads_iff}
use thenexusengine.Privacy.Bidders.{BidderPrivacyRequirements}
use thenexusengine.Privacy.Filter.{
  PrivacyFilter, get_bidder_config, known_gvl_id, missing_purpose_of, check_tcf_consent,
  check_ccpa_consent, filter_bidder,
}

-- What the GDPR asks: a consent, the vendor's own if its number is known (else a filter that is not
-- strict), and each purpose that the bidder needs.
pub record TcfPermits (strict : Bool) (config : BidderPrivacyRequirements) (t : TcfConsent)
    : Type 0 where
  pub given : t.has_consent ≡ true
  pub vendor : (v : ℕ) → known_gvl_id config ≡ some v → Tcf.has_vendor_consent t v ≡ true
  pub known : known_gvl_id config ≡ none → strict ≡ false
  pub purposes : All (λ p. contains t.purpose_consent p ≡ true) config.required_purposes

-- What each law asks before a bidder may take part.
pub record Permits (strict : Bool) (config : BidderPrivacyRequirements) (s : ConsentSignals)
    : Type 0 where
  pub coppa : s.coppa_applies ≡ true → config.supports_coppa ≡ true
  pub region : (config.allowed_regions ≡ []) ⊎ (contains config.allowed_regions s.country ≡ true)
  pub not_blocked : contains config.blocked_regions s.country ≡ false
  pub gdpr :
      s.gdpr_applies ≡ true → (t : TcfConsent) × (s.tcf ≡ some t) × TcfPermits strict config t
  pub ccpa : (u : UsPrivacy) → s.us_privacy ≡ some u → UsPrivacy.has_opted_out u ≡ false
  pub personalization : config.requires_personalization ≡ true → Personalizable s

missing_purpose_of_sound :
    (ps consented : List ℕ)
    → missing_purpose_of ps consented ≡ none
    → All (λ p. contains consented p ≡ true) ps
unfolding missing_purpose_of
missing_purpose_of_sound [] c h = tt
missing_purpose_of_sound (p ∷ ps) c h = ground (arith, missing_purpose_of_sound ps c)

missing_purpose_of_complete :
    (ps consented : List ℕ)
    → All (λ p. contains consented p ≡ true) ps
    → missing_purpose_of ps consented ≡ none
unfolding missing_purpose_of
missing_purpose_of_complete [] c h = refl
missing_purpose_of_complete (p ∷ ps) c (q, h) = rw q (missing_purpose_of_complete ps c h)

module _ (f : PrivacyFilter) (code : String) (config : BidderPrivacyRequirements)
    (s : ConsentSignals) where
  check_tcf_consent_sound :
      (check_tcf_consent f code config s).allowed ≡ true
      → (t : TcfConsent) × (s.tcf ≡ some t) × TcfPermits f.strict_mode config t
  unfolding check_tcf_consent
  check_tcf_consent_sound h = elim (Option-cases s.tcf) [
    | inl absent ↦ absurd (ground arith)
    | inr (t, e) ↦
        let purposes = missing_purpose_of_sound config.required_purposes t.purpose_consent in
        (
          t,
          e,
          record {
            given = ground arith;
            vendor = λ v known. ground arith;
            known = λ unknown. ground arith;
            purposes = purposes (ground arith);
          },
        )
  ]

  check_tcf_consent_complete :
      (t : TcfConsent)
      → s.tcf ≡ some t
      → TcfPermits f.strict_mode config t
      → (check_tcf_consent f code config s).allowed ≡ true
  unfolding check_tcf_consent
  check_tcf_consent_complete t e p =
      let given = p.given in
      let purposes =
        missing_purpose_of_complete config.required_purposes t.purpose_consent p.purposes in
      elim (Option-cases (known_gvl_id config)) [
        | inl unknown ↦ let lax = p.known unknown in ground arith
        | inr (v, known) ↦ let vendor = p.vendor v known in ground arith
      ]

  check_ccpa_consent_sound :
      (check_ccpa_consent code s).allowed ≡ true
      → (u : UsPrivacy) → s.us_privacy ≡ some u
      → UsPrivacy.has_opted_out u ≡ false
  unfolding check_ccpa_consent
  check_ccpa_consent_sound h u e = ground arith

  check_ccpa_consent_complete :
      ((u : UsPrivacy) → s.us_privacy ≡ some u → UsPrivacy.has_opted_out u ≡ false)
      → (check_ccpa_consent code s).allowed ≡ true
  unfolding check_ccpa_consent
  check_ccpa_consent_complete h = elim (Option-cases s.us_privacy) [
    | inl absent ↦ ground arith
    | inr (u, e) ↦ let stays = h u e in ground arith
  ]

module _ (f : PrivacyFilter) (code : String) (s : ConsentSignals) where
  abbrev config : BidderPrivacyRequirements
  config = get_bidder_config f code

  filter_bidder_sound :
      (filter_bidder f code s).allowed ≡ true → Permits f.strict_mode (get_bidder_config f code) s
  unfolding filter_bidder
  filter_bidder_sound h = record {
    coppa = λ child. ground arith;
    region = elim (Bool-cases (null config.allowed_regions)) [
      | inl e ↦ inl (ground arith)
      | inr n ↦ inr (ground arith)
    ];
    not_blocked = ground arith;
    gdpr = λ applies. check_tcf_consent_sound f code config s (ground arith);
    ccpa = λ u e. check_ccpa_consent_sound f code config s (ground arith) u e;
    personalization = λ r. (can_personalize_ads_iff s).0 (ground arith);
  }

  filter_bidder_complete :
      Permits f.strict_mode (get_bidder_config f code) s → (filter_bidder f code s).allowed ≡ true
  unfolding filter_bidder
  filter_bidder_complete p =
      let tcf : (s.gdpr_applies && not (check_tcf_consent f code config s).allowed) ≡ false =
        elim (Bool-cases s.gdpr_applies) [
          | inl applies ↦
              let (t, e, permits) = p.gdpr applies in
              ground (arith, check_tcf_consent_complete f code config s t e permits)
          | inr free ↦ rw free
        ] in
      let ccpa = check_ccpa_consent_complete f code config s p.ccpa in
      let personal : (config.requires_personalization && not (can_personalize_ads s)) ≡ false =
        elim (Bool-cases config.requires_personalization) [
          | inl r ↦ rw (r, (can_personalize_ads_iff s).1 (p.personalization r))
          | inr free ↦ rw free
        ] in
      let coppa : (s.coppa_applies && not config.supports_coppa) ≡ false =
        elim (Bool-cases s.coppa_applies) [
          | inl child ↦ rw (child, p.coppa child)
          | inr adult ↦ rw adult
        ] in
      let region : (not (null config.allowed_regions)
            && not (contains config.allowed_regions s.country))
          ≡ false =
        elim p.region [ inl e ↦ rw e | inr c ↦ ground arith ] in
      let blocked = p.not_blocked in ground arith

  -- A bidder passes the filter exactly when every law that applies permits it.
  pub filter_bidder_iff :
      ((filter_bidder f code s).allowed ≡ true) ↔ Permits f.strict_mode (get_bidder_config f code) s
  filter_bidder_iff = (filter_bidder_sound, filter_bidder_complete)
