-- ===== src/Privacy/Signals/Laws.antt =====
-- What the signals of a request permit.
use thenexusengine.Common.{
  ℕ, ◌≡◌, refl, ◌↔◌, inl, inr, String, true, false, Option, none, some, arith, nat_eq, string_eq,
  Option-cases, Bool-cases,
}
use thenexusengine.Privacy.Tcf
use thenexusengine.Privacy.Tcf.{TcfConsent, Decoder}
use mathlib.Core.Option
use thenexusengine.Privacy.Tcf.{allowed, Decoded}
use thenexusengine.Privacy.Tcf.Parse.{decoded, has_vendor_consent-parse}
use thenexusengine.Privacy.UsPrivacy
use thenexusengine.Privacy.UsPrivacy.{UsPrivacy}
use thenexusengine.Privacy.Signals.{
  BidRequest, ConsentSignals, from_openrtb, can_personalize_ads, can_share_with_vendor, no_user,
  no_user_ext, holds,
}

-- `user.ext.consent`, and the empty text where a key is missing.
abbrev pub consent_text : BidRequest → String
consent_text request =
    Option.get_or (Option.get_or (Option.get_or request.user no_user).ext no_user_ext).consent ""

-- What personalised advertising needs: no child's request, no opt-out of sale, and under the GDPR
-- a consent for the purposes 1 (`has_consent`), 2 and 3.
pub record Personalizable (s : ConsentSignals) : Type 0 where
  pub adult : s.coppa_applies ≡ false
  pub not_opted_out : (u : UsPrivacy) → s.us_privacy ≡ some u → UsPrivacy.has_opted_out u ≡ false
  pub consented :
      s.gdpr_applies ≡ true
      → (t : TcfConsent) × (s.tcf ≡ some t)
        × (t.has_consent ≡ true)
        × (Tcf.has_purpose_consent t Tcf.basic_ads ≡ true)
        × (Tcf.has_purpose_consent t Tcf.personalized_ads ≡ true)

can_personalize_ads_sound : (s : ConsentSignals) → can_personalize_ads s ≡ true → Personalizable s
unfolding can_personalize_ads Tcf.can_process_for_ads Tcf.can_personalize_ads
can_personalize_ads_sound s h = record {
  adult = ground arith;
  not_opted_out = λ u e. ground arith;
  consented = λ g. elim (Option-cases s.tcf) [
    | inl absent ↦ absurd (ground arith)
    | inr (t, e) ↦ (t, e, ground arith, ground arith, ground arith)
  ];
}

can_personalize_ads_complete :
    (s : ConsentSignals) → Personalizable s → can_personalize_ads s ≡ true
unfolding can_personalize_ads Tcf.can_process_for_ads Tcf.can_personalize_ads
can_personalize_ads_complete s p =
    let stays : holds UsPrivacy.has_opted_out s.us_privacy ≡ false =
      elim (Option-cases s.us_privacy) [
        | inl absent ↦ rw absent
        | inr (u, e) ↦ rw (e, p.not_opted_out u e)
      ] in
    let adult = p.adult in
    elim (Bool-cases s.gdpr_applies) [
      | inl g ↦ let (t, e, given, basic, personal) = p.consented g in ground arith
      | inr free ↦ ground arith
    ]

-- Personalised advertising is permitted exactly when the request is no child's, the user has not
-- opted out of sale, and, where the GDPR applies, there is a TCF consent with `has_consent`, which
-- stands for purpose 1, that covers purposes 2 and 3.
pub can_personalize_ads_iff :
    (s : ConsentSignals) → (can_personalize_ads s ≡ true) ↔ Personalizable s
can_personalize_ads_iff s = (can_personalize_ads_sound s, can_personalize_ads_complete s)

-- `regs.ext.gdpr`, where the keys are there.
abbrev pub gdpr_flag : BidRequest → Option ℕ
gdpr_flag request = elim request.regs [
  | none ↦ none
  | some regs ↦ elim regs.ext [ none ↦ none | some ext ↦ ext.gdpr ]
]

gdpr_applies-flag :
    (decoder : Decoder) (request : BidRequest)
    → gdpr_flag request ≡ some 1
    → (from_openrtb decoder request).gdpr_applies ≡ true
unfolding from_openrtb
gdpr_applies-flag decoder request flag = elim (Option-cases request.regs) [
  | inl absent ↦ absurd (ground (arith, absent, flag))
  | inr (regs, there) ↦ elim (Option-cases regs.ext) [
    | inl absent ↦ absurd (ground (arith, there, absent, flag))
    | inr (ext, inside) ↦
        let set : ext.gdpr ≡ some 1 = ground (arith, there, inside, flag) in
        rw (there, inside, set) refl
  ]
]

-- From the request to the decoder: with `regs.ext.gdpr` 1, data may be shared with a vendor only
-- if the request carries a consent text in which the decoder allows that vendor.
pub can_share_with_vendor-from_openrtb :
    (decoder : Decoder) (request : BidRequest) (v : ℕ)
    → gdpr_flag request ≡ some 1
    → can_share_with_vendor (from_openrtb decoder request) v ≡ true
    → (c : Decoded) × (decoded decoder (consent_text request) ≡ some c)
      × (c.is_vendor_allowed v ≡ allowed)
unfolding from_openrtb can_share_with_vendor
can_share_with_vendor-from_openrtb decoder request v flag h =
    let g = gdpr_applies-flag decoder request flag in
    let (c, e, granted, _, _, _) =
      has_vendor_consent-parse decoder (consent_text request) v (ground arith) in
    (c, e, granted)
