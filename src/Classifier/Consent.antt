-- ===== src/Classifier/Consent.antt =====
-- The consent that src/idr/classifier/request_classifier.py extracts agrees with the consent signals.
use thenexusengine.Common.{
  ◌≡◌, refl, ap, ◌∙◌, String, true, false, Option, none, some, arith, Option-cases, inl, inr, ◌==◌,
  nat_eq, string_eq, not, is_some, ◌&&◌,
}
use mathlib.Core.Option
use thenexusengine.Common.Text.{is_empty}
use thenexusengine.Privacy.Tcf.{Decoder}
use thenexusengine.Privacy.Signals
use thenexusengine.Privacy.Signals.{no_user_ext, no_regs_ext, from_openrtb, has_valid_consent}
use thenexusengine.Request.{Timestamp, gdpr_applies}
use thenexusengine.Classifier.Ortb.{OrtbRequest, User, no_user, Regs, no_regs}
use thenexusengine.Classifier.Extract.{ParsedUserAgent, nonempty}
use thenexusengine.Classifier.Ids.{check_consent}
use thenexusengine.Classifier.Classify.{
  Randoms, RequestClassifier, classify, bid_request, signal_user, signal_regs,
}

no_text : (o : Option String) → nonempty o ≡ none → (Option.get_or o "" == "") ≡ true
no_text none e = refl
no_text (some String.[]) e = refl
no_text (some (String.◌∷◌ c s)) e = absurd (ground arith)

signal_consent :
    (o : Option User)
    → (Option.get_or
        (Option.get_or (Option.map signal_user o) Signals.no_user).ext
        no_user_ext).consent
      ≡ (Option.get_or o no_user).consent
signal_consent none = refl
signal_consent (some u) = refl

signal_gdpr :
    (o : Option Regs)
    → (Option.get_or
        (Option.get_or (Option.map signal_regs o) Signals.no_regs).ext
        no_regs_ext).gdpr
      ≡ (Option.get_or o no_regs).gdpr
signal_gdpr none = refl
signal_gdpr (some regs) = refl

nonempty_text : (o : Option String) → is_some (nonempty o) ≡ not (is_empty (Option.get_or o ""))
nonempty_text none = refl
nonempty_text (some String.[]) = refl
nonempty_text (some (String.◌∷◌ c s)) = refl

check_consent-is_empty :
    (regs : Regs) (user : User)
    → regs.gdpr ≡ some 1
    → check_consent regs user ≡ not (is_empty (Option.get_or user.consent ""))
unfolding check_consent
check_consent-is_empty regs user flag = rw flag (nonempty_text user.consent)

module _ (decoder : Decoder) (parse_user_agent : String → ParsedUserAgent) where
  -- Where the request's regs.ext.gdpr is 1, GDPR applies to the classified request, it has consent
  -- exactly if the consent text of the user is there and not empty, and the consent of its signals is
  -- never valid where it has no consent.
  pub classify-has_valid_consent :
      (self : RequestClassifier) (randoms : Randoms) (now : Timestamp) (request : OrtbRequest)
      → (Option.get_or request.regs no_regs).gdpr ≡ some 1
      → let r = classify decoder parse_user_agent self randoms now request in
        let text = Option.get_or (Option.get_or request.user no_user).consent "" in
        (gdpr_applies r ≡ true)
        × (r.has_consent ≡ not (is_empty text))
        × ((has_valid_consent (from_openrtb decoder (bid_request request)) && not r.has_consent)
            ≡ false)
  unfolding gdpr_applies classify from_openrtb has_valid_consent check_consent
  classify-has_valid_consent self randoms now request flag =
      let user = Option.get_or request.user no_user in
      let r = classify decoder parse_user_agent self randoms now request in
      let applies : gdpr_applies r ≡ true =
        ap (λ o. Option.get_or o 0 == 1) (signal_gdpr request.regs ∙ flag) in
      let consented : r.has_consent ≡ not (is_empty (Option.get_or user.consent "")) =
        check_consent-is_empty (Option.get_or request.regs no_regs) user flag in
      (
        applies,
        consented,
        elim (Option-cases (nonempty user.consent)) [
          | inr (consent, there) ↦ ground (arith, consented, nonempty_text user.consent, there)
          | inl nothing ↦
              let same = ap (λ o. Option.get_or o "" == "") (signal_consent request.user) in
              let silent : (from_openrtb decoder (bid_request request)).tcf ≡ none =
                rw (same ∙ no_text user.consent nothing) refl in
              let invalid : has_valid_consent (from_openrtb decoder (bid_request request)) ≡ false =
                rw (applies, silent, has_valid_consent) refl in
              ap (λ b. b && not r.has_consent) invalid
        ],
      )
