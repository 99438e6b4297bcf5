-- ===== src/Privacy/Filter/Regions.antt =====
-- The regions of the bidder adform in the default table, against the countries of the EU and EEA.
use thenexusengine.Common.{
  ◌≡◌, refl, ◌≢◌, String, Bool, true, false, none, ap, arith, ◌==◌, string_eq, [], ◌∷◌,
}
use thenexusengine.Common.Members.{contains, eq_of_beq}
use thenexusengine.Common.Text.{lower}
use thenexusengine.Privacy.Signals.{ConsentSignals}
use thenexusengine.Privacy.Bidders.{bidder_privacy_config}
use thenexusengine.Privacy.Jurisdiction.{eu_eea_countries}
use thenexusengine.Privacy.Filter.{init, get_bidder_config, filter_bidder}

not_a_country : (contains eu_eea_countries "EU" ≡ false) × (contains eu_eea_countries "EEA" ≡ false)
unfolding eu_eea_countries
not_a_country = (refl, refl)

adform_regions :
    (strict : Bool)
    → (get_bidder_config (init none strict) "adform").allowed_regions ≡ "EU" ∷ "GB" ∷ "EEA" ∷ []
unfolding get_bidder_config init bidder_privacy_config lower
adform_regions strict = refl

-- The default filter rejects adform in every country of the EU and EEA list but the United
-- Kingdom, since its regions are not country codes, whatever consent there is.
pub adform-refused :
    (strict : Bool) (s : ConsentSignals)
    → contains eu_eea_countries s.country ≡ true
    → s.country ≢ "GB"
    → (filter_bidder (init none strict) "adform" s).allowed ≡ false
unfolding filter_bidder
adform-refused strict s inside abroad =
    let (eu, eea) = not_a_country in
    let here = λ (a : String) (h : ("EU" == a) ≡ true).
      ap (contains eu_eea_countries) (eq_of_beq "EU" a h) in
    let here' = λ (a : String) (h : ("EEA" == a) ≡ true).
      ap (contains eu_eea_countries) (eq_of_beq "EEA" a h) in
    ground (arith, adform_regions strict, here s.country, here' s.country, eq_of_beq "GB" s.country)
