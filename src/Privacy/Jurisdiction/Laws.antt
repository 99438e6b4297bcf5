-- ===== src/Privacy/Jurisdiction/Laws.antt =====
-- Which regulation is inferred, and that there is at most one.
use thenexusengine.Common.{◌≤◌, ◌≡◌, refl, String, true, false, arith, length, ap, ◌==◌, string_eq}
use thenexusengine.Common.Members.{contains, eq_of_beq, beq_trans}
use thenexusengine.Privacy.Jurisdiction.{
  eu_eea_countries, us_regulation, infer_privacy_jurisdiction,
}

us_regulation-le : (region : String) → length (us_regulation region) ≤ 1
unfolding us_regulation
us_regulation-le region = ground arith

outside_eu :
    (contains eu_eea_countries "BR" ≡ false)
    × (contains eu_eea_countries "CN" ≡ false)
    × (contains eu_eea_countries "US" ≡ false)
unfolding eu_eea_countries
outside_eu = (refl, refl, refl)

-- At most one regulation is inferred for a place.
pub infer_privacy_jurisdiction-le_one :
    (country region : String) → length (infer_privacy_jurisdiction country region) ≤ 1
unfolding infer_privacy_jurisdiction
infer_privacy_jurisdiction-le_one country region =
    let (br, cn, us) = outside_eu in
    let eu = λ (a : String) (h : (country == a) ≡ true).
      ap (contains eu_eea_countries) (eq_of_beq country a h) in
    ground (
      arith,
      us_regulation-le region,
      beq_trans country "BR" "CN",
      beq_trans country "BR" "US",
      beq_trans country "CN" "US",
      eu "BR",
      eu "CN",
      eu "US",
    )
