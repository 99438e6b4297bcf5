-- ===== src/Privacy/Gpp.antt =====
-- src/idr/privacy/consent_models.py, `GPPConsent`. The parser reads no section: what follows the
-- split of the text changes no field.
use thenexusengine.Common.{
  ℕ, String, Bool, false, ◌||◌, Option, none, some, List, [], ◌∷◌, ◌==◌, nat_eq, string_eq,
  if◌then◌else◌,
}
use thenexusengine.Common.Members.{contains, lookup}
use thenexusengine.Privacy.Tcf.{TcfConsent, no_consent}
use mathlib.Core.Option

-- The data of a section, as far as it is read.
pub record Section : Type 0 where
  pub raw : Option String
  pub has_consent : Option Bool

pub record GppConsent : Type 0 where
  pub raw_string : String
  pub section_ids : List ℕ
  pub sections : List (ℕ × Section)

unfoldable pub parse : String → GppConsent
parse gpp_string =
    if gpp_string == ""
    then record { raw_string = ""; section_ids = []; sections = [] }
    else record { raw_string = gpp_string; section_ids = []; sections = [] }

unfoldable pub has_tcf_section : GppConsent → Bool
has_tcf_section g = contains g.section_ids 2

-- `bool(set(section_ids) & us_sections)`
intersects : List ℕ → List ℕ → Bool
intersects [] ys = false
intersects (x ∷ xs) ys = contains ys x || intersects xs ys

unfoldable pub has_us_section : GppConsent → Bool
unfolding intersects
has_us_section g = intersects g.section_ids (6 ∷ 7 ∷ 8 ∷ 9 ∷ 10 ∷ 11 ∷ 12 ∷ [])

unfoldable pub get_tcf_consent : GppConsent → Option TcfConsent
get_tcf_consent g = elim (lookup g.sections 2) [
  | none ↦ none
  | some tcf_data ↦ some (record (no_consent (Option.get_or tcf_data.raw "")) {
    has_consent = Option.get_or tcf_data.has_consent false;
  })
]
