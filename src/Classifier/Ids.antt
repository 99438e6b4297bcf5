-- ===== src/Classifier/Ids.antt =====
-- src/idr/classifier/request_classifier.py: the identifiers of the user and the consent.
use thenexusengine.Common.{
  String, Bool, true, Option, none, some, List, [], ◌∷◌, is_some, if◌then◌else◌, ◌==◌, string_eq,
  nat_eq,
}
use mathlib.Core.Option
use thenexusengine.Common.Members.{lookup}
use thenexusengine.Common.Dicts.{dict_set}
use thenexusengine.Common.Text.{lower, has_part}
use thenexusengine.Classifier.Ortb.{Eid, User, Regs}
use thenexusengine.Classifier.Extract.{nonempty}

abbrev pub eid_mapping : List (String × String)
eid_mapping =
    ("uidapi.com", "uid2")
    ∷ (("id5-sync.com", "id5")
        ∷ (("liveramp.com", "liveramp")
            ∷ (("sharedid.org", "sharedid")
                ∷ (("pubcid.org", "pubcid")
                    ∷ (("criteo.com", "criteo")
                        ∷ (("33across.com", "33across_id")
                            ∷ (("adserver.org", "ttd")
                                ∷ (("intentiq.com", "intentiq")
                                    ∷ (("liveintent.com", "liveintent")
                                        ∷ (("netid.de", "netid")
                                            ∷ (("zeotap.com", "zeotap") ∷ [])))))))))))

-- The first entry whose domain is in the source.
unfoldable pub first_domain : String → List (String × String) → Option String
first_domain source [] = none
first_domain source ((domain, id_type) ∷ mapping) =
    let rest = first_domain source mapping in if has_part source domain then some id_type else rest

unfoldable pub map_eid_source_to_type : String → Option String
map_eid_source_to_type source = first_domain (lower source) eid_mapping

-- The first identifier of an entry, if it is there and not empty.
abbrev pub first_uid : List (Option String) → Option String
first_uid [] = none
first_uid (uid ∷ uids) = nonempty uid

-- The loop over the extended identifiers.
unfoldable pub add_eids : List (String × String) → List Eid → List (String × String)
add_eids user_ids [] = user_ids
add_eids user_ids (eid ∷ eids) = elim (map_eid_source_to_type (Option.get_or eid.source "")) [
  | none ↦ add_eids user_ids eids
  | some id_type ↦ elim (first_uid eid.uids) [
    | none ↦ add_eids user_ids eids
    | some uid ↦ add_eids (dict_set user_ids id_type uid) eids
  ]
]

-- `d[k] = v` for a text that is not empty.
abbrev pub set_nonempty : List (String × String) → String → Option String → List (String × String)
set_nonempty user_ids k value = elim (nonempty value) [
  | none ↦ user_ids
  | some v ↦ dict_set user_ids k v
]

unfoldable pub extract_user_ids : User → List (String × String)
extract_user_ids user =
    let found = add_eids [] user.eids in
    let with_user =
      if is_some (lookup found "user_id") then found else set_nonempty found "user_id" user.id in
    set_nonempty with_user "buyer_uid" user.buyeruid

unfoldable pub check_consent : Regs → User → Bool
check_consent regs user = elim regs.gdpr [
  | none ↦ is_some (nonempty user.consent)
  | some gdpr ↦ if gdpr == 0 then true else is_some (nonempty user.consent)
]

unfoldable pub extract_consent_string : User → Regs → Option String
extract_consent_string user regs = elim (nonempty user.consent) [
  | some consent ↦ some consent
  | none ↦ nonempty regs.ext_gpp
]
