-- ===== src/Classifier/Laws.antt =====
-- What src/idr/classifier/request_classifier.py extracts: categories without repeats and identifiers
-- of the user.
use thenexusengine.Common.{
  ◌≡◌, refl, ap, sym, ◌∙◌, String, true, false, ◌&&◌, ◌||◌, Option, none, some, List, [], ◌∷◌, ◌++◌,
  map, if◌then◌else◌, ◌==◌, string_eq, nat_eq, arith, Bool-cases, Option-cases, inl, inr, is_some,
}
use mathlib.Core.Option
use thenexusengine.Common.Members.{
  contains, lookup, Distinct, Distinct-snoc, contains-append, eq_of_beq, eq_self,
}
use thenexusengine.Common.Dicts.{dict_set, lookup-dict_set}
use thenexusengine.Common.Text.{is_empty, lower}
use thenexusengine.Classifier.Ortb.{Source, Eid, User}
use thenexusengine.Classifier.Extract.{nonempty, all_categories, deduplicate, extract_categories}
use thenexusengine.Classifier.Ids.{
  eid_mapping, first_domain, map_eid_source_to_type, first_uid, add_eids, set_nonempty,
  extract_user_ids,
}

deduplicate-Distinct :
    (seen unique xs : List String)
    → ((k : String) → contains seen k ≡ contains unique k)
    → Distinct unique
    → Distinct (deduplicate seen unique xs)
unfolding deduplicate
deduplicate-Distinct seen unique [] same d = d
deduplicate-Distinct seen unique (x ∷ xs) same d = elim (Bool-cases (contains seen x)) [
  | inl there ↦ rw there (deduplicate-Distinct seen unique xs same d)
  | inr absent ↦ rw absent (
      deduplicate-Distinct (x ∷ seen) (unique ++ x ∷ []) xs
        (λ k. ground (arith, same k, contains-append unique (x ∷ []) k))
        (Distinct-snoc unique x d (sym (same x) ∙ absent)))
]

contains-deduplicate :
    (seen unique xs : List String)
    → ((k : String) → contains seen k ≡ contains unique k)
    → (k : String) → contains (deduplicate seen unique xs) k ≡ (contains unique k || contains xs k)
unfolding deduplicate
contains-deduplicate seen unique [] same k = ground arith
contains-deduplicate seen unique (x ∷ xs) same k = elim (Bool-cases (contains seen x)) [
  | inl there ↦
      let rest = contains-deduplicate seen unique xs same k in
      elim (Bool-cases (x == k)) [
        | inl hit ↦ let found = ap (contains seen) (eq_of_beq x k hit) in ground (arith, same k)
        | inr miss ↦ ground arith
      ]
  | inr absent ↦
      let rest =
        contains-deduplicate (x ∷ seen) (unique ++ x ∷ []) xs
          (λ k. ground (arith, same k, contains-append unique (x ∷ []) k)) k in
      ground (arith, contains-append unique (x ∷ []) k)
]

-- No category is extracted twice, and those extracted are the ones of the site, of the app and of
-- their content.
pub extract_categories-Distinct :
    (site app : Source)
    → Distinct (extract_categories site app)
      × ((k : String)
          → contains (extract_categories site app) k ≡ contains (all_categories site app) k)
unfolding extract_categories
extract_categories-Distinct site app = (
  deduplicate-Distinct [] [] (all_categories site app) (λ k. refl) tt,
  contains-deduplicate [] [] (all_categories site app) (λ k. refl),
)

abbrev types : List (String × String) → List String
types = map (λ (e : String × String). e.1)

first_domain-types :
    (source : String) (mapping : List (String × String)) (t : String)
    → first_domain source mapping ≡ some t
    → contains (types mapping) t ≡ true
unfolding first_domain
first_domain-types source [] t e = absurd (ground arith)
first_domain-types source ((domain, id_type) ∷ mapping) t e =
    ground (arith, first_domain-types source mapping t, eq_self t)

nonempty_kept : (o : Option String) (v : String) → nonempty o ≡ some v → is_empty v ≡ false
nonempty_kept none v e = absurd (ground arith)
nonempty_kept (some s) v e = elim (Bool-cases (is_empty s)) [
  | inl empty ↦ absurd (ground arith)
  | inr full ↦ let same : s ≡ v = ground arith in ap is_empty (sym same) ∙ full
]

first_uid_kept :
    (uids : List (Option String)) (v : String) → first_uid uids ≡ some v → is_empty v ≡ false
first_uid_kept [] v e = absurd (ground arith)
first_uid_kept (uid ∷ uids) v e = nonempty_kept uid v e

-- No key has an empty text.
abbrev IsFilled : List (String × String) → Type 0
IsFilled ids = (k v : String) → lookup ids k ≡ some v → is_empty v ≡ false

dict_set-IsFilled :
    (ids : List (String × String)) (t u : String)
    → IsFilled ids
    → is_empty u ≡ false
    → IsFilled (dict_set ids t u)
dict_set-IsFilled ids t u h full k v e =
    let read = lookup-dict_set ids t u k in
    elim (Bool-cases (t == k)) [
      | inl hit ↦ let same : u ≡ v = ground arith in ap is_empty (sym same) ∙ full
      | inr miss ↦ h k v (ground arith)
    ]

set_nonempty-IsFilled :
    (ids : List (String × String)) (t : String) (o : Option String)
    → IsFilled ids
    → IsFilled (set_nonempty ids t o)
set_nonempty-IsFilled ids t o h = elim (Option-cases (nonempty o)) [
  | inl nothing ↦ rw (nothing, set_nonempty) h
  | inr (v, some_text) ↦
      rw (some_text, set_nonempty) (dict_set-IsFilled ids t v h (nonempty_kept o v some_text))
]

lookup-set_nonempty :
    (ids : List (String × String)) (t : String) (o : Option String) (k : String)
    → lookup (set_nonempty ids t o) k
      ≡ (if is_some (nonempty o) && t == k then nonempty o else lookup ids k)
lookup-set_nonempty ids t o k = elim (Option-cases (nonempty o)) [
  | inl nothing ↦ rw (nothing, set_nonempty) refl
  | inr (v, some_text) ↦ rw (some_text, set_nonempty) (lookup-dict_set ids t v k ∙ ground arith)
]

add_eids-IsFilled :
    (ids : List (String × String)) (eids : List Eid) → IsFilled ids → IsFilled (add_eids ids eids)
unfolding add_eids
add_eids-IsFilled ids [] h = h
add_eids-IsFilled ids (eid ∷ eids) h =
    elim (Option-cases (map_eid_source_to_type (Option.get_or eid.source ""))) [
      | inl unknown ↦ rw (unknown, add_eids) (add_eids-IsFilled ids eids h)
      | inr (t, known) ↦ elim (Option-cases (first_uid eid.uids)) [
        | inl nothing ↦ rw (known, nothing, add_eids) (add_eids-IsFilled ids eids h)
        | inr (u, first) ↦
            rw (known, first, add_eids)
              (add_eids-IsFilled (dict_set ids t u) eids
                (dict_set-IsFilled ids t u h (first_uid_kept eid.uids u first)))
      ]
    ]

lookup-add_eids :
    (k : String)
    → contains (types eid_mapping) k ≡ false
    → (ids : List (String × String)) (eids : List Eid) → lookup (add_eids ids eids) k ≡ lookup ids k
unfolding add_eids map_eid_source_to_type
lookup-add_eids k other ids [] = refl
lookup-add_eids k other ids (eid ∷ eids) =
    let source = Option.get_or eid.source "" in
    elim (Option-cases (map_eid_source_to_type source)) [
      | inl unknown ↦ rw (unknown, add_eids) (lookup-add_eids k other ids eids)
      | inr (t, known) ↦ elim (Option-cases (first_uid eid.uids)) [
        | inl nothing ↦ rw (known, nothing, add_eids) (lookup-add_eids k other ids eids)
        | inr (u, first) ↦
            let miss : (t == k) ≡ false = elim (Bool-cases (t == k)) [
              | inl hit ↦
                  let typed = first_domain-types (lower source) eid_mapping t known in
                  let same = ap (contains (types eid_mapping)) (eq_of_beq t k hit) in
                  absurd (ground arith)
              | inr miss ↦ miss
            ] in
            rw (known, first, add_eids)
              (lookup-add_eids k other (dict_set ids t u) eids
                ∙ lookup-dict_set ids t u k
                ∙ rw miss refl)
      ]
    ]

-- The extracted identifiers hold the user's own identifier and the buyer's under `user_id` and
-- `buyer_uid`, where these are there and not empty, whatever the extended identifiers are, and no
-- empty text.
pub lookup-extract_user_ids :
    (user : User)
    → lookup (extract_user_ids user) "user_id" ≡ nonempty user.id
      × lookup (extract_user_ids user) "buyer_uid" ≡ nonempty user.buyeruid
      × ((k v : String) → lookup (extract_user_ids user) k ≡ some v → is_empty v ≡ false)
unfolding extract_user_ids
lookup-extract_user_ids user =
    let found = add_eids [] user.eids in
    let no_user = lookup-add_eids "user_id" refl [] user.eids in
    let no_buyer = lookup-add_eids "buyer_uid" refl [] user.eids in
    let filled = add_eids-IsFilled [] user.eids (λ k v e. absurd (ground arith)) in
    let with_user = set_nonempty found "user_id" user.id in
    let buyer_cases = Option-cases (nonempty user.buyeruid) in
    let user_cases = Option-cases (nonempty user.id) in
    let user_read : lookup with_user "user_id" ≡ nonempty user.id =
      lookup-set_nonempty found "user_id" user.id "user_id" ∙ ground (arith, user_cases, no_user) in
    let buyer_free : lookup with_user "buyer_uid" ≡ none =
      lookup-set_nonempty found "user_id" user.id "buyer_uid"
      ∙ ground (arith, user_cases, no_buyer) in
    rw no_user (
      lookup-set_nonempty with_user "buyer_uid" user.buyeruid "user_id"
          ∙ ground (arith, buyer_cases, user_read),
      lookup-set_nonempty with_user "buyer_uid" user.buyeruid "buyer_uid"
          ∙ ground (arith, buyer_cases, buyer_free),
      set_nonempty-IsFilled with_user "buyer_uid" user.buyeruid
          (set_nonempty-IsFilled found "user_id" user.id filled),
    )
