-- ===== src/Resolver/Saved.antt =====
-- The ad units that src/idr/config/config_store.py saves are loaded again.
use thenexusengine.Common.{
  ◌≡◌, refl, ap, sym, subst, ◌∙◌, String, false, Option, none, some, List, [], ◌∷◌, ◌++◌, map,
  filter, All, true, ◌==◌, string_eq, nat_eq, arith, Bool-cases, inl, inr,
}
use mathlib.Core.List.{append-nil, append_assoc}
use thenexusengine.Common.Members.{lookup, contains, Distinct, eq_of_beq, eq_self}
use thenexusengine.Common.Dicts.{dict_set}
use thenexusengine.Common.Text.{concat, starts_with, has_part}
use thenexusengine.Common.Text.Parts.{starts_with-concat}
use thenexusengine.Resolver.Resolve.{AdUnitConfig}
use thenexusengine.Common.Text.Beginnings.{concat-equal}
use thenexusengine.Resolver.Prefixes.{
  remove_from-concat, Without, ids_behind-append, ids_behind-Without,
}
use thenexusengine.Resolver.Store.{
  Memory, unit_prefix, remove_from, ids_behind, stored_unit, set_unit, save_ad_unit, save_ad_units,
  has_sections, load_ad_unit, load_each, load_ad_units,
}

abbrev ids : List AdUnitConfig → List String
ids = map (λ (u : AdUnitConfig). u.unit_id)

module _ (p s : String) where
  abbrev entry : AdUnitConfig → String × AdUnitConfig
  entry u = (concat (unit_prefix p s) u.unit_id, stored_unit u)

  abbrev entries : List AdUnitConfig → List (String × AdUnitConfig)
  entries = map entry

  -- Saving ad units whose keys are not in use puts their entries at the end.
  set_unit_absent :
      (m : List (String × AdUnitConfig)) (u : AdUnitConfig)
      → lookup m (entry u).0 ≡ none
      → set_unit p s m u ≡ m ++ entry u ∷ []
  unfolding dict_set
  set_unit_absent [] u h = refl
  set_unit_absent ((k, v) ∷ m) u h = ground (arith, set_unit_absent m u)

  lookup-append_none :
      (m n : List (String × AdUnitConfig)) (k : String)
      → lookup m k ≡ none
      → lookup (m ++ n) k ≡ lookup n k
  lookup-append_none [] n k h = refl
  lookup-append_none ((j, v) ∷ m) n k h = ground (arith, lookup-append_none m n k)

  lookup-Without :
      (m : List (String × AdUnitConfig)) (u : AdUnitConfig)
      → Without (unit_prefix p s) m
      → lookup m (entry u).0 ≡ none
  lookup-Without [] u w = refl
  lookup-Without ((k, v) ∷ m) u (h, w) =
      let begins = starts_with-concat (unit_prefix p s) u.unit_id in
      elim (Bool-cases (k == (entry u).0)) [
        | inl same ↦
            let there = ap (λ x. starts_with x (unit_prefix p s)) (eq_of_beq k (entry u).0 same) in
            absurd (ground arith)
        | inr other ↦ rw other (lookup-Without m u w)
      ]

  lookup-entries :
      (units : List AdUnitConfig) (u : AdUnitConfig)
      → contains (ids units) u.unit_id ≡ false
      → lookup (entries units) (entry u).0 ≡ none
  lookup-entries [] u h = refl
  lookup-entries (v ∷ units) u h =
      ground (arith, lookup-entries units u, concat-equal (unit_prefix p s) v.unit_id u.unit_id)

  abbrev IsFree : List (String × AdUnitConfig) → List AdUnitConfig → Type 0
  IsFree m = All (λ u. lookup m (entry u).0 ≡ none)

  IsFree-snoc :
      (m : List (String × AdUnitConfig)) (u : AdUnitConfig) (units : List AdUnitConfig)
      → contains (ids units) u.unit_id ≡ false
      → IsFree m units
      → IsFree (m ++ entry u ∷ []) units
  IsFree-snoc m u [] other free = tt
  IsFree-snoc m u (v ∷ units) other (none_there, free) = (
    lookup-append_none m (entry u ∷ []) (entry v).0 none_there
        ∙ ground (
          arith,
          concat-equal (unit_prefix p s) u.unit_id v.unit_id,
          eq_of_beq u.unit_id v.unit_id,
          eq_self u.unit_id,
        ),
    IsFree-snoc m u units (ground arith) free,
  )

  IsFree-Without :
      (m : List (String × AdUnitConfig)) (units : List AdUnitConfig)
      → Without (unit_prefix p s) m
      → IsFree m units
  IsFree-Without m [] w = tt
  IsFree-Without m (u ∷ units) w = (lookup-Without m u w, IsFree-Without m units w)

  save_ad_units-entries :
      (units : List AdUnitConfig) (m : Memory)
      → IsFree m.ad_units units
      → Distinct (ids units)
      → All (λ u. has_sections u.features ≡ true) units
      → (save_ad_units p s units m).ad_units ≡ m.ad_units ++ entries units
  unfolding save_ad_units save_ad_unit
  save_ad_units-entries [] m free d whole = sym (append-nil m.ad_units)
  save_ad_units-entries (u ∷ units) m (none_there, free) (other, d) (there, whole) =
      let set = set_unit_absent m.ad_units u none_there in
      let free' =
        subst (λ l. IsFree l units) (sym set) (IsFree-snoc m.ad_units u units other free) in
      let stored : Memory = record m { ad_units = set_unit p s m.ad_units u } in
      let taken : (save_ad_unit p s u m).1 ≡ stored = rw (there, save_ad_unit) refl in
      ap (λ n. (save_ad_units p s units n).ad_units) taken
      ∙ save_ad_units-entries units stored free' d whole
      ∙ ap (λ l. l ++ entries units) set
      ∙ append_assoc m.ad_units (entry u ∷ []) (entries units)

  ids_behind-entries :
      (units : List AdUnitConfig)
      → All (λ u. has_part u.unit_id (unit_prefix p s) ≡ false) units
      → ids_behind (unit_prefix p s) (entries units) ≡ ids units
  unfolding ids_behind
  ids_behind-entries [] h = refl
  ids_behind-entries (u ∷ units) (plain, h) =
      let read : remove_from (unit_prefix p s) 0 (entry u).0 ≡ u.unit_id =
        remove_from-concat _ _ u.unit_id plain in
      rw (starts_with-concat (unit_prefix p s) u.unit_id, ids_behind)
        (ap (λ i. i ∷ ids_behind (unit_prefix p s) (entries units)) read
          ∙ ap (λ l. u.unit_id ∷ l) (ids_behind-entries units h))

  abbrev Finds : (String → Option AdUnitConfig) → List AdUnitConfig → Type 0
  Finds load = All (λ u. load u.unit_id ≡ some (stored_unit u))

  load_each-Finds :
      (load : String → Option AdUnitConfig) (units : List AdUnitConfig)
      → Finds load units
      → load_each load (ids units) ≡ map stored_unit units
  unfolding load_each
  load_each-Finds load [] f = refl
  load_each-Finds load (u ∷ units) (found, f) =
      rw (found, load_each) (ap (λ l. stored_unit u ∷ l) (load_each-Finds load units f))

  Finds-cons :
      (v : AdUnitConfig) (m : List (String × AdUnitConfig)) (units : List AdUnitConfig)
      → contains (ids units) v.unit_id ≡ false
      → Finds (λ id. lookup m (concat (unit_prefix p s) id)) units
      → Finds (λ id. lookup (entry v ∷ m) (concat (unit_prefix p s) id)) units
  Finds-cons v m [] other f = tt
  Finds-cons v m (u ∷ units) other (found, f) = (
    ground (
      arith,
      concat-equal (unit_prefix p s) v.unit_id u.unit_id,
      eq_of_beq v.unit_id u.unit_id,
      eq_self v.unit_id,
    ),
    Finds-cons v m units (ground arith) f,
  )

  Finds-entries :
      (units : List AdUnitConfig)
      → Distinct (ids units)
      → Finds (λ id. lookup (entries units) (concat (unit_prefix p s) id)) units
  Finds-entries [] d = tt
  Finds-entries (u ∷ units) (other, d) = (
    rw (eq_self (entry u).0) refl,
    Finds-cons u (entries units) units other (Finds-entries units d),
  )

  Finds-append :
      (m n : List (String × AdUnitConfig)) (units : List AdUnitConfig)
      → IsFree m units
      → Finds (λ id. lookup n (concat (unit_prefix p s) id)) units
      → Finds (λ id. lookup (m ++ n) (concat (unit_prefix p s) id)) units
  Finds-append m n [] free f = tt
  Finds-append m n (u ∷ units) (none_there, free) (found, f) =
      (lookup-append_none m n (entry u).0 none_there ∙ found, Finds-append m n units free f)

  -- Those that are stored.
  abbrev pub storable : List AdUnitConfig → List AdUnitConfig
  storable = filter λ u. has_sections u.features

  save_ad_units-storable :
      (units : List AdUnitConfig) (m : Memory)
      → save_ad_units p s units m ≡ save_ad_units p s (storable units) m
  unfolding save_ad_units save_ad_unit
  save_ad_units-storable [] m = refl
  save_ad_units-storable (u ∷ units) m = elim (Bool-cases (has_sections u.features)) [
    | inl there ↦
        let keep : storable (u ∷ units) ≡ u ∷ storable units = rw there refl in
        save_ad_units-storable units (save_ad_unit p s u m).1
        ∙ ap (λ l. save_ad_units p s l m) (sym keep)
    | inr missing ↦
        let keep : storable (u ∷ units) ≡ storable units = rw missing refl in
        let same : (save_ad_unit p s u m).1 ≡ m = rw (missing, save_ad_unit) refl in
        ap (save_ad_units p s units) same
        ∙ save_ad_units-storable units m
        ∙ ap (λ l. save_ad_units p s l m) (sym keep)
  ]

  storable-whole :
      (units : List AdUnitConfig) → All (λ u. has_sections u.features ≡ true) (storable units)
  storable-whole [] = tt
  storable-whole (u ∷ units) = elim (Bool-cases (has_sections u.features)) [
    | inl there ↦ rw there (there, storable-whole units)
    | inr missing ↦ rw missing (storable-whole units)
  ]

  storable-All :
      (P : AdUnitConfig → Type 0) (units : List AdUnitConfig) → All P units → All P (storable units)
  storable-All P [] a = tt
  storable-All P (u ∷ units) (h, a) = elim (Bool-cases (has_sections u.features)) [
    | inl there ↦ rw there (h, storable-All P units a)
    | inr missing ↦ rw missing (storable-All P units a)
  ]

  storable-absent :
      (units : List AdUnitConfig) (k : String)
      → contains (ids units) k ≡ false
      → contains (ids (storable units)) k ≡ false
  storable-absent [] k h = refl
  storable-absent (u ∷ units) k h = elim (Bool-cases (has_sections u.features)) [
    | inl there ↦ ground (arith, there, storable-absent units k)
    | inr missing ↦ ground (arith, missing, storable-absent units k)
  ]

  storable-Distinct :
      (units : List AdUnitConfig) → Distinct (ids units) → Distinct (ids (storable units))
  storable-Distinct [] d = tt
  storable-Distinct (u ∷ units) (other, d) = elim (Bool-cases (has_sections u.features)) [
    | inl there ↦ rw there (storable-absent units u.unit_id other, storable-Distinct units d)
    | inr missing ↦ rw missing (storable-Distinct units d)
  ]

  load_ad_units-saved :
      (units : List AdUnitConfig) (m : Memory)
      → Without (unit_prefix p s) m.ad_units
      → Distinct (ids units)
      → All (λ u. has_part u.unit_id (unit_prefix p s) ≡ false) units
      → All (λ u. has_sections u.features ≡ true) units
      → load_ad_units p s (save_ad_units p s units m) ≡ map stored_unit units
  unfolding load_ad_units load_ad_unit
  load_ad_units-saved units m w d plain whole =
      let free = IsFree-Without m.ad_units units w in
      let saved = save_ad_units-entries units m free d whole in
      let behind : ids_behind (unit_prefix p s) (m.ad_units ++ entries units) ≡ ids units =
        ids_behind-append (unit_prefix p s) m.ad_units (entries units)
        ∙ ap (λ l. l ++ ids_behind (unit_prefix p s) (entries units))
            (ids_behind-Without (unit_prefix p s) m.ad_units w)
        ∙ ids_behind-entries units plain in
      let found = Finds-append m.ad_units (entries units) units free (Finds-entries units d) in
      rw (saved, behind) (load_each-Finds _ units found)

  -- Where nothing of a site is stored, ad units that are saved for it are loaded again, in their
  -- order and with the names that the save gives their settings, but for those with a section that is
  -- None, which are not stored, if their identifiers are distinct and none has the prefix of the
  -- site's keys in it.
  pub load_ad_units-save_ad_units :
      (units : List AdUnitConfig) (m : Memory)
      → Without (unit_prefix p s) m.ad_units
      → Distinct (ids units)
      → All (λ u. has_part u.unit_id (unit_prefix p s) ≡ false) units
      → load_ad_units p s (save_ad_units p s units m)
        ≡ map stored_unit (filter (λ u. has_sections u.features) units)
  load_ad_units-save_ad_units units m w d plain =
      ap (load_ad_units p s) (save_ad_units-storable units m)
      ∙ load_ad_units-saved (storable units) m w (storable-Distinct units d)
          (storable-All _ units plain) (storable-whole units)
