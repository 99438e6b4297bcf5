-- ===== src/Resolver/Refinement.antt =====
-- The resolver with its cache does what a resolver without one does.
use thenexusengine.Common.{
  ◌≡◌, refl, ap, ◌∙◌, ◌⊎◌, inl, inr, String, Bool, true, false, not, Option, none, some, List, [],
  ◌∷◌, All, arith, filter, Bool-cases, Option-cases, is_some, ◌==◌, string_eq,
}
use thenexusengine.Common.Members.{lookup, eq_of_beq}
use thenexusengine.Common.Dicts.{lookup-dict_set, lookup-dict_del, lookup-filter}
use thenexusengine.Common.Text.{has_part}
use thenexusengine.Resolver.Resolve.{PublisherConfig, Hierarchy, get_site}
use thenexusengine.Resolver.Resolved.{Query, Resolved, cache_key, fresh}
use thenexusengine.Resolver.Cache.{
  ConfigResolver, init, resolve_for, Change, set_global_config, register_publisher,
  delete_publisher, save_site, delete_site, save_ad_unit, delete_ad_unit, import_configs,
  sync_from_store, Changed, refused, done, broken, change, import_publishers, publisher_of,
  clear_publisher_cache, set_publisher, apply, put_site, put_unit, change_site,
}
use thenexusengine.Resolver.Coherent.{
  IsPlain, IsCoherent, resolve_for-fresh, resolve_for-IsCoherent, asked_publisher,
  has_part-cache_key, fresh_same,
}

-- No publisher of an import ends it by an exception.
abbrev pub IsWhole : Change → Type 0
IsWhole (set_global_config _) = Unit
IsWhole (register_publisher _) = Unit
IsWhole (delete_publisher _) = Unit
IsWhole (save_site _ _) = Unit
IsWhole (delete_site _ _) = Unit
IsWhole (save_ad_unit _ _ _) = Unit
IsWhole (delete_ad_unit _ _ _) = Unit
IsWhole (import_configs _ publishers) =
    All (λ (e : String × Option PublisherConfig). is_some e.1 ≡ true) publishers
IsWhole (sync_from_store _ _) = Unit

set_publisher_elsewhere :
    (h : Hierarchy) (q j : String) (config : PublisherConfig)
    → (q == j) ≡ false
    → lookup (set_publisher h q config).publisher_configs j ≡ lookup h.publisher_configs j
set_publisher_elsewhere h q j config n = lookup-dict_set h.publisher_configs q config j ∙ rw n refl

some_same : (q p j : String) → some q ≡ some p → (p == j) ≡ false → (q == j) ≡ false
some_same q p j e n = let same : q ≡ p = ground arith in ap (λ x. x == j) same ∙ n

-- A publisher whose cache is cleared is the only one that the change is about.
change_elsewhere :
    (c : Change) (h g : Hierarchy) (p j : String)
    → publisher_of c ≡ some p
    → change c h ≡ done g
    → (p == j) ≡ false
    → (g.global_config ≡ h.global_config)
      × (lookup g.publisher_configs j ≡ lookup h.publisher_configs j)
unfolding change
change_elsewhere (set_global_config _) h g p j e d n = absurd (ground arith)
change_elsewhere (register_publisher config) h g p j e d n =
    let apart = some_same config.publisher_id p j e n in
    ground (arith, set_publisher_elsewhere h config.publisher_id j config apart)
change_elsewhere (delete_publisher q) h g p j e d n =
    let apart = some_same q p j e n in ground (arith, lookup-dict_del h.publisher_configs q j)
change_elsewhere (save_site q site) h g p j e d n =
    elim (Option-cases (lookup h.publisher_configs q)) [
      | inl absent ↦ absurd (ground arith)
      | inr (config, found) ↦
          let apart = some_same q p j e n in
          ground (
            arith,
            set_publisher_elsewhere h q j (record config { sites = put_site config.sites site })
                apart,
          )
    ]
change_elsewhere (delete_site q s) h g p j e d n =
    elim (Option-cases (lookup h.publisher_configs q)) [
      | inl absent ↦ absurd (ground arith)
      | inr (config, found) ↦
          let apart = some_same q p j e n in
          ground (
            arith,
            set_publisher_elsewhere h q j
                (record config { sites = filter (λ x. not (x.site_id == s)) config.sites }) apart,
          )
    ]
change_elsewhere (save_ad_unit q s unit) h g p j e d n =
    elim (Option-cases (lookup h.publisher_configs q)) [
      | inl absent ↦ absurd (ground arith)
      | inr (config, found) ↦ elim (Option-cases (get_site config.sites s)) [
        | inl no_site ↦ absurd (ground arith)
        | inr (site, holds) ↦
            let apart = some_same q p j e n in
            ground (
              arith,
              set_publisher_elsewhere h q j
                  (record config {
                    sites = change_site config.sites s (λ units. put_unit units unit);
                  })
                  apart,
            )
      ]
    ]
change_elsewhere (delete_ad_unit q s u) h g p j e d n =
    elim (Option-cases (lookup h.publisher_configs q)) [
      | inl absent ↦ absurd (ground arith)
      | inr (config, found) ↦ elim (Option-cases (get_site config.sites s)) [
        | inl no_site ↦ absurd (ground arith)
        | inr (site, holds) ↦
            let apart = some_same q p j e n in
            ground (
              arith,
              set_publisher_elsewhere h q j
                  (record config {
                    sites = change_site config.sites s (filter (λ x. not (x.unit_id == u)));
                  })
                  apart,
            )
      ]
    ]
change_elsewhere (import_configs _ _) h g p j e d n = absurd (ground arith)
change_elsewhere (sync_from_store _ _) h g p j e d n = absurd (ground arith)

import_publishers-done :
    (publishers : List (String × Option PublisherConfig)) (h : Hierarchy)
    → All (λ (e : String × Option PublisherConfig). is_some e.1 ≡ true) publishers
    → (g : Hierarchy) → import_publishers publishers h ≡ broken g
    → ⊥
unfolding import_publishers
import_publishers-done [] h w g e = cc
import_publishers-done ((p, none) ∷ publishers) h (w, ws) g e = cc
import_publishers-done ((p, some config) ∷ publishers) h (w, ws) g e =
    import_publishers-done publishers (set_publisher h p config) ws g e

change-whole : (c : Change) (h g : Hierarchy) → IsWhole c → change c h ≡ broken g → ⊥
unfolding change
change-whole (set_global_config _) h g w e = cc
change-whole (register_publisher _) h g w e = cc
change-whole (delete_publisher _) h g w e = ground arith
change-whole (save_site _ _) h g w e = ground arith
change-whole (delete_site _ _) h g w e = ground arith
change-whole (save_ad_unit _ _ _) h g w e = ground arith
change-whole (delete_ad_unit _ _ _) h g w e = ground arith
change-whole (import_configs global publishers) h g w e = import_publishers-done publishers _ w g e
change-whole (sync_from_store _ _) h g w e = cc

Changed-cases :
    (c : Changed)
    → (c ≡ refused) ⊎ (((g : Hierarchy) × (c ≡ done g)) ⊎ ((g : Hierarchy) × (c ≡ broken g)))
Changed-cases refused = inl refl
Changed-cases (done g) = inr (inl (g, refl))
Changed-cases (broken g) = inr (inr (g, refl))

apply-IsCoherent :
    (c : Change) (r : ConfigResolver) → IsWhole c → IsCoherent r → IsCoherent (apply c r).1
unfolding apply IsCoherent clear_publisher_cache
apply-IsCoherent c r w h a plain v e = elim (Changed-cases (change c r.configs)) [
  | inl same ↦ ground (arith, h a plain v)
  | inr (inr (g, bad)) ↦ absurd (change-whole c r.configs g w bad)
  | inr (inl (g, good)) ↦ elim (Option-cases (publisher_of c)) [
    | inl all ↦ absurd (ground arith)
    | inr (p, about) ↦
        let kept =
          lookup-filter (λ (k : String). not (has_part k p)) r.resolved_cache (cache_key a) in
        elim (Bool-cases (p == asked_publisher a)) [
          | inl own ↦
              let part =
                ap (has_part (cache_key a)) (eq_of_beq p (asked_publisher a) own)
                ∙ has_part-cache_key a in
              absurd (ground arith)
          | inr other ↦
              let (global, same) =
                change_elsewhere c r.configs g p (asked_publisher a) about good other in
              ground (arith, h a plain v, fresh_same g r.configs a global same)
        ]
  ]
]

-- What a client does with a resolver: it asks, or it changes configurations.
pub data Action : Type 0 where
  asks : Query → Action
  changes : Change → Action

pub data Answer : Type 0 where
  answered : Resolved → Answer
  returned : Bool → Answer

unfoldable pub perform : Action → ConfigResolver → Answer × ConfigResolver
perform (asks q) r = let (resolved, after) = resolve_for q r in (answered resolved, after)
perform (changes c) r = let (ok, after) = apply c r in (returned ok, after)

unfoldable pub run : List Action → ConfigResolver → List Answer
run [] r = []
run (a ∷ actions) r = let (answer, after) = perform a r in answer ∷ run actions after

-- The specification: the same actions on the configurations alone.
unfoldable pub specify : Action → Hierarchy → Answer × Hierarchy
specify (asks q) h = (answered (fresh h q), h)
specify (changes c) h = elim (change c h) [
  | refused ↦ (returned false, h)
  | done g ↦ (returned true, g)
  | broken g ↦ (returned false, g)
]

unfoldable pub specification : List Action → Hierarchy → List Answer
specification [] h = []
specification (a ∷ actions) h =
    let (answer, after) = specify a h in answer ∷ specification actions after

abbrev pub IsClean : Action → Type 0
IsClean (asks q) = IsPlain q
IsClean (changes c) = IsWhole c

resolve_for-configs : (q : Query) (r : ConfigResolver) → (resolve_for q r).1.configs ≡ r.configs
unfolding resolve_for
resolve_for-configs q r = ground arith

init-IsCoherent : (h : Hierarchy) → IsCoherent (init h)
unfolding IsCoherent
init-IsCoherent h q plain v e = absurd (ground arith)

perform_specified :
    (a : Action) (r : ConfigResolver)
    → IsClean a
    → IsCoherent r
    → ((perform a r).0 ≡ (specify a r.configs).0)
      × ((perform a r).1.configs ≡ (specify a r.configs).1)
      × IsCoherent (perform a r).1
unfolding perform specify apply
perform_specified (asks q) r plain h = (
  ap answered (resolve_for-fresh r q h plain),
  resolve_for-configs q r,
  resolve_for-IsCoherent r q h,
)
perform_specified (changes c) r w h = (ground arith, ground arith, apply-IsCoherent c r w h)

run_specified :
    (actions : List Action) (r : ConfigResolver)
    → All IsClean actions
    → IsCoherent r
    → run actions r ≡ specification actions r.configs
unfolding run specification
run_specified [] r clean h = refl
run_specified (a ∷ actions) r (c, clean) h =
    let (answer, configs, coherent) = perform_specified a r c h in
    let rest = run_specified actions (perform a r).1 clean coherent in
    ground (arith, answer, rest, ap (specification actions) configs)

-- The answers of a resolver to any sequence of queries and changes are those of a resolver without a
-- cache, if the identifiers asked for contain no colon and no import is ended by an exception.
pub run_refines :
    (actions : List Action) (h : Hierarchy)
    → All IsClean actions
    → run actions (init h) ≡ specification actions h
run_refines actions h clean = run_specified actions (init h) clean (init-IsCoherent h)
