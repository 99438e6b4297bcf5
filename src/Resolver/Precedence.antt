-- ===== src/Resolver/Precedence.antt =====
-- The nearest level that sets a value decides, and what a resolved configuration can not say.
use thenexusengine.Common.{
  ℕ, suc, ◌≤◌, ◌≡◌, refl, String, Bool, true, false, not, Option, none, some, List, [], ◌∷◌, ◌++◌,
  filter, arith, ◌==◌, string_eq, nat_eq,
}
use thenexusengine.Common.Members.{lookup}
use thenexusengine.Selector.Config.{ResolvedConfig}
use thenexusengine.Resolver.Settings.{FeatureConfig, IdrSettings, default_idr}
use thenexusengine.Resolver.Resolve.{
  Hierarchy, get_site, get_unit, to_resolved_config, idr_enabled, nat_or, bool_or, get_val,
  section_or,
}

-- The configurations of the ad unit, its site, its publisher, nearest first.
abbrev own_levels : Hierarchy → String → String → String → List FeatureConfig
own_levels r p s u = elim (lookup r.publisher_configs p) [
  | none ↦ []
  | some publisher ↦ elim (get_site publisher.sites s) [
    | none ↦ publisher.features ∷ []
    | some site ↦ elim (get_unit site.ad_units u) [
      | none ↦ site.features ∷ (publisher.features ∷ [])
      | some unit ↦ unit.features ∷ (site.features ∷ (publisher.features ∷ []))
    ]
  ]
]

-- Those with an identifier, and the global configuration behind them.
abbrev with_global : List FeatureConfig → FeatureConfig → List FeatureConfig
with_global cs g = filter (λ c. not (c.config_id == "")) cs ++ g ∷ []

abbrev levels : Hierarchy → String → String → String → List FeatureConfig
levels r p s u = with_global (own_levels r p s u) r.global_config

nat_or_positive : (o : Option ℕ) (d : ℕ) → 1 ≤ nat_or o (suc d)
nat_or_positive none d = ground arith
nat_or_positive (some v) d = ground arith

bool_or-true : (o : Option Bool) → bool_or o true ≡ true
bool_or-true none = refl
bool_or-true (some true) = refl
bool_or-true (some false) = refl

abbrev first_set {ℓ} : {A : Type ℓ} → List (Option A) → Option A
first_set [] = none
first_set (none ∷ os) = first_set os
first_set (some a ∷ os) = some a

-- The settings of a level, of the sections for the router and for privacy.
pub data Setting : Type 0 where
  enabled bypass_enabled shadow_mode exploration_enabled anchor_bidders_enabled : Setting
  diversity_enabled privacy_enabled privacy_strict_mode max_bidders : Setting
  min_score_threshold exploration_rate exploration_slots low_confidence_threshold : Setting
  exploration_confidence_threshold anchor_bidder_count custom_anchor_bidders : Setting
  diversity_categories : Setting

abbrev pub ValueOf : Setting → Type 0
ValueOf enabled = Bool
ValueOf bypass_enabled = Bool
ValueOf shadow_mode = Bool
ValueOf exploration_enabled = Bool
ValueOf anchor_bidders_enabled = Bool
ValueOf diversity_enabled = Bool
ValueOf privacy_enabled = Bool
ValueOf privacy_strict_mode = Bool
ValueOf custom_anchor_bidders = List String
ValueOf diversity_categories = List String
ValueOf _ = ℕ

-- What a section of a configuration sets.
abbrev pub of_section : {S A : Type 0} → Option S → (S → Option A) → Option A
of_section none field = none
of_section (some section) field = field section

abbrev pub value_of : (f : Setting) → FeatureConfig → Option (ValueOf f)
value_of enabled c = of_section c.idr λ i. i.enabled
value_of bypass_enabled c = of_section c.idr λ i. i.bypass_enabled
value_of shadow_mode c = of_section c.idr λ i. i.shadow_mode
value_of exploration_enabled c = of_section c.idr λ i. i.exploration_enabled
value_of anchor_bidders_enabled c = of_section c.idr λ i. i.anchor_bidders_enabled
value_of diversity_enabled c = of_section c.idr λ i. i.diversity_enabled
value_of privacy_enabled c = of_section c.privacy λ s. s.privacy_enabled
value_of privacy_strict_mode c = of_section c.privacy λ s. s.privacy_strict_mode
value_of max_bidders c = of_section c.idr λ i. i.max_bidders
value_of min_score_threshold c = of_section c.idr λ i. i.min_score_threshold
value_of exploration_rate c = of_section c.idr λ i. i.exploration_rate
value_of exploration_slots c = of_section c.idr λ i. i.exploration_slots
value_of low_confidence_threshold c = of_section c.idr λ i. i.low_confidence_threshold
value_of exploration_confidence_threshold c =
    of_section c.idr λ i. i.exploration_confidence_threshold
value_of anchor_bidder_count c = of_section c.idr λ i. i.anchor_bidder_count
value_of custom_anchor_bidders c = of_section c.idr λ i. i.custom_anchor_bidders
value_of diversity_categories c = of_section c.idr λ i. i.diversity_categories

module _ (f : Setting) where
  abbrev setting : FeatureConfig → Option (ValueOf f)
  setting = value_of f

-- The section with its numbers, and whether the router is on.
abbrev pub with_numbers : IdrSettings → ℕ → ℕ → ℕ → ℕ → ℕ → ℕ → ℕ → Bool → IdrSettings
with_numbers i n t r s l x a on = record i {
  enabled = some on;
  max_bidders = some n;
  min_score_threshold = some t;
  exploration_rate = some r;
  exploration_slots = some s;
  low_confidence_threshold = some l;
  exploration_confidence_threshold = some x;
  anchor_bidder_count = some a;
}

abbrev pub resolved_with : FeatureConfig → IdrSettings → ResolvedConfig
resolved_with c i = to_resolved_config (record c { idr = some i })

-- In a resolved configuration the limits, thresholds, rates and slots are never 0, and the router is
-- never off, whatever the levels say: where the section sets all of them to 0 and the router to
-- False, each has its default, and where it sets them to other numbers, each has its number.
pub to_resolved_config_positive :
    (c : FeatureConfig) (i : IdrSettings) (n t r s l x a : ℕ)
    → let resolved = to_resolved_config c in
      let zeros = resolved_with c (with_numbers i 0 0 0 0 0 0 0 false) in
      let set =
        resolved_with c
          (with_numbers i (suc n) (suc t) (suc r) (suc s) (suc l) (suc x) (suc a) true) in
      ((1 ≤ resolved.max_bidders)
        × (1 ≤ resolved.min_score_threshold)
        × (1 ≤ resolved.exploration_rate)
        × (1 ≤ resolved.exploration_slots)
        × (1 ≤ resolved.low_confidence_threshold)
        × (1 ≤ resolved.exploration_confidence_threshold)
        × (1 ≤ resolved.anchor_bidder_count)
        × (idr_enabled c ≡ true))
      × ((zeros.max_bidders ≡ 15)
          × (zeros.min_score_threshold ≡ 0x4039000000000000)
          × (zeros.exploration_rate ≡ 0x3fb999999999999a)
          × (zeros.exploration_slots ≡ 2)
          × (zeros.low_confidence_threshold ≡ 0x3fe0000000000000)
          × (zeros.exploration_confidence_threshold ≡ 0x3fd3333333333333)
          × (zeros.anchor_bidder_count ≡ 3)
          × (idr_enabled (record c { idr = some (with_numbers i 0 0 0 0 0 0 0 false) }) ≡ true))
      × ((set.max_bidders ≡ suc n)
          × (set.min_score_threshold ≡ suc t)
          × (set.exploration_rate ≡ suc r)
          × (set.exploration_slots ≡ suc s)
          × (set.low_confidence_threshold ≡ suc l)
          × (set.exploration_confidence_threshold ≡ suc x)
          × (set.anchor_bidder_count ≡ suc a))
unfolding to_resolved_config idr_enabled
to_resolved_config_positive c i n t r s l x a =
    let idr = section_or c.idr default_idr in
    (
      (
        nat_or_positive (get_val idr.max_bidders default_idr.max_bidders) 14,
        nat_or_positive (get_val idr.min_score_threshold default_idr.min_score_threshold)
            0x4038ffffffffffff,
        nat_or_positive (get_val idr.exploration_rate default_idr.exploration_rate)
            0x3fb9999999999999,
        nat_or_positive (get_val idr.exploration_slots default_idr.exploration_slots) 1,
        nat_or_positive (get_val idr.low_confidence_threshold default_idr.low_confidence_threshold)
            0x3fdfffffffffffff,
        nat_or_positive
            (get_val idr.exploration_confidence_threshold
              default_idr.exploration_confidence_threshold)
            0x3fd3333333333332,
        nat_or_positive (get_val idr.anchor_bidder_count default_idr.anchor_bidder_count) 2,
        bool_or-true (get_val idr.enabled default_idr.enabled),
      ),
      (refl, refl, refl, refl, refl, refl, refl, refl),
      (
        ground arith,
        ground arith,
        ground arith,
        ground arith,
        ground arith,
        ground arith,
        ground arith,
      ),
    )
