-- ===== src/Selector/Diversity.antt =====
-- The categories that a selection represents.
use thenexusengine.Common.{
  ℕ, ◌<◌, ◌≡◌, refl, inl, inr, ◌∙◌, ap, sym, String, true, false, none, some, List, [], ◌∷◌, length,
  All, arith, ◌==◌, string_eq, Bool-cases, Option-cases, if◌then◌else◌, leb,
}
use thenexusengine.Common.Members.{contains, set_add, contains-append, eq_self, eq_of_beq, All-self}
use thenexusengine.Scores.{BidderScore}
use thenexusengine.Request.{ClassifiedRequest}
use thenexusengine.Selector.Categories.{category_of}
use thenexusengine.Selector.Config.{SelectorConfig, SelectedBidder, codes, diversity}
use thenexusengine.Selector.Steps.{
  Selection, selected_as, add, is_in_category, best_in_category, add_categories, ensure_diversity,
  categories_of, get_required_categories,
}
use thenexusengine.Selector.Select.{PartnerSelector, select_normal}
use thenexusengine.Selector.Adds.{score_codes, In, Unique, Adds, Adds-keeps, Adds-length}
use thenexusengine.Selector.Growth.{IsJustified, add_categories-Adds, best_in_category-In}
use thenexusengine.Selector.Explore.{IsFair}
use thenexusengine.Selector.Greedy.{contains-add}
use thenexusengine.Selector.Normal.{
  anchors, required, scored, diverse, normal-diverse-Adds, normal-IsSound, scored-IsSound,
}

-- A code of the set belongs to the category.
abbrev pub Represents : List String → String → Type 0
Represents selected_codes c =
    (k : String) × (contains selected_codes k ≡ true) × (category_of k ≡ some c)

categories_of-Represents :
    (selected : List SelectedBidder) (c : String)
    → contains (categories_of selected) c ≡ true
    → Represents (codes selected) c
unfolding categories_of
categories_of-Represents [] c m = absurd (ground arith)
categories_of-Represents (b ∷ selected) c m = elim (Option-cases (category_of b.bidder_code)) [
  | inl nowhere ↦
      let (k, there, cat) = categories_of-Represents selected c (ground arith) in
      (k, ground arith, cat)
  | inr (d, found) ↦ elim (Bool-cases (d == c)) [
    | inl same ↦
        let itself = eq_self b.bidder_code in
        (b.bidder_code, ground arith, found ∙ ap some (eq_of_beq d c same))
    | inr other ↦
        let (k, there, cat) = categories_of-Represents selected c (ground arith) in
        (k, ground arith, cat)
  ]
]

is_in_category_self :
    (c : String) (s : BidderScore) → category_of s.bidder_code ≡ some c → is_in_category c s ≡ true
is_in_category_self c s e = rw (e, is_in_category) (eq_self c)

-- Where the search for the best scorer of a category fails, all of the category are selected.
best_in_category-none :
    (c : String) (taken : List String) (rest : List BidderScore) (s : BidderScore)
    → best_in_category c taken rest ≡ none
    → In s rest
    → category_of s.bidder_code ≡ some c
    → contains taken s.bidder_code ≡ true
unfolding best_in_category
best_in_category-none c taken [] s e m cat = absurd m
best_in_category-none c taken (x ∷ rest) s e (inl is_x) cat =
    let named = ap (λ y. y.bidder_code) is_x in
    let here = is_in_category_self c x (ap category_of (sym named) ∙ cat) in
    let old : contains taken x.bidder_code ≡ true = ground arith in ap (contains taken) named ∙ old
best_in_category-none c taken (x ∷ rest) s e (inr m) cat =
    best_in_category-none c taken rest s (ground arith) m cat

either :
    {P : Type 0} (c d : String) (rest : List String)
    → contains (d ∷ rest) c ≡ true
    → (d ≡ c → P)
    → (contains rest c ≡ true → P)
    → P
either c d rest m now later = elim (Bool-cases (d == c)) [
  | inl same ↦ now (eq_of_beq d c same)
  | inr other ↦ later (ground arith)
]

contains-set_add : (xs : List String) (a c : String) → a ≡ c → contains (set_add xs a) c ≡ true
contains-set_add xs a c e = elim (Bool-cases (contains xs a)) [
  | inl old ↦ rw old (rw e at old)
  | inr new ↦ rw new (ground (arith, contains-append xs (a ∷ []) c, eq_self a))
]

module _ (config : SelectorConfig) (anchors required : List String)
    (ranked : List BidderScore) where
  Represents-keeps :
      {st st' : Selection} (c : String)
      → Adds ranked (IsJustified config anchors required) st st'
      → Represents st.selected_codes c
      → Represents st'.selected_codes c
  Represents-keeps c a (k, there, cat) = (k, Adds-keeps k a there, cat)

  grows :
      (more present : List String) (st : Selection)
      → All (λ k. contains required k ≡ true) more
      → Adds ranked
          (IsJustified config anchors required)
          st
          (add_categories config ranked more present st)
  grows more present st h = add_categories-Adds config anchors required ranked more present st h

  -- The loop after a round, for each outcome of the round.
  module _ (d : String) (more present : List String) (st : Selection) where
    add_categories-old :
        contains present d ≡ true
        → add_categories config ranked (d ∷ more) present st
          ≡ add_categories config ranked more present st
    unfolding add_categories
    add_categories-old old = rw (old, add_categories) refl

    add_categories-full :
        contains present d ≡ false
        → leb config.max_bidders (length st.selected) ≡ true
        → add_categories config ranked (d ∷ more) present st ≡ st
    unfolding add_categories
    add_categories-full new full = rw (new, full, add_categories) refl

    add_categories-none :
        contains present d ≡ false
        → leb config.max_bidders (length st.selected) ≡ false
        → best_in_category d st.selected_codes ranked ≡ none
        → add_categories config ranked (d ∷ more) present st
          ≡ add_categories config ranked more present st
    unfolding add_categories
    add_categories-none new room absent = rw (new, room, absent, add_categories) refl

    add_categories-some :
        (s : BidderScore)
        → contains present d ≡ false
        → leb config.max_bidders (length st.selected) ≡ false
        → best_in_category d st.selected_codes ranked ≡ some s
        → add_categories config ranked (d ∷ more) present st
          ≡ add_categories config ranked more
              (set_add present d)
              (add (selected_as diversity (some d) s) st)
    unfolding add_categories
    add_categories-some s new room found = ground arith

  -- A category that was represented before stays so, and a new one is by what was added.
  present_after :
      (d : String) (present : List String) (b : SelectedBidder) (st : Selection)
      → category_of b.bidder_code ≡ some d
      → ((k : String) → contains present k ≡ true → Represents st.selected_codes k)
      → (k : String) → contains (set_add present d) k ≡ true
      → Represents (add b st).selected_codes k
  unfolding add
  present_after d present b st cat inv k m = elim (Bool-cases (contains present k)) [
    | inl old ↦
        let (x, there, cat') = inv k old in
        (x, ground (arith, contains-append st.selected_codes (b.bidder_code ∷ []) x), cat')
    | inr new ↦
        let same : (d == k) ≡ true = ground (arith, contains-append present (d ∷ []) k) in
        (b.bidder_code, contains-add b st, cat ∙ ap some (eq_of_beq d k same))
  ]

  add_categories-Represents :
      (more present : List String) (st : Selection) (c : String) (s : BidderScore)
      → All (λ k. contains required k ≡ true) more
      → ((k : String) → contains present k ≡ true → Represents st.selected_codes k)
      → contains more c ≡ true
      → In s ranked
      → category_of s.bidder_code ≡ some c
      → length (add_categories config ranked more present st).selected < config.max_bidders
      → Represents (add_categories config ranked more present st).selected_codes c
  add_categories-Represents [] present st c s h inv m there cat room = absurd (ground arith)
  add_categories-Represents (d ∷ more) present st c s (r, h) inv m there cat room =
      elim (Bool-cases (contains present d)) [
        | inl old ↦
            let same = add_categories-old d more present st old in
            rw same (
              either c d more (ground arith)
                (λ e. Represents-keeps c (grows more present st h) (inv c (rw e at old)))
                (λ later.
                  add_categories-Represents more present st c s h inv later there cat
                    (rw same at room)))
        | inr new ↦ elim (Bool-cases (leb config.max_bidders (length st.selected))) [
          | inl full ↦
              let same = add_categories-full d more present st new full in
              absurd (ground (arith, ap (λ x. length x.selected) same))
          | inr free ↦ elim (Option-cases (best_in_category d st.selected_codes ranked)) [
            | inl absent ↦
                let same = add_categories-none d more present st new free absent in
                rw same (
                  either c d more (ground arith)
                    (λ e. Represents-keeps c (grows more present st h) (
                      s.bidder_code,
                      best_in_category-none d st.selected_codes ranked s absent there
                          (cat ∙ ap some (sym e)),
                      cat,
                    ))
                    (λ later.
                      add_categories-Represents more present st c s h inv later there cat
                        (rw same at room)))
            | inr (x, found) ↦
                let same = add_categories-some d more present st x new free found in
                let b = selected_as diversity (some d) x in
                let (_, _, cat') =
                  best_in_category-In config anchors required ranked d st.selected_codes ranked x
                    found in
                let inv' = present_after d present b st cat' inv in
                rw same (
                  either c d more (ground arith)
                    (λ e.
                      Represents-keeps c (grows more (set_add present d) (add b st) h)
                        (inv' c (contains-set_add present d c e)))
                    (λ later.
                      add_categories-Represents more (set_add present d) (add b st) c s h inv' later
                        there cat (rw same at room)))
          ]
        ]
      ]

module _ (p : PartnerSelector) (ranked : List BidderScore) (request : ClassifiedRequest) (seed : ℕ)
    (fair : IsFair p.rng) (unique : Unique (score_codes ranked)) where
  abbrev before : Selection
  before = scored p ranked request seed

  diverse-Represents :
      (c : String) (s : BidderScore)
      → contains (get_required_categories p.config request) c ≡ true
      → In s ranked
      → category_of s.bidder_code ≡ some c
      → length (ensure_diversity p.config ranked request before).selected < p.config.max_bidders
      → Represents (ensure_diversity p.config ranked request before).selected_codes c
  unfolding ensure_diversity
  diverse-Represents c s wanted m cat room =
      let sync = (scored-IsSound p ranked request seed).synced in
      add_categories-Represents p.config (anchors p ranked request seed)
        (required p ranked request seed) ranked (required p ranked request seed)
        (categories_of before.selected) before c s (All-self (required p ranked request seed))
        (λ k old. rw (← sync) at (categories_of-Represents before.selected k old)) wanted m cat room

  -- While the selection is below `max_bidders` and diversity is enabled, every required category
  -- with a ranked bidder has a selected one.
  pub select_normal-Represents :
      (c : String) (s : BidderScore)
      → p.config.diversity_enabled ≡ true
      → contains (get_required_categories p.config request) c ≡ true
      → In s ranked
      → category_of s.bidder_code ≡ some c
      → length (select_normal p ranked request seed).0.selected < p.config.max_bidders
      → Represents (codes (select_normal p ranked request seed).0.selected) c
  select_normal-Represents c s on wanted m cat room =
      let with_step : diverse p ranked request seed
          ≡ ensure_diversity p.config ranked request before =
        ap (λ b. if b then ensure_diversity p.config ranked request before else before) on in
      let grown = normal-diverse-Adds p ranked request seed fair unique in
      let shorter = Adds-length grown in
      let same = ap (λ st. length st.selected) with_step in
      let (k, there, cat') = diverse-Represents c s wanted m cat (omega arith) in
      let there' : contains (diverse p ranked request seed).selected_codes k ≡ true =
        ap (λ st. contains st.selected_codes k) with_step ∙ there in
      let sync = (normal-IsSound p ranked request seed fair unique).synced in
      (k, rw sync at (Adds-keeps k grown there'), cat')
