-- ===== src/Selector/Growth.antt =====
-- Each step of the selection only adds ranked bidders that are not yet selected, each for the
-- reason that it states.
use thenexusengine.Common.{
  ℕ, ◌≤◌, ◌<◌, ◌≡◌, refl, inl, inr, ◌∙◌, ap, sym, String, true, false, not, ◌&&◌, some, List, [],
  ◌∷◌, length, All, arith, ◌==◌, string_eq, Bool-cases, Option-cases, leb,
}
use mathlib.Core.Path.{subst}
use thenexusengine.Common.Members.{contains, eq_of_beq}
use thenexusengine.Scores.{BidderScore}
use thenexusengine.Selector.Categories.{category_of}
use thenexusengine.Selector.Config.{
  SelectorConfig, SelectedBidder, SelectionReason, anchor, high_score, exploration, diversity,
  exploration_slot, bypass,
}
use thenexusengine.Selector.Steps.{
  Random, Selection, Visit, stop, skip, pick, selected_as, score_lookup, visit_anchor,
  add_anchor_bidders, visit_score, add_high_scorers, is_in_category, best_in_category,
  add_categories,
}
use thenexusengine.Selector.Adds.{score_codes, In, Adds, here, Adds-trans, add_once}

module _ (config : SelectorConfig) (anchors required : List String) where
  -- What the reason of an entry says.
  abbrev pub Reasoned : SelectionReason → SelectedBidder → Type 0
  Reasoned anchor b = contains anchors b.bidder_code ≡ true
  Reasoned high_score b =
      (config.min_score_threshold ≤ b.score) × (config.low_confidence_threshold ≤ b.confidence)
  Reasoned exploration b =
      (config.min_score_threshold ≤ b.score) × (b.confidence < config.low_confidence_threshold)
  Reasoned diversity b =
      (c : String) × (b.category ≡ some c)
      × (contains required c ≡ true)
      × (category_of b.bidder_code ≡ some c)
  Reasoned exploration_slot b = b.confidence < config.exploration_confidence_threshold
  Reasoned bypass b = ⊥

  abbrev pub IsJustified : SelectedBidder → Type 0
  IsJustified b = Reasoned b.reason b

score_lookup-In :
    (ranked : List BidderScore) (code : String) (s : BidderScore)
    → score_lookup ranked code ≡ some s
    → In s ranked × (s.bidder_code ≡ code)
unfolding score_lookup
score_lookup-In [] code s e = absurd (ground arith)
score_lookup-In (x ∷ ranked) code s e = elim (Option-cases (score_lookup ranked code)) [
  | inr (t, found) ↦
      let (m, named) = score_lookup-In ranked code t found in
      let same : t ≡ s = ground arith in
      subst (λ y. In y (x ∷ ranked) × (y.bidder_code ≡ code)) same (inr m, named)
  | inl missed ↦ elim (Bool-cases (x.bidder_code == code)) [
    | inl found ↦
        let same : x ≡ s = ground arith in
        (inl (sym same), ap (λ y. y.bidder_code) (sym same) ∙ eq_of_beq x.bidder_code code found)
    | inr other ↦ absurd (ground arith)
  ]
]

is_in_category-eq :
    (c : String) (s : BidderScore) → is_in_category c s ≡ true → category_of s.bidder_code ≡ some c
is_in_category-eq c s h = elim (Option-cases (category_of s.bidder_code)) [
  | inl missed ↦ absurd (ground arith)
  | inr (d, found) ↦ found ∙ ap some (eq_of_beq d c (ground arith))
]

module _ (config : SelectorConfig) (anchors required : List String)
    (ranked : List BidderScore) where
  abbrev Grows : Selection → Selection → Type 0
  Grows = Adds ranked (IsJustified config anchors required)

  visit_anchor-Adds :
      (code : String) (st : Selection)
      → contains anchors code ≡ true
      → Grows st (visit_anchor ranked code st)
  unfolding visit_anchor
  visit_anchor-Adds code st a =
      elim (Bool-cases
        (contains (score_codes ranked) code && not (contains st.selected_codes code))) [
          | inr kept ↦ rw kept here
          | inl fresh ↦ elim (Option-cases (score_lookup ranked code)) [
            | inl missed ↦ rw (fresh, missed) here
            | inr (s, found) ↦
                let (m, named) = score_lookup-In ranked code s found in
                rw (fresh, found) (add_once _ (ground arith) (s, m, named, refl, refl) a)
          ]
        ]

  pub add_anchor_bidders-Adds :
      (more : List String) (st : Selection)
      → All (λ c. contains anchors c ≡ true) more
      → Grows st (add_anchor_bidders ranked more st)
  unfolding add_anchor_bidders
  add_anchor_bidders-Adds [] st h = here
  add_anchor_bidders-Adds (c ∷ more) st (a, h) =
      Adds-trans (visit_anchor-Adds c st a) (add_anchor_bidders-Adds more _ h)

  -- What a round of the loop over the scores knows of the bidder that it picks.
  visit_score-pick :
      (rng : Random) (s : BidderScore) (st : Selection) (seed seed' : ℕ) (reason : SelectionReason)
      → visit_score config rng s st seed ≡ pick reason seed'
      → (contains st.selected_codes s.bidder_code ≡ false)
        × Reasoned config anchors required reason (selected_as reason (category_of s.bidder_code) s)
  unfolding visit_score
  visit_score-pick rng s st seed seed' high_score e = ground arith
  visit_score-pick rng s st seed seed' exploration e = ground arith
  visit_score-pick rng s st seed seed' _ e = absurd (ground arith)

  pub add_high_scorers-Adds :
      (rng : Random) (rest : List BidderScore) (st : Selection) (seed : ℕ)
      → ((s : BidderScore) → In s rest → In s ranked)
      → Grows st (add_high_scorers config rng rest st seed).0
  unfolding add_high_scorers
  add_high_scorers-Adds rng [] st seed sub = here
  add_high_scorers-Adds rng (s ∷ rest) st seed sub =
      visited (visit_score config rng s st seed) refl
        (λ st' seed'. add_high_scorers-Adds rng rest st' seed' (λ x m. sub x (inr m)))
    where
      visited :
          (v : Visit)
          → visit_score config rng s st seed ≡ v
          → ((st' : Selection) (seed' : ℕ)
              → Grows st' (add_high_scorers config rng rest st' seed').0)
          → Grows st (add_high_scorers config rng (s ∷ rest) st seed).0
      visited stop e ih = rw (e, add_high_scorers) here
      visited (skip seed') e ih = rw (e, add_high_scorers) (ih st seed')
      visited (pick reason seed') e ih =
          let (fresh, why) = visit_score-pick rng s st seed seed' reason e in
          let from : In s ranked = sub s (inl refl) in
          rw (e, add_high_scorers)
            (Adds-trans (add_once _ fresh (s, from, refl, refl, refl) why) (ih _ seed'))

  pub best_in_category-In :
      (c : String) (taken : List String) (rest : List BidderScore) (s : BidderScore)
      → best_in_category c taken rest ≡ some s
      → In s rest × (contains taken s.bidder_code ≡ false) × (category_of s.bidder_code ≡ some c)
  unfolding best_in_category
  best_in_category-In c taken [] s e = absurd (ground arith)
  best_in_category-In c taken (x ∷ rest) s e =
      elim (Bool-cases (is_in_category c x && not (contains taken x.bidder_code))) [
        | inl hit ↦
            let same : x ≡ s = ground arith in
            subst
              (λ y.
                In y (x ∷ rest)
                × (contains taken y.bidder_code ≡ false)
                × (category_of y.bidder_code ≡ some c))
              same (inl refl, ground arith, is_in_category-eq c x (ground arith))
        | inr missed ↦
            let (m, fresh, cat) = best_in_category-In c taken rest s (ground arith) in
            (inr m, fresh, cat)
      ]

  pub add_categories-Adds :
      (more present : List String) (st : Selection)
      → All (λ c. contains required c ≡ true) more
      → Grows st (add_categories config ranked more present st)
  unfolding add_categories
  add_categories-Adds [] present st h = here
  add_categories-Adds (c ∷ more) present st (r, h) = elim (Bool-cases (contains present c)) [
    | inl old ↦ rw (old, add_categories) (add_categories-Adds more present st h)
    | inr new ↦ elim (Bool-cases (leb config.max_bidders (length st.selected))) [
      | inl full ↦ rw (new, full, add_categories) here
      | inr room ↦ elim (Option-cases (best_in_category c st.selected_codes ranked)) [
        | inl absent ↦
            rw (new, room, absent, add_categories) (add_categories-Adds more present st h)
        | inr (s, found) ↦
            let (m, fresh, cat) = best_in_category-In c st.selected_codes ranked s found in
            rw (new, room, found, add_categories)
              (Adds-trans (add_once _ fresh (s, m, refl, refl, refl) (c, refl, r, cat))
                (add_categories-Adds more _ _ h))
      ]
    ]
  ]
