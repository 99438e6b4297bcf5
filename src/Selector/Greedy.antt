-- ===== src/Selector/Greedy.antt =====
-- Who cannot be missing from a selection: the anchors, the high scorers while there is room, and
-- the required categories while there is room.
use thenexusengine.Common.{
  ℕ, ◌≤◌, ◌<◌, ◌≡◌, refl, ◌⊎◌, inl, inr, ◌∙◌, ap, sym, String, true, List, [], ◌∷◌, length, All,
  arith, ◌==◌, string_eq, Bool-cases,
}
use thenexusengine.Common.Members.{contains, contains-append, eq_self, eq_of_beq, All-self}
use thenexusengine.Scores.{BidderScore}
use thenexusengine.Request.{ClassifiedRequest}
use thenexusengine.Selector.Categories.{category_of}
use thenexusengine.Selector.Config.{SelectorConfig, SelectedBidder, SelectionReason, codes, anchor}
use thenexusengine.Selector.Steps.{
  Random, Selection, Visit, stop, skip, pick, nothing_selected, selected_as, add, visit_anchor,
  add_anchor_bidders, visit_score, add_high_scorers,
}
use thenexusengine.Selector.Select.{PartnerSelector, get_anchor_bidders, select_normal}
use thenexusengine.Selector.Adds.{score_codes, In, Unique, Adds, Adds-keeps, Adds-length}
use thenexusengine.Selector.Growth.{IsJustified, add_anchor_bidders-Adds, add_high_scorers-Adds}
use thenexusengine.Selector.Explore.{IsFair}
use thenexusengine.Selector.Partition.{score_lookup_found}
use thenexusengine.Selector.Normal.{
  anchors, required, anchored, scored, normal, scored-Adds, diverse-Adds, normal-diverse-Adds,
  normal-IsSound,
}

pub contains-add :
    (b : SelectedBidder) (st : Selection) → contains (add b st).selected_codes b.bidder_code ≡ true
unfolding add
contains-add b st = ground (
  arith,
  contains-append st.selected_codes (b.bidder_code ∷ []) b.bidder_code,
  eq_self b.bidder_code,
)

visit_anchor-selects :
    (ranked : List BidderScore) (c : String) (st : Selection)
    → contains (score_codes ranked) c ≡ true
    → contains (visit_anchor ranked c st).selected_codes c ≡ true
unfolding visit_anchor
visit_anchor-selects ranked c st there = elim (Bool-cases (contains st.selected_codes c)) [
  | inl old ↦ ground arith
  | inr new ↦
      let (s, found) = score_lookup_found ranked c there in
      let b = record (selected_as anchor (category_of c) s) { bidder_code = c } in
      ground (arith, contains-add b st)
]

module _ (config : SelectorConfig) (anchors required : List String)
    (ranked : List BidderScore) where
  add_anchor_bidders-selects :
      (more : List String) (st : Selection) (c : String)
      → All (λ k. contains anchors k ≡ true) more
      → contains more c ≡ true
      → contains (score_codes ranked) c ≡ true
      → contains (add_anchor_bidders ranked more st).selected_codes c ≡ true
  unfolding add_anchor_bidders
  add_anchor_bidders-selects [] st c h m there = absurd (ground arith)
  add_anchor_bidders-selects (k ∷ more) st c (a, h) m there = elim (Bool-cases (k == c)) [
    | inl same ↦
        let e = eq_of_beq k c same in
        let now = visit_anchor-selects ranked k st (rw (← e) at there) in
        Adds-keeps c (add_anchor_bidders-Adds config anchors required ranked more _ h)
          (ap (contains (visit_anchor ranked k st).selected_codes) (sym e) ∙ now)
    | inr other ↦ add_anchor_bidders-selects more _ c h (ground arith) there
  ]

  -- A round that passes over a high scorer found it selected.
  visit_score-skip :
      (rng : Random) (s : BidderScore) (st : Selection) (seed seed' : ℕ)
      → visit_score config rng s st seed ≡ skip seed'
      → config.min_score_threshold ≤ s.total_score
      → config.low_confidence_threshold ≤ s.confidence
      → contains st.selected_codes s.bidder_code ≡ true
  unfolding visit_score
  visit_score-skip rng s st seed seed' e high sure = ground arith

  visit_score-stop :
      (rng : Random) (s : BidderScore) (st : Selection) (seed : ℕ)
      → visit_score config rng s st seed ≡ stop
      → config.max_bidders ≤ length st.selected
  unfolding visit_score
  visit_score-stop rng s st seed e = ground arith

  -- The loop after a round, for each outcome of the round.
  add_high_scorers-stop :
      (rng : Random) (s : BidderScore) (rest : List BidderScore) (st : Selection) (seed : ℕ)
      → visit_score config rng s st seed ≡ stop
      → add_high_scorers config rng (s ∷ rest) st seed ≡ (st, seed)
  unfolding add_high_scorers
  add_high_scorers-stop rng s rest st seed e = rw (e, add_high_scorers) refl

  add_high_scorers-skip :
      (rng : Random) (s : BidderScore) (rest : List BidderScore) (st : Selection) (seed seed' : ℕ)
      → visit_score config rng s st seed ≡ skip seed'
      → add_high_scorers config rng (s ∷ rest) st seed ≡ add_high_scorers config rng rest st seed'
  unfolding add_high_scorers
  add_high_scorers-skip rng s rest st seed seed' e = rw (e, add_high_scorers) refl

  add_high_scorers-pick :
      (rng : Random) (s : BidderScore) (rest : List BidderScore) (st : Selection) (seed seed' : ℕ)
      (reason : SelectionReason)
      → visit_score config rng s st seed ≡ pick reason seed'
      → add_high_scorers config rng (s ∷ rest) st seed
        ≡ add_high_scorers config rng rest
            (add (selected_as reason (category_of s.bidder_code) s) st)
            seed'
  unfolding add_high_scorers
  add_high_scorers-pick rng s rest st seed seed' reason e = rw (e, add_high_scorers) refl

  add_high_scorers-selects :
      (rng : Random) (rest : List BidderScore) (st : Selection) (seed : ℕ) (s : BidderScore)
      → ((x : BidderScore) → In x rest → In x ranked)
      → length (add_high_scorers config rng rest st seed).0.selected < config.max_bidders
      → In s rest
      → config.min_score_threshold ≤ s.total_score
      → config.low_confidence_threshold ≤ s.confidence
      → contains (add_high_scorers config rng rest st seed).0.selected_codes s.bidder_code ≡ true
  add_high_scorers-selects rng [] st seed s sub room m high sure = absurd m
  add_high_scorers-selects rng (x ∷ rest) st seed s sub room m high sure =
      visited (visit_score config rng x st seed) refl room m
        (λ st' seed' room' m'.
          add_high_scorers-selects rng rest st' seed' s (λ y k. sub y (inr k)) room' m' high sure)
        (λ st' seed'.
          add_high_scorers-Adds config anchors required ranked rng rest st' seed'
            (λ y k. sub y (inr k)))
    where
      after : Selection → ℕ → Selection
      after st' seed' = (add_high_scorers config rng rest st' seed').0

      visited :
          (v : Visit)
          → visit_score config rng x st seed ≡ v
          → length (add_high_scorers config rng (x ∷ rest) st seed).0.selected < config.max_bidders
          → (s ≡ x) ⊎ In s rest
          → ((st' : Selection) (seed' : ℕ)
              → length (after st' seed').selected < config.max_bidders
              → In s rest
              → contains (after st' seed').selected_codes s.bidder_code ≡ true)
          → ((st' : Selection) (seed' : ℕ)
              → Adds ranked (IsJustified config anchors required) st' (after st' seed'))
          → contains (add_high_scorers config rng (x ∷ rest) st seed).0.selected_codes s.bidder_code
            ≡ true
      visited stop e room' m' ih grows =
          let over = visit_score-stop rng x st seed e in
          let same = add_high_scorers-stop rng x rest st seed e in
          absurd (omega (arith, ap (λ r. length r.0.selected) same))
      visited (skip seed') e room' m' ih grows =
          let same = add_high_scorers-skip rng x rest st seed seed' e in
          rw same (elim m' [
            | inl is_x ↦
                let high' = ap (λ y. y.total_score) is_x in
                let sure' = ap (λ y. y.confidence) is_x in
                let old = visit_score-skip rng x st seed seed' e (omega arith) (omega arith) in
                let named = ap (λ y. contains st.selected_codes y.bidder_code) is_x in
                Adds-keeps s.bidder_code (grows st seed') (named ∙ old)
            | inr k ↦ ih st seed' (rw same at room') k
          ])
      visited (pick reason seed') e room' m' ih grows =
          let same = add_high_scorers-pick rng x rest st seed seed' reason e in
          let b = selected_as reason (category_of x.bidder_code) x in
          rw same (elim m' [
            | inl is_x ↦
                let named = ap (λ y. contains (add b st).selected_codes y.bidder_code) is_x in
                Adds-keeps s.bidder_code (grows (add b st) seed') (named ∙ contains-add b st)
            | inr k ↦ ih (add b st) seed' (rw same at room') k
          ])

module _ (p : PartnerSelector) (ranked : List BidderScore) (request : ClassifiedRequest) (seed : ℕ)
    (fair : IsFair p.rng) (unique : Unique (score_codes ranked)) where
  abbrev final : Selection
  final = normal p ranked request seed

  in_list :
      (c : String)
      → contains final.selected_codes c ≡ true
      → contains (codes final.selected) c ≡ true
  in_list c h = rw (normal-IsSound p ranked request seed fair unique).synced at h

  kept :
      (c : String)
      → contains (scored p ranked request seed).selected_codes c ≡ true
      → contains final.selected_codes c ≡ true
  kept c h =
      Adds-keeps c (normal-diverse-Adds p ranked request seed fair unique)
        (Adds-keeps c (diverse-Adds p ranked request seed) h)

  -- Every anchor that is ranked is selected, whatever `max_bidders` is.
  pub select_normal-anchors :
      (c : String)
      → contains (get_anchor_bidders p request.publisher_id) c ≡ true
      → contains (score_codes ranked) c ≡ true
      → contains (codes (select_normal p ranked request seed).0.selected) c ≡ true
  select_normal-anchors c a there =
      let first =
        add_anchor_bidders-selects p.config (anchors p ranked request seed)
          (required p ranked request seed) ranked (anchors p ranked request seed) nothing_selected c
          (All-self (anchors p ranked request seed)) a there in
      in_list c (kept c (Adds-keeps c (scored-Adds p ranked request seed) first))

  -- While the selection is below `max_bidders`, every ranked bidder whose score and confidence reach
  -- the thresholds is selected.
  pub select_normal-high_scorers :
      (s : BidderScore)
      → length (select_normal p ranked request seed).0.selected < p.config.max_bidders
      → In s ranked
      → p.config.min_score_threshold ≤ s.total_score
      → p.config.low_confidence_threshold ≤ s.confidence
      → contains (codes (select_normal p ranked request seed).0.selected) s.bidder_code ≡ true
  select_normal-high_scorers s room m high sure =
      let a = Adds-length (normal-diverse-Adds p ranked request seed fair unique) in
      let b = Adds-length (diverse-Adds p ranked request seed) in
      let first =
        add_high_scorers-selects p.config (anchors p ranked request seed)
          (required p ranked request seed) ranked p.rng ranked (anchored p ranked request seed) seed
          s (λ x k. k) (omega arith) m high sure in
      in_list s.bidder_code (kept s.bidder_code first)
