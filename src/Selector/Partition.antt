-- ===== src/Selector/Partition.antt =====
-- `select_partners` raises nothing and accounts for every bidder, in each of its three modes.
use thenexusengine.Common.{
  ℕ, ◌+◌, ◌≡◌, refl, inl, inr, ◌∙◌, ap, String, Bool, true, not, some, List, [], ◌∷◌, ◌++◌, map,
  filter, length, All, arith, ◌==◌, string_eq, Bool-cases, Option-cases, if◌then◌else◌,
}
use mathlib.Core.List.{map-append}
use thenexusengine.Common.Members.{
  contains, count, eq_of_beq, count-append, count_absent, count_present, All-self,
}
use thenexusengine.Scores.{BidderScore}
use thenexusengine.Request.{ClassifiedRequest}
use thenexusengine.Selector.Config.{SelectedBidder, SelectionResult, codes}
use thenexusengine.Selector.Steps.{Selection, score_lookup}
use thenexusengine.Selector.Select.{
  PartnerSelector, Filtered, bypassed, add_back, rank, privacy_step, select_normal, select_partners,
  left_out, added_back, bypass_result, shadow_result, normal_result,
}
use thenexusengine.Selector.Adds.{score_codes, Unique, IsSound}
use thenexusengine.Selector.Explore.{IsFair}
use thenexusengine.Selector.Normal.{normal, normal-IsSound}
use thenexusengine.Selector.Rank.{count-rank}
use thenexusengine.Selector.Privacy.{excluded_codes, count-privacy_step}

pub count-left_out :
    (codes chosen : List String) (c : String)
    → count (filter (λ x. not (contains chosen x)) codes) c
      ≡ (if contains chosen c then 0 else count codes c)
count-left_out [] chosen c = ground arith
count-left_out (x ∷ codes) chosen c = ground (
  arith,
  count-left_out codes chosen c,
  λ (e : (x == c) ≡ true). ap (contains chosen) (eq_of_beq x c e),
)

-- The selected and the left out are the ranked bidders.
pub count-normal :
    (ranked : List BidderScore) (st : Selection) (c : String)
    → Unique (score_codes ranked)
    → IsSound ranked st
    → count (codes st.selected) c + count (left_out ranked st.selected_codes) c
      ≡ count (score_codes ranked) c
count-normal ranked st c u h =
    let once = u c in
    let within = h.within c in
    let same = ap (λ xs. count xs c) h.synced in
    let out = count-left_out (score_codes ranked) st.selected_codes c in
    elim (Bool-cases (contains st.selected_codes c)) [
      | inl chosen ↦ let one = count_present st.selected_codes c chosen in ground arith
      | inr absent ↦ let zero_times = count_absent st.selected_codes c absent in ground arith
    ]

pub score_lookup_found :
    (ranked : List BidderScore) (c : String)
    → contains (score_codes ranked) c ≡ true
    → (s : BidderScore) × (score_lookup ranked c ≡ some s)
unfolding score_lookup
score_lookup_found [] c m = absurd (ground arith)
score_lookup_found (x ∷ ranked) c m = elim (Option-cases (score_lookup ranked c)) [
  | inr (t, found) ↦ (t, rw found)
  | inl missed ↦ elim (Bool-cases (x.bidder_code == c)) [
    | inl hit ↦ (x, rw (missed, hit))
    | inr other ↦
        let (t, found) = score_lookup_found ranked c (ground arith) in absurd (ground arith)
  ]
]

-- The shadow mode finds the score of each bidder that it adds back.
add_back_total :
    (ranked : List BidderScore) (excluded : List String)
    → All (λ c. contains (score_codes ranked) c ≡ true) excluded
    → (extra : List SelectedBidder) × (add_back ranked excluded ≡ some extra)
      × (codes extra ≡ excluded)
unfolding add_back
add_back_total ranked [] h = ([], refl, refl)
add_back_total ranked (c ∷ excluded) (m, h) =
    let (s, found) = score_lookup_found ranked c m in
    let (extra, added, named) = add_back_total ranked excluded h in
    (added_back c s ∷ extra, rw (found, add_back) (rw added), ap (◌∷◌ c) named)

pub add_back-codes :
    (ranked : List BidderScore) (excluded : List String) (extra : List SelectedBidder)
    → add_back ranked excluded ≡ some extra
    → codes extra ≡ excluded
unfolding add_back
add_back-codes ranked [] extra e = ground arith
add_back-codes ranked (c ∷ excluded) extra e = elim (Option-cases (score_lookup ranked c)) [
  | inl missed ↦ absurd (ground arith)
  | inr (s, found) ↦ elim (Option-cases (add_back ranked excluded)) [
    | inl missed ↦ absurd (ground arith)
    | inr (rest, added) ↦
        let all_of : extra ≡ added_back c s ∷ rest = ground arith in
        ap codes all_of ∙ ap (◌∷◌ c) (add_back-codes ranked excluded rest added)
  ]
]

All-filter :
    (P : String → Type 0) (keep : String → Bool) (xs : List String)
    → All P xs
    → All P (filter keep xs)
All-filter P keep [] h = tt
All-filter P keep (x ∷ xs) (p, h) = elim (Bool-cases (keep x)) [
  | inl kept ↦ rw kept (p, All-filter P keep xs h)
  | inr dropped ↦ rw dropped (All-filter P keep xs h)
]

score_codes-bypassed :
    (ranked : List BidderScore) → codes (map bypassed ranked) ≡ score_codes ranked
score_codes-bypassed [] = refl
score_codes-bypassed (s ∷ ranked) = ap (◌∷◌ s.bidder_code) (score_codes-bypassed ranked)

-- Each scored bidder is selected, excluded or reported by the privacy filter, once in all.
abbrev pub Accounts : List BidderScore → SelectionResult → Type 0
Accounts scores r =
    (c : String)
    → count (codes r.selected) c + count r.excluded c + count (excluded_codes r.privacy_filtered) c
      ≡ count (score_codes scores) c

module _ (p : PartnerSelector) (scores : List BidderScore) (request : ClassifiedRequest)
    (seed : ℕ) where
  abbrev pub filtered : Filtered
  filtered = privacy_step p (rank scores) request

  abbrev pub selection : Selection
  selection = normal p filtered.ranked request seed

  pub count-filtered :
      (c : String)
      → count (score_codes filtered.ranked) c + count (excluded_codes filtered.excluded) c
        ≡ count (score_codes scores) c
  count-filtered c = count-privacy_step p (rank scores) request c ∙ count-rank scores c

  pub filtered-Unique : Unique (score_codes scores) → Unique (score_codes filtered.ranked)
  filtered-Unique u c = omega (arith, count-filtered c, u c)

  bypass-Accounts : Accounts scores (bypass_result (length scores) filtered)
  bypass-Accounts c =
      let all_in = ap (λ xs. count xs c) (score_codes-bypassed filtered.ranked) in
      omega (arith, count-filtered c, all_in)

  module _ (fair : IsFair p.rng) (unique : Unique (score_codes scores)) where
    pub sound : IsSound filtered.ranked selection
    sound = normal-IsSound p filtered.ranked request seed fair (filtered-Unique unique)

    normal-Accounts : Accounts scores (
        normal_result
          (length scores)
          filtered
          selection
          (left_out filtered.ranked selection.selected_codes))
    normal-Accounts c =
        let split = count-normal filtered.ranked selection c (filtered-Unique unique) sound in
        omega (arith, count-filtered c, split)

    shadow-Accounts :
        (extra : List SelectedBidder)
        → codes extra ≡ left_out filtered.ranked selection.selected_codes
        → Accounts scores (
            shadow_result
              (length scores)
              filtered
              selection
              (left_out filtered.ranked selection.selected_codes)
              extra)
    shadow-Accounts extra named c =
        let split = count-normal filtered.ranked selection c (filtered-Unique unique) sound in
        let all_in : count (codes (selection.selected ++ extra)) c
            ≡ count (codes selection.selected) c
              + count (left_out filtered.ranked selection.selected_codes) c =
          ap (λ xs. count xs c) (map-append _ selection.selected extra)
          ∙ count-append (codes selection.selected) (codes extra) c
          ∙ ap (λ xs. count (codes selection.selected) c + count xs c) named in
        omega (arith, count-filtered c, split, all_in)

    -- With distinct bidders and a fair source of samples, a selection raises nothing, and each
    -- scored bidder is in exactly one of the selected, the excluded and the privacy-filtered, in
    -- every mode.
    pub select_partners-Accounts :
        (r : SelectionResult) × (seed' : ℕ) × (select_partners p scores request seed
          ≡ some (r, seed'))
        × Accounts scores r
    unfolding select_partners
    select_partners-Accounts =
        let total = length scores in
        let excluded = left_out filtered.ranked selection.selected_codes in
        let seed' = (select_normal p filtered.ranked request seed).1 in
        elim (Bool-cases p.config.bypass_enabled) [
          | inl on ↦ (bypass_result total filtered, seed, ground arith, bypass-Accounts)
          | inr off ↦ elim (Bool-cases p.config.shadow_mode) [
            | inr normally ↦ (
              normal_result total filtered selection excluded,
              seed',
              ground arith,
              normal-Accounts,
            )
            | inl shadow ↦
                let (extra, added, named) =
                  add_back_total filtered.ranked excluded
                    (All-filter _ _ _ (All-self (score_codes filtered.ranked))) in
                (
                  shadow_result total filtered selection excluded extra,
                  seed',
                  ground arith,
                  shadow-Accounts extra named,
                )
          ]
        ]
