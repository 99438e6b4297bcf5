-- ===== src/Selector/Adds.antt =====
-- A selection that grows: the relation between a selection and what the steps make of it, and what
-- it keeps.
use thenexusengine.Common.{
  ◌≤◌, ◌≡◌, ◌⊎◌, inl, inr, ◌∙◌, ap, String, Bool, true, false, List, [], ◌∷◌, ◌++◌, map, filter,
  length, All, All-append, length-append, arith, ◌==◌, string_eq, Bool-cases,
}
use mathlib.Core.List.{map-append}
use thenexusengine.Common.Members.{
  contains, count, set_add_absent, count-append, count_absent, count_present, contains-append,
  eq_self, eq_of_beq,
}
use thenexusengine.Scores.{BidderScore}
use thenexusengine.Selector.Config.{SelectedBidder, codes}
use thenexusengine.Selector.Steps.{Selection, add}

abbrev pub score_codes : List BidderScore → List String
score_codes = map (λ s. s.bidder_code)

abbrev pub In : BidderScore → List BidderScore → Type 0
In s [] = ⊥
In s (x ∷ xs) = (s ≡ x) ⊎ In s xs

pub In-filter :
    (p : BidderScore → Bool) (s : BidderScore) (xs : List BidderScore)
    → In s (filter p xs)
    → In s xs × (p s ≡ true)
In-filter p s [] m = absurd m
In-filter p s (x ∷ xs) m = elim (Bool-cases (p x)) [
  | inl hit ↦
      let m' : (s ≡ x) ⊎ In s (filter p xs) = rw hit at m in
      elim m' [
        | inl e ↦ (inl e, ap p e ∙ hit)
        | inr k ↦ let (there, passes) = In-filter p s xs k in (inr there, passes)
      ]
  | inr missed ↦ let (there, passes) = In-filter p s xs (rw missed at m) in (inr there, passes)
]

-- No code occurs twice.
abbrev pub Unique : List String → Type 0
Unique xs = (c : String) → count xs c ≤ 1

-- The entry repeats the code, the score and the confidence of a ranked bidder.
abbrev pub Scored : List BidderScore → SelectedBidder → Type 0
Scored ranked b =
    (s : BidderScore) × In s ranked
    × (s.bidder_code ≡ b.bidder_code)
    × (s.total_score ≡ b.score)
    × (s.confidence ≡ b.confidence)

pub contains-score_codes :
    (s : BidderScore) (ranked : List BidderScore)
    → In s ranked
    → contains (score_codes ranked) s.bidder_code ≡ true
contains-score_codes s [] m = absurd m
contains-score_codes s (x ∷ ranked) (inl e) =
    let same = eq_self s.bidder_code in ground (arith, ap (λ y. y.bidder_code) e)
contains-score_codes s (x ∷ ranked) (inr m) = ground (arith, contains-score_codes s ranked m)

pub data Adds (ranked : List BidderScore) (Q : SelectedBidder → Type 0) (s : Selection)
    : Selection → Type 0 where
  here : Adds ranked Q s s
  next :
      {t : Selection} (b : SelectedBidder)
      → Adds ranked Q s t
      → contains t.selected_codes b.bidder_code ≡ false
      → Scored ranked b
      → Q b
      → Adds ranked Q s (add b t)

-- The set holds the codes of the list, each as often as the ranked bidders have it at most.
pub record IsSound (ranked : List BidderScore) (st : Selection) : Type 0 where
  pub synced : st.selected_codes ≡ codes st.selected
  pub within : (c : String) → count st.selected_codes c ≤ count (score_codes ranked) c

add-IsSound :
    (ranked : List BidderScore) (t : Selection) (b : SelectedBidder)
    → contains t.selected_codes b.bidder_code ≡ false
    → Scored ranked b
    → IsSound ranked t
    → IsSound ranked (add b t)
unfolding add
add-IsSound ranked t b fresh (s, m, named, _, _) h =
    let code = b.bidder_code in
    let added = set_add_absent t.selected_codes code fresh in
    record {
      synced = added ∙ ap (λ xs. xs ++ code ∷ []) h.synced ∙ simp map-append;
      within = λ c.
          let grown = ap (λ xs. count xs c) added ∙ count-append t.selected_codes (code ∷ []) c in
          let old = h.within c in
          elim (Bool-cases (code == c)) [
            | inl same ↦
                let e = eq_of_beq code c same in
                let none_yet = count_absent t.selected_codes c (rw e at fresh) in
                let there : contains (score_codes ranked) c ≡ true =
                  rw (named ∙ e) at (contains-score_codes s ranked m) in
                let once = count_present (score_codes ranked) c there in ground arith
            | inr other ↦ ground arith
          ];
    }

module _ {ranked : List BidderScore} {Q : SelectedBidder → Type 0} where
  pub Adds-trans : {s t u : Selection} → Adds ranked Q s t → Adds ranked Q t u → Adds ranked Q s u
  Adds-trans a here = a
  Adds-trans a (next b a' fresh from q) = next b (Adds-trans a a') fresh from q

  pub add_once :
      {s : Selection} (b : SelectedBidder)
      → contains s.selected_codes b.bidder_code ≡ false
      → Scored ranked b
      → Q b
      → Adds ranked Q s (add b s)
  add_once b fresh from q = next b here fresh from q

  pub Adds-IsSound : {s t : Selection} → Adds ranked Q s t → IsSound ranked s → IsSound ranked t
  Adds-IsSound here h = h
  Adds-IsSound (next {t = t} b a fresh from q) h =
      add-IsSound ranked t b fresh from (Adds-IsSound a h)

  pub Adds-All : {s t : Selection} → Adds ranked Q s t → All Q s.selected → All Q t.selected
  unfolding add
  Adds-All here h = h
  Adds-All (next {t = t} b a fresh from q) h =
      All-append Q t.selected (b ∷ []) (Adds-All a h) (q, tt)

  pub Adds-keeps :
      {s t : Selection} (c : String)
      → Adds ranked Q s t
      → contains s.selected_codes c ≡ true
      → contains t.selected_codes c ≡ true
  unfolding add
  Adds-keeps c here h = h
  Adds-keeps c (next {t = t} b a fresh from q) h =
      ground (arith, Adds-keeps c a h, contains-append t.selected_codes (b.bidder_code ∷ []) c)

  pub Adds-length : {s t : Selection} → Adds ranked Q s t → length s.selected ≤ length t.selected
  unfolding add
  Adds-length here = omega arith
  Adds-length (next {t = t} b a fresh from q) =
      omega (arith, Adds-length a, length-append t.selected (b ∷ []))
