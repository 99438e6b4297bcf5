-- ===== src/Selector/Rank.antt =====
-- `sorted` by score: a permutation, descending, and stable.
use thenexusengine.Common.{
  ℕ, ◌≤◌, ◌≡◌, refl, inl, inr, String, List, [], ◌∷◌, filter, All, arith, ◌==◌, string_eq, nat_eq,
  Bool-cases, Perm,
}
use mathlib.Core.List.Perm
use thenexusengine.Common.Members.{count}
use thenexusengine.Scores.{BidderScore, score_lt}
use thenexusengine.Selector.Select.{insert_ranked, rank}
use thenexusengine.Selector.Adds.{score_codes}

abbrev pub Descending : List BidderScore → Type 0
Descending [] = Unit
Descending (s ∷ ranked) = All (λ t. t.total_score ≤ s.total_score) ranked × Descending ranked

insert_ranked-perm :
    (s : BidderScore) (ranked : List BidderScore) → Perm (insert_ranked s ranked) (s ∷ ranked)
unfolding insert_ranked
insert_ranked-perm s [] = Perm.rfl
insert_ranked-perm s (t ∷ ranked) = elim (Bool-cases (score_lt s t)) [
  | inl below ↦
      rw below (Perm.trans (Perm.cons t (insert_ranked-perm s ranked)) (Perm.swap s t ranked))
  | inr above ↦ rw above Perm.rfl
]

rank-perm : (scores : List BidderScore) → Perm (rank scores) scores
unfolding rank
rank-perm [] = Perm.rfl
rank-perm (s ∷ scores) =
    Perm.trans (insert_ranked-perm s (rank scores)) (Perm.cons s (rank-perm scores))

All-insert_ranked :
    (k : ℕ) (s : BidderScore) (ranked : List BidderScore)
    → s.total_score ≤ k
    → All (λ t. t.total_score ≤ k) ranked
    → All (λ t. t.total_score ≤ k) (insert_ranked s ranked)
unfolding insert_ranked
All-insert_ranked k s [] h a = (h, tt)
All-insert_ranked k s (t ∷ ranked) h (b, a) = elim (Bool-cases (score_lt s t)) [
  | inl below ↦ rw below (b, All-insert_ranked k s ranked h a)
  | inr above ↦ rw above (h, (b, a))
]

All-le_trans :
    (k m : ℕ) (ranked : List BidderScore)
    → k ≤ m
    → All (λ t. t.total_score ≤ k) ranked
    → All (λ t. t.total_score ≤ m) ranked
All-le_trans k m [] h a = tt
All-le_trans k m (t ∷ ranked) h (b, a) = (omega arith, All-le_trans k m ranked h a)

insert_ranked-Descending :
    (s : BidderScore) (ranked : List BidderScore)
    → Descending ranked
    → Descending (insert_ranked s ranked)
unfolding insert_ranked
insert_ranked-Descending s [] d = (tt, tt)
insert_ranked-Descending s (t ∷ ranked) (a, d) = elim (Bool-cases (score_lt s t)) [
  | inl below ↦ rw below (
    All-insert_ranked t.total_score s ranked (ground arith) a,
    insert_ranked-Descending s ranked d,
  )
  | inr above ↦
      let le : t.total_score ≤ s.total_score = ground arith in
      rw above ((le, All-le_trans t.total_score s.total_score ranked le a), (a, d))
]

pub rank-Descending : (scores : List BidderScore) → Descending (rank scores)
unfolding rank
rank-Descending [] = tt
rank-Descending (s ∷ scores) = insert_ranked-Descending s (rank scores) (rank-Descending scores)

abbrev pub with_score : ℕ → List BidderScore → List BidderScore
with_score k = filter (λ s. s.total_score == k)

with_score-insert_ranked :
    (k : ℕ) (s : BidderScore) (ranked : List BidderScore)
    → with_score k (insert_ranked s ranked) ≡ with_score k (s ∷ ranked)
unfolding insert_ranked
with_score-insert_ranked k s [] = refl
with_score-insert_ranked k s (t ∷ ranked) = ground (arith, with_score-insert_ranked k s ranked)

with_score-rank :
    (k : ℕ) (scores : List BidderScore) → with_score k (rank scores) ≡ with_score k scores
unfolding rank
with_score-rank k [] = refl
with_score-rank k (s ∷ scores) =
    ground (arith, with_score-insert_ranked k s (rank scores), with_score-rank k scores)

-- The ranking holds the scores given, each as often, from the highest down, and keeps the order of
-- those that are equal.
pub rank_sorts :
    (scores : List BidderScore)
    → Perm (rank scores) scores
      × Descending (rank scores)
      × ((k : ℕ) → with_score k (rank scores) ≡ with_score k scores)
rank_sorts scores = (rank-perm scores, rank-Descending scores, λ k. with_score-rank k scores)

count-insert_ranked :
    (s : BidderScore) (ranked : List BidderScore) (c : String)
    → count (score_codes (insert_ranked s ranked)) c ≡ count (score_codes (s ∷ ranked)) c
unfolding insert_ranked
count-insert_ranked s [] c = refl
count-insert_ranked s (t ∷ ranked) c = ground (arith, count-insert_ranked s ranked c)

pub count-rank :
    (scores : List BidderScore) (c : String)
    → count (score_codes (rank scores)) c ≡ count (score_codes scores) c
unfolding rank
count-rank [] c = refl
count-rank (s ∷ scores) c =
    ground (arith, count-insert_ranked s (rank scores) c, count-rank scores c)
