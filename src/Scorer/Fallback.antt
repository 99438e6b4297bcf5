-- ===== src/Scorer/Fallback.antt =====
-- Which performance data src/idr/scorer/bidder_scorer.py scores with, and that its list of scores is
-- ranked as the partner selector ranks it.
use thenexusengine.Common.{
  ℕ, zero, suc, ◌+◌, ◌≤◌, ◌<◌, ◌≡◌, refl, ap, sym, subst, ◌∙◌, ◌⊎◌, inl, inr, String, Option, none,
  some, List, [], ◌∷◌, length, take, All, leb, arith, Bool-cases, Option-cases, Bool, true, all,
  is_some, ◌&&◌, string_eq,
}
use thenexusengine.Common.Members.{count}
use thenexusengine.Common.Sorting.{insert_by, sort_by}
use thenexusengine.Scores.{Arithmetic, BidderScore, score_lt}
use thenexusengine.Request.{ClassifiedRequest}
use thenexusengine.Selector.Select.{insert_ranked, rank}
use thenexusengine.Selector.Rank.{Descending, rank-Descending, count-rank}
use thenexusengine.Selector.Adds.{score_codes}
use thenexusengine.Scorer.LookupKey.{LookupKey, get_fallback_keys}
use thenexusengine.Scorer.Metrics.{BidderMetrics, PerformanceDb}
use thenexusengine.Scorer.Components.{min_sample_size}
use thenexusengine.Scorer.Score.{
  BidderScorer, fetch_from, fetch_metrics_with_fallback, score_bidder, score_from_metrics_store,
  score_from_snapshot, weights_in, scores_of, score_all_bidders,
}

-- The element at a position.
abbrev pub key_at : List LookupKey → ℕ → Option LookupKey
key_at [] n = none
key_at (k ∷ keys) zero = some k
key_at (k ∷ keys) (suc n) = key_at keys n

abbrev pub samples : PerformanceDb → String → LookupKey → ℕ
samples db bidder_code key = (db.get_bidder_metrics bidder_code key).sample_size

-- The key of a level is used: those before it have too few samples, and it has enough or is the last.
pub record IsUsed (db : PerformanceDb) (bidder_code : String) (keys : List LookupKey) (level : ℕ)
    (metrics : BidderMetrics) : Type 0 where
  pub key : LookupKey
  pub stands : key_at keys level ≡ some key
  pub asked : metrics ≡ db.get_bidder_metrics bidder_code key
  pub before : All (λ k. samples db bidder_code k < min_sample_size) (take level keys)
  pub enough : (min_sample_size ≤ metrics.sample_size) ⊎ (level + 1 ≡ length keys)

first-IsUsed :
    (db : PerformanceDb) (bidder_code : String) (key : LookupKey) (keys : List LookupKey)
    → (min_sample_size ≤ samples db bidder_code key) ⊎ (keys ≡ [])
    → IsUsed db bidder_code (key ∷ keys) 0 (db.get_bidder_metrics bidder_code key)
first-IsUsed db bidder_code key keys h = record {
  key = key;
  stands = refl;
  asked = refl;
  before = tt;
  enough = elim h [
    | inl many ↦ inl many
    | inr last ↦ inr (ap (λ ks. length (key ∷ ks)) (sym last))
  ];
}

later-IsUsed :
    (db : PerformanceDb) (bidder_code : String) (key : LookupKey) (keys : List LookupKey) (i : ℕ)
    (m : BidderMetrics)
    → samples db bidder_code key < min_sample_size
    → IsUsed db bidder_code keys i m
    → IsUsed db bidder_code (key ∷ keys) (suc i) m
later-IsUsed db bidder_code key keys i m few used = record {
  key = used.key;
  stands = used.stands;
  asked = used.asked;
  before = (few, used.before);
  enough = elim used.enough [ inl many ↦ inl many | inr last ↦ inr (omega arith) ];
}

fetch_from-IsUsed :
    (db : PerformanceDb) (bidder_code : String) (last key : LookupKey) (keys : List LookupKey)
    (level : ℕ)
    → (i : ℕ) × (m : BidderMetrics) × (fetch_from db bidder_code last (key ∷ keys) level
        ≡ (m, level + i))
      × IsUsed db bidder_code (key ∷ keys) i m
unfolding fetch_from
fetch_from-IsUsed db bidder_code last key [] level =
    let asked = db.get_bidder_metrics bidder_code key in
    (
      0,
      asked,
      elim (Bool-cases (leb min_sample_size asked.sample_size)) [
        | inl many ↦ rw (many, fetch_from) (ap (λ n. (asked, n)) (omega arith))
        | inr few ↦ rw (few, fetch_from) (ap (λ n. (asked, n)) (omega arith))
      ],
      first-IsUsed db bidder_code key [] (inr refl),
    )
fetch_from-IsUsed db bidder_code last key (following ∷ keys) level =
    let asked = db.get_bidder_metrics bidder_code key in
    elim (Bool-cases (leb min_sample_size asked.sample_size)) [
      | inl many ↦ (
        0,
        asked,
        rw (many, fetch_from) (ap (λ n. (asked, n)) (omega arith)),
        first-IsUsed db bidder_code key (following ∷ keys) (inl (ground arith)),
      )
      | inr few ↦
          let (i, m, is, used) = fetch_from-IsUsed db bidder_code key following keys (level + 1) in
          (
            suc i,
            m,
            rw (few, fetch_from) (is ∙ ap (λ n. (m, n)) (omega arith)),
            later-IsUsed db bidder_code key (following ∷ keys) i m (ground arith) used,
          )
    ]

-- The metrics that are scored with are those of the first fallback key with at least
-- `MIN_SAMPLE_SIZE` samples, or of the last key if none has them, and the level is the position of
-- that key.
pub fetch_metrics_with_fallback-IsUsed :
    (db : PerformanceDb) (bidder_code : String) (lookup_key : LookupKey)
    → let (metrics, level) = fetch_metrics_with_fallback db bidder_code lookup_key in
      IsUsed db bidder_code (get_fallback_keys lookup_key) level metrics
unfolding fetch_metrics_with_fallback get_fallback_keys
fetch_metrics_with_fallback-IsUsed db bidder_code lookup_key =
    let (i, m, is, used) = fetch_from-IsUsed db bidder_code lookup_key lookup_key _ 0 in
    subst (λ (r : BidderMetrics × ℕ). IsUsed db bidder_code (get_fallback_keys lookup_key) r.1 r.0)
      (sym (is ∙ ap (λ n. (m, n)) (omega arith))) used

insert_ranked-Descending_kept :
    (s : BidderScore) (ranked : List BidderScore)
    → Descending (s ∷ ranked)
    → insert_ranked s ranked ≡ s ∷ ranked
unfolding insert_ranked
insert_ranked-Descending_kept s [] d = refl
insert_ranked-Descending_kept s (t ∷ ranked) ((le, a), d) = ground arith

rank_kept : (scores : List BidderScore) → Descending scores → rank scores ≡ scores
unfolding rank
rank_kept [] d = refl
rank_kept (s ∷ scores) (a, d) =
    rw (rank_kept scores d) (insert_ranked-Descending_kept s scores (a, d))

insert_by-insert_ranked :
    (s : BidderScore) (scores : List BidderScore)
    → insert_by (λ x. x.total_score) s scores ≡ insert_ranked s scores
unfolding insert_by insert_ranked
insert_by-insert_ranked s [] = refl
insert_by-insert_ranked s (t ∷ scores) = ground (arith, insert_by-insert_ranked s scores)

sort_by-rank : (scores : List BidderScore) → sort_by (λ x. x.total_score) scores ≡ rank scores
unfolding sort_by rank
sort_by-rank [] = refl
sort_by-rank (s ∷ scores) = rw (sort_by-rank scores) (insert_by-insert_ranked s (rank scores))

-- Whether a bidder's score can be had: the scorer has each weight, and there is no metrics store, or the
-- store does not raise.
abbrev pub can_score : BidderScorer → ClassifiedRequest → String → Bool
can_score self request bidder_code = is_some (weights_in self.weights) && (elim self.metrics_store [
  | none ↦ true
  | some store ↦ is_some (store.get_metrics bidder_code request)
])

All-insert_ranked :
    (P : BidderScore → Type 0) (s : BidderScore) (ranked : List BidderScore)
    → P s
    → All P ranked
    → All P (insert_ranked s ranked)
unfolding insert_ranked
All-insert_ranked P s [] h a = (h, tt)
All-insert_ranked P s (t ∷ ranked) h (b, a) = elim (Bool-cases (score_lt s t)) [
  | inl below ↦ rw below (b, All-insert_ranked P s ranked h a)
  | inr above ↦ rw above (h, (b, a))
]

All-rank :
    (P : BidderScore → Type 0) (scores : List BidderScore) → All P scores → All P (rank scores)
unfolding rank
All-rank P [] a = tt
All-rank P (s ∷ scores) (h, a) = All-insert_ranked P s (rank scores) h (All-rank P scores a)

abbrev code_or : Option BidderScore → String → String
code_or none code = code
code_or (some s) code = s.bidder_code

module _ (ops : Arithmetic) where
  score_bidder-code :
      (self : BidderScorer) (request : ClassifiedRequest) (bidder_code : String)
      → let o = score_bidder ops self bidder_code request none none in
        (is_some o ≡ can_score self request bidder_code) × (code_or o bidder_code ≡ bidder_code)
  unfolding score_bidder score_from_metrics_store score_from_snapshot
  score_bidder-code self request bidder_code = elim (Option-cases (weights_in self.weights)) [
    | inl missing ↦ elim (Option-cases self.metrics_store) [
      | inl absent ↦ rw (absent, missing, score_bidder) (refl, refl)
      | inr (store, given) ↦ elim (Option-cases (store.get_metrics bidder_code request)) [
        | inl raises ↦ rw (given, score_bidder) (rw (raises, missing) (refl, refl))
        | inr (snapshot, is) ↦ rw (given, score_bidder) (rw (is, missing) (refl, refl))
      ]
    ]
    | inr (w, there) ↦ elim (Option-cases self.metrics_store) [
      | inl absent ↦ rw (absent, there, score_bidder) (refl, refl)
      | inr (store, given) ↦ elim (Option-cases (store.get_metrics bidder_code request)) [
        | inl raises ↦ rw (given, score_bidder) (rw (raises, there) (refl, refl))
        | inr (snapshot, is) ↦ rw (given, score_bidder) (rw (is, there) (refl, refl))
      ]
    ]
  ]

  scores_of_returns :
      (self : BidderScorer) (request : ClassifiedRequest) (bidder_codes : List String)
      → is_some (scores_of ops self bidder_codes request)
        ≡ all (can_score self request) bidder_codes
  unfolding scores_of
  scores_of_returns self request [] = refl
  scores_of_returns self request (code ∷ codes) =
      let first = (score_bidder-code self request code).0 in
      let others = scores_of_returns self request codes in
      elim (Option-cases (score_bidder ops self code request none none)) [
        | inl raises ↦ ground (arith, raises, first)
        | inr (score, is) ↦ elim (Option-cases (scores_of ops self codes request)) [
          | inl raises ↦ ground (arith, is, raises, first, others)
          | inr (scores, are) ↦ ground (arith, is, are, first, others)
        ]
      ]

  -- The score is what `score_bidder` gives for its bidder.
  abbrev pub IsOwn : BidderScorer → ClassifiedRequest → BidderScore → Type 0
  IsOwn self request s = score_bidder ops self s.bidder_code request none none ≡ some s

  -- The scores of the bidders, in the order of the codes.
  AreScores : BidderScorer → ClassifiedRequest → List String → Option (List BidderScore) → Type 0
  AreScores self request codes none = Unit
  AreScores self request codes (some scores) =
      (score_codes scores ≡ codes) × All (IsOwn self request) scores

  scores_of-AreScores :
      (self : BidderScorer) (request : ClassifiedRequest) (codes : List String)
      → AreScores self request codes (scores_of ops self codes request)
  unfolding scores_of AreScores
  scores_of-AreScores self request [] = (refl, tt)
  scores_of-AreScores self request (code ∷ codes) =
      elim (Option-cases (score_bidder ops self code request none none)) [
        | inl raises ↦ rw raises tt
        | inr (s, is) ↦
            let own : s.bidder_code ≡ code =
              ap (λ o. code_or o code) (sym is) ∙ (score_bidder-code self request code).1 in
            elim (Option-cases (scores_of ops self codes request)) [
              | inl raises ↦ rw is (rw raises tt)
              | inr (scores, are) ↦
                  let rest =
                    subst (AreScores self request codes) are
                      (scores_of-AreScores self request codes) in
                  rw is (
                    rw are (
                      rw (own, rest.0) refl,
                      (ap (λ c. score_bidder ops self c request none none) own ∙ is, rest.1),
                    ))
            ]
      ]

  -- A list of scores that is returned: it has each bidder as often as the codes have it, each score
  -- is what `score_bidder` gives for its bidder, and the partner selector ranks them as they are.
  pub record IsRanking (self : BidderScorer) (request : ClassifiedRequest) (codes : List String)
      (scores : List BidderScore) : Type 0 where
    pub every : (c : String) → count (score_codes scores) c ≡ count codes c
    pub own : All (IsOwn self request) scores
    pub ranked : rank scores ≡ scores

  abbrev pub IfReturned :
      BidderScorer → ClassifiedRequest → List String → Option (List BidderScore) → Type 0
  IfReturned self request codes none = Unit
  IfReturned self request codes (some scores) = IsRanking self request codes scores

  -- The scores of all bidders are returned exactly if the scorer can score each bidder: it has every
  -- weight, and no metrics store is set or the store answers. What is returned has the score of each
  -- bidder, as `score_bidder` gives it, as often as the codes have the bidder, and the partner selector
  -- ranks these scores as they are.
  pub rank-score_all_bidders :
      (self : BidderScorer) (bidder_codes : List String) (request : ClassifiedRequest)
      → let r = score_all_bidders ops self bidder_codes request in
        (is_some r ≡ all (can_score self request) bidder_codes)
        × IfReturned self request bidder_codes r
  unfolding score_all_bidders AreScores
  rank-score_all_bidders self bidder_codes request =
      let returns = scores_of_returns self request bidder_codes in
      elim (Option-cases (scores_of ops self bidder_codes request)) [
        | inl raises ↦ rw (raises, score_all_bidders) (ap is_some (sym raises) ∙ returns, tt)
        | inr (scores, are) ↦
            let (named, own) =
              subst (AreScores self request bidder_codes) are
                (scores_of-AreScores self request bidder_codes) in
            rw (are, score_all_bidders)
              (
                ap is_some (sym are) ∙ returns,
                rw (sort_by-rank scores) (record {
                  every = λ c. count-rank scores c ∙ ap (λ l. count l c) named;
                  own = All-rank (IsOwn self request) scores own;
                  ranked = rank_kept (rank scores) (rank-Descending scores);
                }),
              )
      ]
