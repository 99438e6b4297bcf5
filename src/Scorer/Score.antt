-- ===== src/Scorer/Score.antt =====
-- src/idr/scorer/bidder_scorer.py: `BidderScorer`. The test of the weights' sum in its constructor is left
-- out.
use thenexusengine.Common.{
  ℕ, ◌+◌, ◌-◌, String, Option, none, some, List, [], ◌∷◌, leb, if◌then◌else◌, string_eq,
}
use thenexusengine.Common.Raising.{◌>>=◌}
use thenexusengine.Common.Members.{lookup}
use thenexusengine.Common.Sorting.{sort_by}
use thenexusengine.Scores.{Arithmetic, Float, ScoreComponents, BidderScore}
use thenexusengine.Request.{ClassifiedRequest, primary_ad_size, ad_format_value, device_type_value}
use thenexusengine.Metrics.Snapshot.{BidderMetricsSnapshot, confidence}
use thenexusengine.Scorer.LookupKey.{LookupKey, get_fallback_keys, key_text}
use thenexusengine.Scorer.Metrics.{
  BidderMetrics, empty_metrics, RecentMetrics, no_recent_metrics, PerformanceDb, MetricsStore,
}
use thenexusengine.Scorer.Components.{
  min_sample_size, score_win_rate, score_bid_rate, score_avg_cpm, score_floor_clearance,
  score_latency, score_recency, score_recency_from_snapshot, score_id_match,
}

-- The weights of the components.
pub record Weights : Type 0 where
  pub win_rate : Float
  pub bid_rate : Float
  pub cpm : Float
  pub floor_clearance : Float
  pub latency : Float
  pub recency : Float
  pub id_match : Float

pub record BidderScorer : Type 0 where
  pub db : Option PerformanceDb
  pub metrics_store : Option MetricsStore
  pub weights : List (String × Float)

-- The weights in the dictionary of the scorer. One that is not there raises `KeyError`.
unfoldable pub weights_in : List (String × Float) → Option Weights
weights_in weights = do
  win_rate ← lookup weights "win_rate"
  bid_rate ← lookup weights "bid_rate"
  cpm ← lookup weights "cpm"
  floor_clearance ← lookup weights "floor_clearance"
  latency ← lookup weights "latency"
  recency ← lookup weights "recency"
  id_match ← lookup weights "id_match"
  some (record {
    win_rate = win_rate;
    bid_rate = bid_rate;
    cpm = cpm;
    floor_clearance = floor_clearance;
    latency = latency;
    recency = recency;
    id_match = id_match;
  })

unfoldable pub build_lookup_key : ClassifiedRequest → LookupKey
build_lookup_key request = record {
  country = request.country;
  device_type = device_type_value request.device_type;
  ad_format = ad_format_value request.ad_format;
  ad_size = primary_ad_size request;
  publisher_id = some request.publisher_id;
}

-- The loop over the keys, from a level on: the first metrics with enough samples. After the loop the
-- last key is asked again.
unfoldable pub fetch_from :
    PerformanceDb → String → LookupKey → List LookupKey → ℕ → BidderMetrics × ℕ
fetch_from db bidder_code last [] level = (db.get_bidder_metrics bidder_code last, level - 1)
fetch_from db bidder_code last (key ∷ keys) level =
    let metrics = db.get_bidder_metrics bidder_code key in
    let rest = fetch_from db bidder_code key keys (level + 1) in
    if leb min_sample_size metrics.sample_size then (metrics, level) else rest

unfoldable pub fetch_metrics_with_fallback : PerformanceDb → String → LookupKey → BidderMetrics × ℕ
fetch_metrics_with_fallback db bidder_code lookup_key =
    fetch_from db bidder_code lookup_key (get_fallback_keys lookup_key) 0

module _ (ops : Arithmetic) where
  unfoldable pub total : Weights → ScoreComponents → Float
  total w c =
      ops.add
        (ops.add
          (ops.add
            (ops.add
              (ops.add (ops.add (ops.mul c.win_rate w.win_rate) (ops.mul c.bid_rate w.bid_rate))
                (ops.mul c.cpm w.cpm))
              (ops.mul c.floor_clearance w.floor_clearance))
            (ops.mul c.latency w.latency))
          (ops.mul c.recency w.recency))
        (ops.mul c.id_match w.id_match)

  -- The score of a snapshot.
  unfoldable pub score_from_snapshot :
      Weights → BidderMetricsSnapshot → String → ClassifiedRequest → LookupKey → BidderScore
  score_from_snapshot weights snapshot bidder_code request lookup_key =
      let components : ScoreComponents = record {
        win_rate = score_win_rate ops snapshot.win_rate;
        bid_rate = score_bid_rate ops snapshot.bid_rate;
        cpm = score_avg_cpm ops snapshot.avg_cpm request.floor_price;
        floor_clearance = score_floor_clearance ops snapshot.floor_clearance_rate;
        latency = score_latency ops snapshot.p95_latency_ms;
        recency = score_recency_from_snapshot ops snapshot;
        id_match = score_id_match ops bidder_code request.user_ids;
      } in
      record {
        bidder_code = bidder_code;
        total_score = total weights components;
        components = components;
        confidence = confidence snapshot;
        lookup_key_used = some (key_text lookup_key);
        fallback_level = 0;
      }

  -- `none` where the store raises or a weight is missing.
  unfoldable pub score_from_metrics_store :
      BidderScorer → MetricsStore → String → ClassifiedRequest → LookupKey → Option BidderScore
  score_from_metrics_store self store bidder_code request lookup_key = do
    snapshot ← store.get_metrics bidder_code request
    weights ← weights_in self.weights
    some (score_from_snapshot weights snapshot bidder_code request lookup_key)

  -- The metrics given, or those that are fetched, with the level.
  abbrev pub metrics_for :
      BidderScorer → String → Option BidderMetrics → LookupKey → BidderMetrics × ℕ
  metrics_for self bidder_code (some metrics) lookup_key = (metrics, 0)
  metrics_for self bidder_code none lookup_key = elim self.db [
    | some db ↦ fetch_metrics_with_fallback db bidder_code lookup_key
    | none ↦ (empty_metrics bidder_code, 0)
  ]

  abbrev pub recent_for : BidderScorer → String → Option RecentMetrics → LookupKey → RecentMetrics
  recent_for self bidder_code (some recent) lookup_key = recent
  recent_for self bidder_code none lookup_key = elim self.db [
    | some db ↦ db.get_recent_metrics bidder_code lookup_key
    | none ↦ no_recent_metrics
  ]

  -- The legacy path of `score_bidder`.
  abbrev pub score_from_metrics :
      Weights
      → BidderScorer
      → String
      → ClassifiedRequest
      → Option BidderMetrics
      → Option RecentMetrics
      → BidderScore
  score_from_metrics weights self bidder_code request given given_recent =
      let lookup_key = build_lookup_key request in
      let (metrics, fallback_level) = metrics_for self bidder_code given lookup_key in
      let components : ScoreComponents = record {
        win_rate = score_win_rate ops metrics.win_rate;
        bid_rate = score_bid_rate ops metrics.bid_rate;
        cpm = score_avg_cpm ops metrics.avg_cpm request.floor_price;
        floor_clearance = score_floor_clearance ops metrics.floor_clearance_rate;
        latency = score_latency ops metrics.p95_latency;
        recency = score_recency ops (recent_for self bidder_code given_recent lookup_key);
        id_match = score_id_match ops bidder_code request.user_ids;
      } in
      record {
        bidder_code = bidder_code;
        total_score = total weights components;
        components = components;
        confidence = metrics.sample_size_confidence;
        lookup_key_used = some (key_text lookup_key);
        fallback_level = fallback_level;
      }

  unfoldable pub score_bidder :
      BidderScorer
      → String
      → ClassifiedRequest
      → Option BidderMetrics
      → Option RecentMetrics
      → Option BidderScore
  score_bidder self bidder_code request (some metrics) recent =
      weights_in self.weights >>= λ weights.
      some (score_from_metrics weights self bidder_code request (some metrics) recent)
  score_bidder self bidder_code request none recent = elim self.metrics_store [
    | some store ↦
        score_from_metrics_store self store bidder_code request (build_lookup_key request)
    | none ↦ weights_in self.weights >>= λ weights.
        some (score_from_metrics weights self bidder_code request none recent)
  ]

  -- The scores, in the order of the codes.
  unfoldable pub scores_of :
      BidderScorer → List String → ClassifiedRequest → Option (List BidderScore)
  scores_of self [] request = some []
  scores_of self (code ∷ codes) request = do
    score ← score_bidder self code request none none
    rest ← scores_of self codes request
    some (score ∷ rest)

  unfoldable pub score_all_bidders :
      BidderScorer → List String → ClassifiedRequest → Option (List BidderScore)
  score_all_bidders self bidder_codes request = do
    scores ← scores_of self bidder_codes request
    some (sort_by (λ s. s.total_score) scores)
