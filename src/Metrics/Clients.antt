-- ===== src/Metrics/Clients.antt =====
-- src/idr/database/metrics_store.py: the store with the two mock clients, as `MetricsStore.create` makes it where no
-- database can be reached.
use thenexusengine.Common.{
  ℕ, ◌+◌, ◌≤◌, ◌<◌, ◌≡◌, refl, ap, String, Option, none, some, ◌∷◌, length, List-cases, inl, inr,
  arith,
}
use thenexusengine.Common.Raising.{◌>>=◌}
use thenexusengine.Scores.{Float, Arithmetic}
use thenexusengine.Metrics.RealTime.{RealTimeMetrics}
use thenexusengine.Metrics.MockRedis
use thenexusengine.Metrics.MockRedis.{MockRedisClient}
use thenexusengine.Metrics.Timescale
use thenexusengine.Metrics.Timescale.{
  BidderPerformance, MockTimescaleClient, events_of, latencies_of, get_bidder_performance,
  get_p95_latency,
}
use thenexusengine.Metrics.Redis.Reading.{p95_index}
use thenexusengine.Metrics.Redis.Percentile.{elem_at_within, length-sort_up}
use thenexusengine.Common.Sorting.{sort_up}
use thenexusengine.Metrics.Combination.{weigh, combine_metrics, historical_requests_of}
use thenexusengine.Metrics.Snapshot.{BidderMetricsSnapshot}
use thenexusengine.Metrics.Store.{
  RealTimeClient, HistoricalClient, MetricsStore, Formats, get_metrics,
}

-- The mock client's percentile is 150.0.
abbrev pub mock_p95 : Float
mock_p95 = 0x4062c00000000000

abbrev pub mock_redis : Arithmetic → RealTimeClient MockRedisClient
mock_redis ops = record {
  record_request = λ bidder hash e client. (MockRedis.record_request ops bidder e client).1;
  record_win = λ bidder hash win_cpm client. (MockRedis.record_win ops bidder win_cpm client).1;
  get_metrics = λ bidder hash client. MockRedis.get_metrics bidder client;
  get_p95_latency = λ bidder client. some mock_p95;
  get_all_bidder_metrics = MockRedis.get_all_bidder_metrics;
}

abbrev pub mock_timescale : Arithmetic → HistoricalClient MockTimescaleClient
mock_timescale ops = record {
  record_bid_event = λ event client. (Timescale.record_bid_event event client).1;
  get_bidder_performance = λ bidder filters client. get_bidder_performance ops bidder client;
  get_p95_latency = get_p95_latency ops;
  get_all_bidder_stats = Timescale.get_all_bidder_stats ops;
}

abbrev pub mock_store : Arithmetic → MetricsStore MockRedisClient MockTimescaleClient
mock_store ops = record { redis = some (mock_redis ops); timescale = some (mock_timescale ops) }

-- `int(n * 0.95)` of the length of a list that is not empty is a position of the list.
abbrev pub IsBelow : Arithmetic → Type 0
IsBelow ops = (n : ℕ) → 1 ≤ n → p95_index ops n < n

get_p95_latency_returns :
    (ops : Arithmetic)
    → IsBelow ops
    → (bidder : String) (client : MockTimescaleClient)
    → (v : Float) × (get_p95_latency ops bidder client ≡ some v)
unfolding get_p95_latency
get_p95_latency_returns ops below bidder client =
    let latencies = latencies_of (events_of bidder client) in
    elim (List-cases latencies) [
      | inl empty ↦ (0, rw (empty, get_p95_latency) refl)
      | inr (x, xs, are) ↦
          let within : p95_index ops (length (x ∷ xs)) < length (sort_up (x ∷ xs)) =
            ground (arith, length-sort_up (x ∷ xs), below (length (x ∷ xs)) (omega arith)) in
          let (v, at) =
            elem_at_within (sort_up (x ∷ xs)) (p95_index ops (length (x ∷ xs))) within in
          (v, rw (are, get_p95_latency) at)
    ]

historical_requests-mock :
    (ops : Arithmetic) (bidder : String) (client : MockTimescaleClient)
    → historical_requests_of (get_bidder_performance ops bidder client)
      ≡ length (events_of bidder client)
unfolding get_bidder_performance
historical_requests-mock ops bidder client = elim (List-cases (events_of bidder client)) [
  | inl empty ↦ rw (empty, get_bidder_performance) refl
  | inr (e, events, are) ↦ rw (are, get_bidder_performance) refl
]

total_requests-combine_metrics :
    (ops : Arithmetic) (bidder : String) (m : RealTimeMetrics)
    (historical : Option BidderPerformance) (p q : Float)
    → (combine_metrics ops bidder (some m) historical p q).total_requests
      ≡ m.requests + historical_requests_of historical
unfolding combine_metrics weigh
total_requests-combine_metrics ops bidder m historical p q = ground arith

-- If `int(n * 0.95)` is below n for every n from 1 on, the store with the two mock clients returns
-- metrics for every bidder where no request is given, and their number of requests is the number
-- counted in real time and that of the events of the bidder.
pub mock_store-get_metrics :
    (ops : Arithmetic)
    → IsBelow ops
    → (formats : Formats) (bidder : String) (redis : MockRedisClient)
      (timescale : MockTimescaleClient)
    → (s : BidderMetricsSnapshot) × (get_metrics formats
          (mock_store ops)
          ops
          bidder
          none
          (redis, timescale)
        ≡ some s)
      × (s.total_requests
          ≡ (MockRedis.get_metrics bidder redis).requests + length (events_of bidder timescale))
unfolding get_metrics
mock_store-get_metrics ops below formats bidder redis timescale =
    let m = MockRedis.get_metrics bidder redis in
    let p = get_bidder_performance ops bidder timescale in
    let (v, is) = get_p95_latency_returns ops below bidder timescale in
    (
      combine_metrics ops bidder (some m) p mock_p95 v,
      ap
          (λ (r : Option Float).
            (elim r as (λ _. Option (Option BidderPerformance × Float)) [
              | none ↦ none
              | some p95 ↦ some (p, p95)
            ])
            >>= λ past. some (combine_metrics ops bidder (some m) past.0 mock_p95 past.1))
          is,
      ground (
        arith,
        total_requests-combine_metrics ops bidder m p mock_p95 v,
        historical_requests-mock ops bidder timescale,
      ),
    )
