-- ===== src/Metrics/Combination.antt =====
-- src/idr/database/metrics_store.py: `_combine_metrics`, which weighs the real-time metrics and those of the past.
use thenexusengine.Common.{ℕ, ◌+◌, String, Option, none, some, ltb, if◌then◌else◌, ◌==◌, nat_eq}
use thenexusengine.Scores.{Float, Arithmetic}
use thenexusengine.Metrics.RealTime
use thenexusengine.Metrics.RealTime.{RealTimeMetrics}
use thenexusengine.Metrics.Timescale
use thenexusengine.Metrics.Timescale.{BidderPerformance}
use thenexusengine.Metrics.Snapshot.{BidderMetricsSnapshot, empty_snapshot}

-- The weights 0.6 and 0.4.
abbrev pub realtime_weight : Float
realtime_weight = 0x3fe3333333333333

abbrev pub historical_weight : Float
historical_weight = 0x3fd999999999999a

abbrev pub realtime_requests_of : Option RealTimeMetrics → ℕ
realtime_requests_of none = 0
realtime_requests_of (some m) = m.requests

abbrev pub historical_requests_of : Option BidderPerformance → ℕ
historical_requests_of none = 0
historical_requests_of (some p) = p.requests

-- `x.rate if x else 0`
abbrev pub rate_of : {A : Type 0} → (A → Float) → Option A → Float
rate_of f none = 0
rate_of f (some a) = f a

module _ (ops : Arithmetic) where
  -- The weights by the sources that have data, and their shares of the sum.
  unfoldable pub weights_of : ℕ → ℕ → Float × Float
  weights_of rt_requests hist_requests =
      let rt_weight = if ltb 0 rt_requests then realtime_weight else 0 in
      let hist_weight = if ltb 0 hist_requests then historical_weight else 0 in
      let total_weight = ops.add rt_weight hist_weight in
      if ltb 0 total_weight
      then (ops.div rt_weight total_weight, ops.div hist_weight total_weight)
      else (rt_weight, hist_weight)

  -- The snapshot by the weights.
  unfoldable pub weigh :
      String
      → Option RealTimeMetrics
      → Option BidderPerformance
      → Float × Float
      → Float × Float
      → BidderMetricsSnapshot
  weigh bidder_code realtime historical (rt_p95, hist_p95) (rt_weight, hist_weight) =
      let weighted : Float → Float → Float =
        λ rt hist. ops.add (ops.mul rt rt_weight) (ops.mul hist hist_weight) in
      record {
        bidder_code = bidder_code;
        win_rate =
            weighted (rate_of (RealTime.win_rate ops) realtime)
              (rate_of (Timescale.win_rate ops) historical);
        bid_rate =
            weighted (rate_of (RealTime.bid_rate ops) realtime)
              (rate_of (Timescale.bid_rate ops) historical);
        avg_cpm =
            weighted (rate_of (RealTime.avg_bid_cpm ops) realtime)
              (rate_of (Timescale.avg_bid_cpm ops) historical);
        floor_clearance_rate = rate_of (Timescale.floor_clearance_rate ops) historical;
        avg_latency_ms =
            weighted (rate_of (RealTime.avg_latency_ms ops) realtime)
              (rate_of (Timescale.avg_latency_ms ops) historical);
        p95_latency_ms = weighted rt_p95 hist_p95;
        total_requests = realtime_requests_of realtime + historical_requests_of historical;
        realtime_requests = realtime_requests_of realtime;
        historical_requests = historical_requests_of historical;
        hours_since_last_bid = 0;
        timeout_rate = ops.mul (rate_of (RealTime.timeout_rate ops) realtime) rt_weight;
        error_rate = ops.mul (rate_of (RealTime.error_rate ops) realtime) rt_weight;
      }

  unfoldable pub combine_metrics :
      String
      → Option RealTimeMetrics
      → Option BidderPerformance
      → Float
      → Float
      → BidderMetricsSnapshot
  combine_metrics bidder_code realtime historical rt_p95 hist_p95 =
      let rt_requests = realtime_requests_of realtime in
      let hist_requests = historical_requests_of historical in
      if rt_requests + hist_requests == 0
      then empty_snapshot bidder_code
      else weigh bidder_code realtime historical (rt_p95, hist_p95)
          (weights_of rt_requests hist_requests)
