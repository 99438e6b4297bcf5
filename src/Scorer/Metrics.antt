-- ===== src/Scorer/Metrics.antt =====
-- src/idr/models/bidder_metrics.py and `RecentMetrics` of bidder_score.py: what the scorer reads of the performance
-- data, and the services that it asks.
use thenexusengine.Common.{ℕ, String, Option}
use thenexusengine.Scores.{Float}
use thenexusengine.Request.{ClassifiedRequest}
use thenexusengine.Metrics.Snapshot.{BidderMetricsSnapshot}
use thenexusengine.Scorer.LookupKey.{LookupKey}

pub record BidderMetrics : Type 0 where
  pub bidder_code : String
  pub bid_rate : Float
  pub win_rate : Float
  pub avg_cpm : Float
  pub floor_clearance_rate : Float
  pub p95_latency : Float
  pub sample_size : ℕ
  pub sample_size_confidence : Float

abbrev pub empty_metrics : String → BidderMetrics
empty_metrics bidder_code = record {
  bidder_code = bidder_code;
  bid_rate = 0;
  win_rate = 0;
  avg_cpm = 0;
  floor_clearance_rate = 0;
  p95_latency = 0;
  sample_size = 0;
  sample_size_confidence = 0;
}

pub record RecentMetrics : Type 0 where
  pub sample_size : ℕ
  pub win_rate : Float
  pub historical_win_rate : Float

abbrev pub no_recent_metrics : RecentMetrics
no_recent_metrics = record { sample_size = 0; win_rate = 0; historical_win_rate = 0 }

-- The two sources of the scorer, which ask services.
pub record PerformanceDb : Type 0 where
  pub get_bidder_metrics : String → LookupKey → BidderMetrics
  pub get_recent_metrics : String → LookupKey → RecentMetrics

-- `none` where the store raises.
pub record MetricsStore : Type 0 where
  pub get_metrics : String → ClassifiedRequest → Option BidderMetricsSnapshot
