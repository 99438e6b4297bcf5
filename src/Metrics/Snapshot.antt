-- ===== src/Metrics/Snapshot.antt =====
-- src/idr/database/metrics_store.py: `BidderMetricsSnapshot`. Its time is left out.
use thenexusengine.Common.{ℕ, String, Bool, leb, if◌then◌else◌}
use thenexusengine.Scores.{Float, f1}

pub record BidderMetricsSnapshot : Type 0 where
  pub bidder_code : String
  pub win_rate : Float
  pub bid_rate : Float
  pub avg_cpm : Float
  pub floor_clearance_rate : Float
  pub avg_latency_ms : Float
  pub p95_latency_ms : Float
  pub total_requests : ℕ
  pub realtime_requests : ℕ
  pub historical_requests : ℕ
  pub hours_since_last_bid : Float
  pub timeout_rate : Float
  pub error_rate : Float

abbrev pub empty_snapshot : String → BidderMetricsSnapshot
empty_snapshot bidder_code = record {
  bidder_code = bidder_code;
  win_rate = 0;
  bid_rate = 0;
  avg_cpm = 0;
  floor_clearance_rate = 0;
  avg_latency_ms = 0;
  p95_latency_ms = 0;
  total_requests = 0;
  realtime_requests = 0;
  historical_requests = 0;
  hours_since_last_bid = 0;
  timeout_rate = 0;
  error_rate = 0;
}

unfoldable pub has_sufficient_data : BidderMetricsSnapshot → Bool
has_sufficient_data s = leb 100 s.total_requests

-- 0.9, 0.7, 0.4 and 0.1 as bit patterns.
abbrev pub confidence : BidderMetricsSnapshot → Float
confidence s =
    if leb 10000 s.total_requests
    then f1
    else if leb 1000 s.total_requests
    then 0x3feccccccccccccd
    else if leb 100 s.total_requests
    then 0x3fe6666666666666
    else if leb 10 s.total_requests
    then 0x3fd999999999999a
    else 0x3fb999999999999a
