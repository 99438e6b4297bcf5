-- ===== src/Metrics/RealTime.antt =====
-- src/idr/database/redis_client.py: `RealTimeMetrics`, and an event that is recorded.
use thenexusengine.Common.{ℕ, String, Bool, Option, none, some, ltb, if◌then◌else◌, ◌==◌, nat_eq}
use thenexusengine.Scores.{Float, Arithmetic}

pub record RealTimeMetrics : Type 0 where
  pub bidder_code : String
  pub requests : ℕ
  pub bids : ℕ
  pub wins : ℕ
  pub timeouts : ℕ
  pub errors : ℕ
  pub total_bid_value : Float
  pub total_win_value : Float
  pub total_latency_ms : Float

abbrev pub no_metrics : String → RealTimeMetrics
no_metrics bidder_code = record {
  bidder_code = bidder_code;
  requests = 0;
  bids = 0;
  wins = 0;
  timeouts = 0;
  errors = 0;
  total_bid_value = 0;
  total_win_value = 0;
  total_latency_ms = 0;
}

-- The arguments of `record_request` after the bidder and the context.
pub record RequestEvent : Type 0 where
  pub latency_ms : Float
  pub had_bid : Bool
  pub bid_cpm : Option Float
  pub timed_out : Bool
  pub had_error : Bool

-- A float, if it is there and not 0.
unfoldable pub truthy_float : Option Float → Option Float
truthy_float none = none
truthy_float (some v) = if v == 0 then none else some v

module _ (ops : Arithmetic) where
  -- `n / d if d > 0 else 0.0`, of two numbers, and of a float and a number.
  abbrev pub share : ℕ → ℕ → Float
  share n d = if ltb 0 d then ops.div (ops.of_nat n) (ops.of_nat d) else 0

  abbrev pub average : Float → ℕ → Float
  average total d = if ltb 0 d then ops.div total (ops.of_nat d) else 0

  abbrev pub bid_rate : RealTimeMetrics → Float
  bid_rate m = share m.bids m.requests

  abbrev pub win_rate : RealTimeMetrics → Float
  win_rate m = share m.wins m.bids

  abbrev pub avg_bid_cpm : RealTimeMetrics → Float
  avg_bid_cpm m = average m.total_bid_value m.bids

  abbrev pub avg_win_cpm : RealTimeMetrics → Float
  avg_win_cpm m = average m.total_win_value m.wins

  abbrev pub avg_latency_ms : RealTimeMetrics → Float
  avg_latency_ms m = average m.total_latency_ms m.requests

  abbrev pub timeout_rate : RealTimeMetrics → Float
  timeout_rate m = share m.timeouts m.requests

  abbrev pub error_rate : RealTimeMetrics → Float
  error_rate m = share m.errors m.requests
