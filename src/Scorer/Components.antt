-- ===== src/Scorer/Components.antt =====
-- src/idr/scorer/bidder_scorer.py: the component scores. A constant is its bit pattern.
use thenexusengine.Common.{
  ℕ, String, Option, none, some, List, filter, length, null, max, min, ltb, leb, is_some,
  if◌then◌else◌, string_eq, nat_eq,
}
use mathlib.Core.Option
use thenexusengine.Common.Members.{lookup}
use thenexusengine.Scores.{Float, Arithmetic, f1}
use thenexusengine.Metrics.Snapshot.{BidderMetricsSnapshot}
use thenexusengine.Scorer.Metrics.{RecentMetrics}
use thenexusengine.Scorer.Preferences.{id_preferences, default_id_preferences}

abbrev pub f0_5 : Float
f0_5 = 0x3fe0000000000000

abbrev pub f2 : Float
f2 = 0x4000000000000000

abbrev pub f4 : Float
f4 = 0x4010000000000000

abbrev pub f20 : Float
f20 = 0x4034000000000000

abbrev pub f24 : Float
f24 = 0x4038000000000000

abbrev pub f50 : Float
f50 = 0x4049000000000000

abbrev pub f75 : Float
f75 = 0x4052c00000000000

abbrev pub f100 : Float
f100 = 0x4059000000000000

abbrev pub f125 : Float
f125 = 0x405f400000000000

abbrev pub f500 : Float
f500 = 0x407f400000000000

abbrev pub min_sample_size : ℕ
min_sample_size = 100

module _ (ops : Arithmetic) where
  unfoldable pub score_win_rate : Float → Float
  score_win_rate win_rate = min f100 (ops.mul win_rate f500)

  unfoldable pub score_bid_rate : Float → Float
  score_bid_rate bid_rate = min f100 (ops.mul bid_rate f125)

  unfoldable pub score_avg_cpm : Float → Option Float → Float
  score_avg_cpm avg_cpm none = min f100 (ops.mul avg_cpm f20)
  score_avg_cpm avg_cpm (some floor_price) =
      if leb floor_price 0
      then min f100 (ops.mul avg_cpm f20)
      else if ltb avg_cpm floor_price
      then max 0 (ops.mul f50 (ops.div avg_cpm floor_price))
      else min f100
          (max 0 (ops.add f50 (ops.mul (ops.div (ops.sub avg_cpm floor_price) floor_price) f100)))

  unfoldable pub score_floor_clearance : Float → Float
  score_floor_clearance clearance_rate = ops.mul clearance_rate f100

  unfoldable pub score_latency : Float → Float
  score_latency p95_latency_ms =
      if leb p95_latency_ms f100
      then f100
      else if leb f500 p95_latency_ms
      then 0
      else ops.sub f100 (ops.div (ops.sub p95_latency_ms f100) f4)

  abbrev pub win_rate_trend : RecentMetrics → Float
  win_rate_trend m =
      if leb m.historical_win_rate 0 then f1 else ops.div m.win_rate m.historical_win_rate

  unfoldable pub score_recency : RecentMetrics → Float
  score_recency m =
      if ltb m.sample_size min_sample_size
      then f50
      else min f100 (max 0 (ops.mul f50 (max f0_5 (min f2 (win_rate_trend m)))))

  unfoldable pub score_recency_from_snapshot : BidderMetricsSnapshot → Float
  score_recency_from_snapshot s =
      if ltb s.total_requests min_sample_size
      then f50
      else if ltb 0 s.realtime_requests
      then ops.add f50 (
          ops.mul (ops.div (ops.of_nat s.realtime_requests) (ops.of_nat (max 1 s.total_requests)))
            f50)
      else if ltb 0 s.hours_since_last_bid
      then ops.sub f100 (ops.mul (ops.div (max 0 (min f24 s.hours_since_last_bid)) f24) f75)
      else f50

  unfoldable pub score_id_match : String → List (String × String) → Float
  score_id_match bidder_code user_ids =
      let preferred_ids =
        Option.get_or (lookup id_preferences bidder_code) default_id_preferences in
      if null preferred_ids
      then f50
      else if null user_ids
      then 0
      else let matches =
          length (filter (λ id_type. is_some (lookup user_ids id_type)) preferred_ids) in
        ops.mul (ops.div (ops.of_nat matches) (ops.of_nat (length preferred_ids))) f100
