-- ===== src/Metrics/MockRedis.antt =====
-- src/idr/database/redis_client.py: `MockRedisClient`, which serves where Redis cannot be reached.
use thenexusengine.Common.{
  ◌+◌, String, Bool, true, false, none, some, List, [], ◌∷◌, if◌then◌else◌, string_eq,
}
use mathlib.Core.Option
use thenexusengine.Common.Members.{lookup}
use thenexusengine.Common.Dicts.{dict_set, dict_del}
use thenexusengine.Common.Text.{concat, without_prefix}
use thenexusengine.Scores.{Float, Arithmetic}
use thenexusengine.Metrics.RealTime.{RealTimeMetrics, no_metrics, RequestEvent}

-- The counters of a key are modelled with the bidder's code, which `get_metrics` adds.
pub record MockRedisClient : Type 0 where
  pub counters : List (String × RealTimeMetrics)
  pub connected : Bool
  pub sample_rate : Float

abbrev pub init : Float → MockRedisClient
init sample_rate = record { counters = []; connected = true; sample_rate = sample_rate }

abbrev pub key_of : String → String
key_of bidder = concat "global:" bidder

unfoldable pub get_metrics : String → MockRedisClient → RealTimeMetrics
get_metrics bidder client =
    Option.get_or (lookup client.counters (key_of bidder)) (no_metrics bidder)

-- The change of a key's counters, which are made where there are none.
abbrev pub set_counters : String → RealTimeMetrics → MockRedisClient → MockRedisClient
set_counters bidder counters client = record client {
  counters = dict_set client.counters (key_of bidder) counters;
}

abbrev pub set_sample_rate : Float → MockRedisClient → MockRedisClient
set_sample_rate rate client = record client { sample_rate = rate }

abbrev pub close : MockRedisClient → MockRedisClient
close client = record client { connected = false }

unfoldable pub flush_bidder : String → MockRedisClient → MockRedisClient
flush_bidder bidder client = record client { counters = dict_del client.counters (key_of bidder) }

-- The bidder of each key, with its metrics.
unfoldable pub metrics_of_keys :
    List (String × RealTimeMetrics)
    → MockRedisClient
    → List (String × RealTimeMetrics)
    → List (String × RealTimeMetrics)
metrics_of_keys [] client results = results
metrics_of_keys ((key, counters) ∷ entries) client results = elim (without_prefix key "global:") [
  | none ↦ metrics_of_keys entries client results
  | some bidder ↦
      metrics_of_keys entries client (dict_set results bidder (get_metrics bidder client))
]

unfoldable pub get_all_bidder_metrics : MockRedisClient → List (String × RealTimeMetrics)
get_all_bidder_metrics client = metrics_of_keys client.counters client []

module _ (ops : Arithmetic) where
  unfoldable pub count_request : RequestEvent → RealTimeMetrics → RealTimeMetrics
  count_request e c = record c {
    requests = c.requests + 1;
    total_latency_ms = ops.add c.total_latency_ms e.latency_ms;
    bids = if e.had_bid then c.bids + 1 else c.bids;
    total_bid_value =
        if e.had_bid
        then ops.add c.total_bid_value (Option.get_or e.bid_cpm 0)
        else c.total_bid_value;
    timeouts = if e.timed_out then c.timeouts + 1 else c.timeouts;
    errors = if e.had_error then c.errors + 1 else c.errors;
  }

  unfoldable pub record_request : String → RequestEvent → MockRedisClient → Bool × MockRedisClient
  record_request bidder e client =
      (true, set_counters bidder (count_request e (get_metrics bidder client)) client)

  unfoldable pub count_win : Float → RealTimeMetrics → RealTimeMetrics
  count_win win_cpm c = record c {
    wins = c.wins + 1;
    total_win_value = ops.add c.total_win_value win_cpm;
  }

  unfoldable pub record_win : String → Float → MockRedisClient → Bool × MockRedisClient
  record_win bidder win_cpm client =
      (true, set_counters bidder (count_win win_cpm (get_metrics bidder client)) client)
