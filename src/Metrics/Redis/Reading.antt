-- ===== src/Metrics/Redis/Reading.antt =====
-- src/idr/database/redis_client.py: `RedisMetricsClient`, its reading of the metrics and `flush_bidder`.
use thenexusengine.Common.{
  ℕ, zero, suc, ◌-◌, String, Bool, true, Option, none, some, List, [], ◌∷◌, length, min, max,
  is_some, if◌then◌else◌, ◌==◌, nat_eq, string_eq,
}
use Prim.Native.Char.{code}
use thenexusengine.Common.Text.{is_empty}
use thenexusengine.Common.Dicts.{dict_set}
use thenexusengine.Common.Sorting.{sort_up}
use thenexusengine.Scores.{Float, Arithmetic, f1}
use thenexusengine.Metrics.RealTime.{RealTimeMetrics}
use thenexusengine.Metrics.Redis.{
  Commands, FloatText, RedisMetricsClient, context_key, global_key, latency_key, bids_key, wins_key,
}

abbrev pub f0_95 : Float
f0_95 = 0x3fee666666666666

-- `s.rsplit(":", 1)[1]`, if there is a colon.
unfoldable pub last_part : String → Option String
last_part String.[] = none
last_part (String.◌∷◌ c s) =
    let rest = last_part s in if is_some rest then rest else if code c == 58 then some s else none

-- `l[i]`, which raises `IndexError` where there is no such position.
unfoldable pub elem_at : List Float → ℕ → Option Float
elem_at [] i = none
elem_at (v ∷ vs) zero = some v
elem_at (v ∷ vs) (suc i) = elem_at vs i

unfoldable pub sum_of : Arithmetic → List Float → Float → Float
sum_of ops [] total = total
sum_of ops (v ∷ vs) total = sum_of ops vs (ops.add total v)

unfoldable pub max_of : Float → List Float → Float
max_of v [] = v
max_of v (w ∷ ws) = max_of (max v w) ws

unfoldable pub min_of : Float → List Float → Float
min_of v [] = v
min_of v (w ∷ ws) = min_of (min v w) ws

-- The value of an entry, after its last colon.
abbrev pub entry_value : FloatText → String → Option Float
entry_value text entry = elim (last_part entry) [ none ↦ none | some value ↦ text.parse value ]

-- The values of the entries. An entry without one is left out.
unfoldable pub entry_values : FloatText → List String → List Float
entry_values text [] = []
entry_values text (entry ∷ entries) = elim (entry_value text entry) [
  | none ↦ entry_values text entries
  | some value ↦ value ∷ entry_values text entries
]

abbrev pub p95_index : Arithmetic → ℕ → ℕ
p95_index ops n = ops.to_nat (ops.mul (ops.of_nat n) f0_95)

-- The 95th percentile of values, 0 where there is none.
unfoldable pub p95 : Arithmetic → List Float → Option Float
p95 ops [] = some 0
p95 ops (v ∷ vs) =
    let n = length (v ∷ vs) in elem_at (sort_up (v ∷ vs)) (min (p95_index ops n) (n - 1))

pub record BidStats : Type 0 where
  pub count : ℕ
  pub avg_cpm : Float
  pub max_cpm : Float
  pub min_cpm : Float

unfoldable pub bid_stats : Arithmetic → List Float → BidStats
bid_stats ops [] = record { count = 0; avg_cpm = 0; max_cpm = 0; min_cpm = 0 }
bid_stats ops (v ∷ vs) = record {
  count = length (v ∷ vs);
  avg_cpm = ops.div (sum_of ops (v ∷ vs) 0) (ops.of_nat (length (v ∷ vs)));
  max_cpm = max_of v vs;
  min_cpm = min_of v vs;
}

module _ {S : Type 0} (commands : Commands S) (ops : Arithmetic) (text : FloatText) where
  abbrev pub scaled : Float → ℕ → ℕ
  scaled scale n = ops.to_nat (ops.mul (ops.of_nat n) scale)

  abbrev pub metrics_key : String → Option String → String
  metrics_key bidder none = global_key bidder
  metrics_key bidder (some context_hash) =
      if is_empty context_hash then global_key bidder else context_key bidder context_hash

  abbrev pub scale_of : RedisMetricsClient → Bool → Float
  scale_of client extrapolate = if extrapolate then client.sample_multiplier else f1

  unfoldable pub get_metrics :
      RedisMetricsClient → String → Option String → Bool → S → RealTimeMetrics
  get_metrics client bidder context_hash extrapolate s =
      let key = metrics_key bidder context_hash in
      let scale = scale_of client extrapolate in
      record {
        bidder_code = bidder;
        requests = scaled scale (commands.int_field s key "requests");
        bids = scaled scale (commands.int_field s key "bids");
        wins = scaled scale (commands.int_field s key "wins");
        timeouts = scaled scale (commands.int_field s key "timeouts");
        errors = scaled scale (commands.int_field s key "errors");
        total_bid_value = ops.mul (commands.float_field s key "total_bid_value") scale;
        total_win_value = ops.mul (commands.float_field s key "total_win_value") scale;
        total_latency_ms = ops.mul (commands.float_field s key "total_latency_ms") scale;
      }

  unfoldable pub get_p95_latency : String → S → Option Float
  get_p95_latency bidder s = p95 ops (entry_values text (commands.zrange s (latency_key bidder)))

  unfoldable pub get_recent_bid_stats : String → S → BidStats
  get_recent_bid_stats bidder s =
      bid_stats ops (entry_values text (commands.zrange s (bids_key bidder)))

  -- `key.split(":")[-1]`
  abbrev pub bidder_of_key : String → String
  bidder_of_key key = elim (last_part key) [ none ↦ key | some bidder ↦ bidder ]

  unfoldable pub metrics_of_keys :
      RedisMetricsClient
      → List String
      → S
      → List (String × RealTimeMetrics)
      → List (String × RealTimeMetrics)
  metrics_of_keys client [] s results = results
  metrics_of_keys client (key ∷ keys) s results =
      let bidder = bidder_of_key key in
      metrics_of_keys client keys s
        (dict_set results bidder (get_metrics client bidder none true s))

  unfoldable pub get_all_bidder_metrics : RedisMetricsClient → S → List (String × RealTimeMetrics)
  get_all_bidder_metrics client s =
      metrics_of_keys client (commands.scan_iter s "idr:global:*") s []

  unfoldable pub delete_keys : List String → S → S
  delete_keys [] s = s
  delete_keys (key ∷ keys) s = delete_keys keys (commands.delete key s)

  -- The patterns are taken one after the other. The keys of a pattern are read before they are deleted.
  unfoldable pub delete_patterns : List String → S → S
  delete_patterns [] s = s
  delete_patterns (glob ∷ patterns) s =
      delete_patterns patterns (delete_keys (commands.scan_iter s glob) s)

  unfoldable pub flush_bidder : String → S → S
  flush_bidder bidder = delete_patterns (
      context_key bidder "*"
      ∷ (global_key bidder ∷ (latency_key bidder ∷ (bids_key bidder ∷ (wins_key bidder ∷ [])))))
