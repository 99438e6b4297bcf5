-- ===== src/Metrics/Tests.antt =====
-- A small Redis, an arithmetic on numbers, and the theorems on the metrics there.
use thenexusengine.Common.{
  ℕ, ◌+◌, ◌-◌, ◌*◌, ◌/◌, ◌≤◌, ◌≡◌, refl, String, true, false, ◌&&◌, none, some, List, [], ◌∷◌,
  if◌then◌else◌, ◌==◌, nat_eq, string_eq, arith,
}
use thenexusengine.Common.Dicts.{dict_set}
use thenexusengine.Scores.{Float, Arithmetic, IsArithmetic, f1}
use thenexusengine.Metrics.RealTime.{RealTimeMetrics, no_metrics, RequestEvent, truthy_float}
use thenexusengine.Metrics.MockRedis
use thenexusengine.Metrics.MockRedis.{init}
use thenexusengine.Metrics.Redis.{
  Commands, FloatText, with_rate, should_sample, count_request_in, add_recent, execute_request,
  record_request,
}
use thenexusengine.Metrics.Redis.Reading.{get_metrics, get_p95_latency, entry_values, last_part}
use thenexusengine.Metrics.Redis.Percentile.{IsPercentile, get_p95_latency-IsPercentile}
use thenexusengine.Metrics.Sampling.{
  Counter, requests, bids, AreHashes, Event, asked, rate_set, count_of, redis_run, redis_step,
  rate_after, mock_run, mock_step, sampled,
}
use thenexusengine.Metrics.Timescale.{BidderPerformance, MockTimescaleClient, new_mock, no_event}
use thenexusengine.Metrics.Snapshot.{BidderMetricsSnapshot}
use thenexusengine.Metrics.Store
use thenexusengine.Metrics.Store.{Formats}
use thenexusengine.Metrics.Clients.{IsBelow, mock_store, mock_store-get_metrics}
use thenexusengine.Metrics.Combination.{combine_metrics}
use thenexusengine.Metrics.Store.OneSource.{combine_metrics-historical}
use thenexusengine.Metrics.Sampling.Global.{global_count}
use thenexusengine.Metrics.Sampling.Agreement.{get_metrics-sampled, redis_run-bounded}

record Server : Type 0 where
  ints : String → String → ℕ
  floats : String → String → Float
  members : String → List String

abbrev commands : Commands Server
commands = record {
  hincrby = λ key field n s. record s {
    ints = λ k f. if key == k && field == f then s.ints k f + n else s.ints k f;
  };
  hincrbyfloat = λ key field v s. record s {
    floats = λ k f. if key == k && field == f then s.floats k f + v else s.floats k f;
  };
  expire = λ key ttl s. s;
  zadd = λ key member score s. record s {
    members = λ k. if key == k then member ∷ s.members k else s.members k;
  };
  zremrangebyscore = λ key score s. s;
  delete = λ key s. s;
  int_field = λ s k f. s.ints k f;
  float_field = λ s k f. s.floats k f;
  zrange = λ s k. s.members k;
  scan_iter = λ s keys. [];
}

commands-AreHashes : AreHashes commands
commands-AreHashes = record {
  int_hincrby = λ key field n s k f. refl;
  int_hincrbyfloat = λ key field v s k f h. refl;
  int_expire = λ key ttl s k f h. refl;
  int_zadd = λ key member score s k f h. refl;
  int_zremrangebyscore = λ key score s k f h. refl;
}

abbrev server : Server
server = record {
  ints = λ k f. 0;
  floats = λ k f. 0;
  members = λ k. "10.5:7" ∷ ("11:oops" ∷ ("12:9" ∷ []));
}

abbrev numbers : Arithmetic
numbers = record {
  add = ◌+◌;
  sub = ◌-◌;
  mul = λ a b. if b == f1 then a else if b == 0 then 0 else a * b;
  div = λ a b. if a == b then f1 else if a == 0 then 0 else a / b;
  of_nat = λ n. n;
  to_nat = λ n. n;
}

numbers-IsArithmetic : IsArithmetic numbers
numbers-IsArithmetic = record {
  add_zero = λ a fin. ground arith;
  zero_add = λ a fin. ground arith;
  mul_one = λ a fin. ground arith;
  mul_zero = λ a fin. ground arith;
  div_self = λ a fin le. ground arith;
  zero_div = λ a fin le. ground arith;
}

-- The texts "7" and "9" are numbers.
abbrev text : FloatText
text = record {
  show = λ v. "t";
  parse = λ s. if s == "7" then some 7 else if s == "9" then some 9 else none;
}

abbrev bid : RequestEvent
bid = record {
  latency_ms = 80;
  had_bid = true;
  bid_cpm = some 3;
  timed_out = false;
  had_error = false;
}

-- Two requests at the full rate, one that is skipped at the lower rate, and one that is not.
abbrev calls : List Event
calls =
    asked "ix" "c1" bid 5 100
    ∷ (asked "ix" "c2" bid 5 101
        ∷ (rate_set 0 ∷ (asked "ix" "c1" bid f1 102 ∷ (asked "ix" "c1" bid 0 103 ∷ []))))

get_metrics-sampled_example :
    let client = with_rate numbers f1 in
    let (last, after) = redis_run numbers commands text calls client server in
    count_of requests (get_metrics commands numbers text last "ix" none false after) ≡ 3
unfolding redis_run redis_step rate_after with_rate should_sample record_request execute_request
    count_request_in add_recent truthy_float get_metrics mock_run mock_step sampled
    MockRedis.get_metrics MockRedis.record_request MockRedis.count_request dict_set
get_metrics-sampled_example =
    get_metrics-sampled commands commands-AreHashes numbers text calls (with_rate numbers f1) server
      f1 false "ix" requests (λ b c. refl)

redis_run-bounded_example :
    let after = (redis_run numbers commands text calls (with_rate numbers f1) server).1 in
    let count : Counter → ℕ = λ c. global_count commands commands-AreHashes "ix" c after in
    (count bids ≤ count requests)
    × (count Counter.timeouts ≤ count requests)
    × (count Counter.errors ≤ count requests)
redis_run-bounded_example =
    redis_run-bounded commands commands-AreHashes numbers text calls (with_rate numbers f1) server
      "ix" (λ b c. refl)

get_p95_latency-IsPercentile_example :
    (v : Float) × (get_p95_latency commands numbers text "ix" server ≡ some v)
    × IsPercentile numbers (7 ∷ (9 ∷ [])) v
unfolding entry_values last_part
get_p95_latency-IsPercentile_example =
    get_p95_latency-IsPercentile commands numbers text "ix" server

-- Ten requests, four bids and two wins.
abbrev metrics : RealTimeMetrics
metrics = record (no_metrics "ix") {
  requests = 10;
  bids = 4;
  wins = 2;
  total_bid_value = 8;
  total_latency_ms = 900;
}

abbrev performance : BidderPerformance
performance = record {
  bidder_code = "ix";
  country = "";
  device_type = "";
  media_type = "";
  requests = 10;
  bids = 4;
  wins = 2;
  timeouts = 1;
  errors = 0;
  total_bid_value = 8;
  total_win_value = 0;
  total_latency_ms = 900;
  floor_clears = 3;
  floor_total = 3;
}

combine_metrics-historical_example :
    let s = combine_metrics numbers "ix" none (some performance) 0 150 in
    (s.win_rate ≡ 0)
    × (s.bid_rate ≡ 0)
    × (s.avg_cpm ≡ 2)
    × (s.floor_clearance_rate ≡ f1)
    × (s.avg_latency_ms ≡ 90)
    × (s.p95_latency_ms ≡ 150)
    × (s.timeout_rate ≡ 0)
    × (s.error_rate ≡ 0)
    × (s.total_requests ≡ 10)
combine_metrics-historical_example =
    combine_metrics-historical numbers numbers-IsArithmetic "ix" none performance 0 150 refl
      (omega arith)
      (
        (
          omega arith,
          (omega arith, (omega arith, (omega arith, (omega arith, (omega arith, tt))))),
        ),
        (omega arith, (omega arith, (omega arith, (omega arith, tt)))),
      )
      (omega arith) (omega arith)

abbrev formats : Formats
formats = record { md5_12 = λ t. t; attribute_text = λ r name. name }

-- A half in the place of 0.95.
abbrev halves : Arithmetic
halves = record numbers { mul = λ a b. a / 2 }

halves-IsBelow : IsBelow halves
halves-IsBelow n h = omega arith

abbrev recorded : MockTimescaleClient
recorded = record new_mock {
  events = record (no_event "a1" "ix") { latency_ms = some 80 } ∷ (no_event "a2" "sovrn" ∷ []);
}

mock_store-get_metrics_example :
    (s : BidderMetricsSnapshot) × (Store.get_metrics formats
        (mock_store halves)
        halves
        "ix"
        none
        (init f1, recorded)
      ≡ some s)
    × (s.total_requests ≡ 1)
unfolding MockRedis.get_metrics
mock_store-get_metrics_example =
    mock_store-get_metrics halves halves-IsBelow formats "ix" (init f1) recorded
