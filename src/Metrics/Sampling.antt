-- ===== src/Metrics/Sampling.antt =====
-- src/idr/database/redis_client.py: what the two clients count of the same events, where the one with Redis
-- takes a sample.
pub mod Moves
pub mod Global
pub mod Mock
pub mod Agreement
use thenexusengine.Common.{
  ℕ, ◌+◌, ◌≡◌, String, Bool, true, false, ◌&&◌, List, [], ◌∷◌, if◌then◌else◌, ◌==◌, string_eq,
}
use thenexusengine.Scores.{Float, Arithmetic}
use thenexusengine.Metrics.RealTime.{RealTimeMetrics, RequestEvent}
use thenexusengine.Metrics.MockRedis
use thenexusengine.Metrics.MockRedis.{MockRedisClient}
use thenexusengine.Metrics.Redis.{
  Commands, FloatText, RedisMetricsClient, with_rate, should_sample, record_request, record_win,
}

pub data Counter : Type 0 where
  requests : Counter
  bids : Counter
  wins : Counter
  timeouts : Counter
  errors : Counter

abbrev pub field_of : Counter → String
field_of requests = "requests"
field_of bids = "bids"
field_of wins = "wins"
field_of timeouts = "timeouts"
field_of errors = "errors"

abbrev pub count_of : Counter → RealTimeMetrics → ℕ
count_of requests m = m.requests
count_of bids m = m.bids
count_of wins m = m.wins
count_of timeouts m = m.timeouts
count_of errors m = m.errors

-- How far an event moves a counter.
abbrev pub moved : Counter → RequestEvent → ℕ
moved requests e = 1
moved bids e = if e.had_bid then 1 else 0
moved wins e = 0
moved timeouts e = if e.timed_out then 1 else 0
moved errors e = if e.had_error then 1 else 0

abbrev pub moved_by_win : Counter → ℕ
moved_by_win wins = 1
moved_by_win c = 0

-- What Redis documents of the fields that are numbers: which command changes which.
pub record AreHashes {S : Type 0} (commands : Commands S) : Type 0 where
  pub int_hincrby :
      (key field : String) (n : ℕ) (s : S) (k f : String)
      → commands.int_field (commands.hincrby key field n s) k f ≡ (
          if key == k && field == f then commands.int_field s k f + n else commands.int_field s k f)
  pub int_hincrbyfloat :
      (key field : String) (v : Float) (s : S) (k f : String)
      → (field == f) ≡ false
      → commands.int_field (commands.hincrbyfloat key field v s) k f ≡ commands.int_field s k f
  pub int_expire :
      (key : String) (ttl : ℕ) (s : S) (k f : String)
      → (key == k) ≡ false
      → commands.int_field (commands.expire key ttl s) k f ≡ commands.int_field s k f
  pub int_zadd :
      (key member : String) (score : Float) (s : S) (k f : String)
      → (key == k) ≡ false
      → commands.int_field (commands.zadd key member score s) k f ≡ commands.int_field s k f
  pub int_zremrangebyscore :
      (key : String) (score : Float) (s : S) (k f : String)
      → (key == k) ≡ false
      → commands.int_field (commands.zremrangebyscore key score s) k f ≡ commands.int_field s k f

-- A call of a client, with what `random.random()` and the clock give: a request or a win of a bidder in
-- a context, or a change of the rate.
pub data Event : Type 0 where
  asked : String → String → RequestEvent → Float → Float → Event
  won : String → String → Float → Float → Float → Event
  rate_set : Float → Event

module _ (ops : Arithmetic) where
  unfoldable pub rate_after : Event → RedisMetricsClient → RedisMetricsClient
  rate_after (rate_set rate) client = with_rate ops rate
  rate_after _ client = client

  -- The events that the client with Redis does not skip.
  unfoldable pub sampled : RedisMetricsClient → List Event → List Event
  sampled client [] = []
  sampled client (asked bidder context e draw now ∷ events) =
      let rest = sampled client events in
      if should_sample client draw then asked bidder context e draw now ∷ rest else rest
  sampled client (won bidder context win_cpm draw now ∷ events) =
      let rest = sampled client events in
      if should_sample client draw then won bidder context win_cpm draw now ∷ rest else rest
  sampled client (rate_set rate ∷ events) = sampled (with_rate ops rate) events

  -- The mock client counts all events it is called with.
  unfoldable pub mock_step : Event → MockRedisClient → MockRedisClient
  mock_step (asked bidder context e draw now) mock = (MockRedis.record_request ops bidder e mock).1
  mock_step (won bidder context win_cpm draw now) mock =
      (MockRedis.record_win ops bidder win_cpm mock).1
  mock_step (rate_set rate) mock = MockRedis.set_sample_rate rate mock

  unfoldable pub mock_run : List Event → MockRedisClient → MockRedisClient
  mock_run [] mock = mock
  mock_run (event ∷ events) mock = mock_run events (mock_step event mock)

  module _ {S : Type 0} (commands : Commands S) (text : FloatText) where
    unfoldable pub redis_step : Event → RedisMetricsClient → S → S
    redis_step (asked bidder context e draw now) client s =
        (record_request commands ops text client bidder context e draw now s).1
    redis_step (won bidder context win_cpm draw now) client s =
        (record_win commands ops text client bidder context win_cpm draw now s).1
    redis_step (rate_set rate) client s = s

    -- The client and the server after the events.
    unfoldable pub redis_run : List Event → RedisMetricsClient → S → RedisMetricsClient × S
    redis_run [] client s = (client, s)
    redis_run (event ∷ events) client s =
        redis_run events (rate_after event client) (redis_step event client s)
