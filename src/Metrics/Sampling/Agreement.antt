-- ===== src/Metrics/Sampling/Agreement.antt =====
-- src/idr/database/redis_client.py: that the client with Redis counts what the mock client counts of the
-- sampled events.
use thenexusengine.Common.{
  ◌≤◌, ◌≡◌, refl, ap, ◌∙◌, String, Bool, none, List, [], ◌∷◌, string_eq, arith, Bool-cases, inl,
  inr,
}
use thenexusengine.Scores.{Float, Arithmetic}
use thenexusengine.Metrics.RealTime.{RequestEvent}
use thenexusengine.Metrics.MockRedis
use thenexusengine.Metrics.MockRedis.{MockRedisClient, init}
use thenexusengine.Metrics.Redis.{
  Commands, FloatText, RedisMetricsClient, with_rate, should_sample, execute_request, execute_win,
  record_request, record_win,
}
use thenexusengine.Metrics.Redis.Reading.{get_metrics, scaled, scale_of}
use thenexusengine.Metrics.Sampling.{
  Counter, requests, bids, wins, timeouts, errors, count_of, AreHashes, Event, asked, won, rate_set,
  rate_after, sampled, mock_step, mock_run, redis_step, redis_run,
}
use thenexusengine.Metrics.Sampling.Global.{
  global_count, execute_request-global, execute_win-global,
}
use thenexusengine.Metrics.Sampling.Mock.{
  mock_count, record_request-count, record_win-count, mock_run-IsBounded, init-IsBounded,
}

module _ {S : Type 0} (commands : Commands S) (laws : AreHashes commands) (ops : Arithmetic)
    (text : FloatText) where
  Agrees : S → MockRedisClient → Type 0
  Agrees s mock =
      (b : String) (c : Counter) → global_count commands laws b c s ≡ mock_count b c mock

  request-Agrees :
      (bidder context : String) (e : RequestEvent) (now : Float) (s : S) (mock : MockRedisClient)
      → Agrees s mock
      → Agrees
          (execute_request commands ops text bidder context e now s)
          (MockRedis.record_request ops bidder e mock).1
  unfolding Agrees
  request-Agrees bidder context e now s mock agrees b c = ground (
    arith,
    execute_request-global commands laws ops text bidder context e now s b c,
    record_request-count ops bidder e mock b c,
    agrees b c,
  )

  win-Agrees :
      (bidder context : String) (cpm now : Float) (s : S) (mock : MockRedisClient)
      → Agrees s mock
      → Agrees
          (execute_win commands ops text bidder context cpm now s)
          (MockRedis.record_win ops bidder cpm mock).1
  unfolding Agrees
  win-Agrees bidder context cpm now s mock agrees b c = ground (
    arith,
    execute_win-global commands laws ops text bidder context cpm now s b c,
    record_win-count ops bidder cpm mock b c,
    agrees b c,
  )

  redis_run-Agrees :
      (events : List Event) (client : RedisMetricsClient) (s : S) (mock : MockRedisClient)
      → Agrees s mock
      → Agrees
          (redis_run ops commands text events client s).1
          (mock_run ops (sampled ops client events) mock)
  unfolding redis_run redis_step rate_after sampled mock_run mock_step record_request record_win
  redis_run-Agrees [] client s mock agrees = agrees
  redis_run-Agrees (asked bidder context e draw now ∷ events) client s mock agrees =
      elim (Bool-cases (should_sample client draw)) [
        | inl taken ↦
            rw (taken, redis_run, redis_step, record_request)
              (redis_run-Agrees events client _ _
                (request-Agrees bidder context e now s mock agrees))
        | inr skipped ↦
            rw (skipped, redis_run, redis_step, record_request)
              (redis_run-Agrees events client s mock agrees)
      ]
  redis_run-Agrees (won bidder context cpm draw now ∷ events) client s mock agrees =
      elim (Bool-cases (should_sample client draw)) [
        | inl taken ↦
            rw (taken, redis_run, redis_step, record_win)
              (redis_run-Agrees events client _ _ (win-Agrees bidder context cpm now s mock agrees))
        | inr skipped ↦
            rw (skipped, redis_run, redis_step, record_win)
              (redis_run-Agrees events client s mock agrees)
      ]
  redis_run-Agrees (rate_set rate ∷ events) client s mock agrees =
      redis_run-Agrees events (with_rate ops rate) s mock agrees

  -- Nothing is counted yet.
  abbrev pub IsEmpty : S → Type 0
  IsEmpty s = (b : String) (c : Counter) → global_count commands laws b c s ≡ 0

  init-Agrees : (rate : Float) (s : S) → IsEmpty s → Agrees s (init rate)
  unfolding Agrees MockRedis.get_metrics
  init-Agrees rate s empty b requests = empty b requests
  init-Agrees rate s empty b bids = empty b bids
  init-Agrees rate s empty b wins = empty b wins
  init-Agrees rate s empty b timeouts = empty b timeouts
  init-Agrees rate s empty b errors = empty b errors

  scaled_field :
      (c : Counter) (client : RedisMetricsClient) (extrapolate : Bool) (s : S) (b : String)
      → count_of c (get_metrics commands ops text client b none extrapolate s)
        ≡ scaled commands ops text
            (scale_of commands ops text client extrapolate)
            (global_count commands laws b c s)
  unfolding get_metrics
  scaled_field requests client extrapolate s b = refl
  scaled_field bids client extrapolate s b = refl
  scaled_field wins client extrapolate s b = refl
  scaled_field timeouts client extrapolate s b = refl
  scaled_field errors client extrapolate s b = refl

  -- After any calls of the client on an empty Redis whose commands do what Redis documents of them,
  -- with any draws and changes of the rate, each count in the global metrics of a bidder is the count
  -- of the mock client after the sampled calls alone, scaled by the multiplier of the last rate, or by
  -- 1.0 where it is not extrapolated.
  pub get_metrics-sampled :
      (events : List Event) (client : RedisMetricsClient) (s : S) (rate : Float)
      (extrapolate : Bool) (b : String) (c : Counter)
      → IsEmpty s
      → let (last, after) = redis_run ops commands text events client s in
        count_of c (get_metrics commands ops text last b none extrapolate after)
        ≡ scaled commands ops text
            (scale_of commands ops text last extrapolate)
            (mock_count b c (mock_run ops (sampled ops client events) (init rate)))
  unfolding get_metrics Agrees
  get_metrics-sampled events client s rate extrapolate b c empty =
      let (last, after) = redis_run ops commands text events client s in
      let agrees = redis_run-Agrees events client s (init rate) (init-Agrees rate s empty) in
      scaled_field c last extrapolate after b
      ∙ ap (scaled commands ops text (scale_of commands ops text last extrapolate)) (agrees b c)

  -- In every run of the client on an empty Redis whose commands do what Redis documents of them, with
  -- any draws and changes of the rate, no more bids, timeouts or errors of a bidder are counted in its
  -- global hash than requests.
  pub redis_run-bounded :
      (events : List Event) (client : RedisMetricsClient) (s : S) (b : String)
      → IsEmpty s
      → let after = (redis_run ops commands text events client s).1 in
        (global_count commands laws b bids after ≤ global_count commands laws b requests after)
        × (global_count commands laws b timeouts after
            ≤ global_count commands laws b requests after)
        × (global_count commands laws b errors after ≤ global_count commands laws b requests after)
  unfolding Agrees
  redis_run-bounded events client s b empty =
      let agrees = redis_run-Agrees events client s (init 0) (init-Agrees 0 s empty) b in
      let r = agrees requests in
      let bounded =
        mock_run-IsBounded ops (sampled ops client events) (init 0) b (init-IsBounded 0 b) in
      (
        ground (arith, r, agrees bids, bounded),
        ground (arith, r, agrees timeouts, bounded),
        ground (arith, r, agrees errors, bounded),
      )
