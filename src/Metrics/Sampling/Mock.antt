-- ===== src/Metrics/Sampling/Mock.antt =====
-- src/idr/database/redis_client.py: what one event changes of the counters of the mock client, and that in
-- every run no more bids, timeouts or errors are counted than requests.
use thenexusengine.Common.{
  ℕ, ◌+◌, ◌≤◌, ◌≡◌, refl, ap, String, List, [], ◌∷◌, if◌then◌else◌, ◌==◌, string_eq, arith,
  Bool-cases, inl, inr,
}
use thenexusengine.Common.Text.Beginnings.{concat-equal}
use thenexusengine.Common.Members.{eq_of_beq}
use thenexusengine.Common.Dicts.{lookup-dict_set}
use thenexusengine.Scores.{Float, Arithmetic}
use thenexusengine.Metrics.RealTime.{RealTimeMetrics, RequestEvent}
use thenexusengine.Metrics.MockRedis
use thenexusengine.Metrics.MockRedis.{
  MockRedisClient, init, key_of, get_metrics, set_counters, count_request, count_win,
}
use thenexusengine.Metrics.Sampling.{
  Counter, requests, bids, wins, timeouts, errors, count_of, moved, moved_by_win, Event, asked, won,
  rate_set, mock_step, mock_run,
}

abbrev pub mock_count : String → Counter → MockRedisClient → ℕ
mock_count bidder c mock = count_of c (get_metrics bidder mock)

get_metrics-set_counters :
    (bidder : String) (counters : RealTimeMetrics) (mock : MockRedisClient) (b : String)
    → get_metrics b (set_counters bidder counters mock)
      ≡ (if bidder == b then counters else get_metrics b mock)
unfolding get_metrics
get_metrics-set_counters bidder counters mock b = ground (
  arith,
  lookup-dict_set mock.counters (key_of bidder) counters (key_of b),
  concat-equal "global:" bidder b,
)

-- No more bids, timeouts or errors than requests.
abbrev pub IsBounded : RealTimeMetrics → Type 0
IsBounded m = (m.bids ≤ m.requests) × (m.timeouts ≤ m.requests) × (m.errors ≤ m.requests)

module _ (ops : Arithmetic) where
  count_request-count :
      (e : RequestEvent) (m : RealTimeMetrics) (c : Counter)
      → count_of c (count_request ops e m) ≡ count_of c m + moved c e
  unfolding count_request
  count_request-count e m requests = refl
  count_request-count e m bids = ground arith
  count_request-count e m wins = omega arith
  count_request-count e m timeouts = ground arith
  count_request-count e m errors = ground arith

  count_win-count :
      (cpm : Float) (m : RealTimeMetrics) (c : Counter)
      → count_of c (count_win ops cpm m) ≡ count_of c m + moved_by_win c
  unfolding count_win
  count_win-count cpm m requests = omega arith
  count_win-count cpm m bids = omega arith
  count_win-count cpm m wins = refl
  count_win-count cpm m timeouts = omega arith
  count_win-count cpm m errors = omega arith

  pub record_request-count :
      (bidder : String) (e : RequestEvent) (mock : MockRedisClient) (b : String) (c : Counter)
      → mock_count b c (MockRedis.record_request ops bidder e mock).1
        ≡ (if bidder == b then mock_count b c mock + moved c e else mock_count b c mock)
  unfolding MockRedis.record_request
  record_request-count bidder e mock b c =
      let after = count_request ops e (get_metrics bidder mock) in
      let here = ap (count_of c) (get_metrics-set_counters bidder after mock b) in
      elim (Bool-cases (bidder == b)) [
        | inl same ↦
            let back = ap (λ x. count_of c (get_metrics x mock)) (eq_of_beq bidder b same) in
            ground (arith, here, count_request-count e (get_metrics bidder mock) c)
        | inr other ↦ ground (arith, here)
      ]

  pub record_win-count :
      (bidder : String) (cpm : Float) (mock : MockRedisClient) (b : String) (c : Counter)
      → mock_count b c (MockRedis.record_win ops bidder cpm mock).1
        ≡ (if bidder == b then mock_count b c mock + moved_by_win c else mock_count b c mock)
  unfolding MockRedis.record_win
  record_win-count bidder cpm mock b c =
      let after = count_win ops cpm (get_metrics bidder mock) in
      let here = ap (count_of c) (get_metrics-set_counters bidder after mock b) in
      elim (Bool-cases (bidder == b)) [
        | inl same ↦
            let back = ap (λ x. count_of c (get_metrics x mock)) (eq_of_beq bidder b same) in
            ground (arith, here, count_win-count cpm (get_metrics bidder mock) c)
        | inr other ↦ ground (arith, here)
      ]

  moved-le : (e : RequestEvent) → (moved bids e ≤ 1) × (moved timeouts e ≤ 1) × (moved errors e ≤ 1)
  moved-le e = (ground arith, ground arith, ground arith)

  mock_step-IsBounded :
      (event : Event) (mock : MockRedisClient) (b : String)
      → IsBounded (get_metrics b mock)
      → IsBounded (get_metrics b (mock_step ops event mock))
  unfolding mock_step get_metrics
  mock_step-IsBounded (asked bidder context e draw now) mock b bounded =
      let le = moved-le e in
      let count = record_request-count bidder e mock b in
      let r = count requests in
      (
        ground (arith, r, count bids),
        ground (arith, r, count timeouts),
        ground (arith, r, count errors),
      )
  mock_step-IsBounded (won bidder context cpm draw now) mock b bounded =
      let count = record_win-count bidder cpm mock b in
      let r = count requests in
      (
        ground (arith, r, count bids),
        ground (arith, r, count timeouts),
        ground (arith, r, count errors),
      )
  mock_step-IsBounded (rate_set rate) mock b bounded = bounded

  pub mock_run-IsBounded :
      (events : List Event) (mock : MockRedisClient) (b : String)
      → IsBounded (get_metrics b mock)
      → IsBounded (get_metrics b (mock_run ops events mock))
  unfolding mock_run
  mock_run-IsBounded [] mock b bounded = bounded
  mock_run-IsBounded (event ∷ events) mock b bounded =
      mock_run-IsBounded events (mock_step ops event mock) b
        (mock_step-IsBounded event mock b bounded)

pub init-IsBounded : (rate : Float) (b : String) → IsBounded (get_metrics b (init rate))
unfolding get_metrics
init-IsBounded rate b = ground arith
