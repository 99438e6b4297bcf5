-- ===== src/Metrics/Store/OneSource.antt =====
-- src/idr/database/metrics_store.py: what `_combine_metrics` makes of the metrics of one source alone.
use thenexusengine.Common.{
  refl, ℕ, ◌+◌, ◌≤◌, ◌≡◌, ap, ◌∙◌, String, Option, some, [], ◌∷◌, All, nat_eq, arith,
}
use thenexusengine.Scores.{Float, Arithmetic, IsArithmetic, IsFinite, f1}
use thenexusengine.Metrics.RealTime
use thenexusengine.Metrics.RealTime.{RealTimeMetrics}
use thenexusengine.Metrics.Timescale
use thenexusengine.Metrics.Timescale.{BidderPerformance}
use thenexusengine.Metrics.Combination.{
  realtime_weight, historical_weight, realtime_requests_of, historical_requests_of, rate_of,
  weights_of, weigh, combine_metrics,
}

module _ (ops : Arithmetic) (laws : IsArithmetic ops) where
  weights_of-realtime : (n : ℕ) → 1 ≤ n → weights_of ops n 0 ≡ (f1, 0)
  unfolding weights_of
  weights_of-realtime n h = ground (
    arith,
    laws.add_zero realtime_weight (omega arith),
    laws.div_self realtime_weight (omega arith) (omega arith),
    laws.zero_div realtime_weight (omega arith) (omega arith),
  )

  weights_of-historical : (n : ℕ) → 1 ≤ n → weights_of ops 0 n ≡ (0, f1)
  unfolding weights_of
  weights_of-historical n h = ground (
    arith,
    laws.zero_add historical_weight (omega arith),
    laws.div_self historical_weight (omega arith) (omega arith),
    laws.zero_div historical_weight (omega arith) (omega arith),
  )

  weighted-first :
      (a b : Float) → IsFinite a → IsFinite b → ops.add (ops.mul a f1) (ops.mul b 0) ≡ a
  weighted-first a b fa fb = rw (laws.mul_one a fa, laws.mul_zero b fb) (laws.add_zero a fa)

  weighted-second :
      (a b : Float) → IsFinite a → IsFinite b → ops.add (ops.mul a 0) (ops.mul b f1) ≡ b
  weighted-second a b fa fb = rw (laws.mul_zero a fa, laws.mul_one b fb) (laws.zero_add b fb)

  combine_metrics-weigh :
      (bidder_code : String) (realtime : Option RealTimeMetrics)
      (historical : Option BidderPerformance) (rt_p95 hist_p95 : Float) (weights : Float × Float)
      → 1 ≤ realtime_requests_of realtime + historical_requests_of historical
      → weights_of ops (realtime_requests_of realtime) (historical_requests_of historical) ≡ weights
      → combine_metrics ops bidder_code realtime historical rt_p95 hist_p95
        ≡ weigh ops bidder_code realtime historical (rt_p95, hist_p95) weights
  unfolding combine_metrics
  combine_metrics-weigh bidder_code realtime historical rt_p95 hist_p95 weights some_requests are =
      ground (arith, ap (weigh ops bidder_code realtime historical (rt_p95, hist_p95)) are)

  -- The averages of a source are finite.
  abbrev pub AreFinite : Option RealTimeMetrics → Option BidderPerformance → Type 0
  AreFinite realtime historical =
      All IsFinite (
        rate_of (RealTime.win_rate ops) realtime
        ∷ (rate_of (RealTime.bid_rate ops) realtime
            ∷ (rate_of (RealTime.avg_bid_cpm ops) realtime
                ∷ (rate_of (RealTime.avg_latency_ms ops) realtime
                    ∷ (rate_of (RealTime.timeout_rate ops) realtime
                        ∷ (rate_of (RealTime.error_rate ops) realtime ∷ []))))))
      × All IsFinite (
          rate_of (Timescale.win_rate ops) historical
          ∷ (rate_of (Timescale.bid_rate ops) historical
              ∷ (rate_of (Timescale.avg_bid_cpm ops) historical
                  ∷ (rate_of (Timescale.avg_latency_ms ops) historical ∷ []))))

  -- Where the real-time metrics count requests and the past has none, the snapshot has the rates, the
  -- averages and the percentile of the real-time metrics as they are, if all averages are finite and
  -- zero and one compute as IEEE 754 says.
  pub combine_metrics-realtime :
      (bidder_code : String) (m : RealTimeMetrics) (historical : Option BidderPerformance)
      (rt_p95 hist_p95 : Float)
      → 1 ≤ m.requests
      → historical_requests_of historical ≡ 0
      → AreFinite (some m) historical
      → IsFinite rt_p95
      → IsFinite hist_p95
      → let s = combine_metrics ops bidder_code (some m) historical rt_p95 hist_p95 in
        (s.win_rate ≡ RealTime.win_rate ops m)
        × (s.bid_rate ≡ RealTime.bid_rate ops m)
        × (s.avg_cpm ≡ RealTime.avg_bid_cpm ops m)
        × (s.avg_latency_ms ≡ RealTime.avg_latency_ms ops m)
        × (s.p95_latency_ms ≡ rt_p95)
        × (s.timeout_rate ≡ RealTime.timeout_rate ops m)
        × (s.error_rate ≡ RealTime.error_rate ops m)
        × (s.total_requests ≡ m.requests)
  unfolding combine_metrics weigh
  combine_metrics-realtime bidder_code m historical rt_p95 hist_p95 some_requests none_past finite
        fp fq =
      let weights =
        ap (weights_of ops m.requests) none_past ∙ weights_of-realtime m.requests some_requests in
      let known =
        combine_metrics-weigh bidder_code (some m) historical rt_p95 hist_p95 (f1, 0) (ground arith)
          weights in
      let (rt, hist) = finite in
      let (win, (bid, (cpm, (latency, (timeout, (error, _)))))) = rt in
      let (hist_win, (hist_bid, (hist_cpm, (hist_latency, _)))) = hist in
      rw known (
        weighted-first _ _ win hist_win,
        weighted-first _ _ bid hist_bid,
        weighted-first _ _ cpm hist_cpm,
        weighted-first _ _ latency hist_latency,
        weighted-first _ _ fp fq,
        laws.mul_one _ timeout,
        laws.mul_one _ error,
        ground (arith, none_past),
      )

  -- Where the past has requests and the real-time metrics count none, the snapshot has the rates, the
  -- averages and the percentile of the past as they are, and its rates of timeouts and of errors are 0,
  -- if all averages are finite and zero and one compute as IEEE 754 says.
  pub combine_metrics-historical :
      (bidder_code : String) (realtime : Option RealTimeMetrics) (p : BidderPerformance)
      (rt_p95 hist_p95 : Float)
      → realtime_requests_of realtime ≡ 0
      → 1 ≤ p.requests
      → AreFinite realtime (some p)
      → IsFinite rt_p95
      → IsFinite hist_p95
      → let s = combine_metrics ops bidder_code realtime (some p) rt_p95 hist_p95 in
        (s.win_rate ≡ Timescale.win_rate ops p)
        × (s.bid_rate ≡ Timescale.bid_rate ops p)
        × (s.avg_cpm ≡ Timescale.avg_bid_cpm ops p)
        × (s.floor_clearance_rate ≡ Timescale.floor_clearance_rate ops p)
        × (s.avg_latency_ms ≡ Timescale.avg_latency_ms ops p)
        × (s.p95_latency_ms ≡ hist_p95)
        × (s.timeout_rate ≡ 0)
        × (s.error_rate ≡ 0)
        × (s.total_requests ≡ p.requests)
  unfolding combine_metrics weigh
  combine_metrics-historical bidder_code realtime p rt_p95 hist_p95 none_now some_requests finite fp
        fq =
      let weights =
        ap (λ n. weights_of ops n p.requests) none_now
        ∙ weights_of-historical p.requests some_requests in
      let known =
        combine_metrics-weigh bidder_code realtime (some p) rt_p95 hist_p95 (0, f1) (ground arith)
          weights in
      let (rt, hist) = finite in
      let (win, (bid, (cpm, (latency, (timeout, (error, _)))))) = rt in
      let (hist_win, (hist_bid, (hist_cpm, (hist_latency, _)))) = hist in
      rw known (
        weighted-second _ _ win hist_win,
        weighted-second _ _ bid hist_bid,
        weighted-second _ _ cpm hist_cpm,
        refl,
        weighted-second _ _ latency hist_latency,
        weighted-second _ _ fp fq,
        laws.mul_zero _ timeout,
        laws.mul_zero _ error,
        ground (arith, none_now),
      )
