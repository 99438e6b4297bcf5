-- ===== src/Metrics/Store.antt =====
-- src/idr/database/metrics_store.py: `MetricsStore`. Its two clients are given by what they do on their states:
-- a client of redis_client.py and one of
-- timescale_client.py are such. A percentile that raises is `none`. MD5 and the text of an attribute in an f-string
-- are parameters.

pub mod OneSource
pub mod Unusable
use thenexusengine.Common.{
  ℕ, ◌+◌, String, Bool, true, false, Option, none, some, List, [], ◌∷◌, ◌++◌, map, ltb,
  if◌then◌else◌, ◌==◌, nat_eq, string_eq,
}
use thenexusengine.Common.Raising.{◌>>=◌}
use thenexusengine.Common.Text.{concat}
use thenexusengine.Common.Members.{contains, set_add}
use thenexusengine.Scores.{Float, Arithmetic}
use thenexusengine.Request.{ClassifiedRequest, ad_format_value, device_type_value}
use thenexusengine.Events.Keywords.{classified_request_fields}
use thenexusengine.Metrics.RealTime.{RealTimeMetrics, RequestEvent}
use thenexusengine.Metrics.Timescale.{BidderPerformance, BidEvent, no_event}
use thenexusengine.Metrics.Snapshot.{BidderMetricsSnapshot}
use thenexusengine.Metrics.Combination.{combine_metrics}

-- What the store asks of a client, the filters of the history being the country, the device and the media type.
pub record RealTimeClient (S : Type 0) : Type 0 where
  pub record_request : String → String → RequestEvent → S → S
  pub record_win : String → String → Float → S → S
  pub get_metrics : String → Option String → S → RealTimeMetrics
  pub get_p95_latency : String → S → Option Float
  pub get_all_bidder_metrics : S → List (String × RealTimeMetrics)

pub record HistoricalClient (T : Type 0) : Type 0 where
  pub record_bid_event : BidEvent → T → T
  pub get_bidder_performance :
      String → Option (String × (String × String)) → T → Option BidderPerformance
  pub get_p95_latency : String → T → Option Float
  pub get_all_bidder_stats : T → List (Option BidderPerformance)

pub record MetricsStore (S T : Type 0) : Type 0 where
  pub redis : Option (RealTimeClient S)
  pub timescale : Option (HistoricalClient T)

-- `hexdigest()[:12]` of the MD5, and an attribute's text.
pub record Formats : Type 0 where
  pub md5_12 : String → String
  pub attribute_text : ClassifiedRequest → String → String

-- The names that the class `ClassifiedRequest` gives its instances, less those that Python adds.
abbrev pub attributes : List String
attributes =
    map (λ f. f.0) classified_request_fields
    ++ "primary_ad_size"
      ∷ ("is_mobile"
          ∷ ("has_user_ids"
              ∷ ("gdpr_applies"
                  ∷ ("ccpa_applies" ∷ ("coppa_applies" ∷ ("can_personalize" ∷ ("to_dict" ∷ [])))))))

-- An attribute in a text. One that is not there raises `AttributeError`.
unfoldable pub attribute : Formats → ClassifiedRequest → String → Option String
attribute formats request name =
    if contains attributes name then some (formats.attribute_text request name) else none

unfoldable pub context_hash : Formats → ClassifiedRequest → Option String
context_hash formats request = do
  country ← attribute formats request "country"
  device_type ← attribute formats request "device_type"
  ad_format ← attribute formats request "ad_format"
  primary_size ← attribute formats request "primary_size"
  some (
      formats.md5_12 (
        concat country (
          concat ":"
            (concat device_type (concat ":" (concat ad_format (concat ":" primary_size)))))))

-- The elements of a set, in the order in which they come.
unfoldable pub distinct : List String → List String → List String
distinct [] elements = elements
distinct (b ∷ bidders) elements = distinct bidders (set_add elements b)

unfoldable pub codes_of : List (Option BidderPerformance) → Option (List String)
codes_of [] = some []
codes_of (none ∷ stats) = none
codes_of (some p ∷ stats) = do rest ← codes_of stats; some (p.bidder_code ∷ rest)

module _ (formats : Formats) {S T : Type 0} (store : MetricsStore S T) where
  -- Whether the call returned, and the two stores after it.
  unfoldable pub record_request :
      String → String → ClassifiedRequest → RequestEvent → Option Float → S × T → Bool × (S × T)
  record_request auction_id bidder_code request e floor_price (s, t) =
      elim (context_hash formats request) [
        | none ↦ (false, (s, t))
        | some hash ↦
            let recorded : S = elim store.redis [
              | none ↦ s
              | some redis ↦ redis.record_request bidder_code hash e s
            ] in
            elim store.timescale [
              | none ↦ (true, (recorded, t))
              | some timescale ↦ elim (attribute formats request "primary_size") [
                | none ↦ (false, (recorded, t))
                | some ad_size ↦
                    let event = record (no_event auction_id bidder_code) {
                      country = request.country;
                      device_type = device_type_value request.device_type;
                      media_type = ad_format_value request.ad_format;
                      ad_size = ad_size;
                      publisher_id = request.publisher_id;
                      had_bid = e.had_bid;
                      bid_cpm = e.bid_cpm;
                      latency_ms = some e.latency_ms;
                      timed_out = e.timed_out;
                      had_error = e.had_error;
                      floor_price = floor_price;
                    } in
                    (true, (recorded, timescale.record_bid_event event t))
              ]
            ]
      ]

  unfoldable pub record_win : String → String → ClassifiedRequest → Float → S × T → Bool × (S × T)
  record_win auction_id bidder_code request win_cpm (s, t) = elim (context_hash formats request) [
    | none ↦ (false, (s, t))
    | some hash ↦
        let recorded : S = elim store.redis [
          | none ↦ s
          | some redis ↦ redis.record_win bidder_code hash win_cpm s
        ] in
        let event = record (no_event (concat auction_id "-win") bidder_code) {
          country = request.country;
          device_type = device_type_value request.device_type;
          media_type = ad_format_value request.ad_format;
          won = true;
          win_cpm = some win_cpm;
        } in
        elim store.timescale [
          | none ↦ (true, (recorded, t))
          | some timescale ↦ (true, (recorded, timescale.record_bid_event event t))
        ]
  ]

  module _ (ops : Arithmetic) where
    -- The real-time metrics with their percentile, and the past ones with theirs.
    abbrev pub realtime_of : String → Option String → S → Option (Option RealTimeMetrics × Float)
    realtime_of bidder_code hash s = elim store.redis [
      | none ↦ some (none, 0)
      | some redis ↦ elim (redis.get_p95_latency bidder_code s) [
        | none ↦ none
        | some p95 ↦ some (some (redis.get_metrics bidder_code hash s), p95)
      ]
    ]

    abbrev pub historical_of :
        String → Option (String × (String × String)) → T → Option (Option BidderPerformance × Float)
    historical_of bidder_code filters t = elim store.timescale [
      | none ↦ some (none, 0)
      | some timescale ↦ elim (timescale.get_p95_latency bidder_code t) [
        | none ↦ none
        | some p95 ↦ some (timescale.get_bidder_performance bidder_code filters t, p95)
      ]
    ]

    abbrev pub metrics_in :
        String
        → Option String
        → Option (String × (String × String))
        → S × T
        → Option BidderMetricsSnapshot
    metrics_in bidder_code hash filters (s, t) = do
      realtime ← realtime_of bidder_code hash s
      historical ← historical_of bidder_code filters t
      some (combine_metrics ops bidder_code realtime.0 historical.0 realtime.1 historical.1)

    -- `none` is an exception.
    unfoldable pub get_metrics :
        String → Option ClassifiedRequest → S × T → Option BidderMetricsSnapshot
    get_metrics bidder_code none stores = metrics_in bidder_code none none stores
    get_metrics bidder_code (some request) stores = do
      hash ← context_hash formats request
      metrics_in bidder_code (some hash)
          (some (
            request.country,
            (device_type_value request.device_type, ad_format_value request.ad_format),
          ))
          stores

    -- The bidders that the two clients know. `None` among the stats of the past has no bidder, and
    -- raises `AttributeError`.
    abbrev pub bidders_of : S × T → Option (List String)
    bidders_of (s, t) =
        let realtime : List String = elim store.redis [
          | none ↦ []
          | some redis ↦ map (λ e. e.0) (redis.get_all_bidder_metrics s)
        ] in
        elim store.timescale [
          | none ↦ some (distinct realtime [])
          | some timescale ↦ do
            historical ← codes_of (timescale.get_all_bidder_stats t)
            some (distinct (realtime ++ historical) [])
        ]

    unfoldable pub snapshots_of :
        List String → S × T → Option (List (String × BidderMetricsSnapshot))
    snapshots_of [] stores = some []
    snapshots_of (bidder ∷ bidders) stores = do
      snapshot ← get_metrics bidder none stores
      rest ← snapshots_of bidders stores
      some ((bidder, snapshot) ∷ rest)

    unfoldable pub get_all_metrics : S × T → Option (List (String × BidderMetricsSnapshot))
    get_all_metrics stores = do bidders ← bidders_of stores; snapshots_of bidders stores
