-- ===== src/Scorer/Tests.antt =====
-- The scorer on a small database, with numbers in the place of floats, and its theorems there.
use thenexusengine.Common.{
  ◌≡◌, refl, ◌+◌, ◌-◌, ◌*◌, ◌/◌, true, false, none, some, [], ◌∷◌, map, if◌then◌else◌, ◌==◌,
  string_eq, is_some,
}
use thenexusengine.Scores.{Arithmetic}
use thenexusengine.Request.{AdFormat, AdPosition, DeviceType, ClassifiedRequest}
use thenexusengine.Metrics.RealTime.{RequestEvent}
use thenexusengine.Metrics.Store.{MetricsStore, Formats, record_request, record_win, get_metrics}
use thenexusengine.Metrics.Store.Unusable.{
  classified_request_raises, asked_by_scorer, score_all_bidders_raises,
}
use thenexusengine.Scorer.LookupKey.{LookupKey, get_fallback_keys, key_text, to_redis_key, join}
use thenexusengine.Scorer.Metrics.{empty_metrics, no_recent_metrics, PerformanceDb}
use thenexusengine.Scorer.Score.{
  BidderScorer, weights_in, fetch_from, fetch_metrics_with_fallback, score_bidder,
  score_all_bidders,
}
use thenexusengine.Scorer.Fallback.{
  IsUsed, IfReturned, fetch_metrics_with_fallback-IsUsed, rank-score_all_bidders,
}

abbrev key : LookupKey
key = record {
  country = "DE";
  device_type = "mobile";
  ad_format = "banner";
  ad_size = some "300x250";
  publisher_id = some "p1";
}

key_tests :
    (key_text key ≡ "DE/mobile/banner/300x250/pub:p1")
    × (to_redis_key key "ix" ≡ "score:p1:DE:mobile:banner:300x250:ix")
    × (map key_text (get_fallback_keys key)
        ≡ "DE/mobile/banner/300x250/pub:p1"
          ∷ ("DE/mobile/banner/pub:p1" ∷ ("DE/mobile/banner/300x250" ∷ ("DE/mobile/banner" ∷ []))))
unfolding key_text to_redis_key get_fallback_keys join
key_tests = (refl, refl, refl)

-- There are samples for the global key with a size alone.
abbrev db : PerformanceDb
db = record {
  get_bidder_metrics = λ bidder_code k.
      if key_text k == "DE/mobile/banner/300x250"
      then record (empty_metrics bidder_code) { sample_size = 500 }
      else empty_metrics bidder_code;
  get_recent_metrics = λ bidder_code k. no_recent_metrics;
}

fetch_metrics_with_fallback-IsUsed_example :
    IsUsed db "ix" (get_fallback_keys key) 2 (record (empty_metrics "ix") { sample_size = 500 })
unfolding fetch_metrics_with_fallback fetch_from get_fallback_keys key_text join
fetch_metrics_with_fallback-IsUsed_example = fetch_metrics_with_fallback-IsUsed db "ix" key

abbrev numbers : Arithmetic
numbers = record { add = ◌+◌; sub = ◌-◌; mul = ◌*◌; div = ◌/◌; of_nat = λ n. n; to_nat = λ n. n }

abbrev scorer : BidderScorer
scorer = record {
  db = some db;
  metrics_store = none;
  weights =
      ("win_rate", 1)
      ∷ (("bid_rate", 1)
          ∷ (("cpm", 1)
              ∷ (("floor_clearance", 1)
                  ∷ (("latency", 1) ∷ (("recency", 1) ∷ (("id_match", 1) ∷ []))))));
}

abbrev request : ClassifiedRequest
request = record {
  impression_id = "1";
  ad_format = AdFormat.banner;
  ad_unit_id = "unit";
  ad_sizes = "300x250" ∷ [];
  position = AdPosition.atf;
  device_type = DeviceType.mobile;
  os = "ios";
  browser = "safari";
  connection_type = "wifi";
  country = "DE";
  region = "";
  dma = none;
  publisher_id = "p1";
  site_id = "site";
  domain = "example.com";
  page_type = none;
  categories = [];
  user_ids = ("uid2", "abc") ∷ [];
  has_consent = true;
  consent_string = none;
  consent_signals = none;
  timestamp = record { isoformat = "2024-01-01T10:00:00+00:00"; hour = 10; weekday = 0 };
  hour_of_day = 10;
  day_of_week = 0;
  floor_price = none;
  floor_currency = "USD";
}

rank-score_all_bidders_example :
    let scores = score_all_bidders numbers scorer ("criteo" ∷ ("sovrn" ∷ [])) request in
    (is_some scores ≡ true) × IfReturned numbers scorer request ("criteo" ∷ ("sovrn" ∷ [])) scores
unfolding weights_in
rank-score_all_bidders_example =
    rank-score_all_bidders numbers scorer ("criteo" ∷ ("sovrn" ∷ [])) request

-- A store without clients.
abbrev no_clients : MetricsStore Unit Unit
no_clients = record { redis = none; timescale = none }

abbrev formats : Formats
formats = record { md5_12 = λ t. t; attribute_text = λ r name. name }

abbrev event : RequestEvent
event = record {
  latency_ms = 1;
  had_bid = true;
  bid_cpm = none;
  timed_out = false;
  had_error = false;
}

classified_request_raises_example :
    (record_request formats no_clients "a1" "ix" request event none (tt, tt) ≡ (false, (tt, tt)))
    × (record_win formats no_clients "a1" "ix" request 2 (tt, tt) ≡ (false, (tt, tt)))
    × (get_metrics formats no_clients numbers "ix" (some request) (tt, tt) ≡ none)
classified_request_raises_example =
    classified_request_raises numbers formats no_clients "a1" "ix" request event none 2 (tt, tt)

score_all_bidders_raises_example :
    let with_store = record scorer {
      metrics_store = some (asked_by_scorer numbers formats no_clients (tt, tt));
    } in
    (score_bidder numbers with_store "ix" request none none ≡ none)
    × (score_all_bidders numbers with_store ("ix" ∷ []) request ≡ none)
score_all_bidders_raises_example =
    score_all_bidders_raises numbers formats no_clients scorer (tt, tt) "ix" [] request
