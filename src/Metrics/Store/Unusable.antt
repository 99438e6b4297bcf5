-- ===== src/Metrics/Store/Unusable.antt =====
-- src/idr/database/metrics_store.py and src/idr/scorer/bidder_scorer.py: what the store does with a request. It reads the
-- attribute `primary_size`, which `ClassifiedRequest` does not have.
use thenexusengine.Common.{◌≡◌, refl, String, false, Option, none, some, List, ◌∷◌}
use thenexusengine.Scores.{Float, Arithmetic}
use thenexusengine.Request.{ClassifiedRequest}
use thenexusengine.Metrics.RealTime.{RequestEvent}
use thenexusengine.Metrics.Store.{
  MetricsStore, Formats, attribute, context_hash, record_request, record_win, get_metrics,
}
use thenexusengine.Scorer.Metrics
use thenexusengine.Scorer.Score.{
  BidderScorer, score_bidder, score_from_metrics_store, scores_of, score_all_bidders,
}

context_hash_raises :
    (formats : Formats) (request : ClassifiedRequest) → context_hash formats request ≡ none
unfolding context_hash attribute
context_hash_raises formats request = refl

module _ (ops : Arithmetic) (formats : Formats) {S T : Type 0} (store : MetricsStore S T) where
  -- Every call of the store with a classified request raises, and neither client is called: no
  -- request and no win is recorded, and no metrics are returned.
  pub classified_request_raises :
      (auction_id bidder_code : String) (request : ClassifiedRequest) (e : RequestEvent)
      (floor_price : Option Float) (win_cpm : Float) (stores : S × T)
      → (record_request formats store auction_id bidder_code request e floor_price stores
          ≡ (false, stores))
        × (record_win formats store auction_id bidder_code request win_cpm stores ≡ (false, stores))
        × (get_metrics formats store ops bidder_code (some request) stores ≡ none)
  unfolding record_request record_win get_metrics
  classified_request_raises auction_id bidder_code request e floor_price win_cpm (s, t) =
      let raises = context_hash_raises formats request in
      (
        rw (raises, record_request) refl,
        rw (raises, record_win) refl,
        rw (raises, get_metrics) refl,
      )

  -- The store as the scorer asks it.
  abbrev pub asked_by_scorer : S × T → Metrics.MetricsStore
  asked_by_scorer stores = record {
    get_metrics =
        λ bidder_code request. get_metrics formats store ops bidder_code (some request) stores;
  }

  -- A scorer that is given the metrics store scores no bidder: `score_bidder` raises for every bidder
  -- without metrics of its own, and so does `score_all_bidders` for every list that is not empty.
  pub score_all_bidders_raises :
      (self : BidderScorer) (stores : S × T) (bidder_code : String) (codes : List String)
      (request : ClassifiedRequest)
      → let scorer = record self { metrics_store = some (asked_by_scorer stores) } in
        (score_bidder ops scorer bidder_code request none none ≡ none)
        × (score_all_bidders ops scorer (bidder_code ∷ codes) request ≡ none)
  unfolding score_bidder score_from_metrics_store scores_of score_all_bidders get_metrics
  score_all_bidders_raises self stores bidder_code codes request =
      let raises = context_hash_raises formats request in
      (rw (raises, get_metrics) refl, rw (raises, get_metrics) refl)
