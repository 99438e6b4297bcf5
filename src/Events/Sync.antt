-- ===== src/Events/Sync.antt =====
-- src/idr/database/event_pipeline.py: `SyncEventPipeline`, and the events that `submit_bid_response`
-- and `submit_win` make.
pub mod Laws
use thenexusengine.Common.{
  ℕ, ◌+◌, String, Bool, true, false, Option, none, some, List, [], ◌∷◌, if◌then◌else◌, ◌==◌,
  string_eq,
}
use thenexusengine.Scores.{Float}
use thenexusengine.Events.Model.{EventType, AuctionEvent, PipelineStats, no_stats}
use thenexusengine.Events.Keywords.{Field, binds}
use thenexusengine.Events.Process.{Outcome, returned, raised}

-- The arguments of `EventPipeline.submit_bid_response`.
pub record BidResponse : Type 0 where
  pub auction_id : String
  pub bidder_code : String
  pub had_bid : Bool
  pub latency_ms : Float
  pub bid_cpm : Option Float
  pub floor_price : Option Float
  pub country : String
  pub device_type : String
  pub media_type : String
  pub ad_size : String
  pub publisher_id : String
  pub timed_out : Bool
  pub error_message : Option String

-- `error_message` as a condition: None and the empty text are falsy.
abbrev pub has_error : BidResponse → Bool
has_error r = elim r.error_message [ none ↦ false | some m ↦ if m == "" then false else true ]

-- The event that `submit_bid_response` submits at the time `now`.
unfoldable pub response_event : ℕ → BidResponse → AuctionEvent
response_event now r = record {
  event_type =
      if r.timed_out
      then EventType.timeout
      else if has_error r
      then EventType.error
      else EventType.bid_response;
  timestamp = now;
  auction_id = r.auction_id;
  bidder_code = r.bidder_code;
  country = r.country;
  device_type = r.device_type;
  media_type = r.media_type;
  ad_size = r.ad_size;
  publisher_id = r.publisher_id;
  latency_ms = some r.latency_ms;
  bid_cpm = if r.had_bid then r.bid_cpm else none;
  win_cpm = none;
  floor_price = r.floor_price;
  error_message = r.error_message;
}

-- The arguments of `EventPipeline.submit_win`.
pub record Win : Type 0 where
  pub auction_id : String
  pub bidder_code : String
  pub win_cpm : Float
  pub country : String
  pub device_type : String
  pub media_type : String
  pub ad_size : String
  pub publisher_id : String

unfoldable pub win_event : ℕ → Win → AuctionEvent
win_event now w = record {
  event_type = EventType.win;
  timestamp = now;
  auction_id = w.auction_id;
  bidder_code = w.bidder_code;
  country = w.country;
  device_type = w.device_type;
  media_type = w.media_type;
  ad_size = w.ad_size;
  publisher_id = w.publisher_id;
  latency_ms = none;
  bid_cpm = none;
  win_cpm = some w.win_cpm;
  floor_price = none;
  error_message = none;
}

pub record SyncEventPipeline (S : Type 0) : Type 0 where
  pub stats : PipelineStats
  pub store : S

abbrev pub init : {S : Type 0} → S → SyncEventPipeline S
init s = record { stats = no_stats; store = s }

module _ {S : Type 0} (process : AuctionEvent → S → Outcome × S) where
  unfoldable pub submit : AuctionEvent → SyncEventPipeline S → Bool × SyncEventPipeline S
  submit event p =
      let received = record p.stats { events_received = p.stats.events_received + 1 } in
      let (outcome, store) = process event p.store in
      elim outcome [
        | returned ↦ (
          true,
          record {
            stats = record received { events_processed = received.events_processed + 1 };
            store = store;
          },
        )
        | raised ↦ (
          false,
          record {
            stats = record received { events_failed = received.events_failed + 1 };
            store = store;
          },
        )
      ]

  -- One call after the other, with their answers.
  unfoldable pub submit_all :
      List AuctionEvent → SyncEventPipeline S → List Bool × SyncEventPipeline S
  submit_all [] p = ([], p)
  submit_all (event ∷ events) p =
      let (answer, after) = submit event p in
      let (answers, last) = submit_all events after in (answer ∷ answers, last)

abbrev pub auction_event_fields : List Field
auction_event_fields =
    ("event_type", false)
    ∷ (("timestamp", false)
        ∷ (("auction_id", false)
            ∷ (("bidder_code", false)
                ∷ (("country", true)
                    ∷ (("device_type", true)
                        ∷ (("media_type", true)
                            ∷ (("ad_size", true)
                                ∷ (("publisher_id", true)
                                    ∷ (("latency_ms", true)
                                        ∷ (("bid_cpm", true)
                                            ∷ (("win_cpm", true)
                                                ∷ (("floor_price", true)
                                                    ∷ (("error_message", true) ∷ [])))))))))))))

-- Whether `AuctionEvent(event_type=…, timestamp=…, **kwargs)`, in `submit_bid_response` of
-- `SyncEventPipeline`, binds for the keywords of the call.
unfoldable pub sync_response_binds : List String → Bool
sync_response_binds keywords = binds auction_event_fields ("event_type" ∷ ("timestamp" ∷ keywords))
