-- ===== src/Events/Model.antt =====
-- src/idr/database/event_pipeline.py: `EventType`, `AuctionEvent` and `PipelineStats`.
use thenexusengine.Common.{ℕ, String, Option, none}
use thenexusengine.Scores.{Float}

pub data EventType : Type 0 where
  bid_request bid_response win loss timeout error : EventType

-- A time is a number, of which only copies are made.
pub record AuctionEvent : Type 0 where
  pub event_type : EventType
  pub timestamp : ℕ
  pub auction_id : String
  pub bidder_code : String
  pub country : String
  pub device_type : String
  pub media_type : String
  pub ad_size : String
  pub publisher_id : String
  pub latency_ms : Option Float
  pub bid_cpm : Option Float
  pub win_cpm : Option Float
  pub floor_price : Option Float
  pub error_message : Option String

-- The counters. `avg_batch_size`, which is computed in floats and never tested, is left out.
pub record PipelineStats : Type 0 where
  pub events_received : ℕ
  pub events_processed : ℕ
  pub events_failed : ℕ
  pub batches_flushed : ℕ
  pub last_flush_time : Option ℕ
  pub queue_depth : ℕ

abbrev pub no_stats : PipelineStats
no_stats = record {
  events_received = 0;
  events_processed = 0;
  events_failed = 0;
  batches_flushed = 0;
  last_flush_time = none;
  queue_depth = 0;
}
