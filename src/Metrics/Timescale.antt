-- ===== src/Metrics/Timescale.antt =====
-- src/idr/database/timescale_client.py: `BidderPerformance`, `TimescaleClient` and `MockTimescaleClient`. The
-- database is a parameter, and the clock is left out.
use thenexusengine.Common.{
  ℕ, String, Bool, true, false, Option, none, some, List, [], ◌∷◌, ◌++◌, map, filter, length, null,
  if◌then◌else◌, ◌==◌, string_eq,
}
use mathlib.Core.Option
use thenexusengine.Common.Text.{is_empty}
use thenexusengine.Common.Members.{set_add}
use thenexusengine.Common.Sorting.{sort_up}
use thenexusengine.Scores.{Float, Arithmetic}
use thenexusengine.Metrics.RealTime.{share, average, truthy_float}
use thenexusengine.Metrics.Redis.Reading.{elem_at, p95_index, sum_of}

pub record BidderPerformance : Type 0 where
  pub bidder_code : String
  pub country : String
  pub device_type : String
  pub media_type : String
  pub requests : ℕ
  pub bids : ℕ
  pub wins : ℕ
  pub timeouts : ℕ
  pub errors : ℕ
  pub total_bid_value : Float
  pub total_win_value : Float
  pub total_latency_ms : Float
  pub floor_clears : ℕ
  pub floor_total : ℕ

module _ (ops : Arithmetic) where
  abbrev pub bid_rate : BidderPerformance → Float
  bid_rate p = share ops p.bids p.requests

  abbrev pub win_rate : BidderPerformance → Float
  win_rate p = share ops p.wins p.bids

  abbrev pub avg_bid_cpm : BidderPerformance → Float
  avg_bid_cpm p = average ops p.total_bid_value p.bids

  abbrev pub avg_latency_ms : BidderPerformance → Float
  avg_latency_ms p = average ops p.total_latency_ms p.requests

  abbrev pub floor_clearance_rate : BidderPerformance → Float
  floor_clearance_rate p = share ops p.floor_clears p.floor_total

-- The arguments of `record_bid_event`, with the defaults of those that a call leaves out.
pub record BidEvent : Type 0 where
  pub auction_id : String
  pub bidder_code : String
  pub country : String
  pub device_type : String
  pub media_type : String
  pub ad_size : String
  pub publisher_id : String
  pub had_bid : Bool
  pub bid_cpm : Option Float
  pub won : Bool
  pub win_cpm : Option Float
  pub latency_ms : Option Float
  pub timed_out : Bool
  pub had_error : Bool
  pub floor_price : Option Float

abbrev pub no_event : String → String → BidEvent
no_event auction_id bidder_code = record {
  auction_id = auction_id;
  bidder_code = bidder_code;
  country = "";
  device_type = "";
  media_type = "";
  ad_size = "";
  publisher_id = "";
  had_bid = false;
  bid_cpm = none;
  won = false;
  win_cpm = none;
  latency_ms = none;
  timed_out = false;
  had_error = false;
  floor_price = none;
}

pub record MockTimescaleClient : Type 0 where
  pub events : List BidEvent
  pub connected : Bool

abbrev pub new_mock : MockTimescaleClient
new_mock = record { events = []; connected = true }

unfoldable pub record_bid_event : BidEvent → MockTimescaleClient → Bool × MockTimescaleClient
record_bid_event event client = (true, record client { events = client.events ++ event ∷ [] })

unfoldable pub record_batch_events : List BidEvent → MockTimescaleClient → ℕ × MockTimescaleClient
record_batch_events events client =
    (length events, record client { events = client.events ++ events })

abbrev pub events_of : String → MockTimescaleClient → List BidEvent
events_of bidder_code client = filter (λ e. e.bidder_code == bidder_code) client.events

-- `e.get(…, 0) or 0`
abbrev pub value_or_0 : Option Float → Float
value_or_0 v = Option.get_or v 0

unfoldable pub get_bidder_performance :
    Arithmetic → String → MockTimescaleClient → Option BidderPerformance
get_bidder_performance ops bidder_code client =
    let events = events_of bidder_code client in
    let with_bid = filter (λ e. e.had_bid) events in
    if null events
    then none
    else some (record {
      bidder_code = bidder_code;
      country = "";
      device_type = "";
      media_type = "";
      requests = length events;
      bids = length with_bid;
      wins = length (filter (λ e. e.won) events);
      timeouts = 0;
      errors = 0;
      total_bid_value = sum_of ops (map (λ e. value_or_0 e.bid_cpm) with_bid) 0;
      total_win_value = 0;
      total_latency_ms = sum_of ops (map (λ e. value_or_0 e.latency_ms) events) 0;
      floor_clears = 0;
      floor_total = 0;
    })

-- The latencies that are there and not 0.
unfoldable pub latencies_of : List BidEvent → List Float
latencies_of [] = []
latencies_of (e ∷ events) = elim (truthy_float e.latency_ms) [
  | none ↦ latencies_of events
  | some latency ↦ latency ∷ latencies_of events
]

-- The position is not limited here, and none is where `IndexError` is raised.
unfoldable pub get_p95_latency : Arithmetic → String → MockTimescaleClient → Option Float
get_p95_latency ops bidder_code client =
    let latencies = latencies_of (events_of bidder_code client) in
    if null latencies
    then some 0
    else elem_at (sort_up latencies) (p95_index ops (length latencies))

-- The set of the bidders, in the order in which they come first.
unfoldable pub bidders_in : List BidEvent → List String → List String
bidders_in [] bidders = bidders
bidders_in (e ∷ events) bidders = bidders_in events (set_add bidders e.bidder_code)

-- What the rows of a set's bidders are, those that are not empty.
unfoldable pub stats_of :
    Arithmetic → List String → MockTimescaleClient → List (Option BidderPerformance)
stats_of ops [] client = []
stats_of ops (b ∷ bidders) client =
    let rest = stats_of ops bidders client in
    if is_empty b then rest else get_bidder_performance ops b client ∷ rest

unfoldable pub get_all_bidder_stats :
    Arithmetic → MockTimescaleClient → List (Option BidderPerformance)
get_all_bidder_stats ops client = stats_of ops (bidders_in client.events []) client
