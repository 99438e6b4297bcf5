-- ===== src/Metrics/Redis.antt =====
-- src/idr/database/redis_client.py: `RedisMetricsClient`, its recording of events. The commands of Redis are a
-- parameter, and so are the text of a float and the clock. The connection pool is left out.
pub mod Reading
pub mod Percentile
use thenexusengine.Common.{
  ℕ, String, Bool, true, false, Option, none, some, List, ltb, leb, min, max, if◌then◌else◌,
}
use thenexusengine.Common.Text.{concat}
use thenexusengine.Scores.{Float, Arithmetic, f1}
use thenexusengine.Metrics.RealTime.{RequestEvent, truthy_float}

-- The commands that the client sends, on a state of the server: on hashes, whose fields are read as
-- a number or as a float (0 if there is none), on sorted sets and on keys.
pub record Commands (S : Type 0) : Type 0 where
  pub hincrby : String → String → ℕ → S → S
  pub hincrbyfloat : String → String → Float → S → S
  pub expire : String → ℕ → S → S
  pub zadd : String → String → Float → S → S
  pub zremrangebyscore : String → Float → S → S
  pub delete : String → S → S
  pub int_field : S → String → String → ℕ
  pub float_field : S → String → String → Float
  pub zrange : S → String → List String
  pub scan_iter : S → String → List String

-- `str` of a float and `float` of a text, which raises `ValueError` where it is none.
pub record FloatText : Type 0 where
  pub show : Float → String
  pub parse : String → Option Float

pub record RedisMetricsClient : Type 0 where
  pub sample_rate : Float
  pub sample_multiplier : Float

abbrev pub f0_01 : Float
f0_01 = 0x3f847ae147ae147b

abbrev pub f300 : Float
f300 = 0x4072c00000000000

abbrev pub metrics_ttl : ℕ
metrics_ttl = 3600

abbrev pub context_key : String → String → String
context_key bidder context_hash = concat "idr:metrics:" (concat bidder (concat ":" context_hash))

abbrev pub global_key : String → String
global_key bidder = concat "idr:global:" bidder

abbrev pub latency_key : String → String
latency_key bidder = concat "idr:latency:" bidder

abbrev pub bids_key : String → String
bids_key bidder = concat "idr:bids:" bidder

abbrev pub wins_key : String → String
wins_key bidder = concat "idr:wins:" bidder

-- A rate within 1% and 100%, with its multiplier, as the constructor and `set_sample_rate` set them.
unfoldable pub with_rate : Arithmetic → Float → RedisMetricsClient
with_rate ops rate =
    let sample_rate = max f0_01 (min f1 rate) in
    record { sample_rate = sample_rate; sample_multiplier = ops.div f1 sample_rate }

-- `draw` is what `random.random()` gives.
unfoldable pub should_sample : RedisMetricsClient → Float → Bool
should_sample client draw = if leb f1 client.sample_rate then true else ltb draw client.sample_rate

module _ {S : Type 0} (commands : Commands S) where
  -- Where the bid has no price, or one of 0, its value is not counted.
  abbrev pub count_bid : String → Option Float → S → S
  count_bid key bid_cpm s =
      let counted = commands.hincrby key "bids" 1 s in
      elim (truthy_float bid_cpm) [
        | none ↦ counted
        | some cpm ↦ commands.hincrbyfloat key "total_bid_value" cpm counted
      ]

  -- The changes that `record_request` makes to the hash of a key.
  unfoldable pub count_request_in : String → RequestEvent → S → S
  count_request_in key e s =
      let asked = commands.hincrby key "requests" 1 s in
      let timed = commands.hincrbyfloat key "total_latency_ms" e.latency_ms asked in
      let bid = if e.had_bid then count_bid key e.bid_cpm timed else timed in
      let late = if e.timed_out then commands.hincrby key "timeouts" 1 bid else bid in
      if e.had_error then commands.hincrby key "errors" 1 late else late

  -- The changes that `record_win` makes to the hash of a key.
  unfoldable pub count_win_in : String → Float → S → S
  count_win_in key win_cpm s =
      commands.hincrbyfloat key "total_win_value" win_cpm (commands.hincrby key "wins" 1 s)

  module _ (ops : Arithmetic) (text : FloatText) where
    -- A value of now joins a sorted set, and those of five minutes ago and before leave it.
    unfoldable pub add_recent : String → Float → Float → S → S
    add_recent key now value s =
        commands.zremrangebyscore key (ops.sub now f300)
          (commands.zadd key (concat (text.show now) (concat ":" (text.show value))) now s)

    abbrev pub add_recent_bid : String → Float → Option Float → S → S
    add_recent_bid bidder now bid_cpm s = elim (truthy_float bid_cpm) [
      | none ↦ s
      | some cpm ↦ add_recent (bids_key bidder) now cpm s
    ]

    -- The pipeline of `record_request`, where the event is sampled.
    unfoldable pub execute_request : String → String → RequestEvent → Float → S → S
    execute_request bidder context_hash e now s =
        let key = context_key bidder context_hash in
        let counted =
          count_request_in (global_key bidder) e
            (commands.expire key metrics_ttl (count_request_in key e s)) in
        let timed = add_recent (latency_key bidder) now e.latency_ms counted in
        if e.had_bid then add_recent_bid bidder now e.bid_cpm timed else timed

    -- Whether the event was recorded, and the server after it.
    unfoldable pub record_request :
        RedisMetricsClient → String → String → RequestEvent → Float → Float → S → Bool × S
    record_request client bidder context_hash e draw now s =
        if should_sample client draw
        then (true, execute_request bidder context_hash e now s)
        else (false, s)

    unfoldable pub execute_win : String → String → Float → Float → S → S
    execute_win bidder context_hash win_cpm now s =
        let key = context_key bidder context_hash in
        add_recent (wins_key bidder) now win_cpm (
          count_win_in (global_key bidder) win_cpm
            (commands.expire key metrics_ttl (count_win_in key win_cpm s)))

    unfoldable pub record_win :
        RedisMetricsClient → String → String → Float → Float → Float → S → Bool × S
    record_win client bidder context_hash win_cpm draw now s =
        if should_sample client draw
        then (true, execute_win bidder context_hash win_cpm now s)
        else (false, s)
