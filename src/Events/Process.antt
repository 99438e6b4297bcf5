-- ===== src/Events/Process.antt =====
-- src/idr/database/event_pipeline.py: `_process_event` and `_process_batch`.
use thenexusengine.Common.{
  ℕ, ◌+◌, Bool, true, false, Option, none, some, List, [], ◌∷◌, length, is_some, if◌then◌else◌,
}
use mathlib.Core.Option
use thenexusengine.Scores.{Float}
use thenexusengine.Events.Model.{EventType, AuctionEvent, PipelineStats}
use thenexusengine.Events.Keywords.{binds, classified_request_fields, request_keywords}

pub data Outcome : Type 0 where
  returned raised : Outcome

-- The calls of the metrics store that `_process_event` makes, on the store's state `S`. They take
-- the arguments of the call; the request is the one that was built from the event.
pub record MetricsStore (S : Type 0) : Type 0 where
  pub record_win : AuctionEvent → Float → S → Outcome × S
  pub record_request : AuctionEvent → Float → Bool → Bool → Bool → S → Outcome × S

abbrev is_timeout : EventType → Bool
is_timeout EventType.timeout = true
is_timeout _ = false

abbrev is_error : EventType → Bool
is_error EventType.error = true
is_error _ = false

-- The branches on the event's type, after the request was built.
unfoldable pub record_event : {S : Type 0} → MetricsStore S → AuctionEvent → S → Outcome × S
record_event store event s = elim event.event_type [
  | EventType.win ↦ elim event.win_cpm [
    | none ↦ (returned, s)
    | some win_cpm ↦ store.record_win event win_cpm s
  ]
  | event_type ↦
      store.record_request event (Option.get_or event.latency_ms 0) (is_some event.bid_cpm)
        (is_timeout event_type) (is_error event_type) s
]

unfoldable pub process_event : {S : Type 0} → MetricsStore S → AuctionEvent → S → Outcome × S
process_event store event s =
    if binds classified_request_fields request_keywords
    then record_event store event s
    else (raised, s)

-- The rest of the file takes the function that processes one event.
module _ {S : Type 0} (process : AuctionEvent → S → Outcome × S) where
  -- `for event in batch: self._process_event(event)`, which an exception ends.
  unfoldable pub process_events : List AuctionEvent → S → Outcome × S
  process_events [] s = (returned, s)
  process_events (event ∷ batch) s =
      let rest = process_events batch (process event s).1 in
      elim (process event s).0 [ returned ↦ rest | raised ↦ (raised, (process event s).1) ]

-- The counters after a batch of `n` events that was processed at the time `now`.
abbrev pub count_processed : ℕ → ℕ → PipelineStats → PipelineStats
count_processed n now stats = record stats {
  events_processed = stats.events_processed + n;
  batches_flushed = stats.batches_flushed + 1;
  last_flush_time = some now;
}

abbrev pub count_failed : ℕ → PipelineStats → PipelineStats
count_failed n stats = record stats { events_failed = stats.events_failed + n }

-- `on_error`, as whether a call of it on the batch returns; without one the error is printed.
abbrev pub OnError : Type 0
OnError = Option (List AuctionEvent → Outcome)

abbrev pub report : OnError → List AuctionEvent → Outcome
report none batch = returned
report (some on_error) batch = on_error batch

pub record Processed (S : Type 0) : Type 0 where
  pub outcome : Outcome
  pub stats : PipelineStats
  pub store : S

unfoldable pub process_batch :
    {S : Type 0}
    → (AuctionEvent → S → Outcome × S)
    → OnError
    → ℕ
    → List AuctionEvent
    → PipelineStats
    → S
    → Processed S
process_batch process on_error now [] stats s = record {
  outcome = returned;
  stats = stats;
  store = s;
}
process_batch process on_error now (event ∷ events) stats s =
    let batch = event ∷ events in
    let (outcome, s') = process_events process batch s in
    elim outcome [
      | returned ↦ record {
        outcome = returned;
        stats = count_processed (length batch) now stats;
        store = s';
      }
      | raised ↦ record {
        outcome = report on_error batch;
        stats = count_failed (length batch) stats;
        store = s';
      }
    ]
