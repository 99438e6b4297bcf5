-- ===== src/Events/Tests.antt =====
-- The event pipelines on small inputs, and their theorems at them.
use thenexusengine.Common.{ℕ, ◌+◌, ◌≡◌, refl, true, false, none, some, [], ◌∷◌, length}
use thenexusengine.Events.Model.{AuctionEvent}
use thenexusengine.Events.Process.{
  returned, raised, MetricsStore, record_event, process_event, process_events, process_batch,
}
use thenexusengine.Events.Keywords.{binds}
use thenexusengine.Events.Pipeline.{
  Settings, EventPipeline, init, batch_at, set_batch, submit_put, submit_count, start, worker_get,
  worker_flush, puts, counts, starts, gets, flushes, Reachable, initial, next,
}
use thenexusengine.Events.Account.{total, Reachable-Accounts}
use thenexusengine.Events.Untouched.{Reachable-Untouched}
use thenexusengine.Events.Queue.{Stops, stop_empties}
use thenexusengine.Events.Sync.{BidResponse, response_event}

abbrev response : BidResponse
response = record {
  auction_id = "a1";
  bidder_code = "rubicon";
  had_bid = true;
  latency_ms = 4638707616191610880;
  bid_cpm = some 4612811918334230528;
  floor_price = none;
  country = "DE";
  device_type = "mobile";
  media_type = "banner";
  ad_size = "300x250";
  publisher_id = "p1";
  timed_out = false;
  error_message = none;
}

abbrev event : AuctionEvent
event = response_event 7 response

-- A store that counts the calls.
abbrev counter : MetricsStore ℕ
counter = record {
  record_win = λ e price n. (returned, n + 1);
  record_request = λ e latency had_bid timed_out had_error n. (returned, n + 1);
}

abbrev settings : Settings
settings = record { batch_size = 1; max_queue_size = 2; on_error = none }

-- The states of a run: one event is put and counted, a thread starts, takes it and flushes.
abbrev s1 : EventPipeline ℕ
s1 = record (init 0) { queue = event ∷ []; counting = 1 }

abbrev s2 : EventPipeline ℕ
s2 = record s1 { stats = record s1.stats { events_received = 1; queue_depth = 1 }; counting = 0 }

abbrev s3 : EventPipeline ℕ
s3 = record s2 { running = true; workers = [] ∷ [] }

abbrev s4 : EventPipeline ℕ
s4 = record s3 { queue = []; workers = (event ∷ []) ∷ [] }

abbrev s5 : EventPipeline ℕ
s5 = record s4 { stats = record s4.stats { events_failed = 1 }; workers = [] ∷ [] }

run : Reachable settings (process_event counter) 0 s5
unfolding submit_put submit_count start worker_get worker_flush batch_at set_batch process_batch
    process_events process_event binds
run =
    next
      (next (next (next (next initial (puts event refl)) (counts refl)) (starts refl))
        (gets 0 refl))
      (flushes 0 false 9 refl)

-- If the call of `ClassifiedRequest` did bind, the same batch would be processed and recorded.
recorded :
    (process_batch (record_event counter) none 9 (event ∷ []) s4.stats 0).stats.events_processed ≡ 1
unfolding process_batch process_events record_event response_event
recorded = refl

-- An `on_error` that raises leaves the batch with its thread, where the next flush counts it again.
abbrev loud : Settings
loud = record { batch_size = 1; max_queue_size = 2; on_error = some (λ batch. raised) }

abbrev failed_twice : EventPipeline ℕ
failed_twice = record s4 { stats = record s4.stats { events_failed = 2 } }

counted_again :
    worker_flush loud
      (process_event counter)
      0
      false
      9
      (record s4 { stats = record s4.stats { events_failed = 1 } })
    ≡ some failed_twice
unfolding worker_flush batch_at set_batch process_batch process_events process_event binds
counted_again = refl

Reachable-Accounts_example :
    s5.stats.events_received + s5.counting
    ≡ s5.stats.events_processed
      + s5.stats.events_failed
      + length s5.queue
      + total s5.workers
      + total s5.stoppers
Reachable-Accounts_example =
    Reachable-Accounts settings (process_event counter) (λ batch. refl) 0 s5 run

Reachable-Untouched_example :
    (s5.stats.events_processed ≡ 0) × (s5.stats.batches_flushed ≡ 0) × (s5.store ≡ 0)
Reachable-Untouched_example = Reachable-Untouched settings counter 0 s5 run

stop_empties_example :
    let batch = process_batch (process_event counter) none 9 (event ∷ []) s3.stats 0 in
    (q : EventPipeline ℕ) × Stops settings (process_event counter) 9 s3 q
    × (q.queue ≡ [])
    × (q.stoppers ≡ [])
    × (q.running ≡ false)
    × (q.workers ≡ [] ∷ [])
    × (q.stats ≡ batch.stats)
    × (q.store ≡ batch.store)
stop_empties_example = stop_empties settings (process_event counter) 9 s3 refl
