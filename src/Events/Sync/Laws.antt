-- ===== src/Events/Sync/Laws.antt =====
-- The pipeline without threads, and how a bid response and a win reach the metrics store.
use thenexusengine.Common.{
  ℕ, ◌+◌, ◌≡◌, refl, inl, inr, String, true, false, not, ◌&&◌, List, [], ◌∷◌, length, filter, all,
  is_some, arith, string_eq, Bool-cases, ◌==◌, ap, map,
}
use thenexusengine.Common.Members.{contains, eq_of_beq}
use thenexusengine.Events.Model.{AuctionEvent}
use thenexusengine.Events.Keywords.{binds}
use thenexusengine.Events.Process.{Outcome, MetricsStore, record_event, process_event}
use thenexusengine.Events.Sync.{
  BidResponse, has_error, response_event, Win, win_event, SyncEventPipeline, submit, submit_all,
  auction_event_fields, sync_response_binds,
}

module _ {S : Type 0} where
  -- After any calls of `submit`, whatever the processing of an event does, each is counted as
  -- received and once more, as processed where it answered True and as failed where it answered
  -- False.
  pub submit_all_counts :
      (process : AuctionEvent → S → Outcome × S) (events : List AuctionEvent)
      (p : SyncEventPipeline S)
      → let (answers, q) = submit_all process events p in
        (q.stats.events_received ≡ p.stats.events_received + length events)
        × (q.stats.events_processed ≡ p.stats.events_processed + length (filter (λ a. a) answers))
        × (q.stats.events_failed ≡ p.stats.events_failed + length (filter not answers))
  unfolding submit_all submit
  submit_all_counts process [] p = (omega arith, omega arith, omega arith)
  submit_all_counts process (e ∷ events) p =
      ground (arith, submit_all_counts process events (submit process e p).1)

  -- What `_process_event` records of an event that `submit_bid_response` made, if the request can
  -- be built: a bid where the caller gave one, a time-out, and an error where there was a text of
  -- it and no time-out.
  pub record_event-response_event :
      (store : MetricsStore S) (now : ℕ) (r : BidResponse) (s : S)
      → record_event store (response_event now r) s
        ≡ store.record_request
            (response_event now r)
            r.latency_ms
            (r.had_bid && is_some r.bid_cpm)
            r.timed_out
            (not r.timed_out && has_error r)
            s
  unfolding record_event response_event
  record_event-response_event store now r s = ground arith

  -- A win is recorded with its price.
  record_event-win_event :
      (store : MetricsStore S) (now : ℕ) (w : Win) (s : S)
      → record_event store (win_event now w) s ≡ store.record_win (win_event now w) w.win_cpm s
  unfolding record_event win_event
  record_event-win_event store now w s = refl

  -- With `_process_event` as it is, every call answers False and leaves the store as it was.
  pub submit-process_event :
      (store : MetricsStore S) (e : AuctionEvent) (p : SyncEventPipeline S)
      → ((submit (process_event store) e p).0 ≡ false)
        × ((submit (process_event store) e p).1.store ≡ p.store)
  unfolding submit process_event binds
  submit-process_event store e p = (refl, refl)

all-contains :
    (known keywords : List String) (k : String)
    → contains keywords k ≡ true
    → contains known k ≡ false
    → all (contains known) keywords ≡ false
all-contains known [] k m absent = absurd (ground arith)
all-contains known (x ∷ keywords) k m absent = elim (Bool-cases (x == k)) [
  | inl same ↦ ground (arith, ap (contains known) (eq_of_beq x k same))
  | inr other ↦ ground (arith, all-contains known keywords k)
]

-- A call of `submit_bid_response` of `SyncEventPipeline` with `had_bid`, which the method of
-- `EventPipeline` requires, raises `TypeError`, whatever its other keywords are.
pub sync_response_binds-had_bid :
    (keywords : List String)
    → contains keywords "had_bid" ≡ true
    → sync_response_binds keywords ≡ false
unfolding sync_response_binds binds
sync_response_binds-had_bid keywords m =
    let bad =
      all-contains (map (λ f. f.0) auction_event_fields) ("event_type" ∷ ("timestamp" ∷ keywords))
        "had_bid" (ground arith) refl in
    rw bad refl
