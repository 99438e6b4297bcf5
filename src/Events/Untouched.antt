-- ===== src/Events/Untouched.antt =====
-- What becomes of the events, given how `_process_event` builds its request.
use thenexusengine.Common.{ℕ, ◌≡◌, refl, inl, inr, List, [], ◌∷◌, arith, Option-cases}
use thenexusengine.Events.Model.{AuctionEvent, PipelineStats}
use thenexusengine.Events.Keywords.{binds}
use thenexusengine.Events.Process.{
  raised, MetricsStore, process_event, process_events, process_batch,
}
use thenexusengine.Events.Pipeline.{
  Settings, EventPipeline, batch_at, submit_put, submit_count, get_stats, start, worker_get,
  worker_flush, worker_exit, stop_begin, stop_get, stop_flush, Step, puts, counts, reads, starts,
  gets, flushes, exits, stops, stop_gets, stop_flushes, Reachable, initial, next,
}

-- The call of `ClassifiedRequest` does not bind, so that every event raises.
pub process_event_raises :
    {S : Type 0} (store : MetricsStore S) (e : AuctionEvent) (s : S)
    → process_event store e s ≡ (raised, s)
unfolding process_event binds
process_event_raises store e s = refl

module _ {S : Type 0} (settings : Settings) (store : MetricsStore S) where
  -- Nothing was processed, and the store is as it was at first.
  abbrev Untouched : S → EventPipeline S → Type 0
  Untouched s p = (p.stats.events_processed ≡ 0) × (p.stats.batches_flushed ≡ 0) × (p.store ≡ s)

  process_batch-raises :
      (now : ℕ) (batch : List AuctionEvent) (stats : PipelineStats) (s : S)
      → let done = process_batch (process_event store) settings.on_error now batch stats s in
        (done.stats.events_processed ≡ stats.events_processed)
        × (done.stats.batches_flushed ≡ stats.batches_flushed)
        × (done.store ≡ s)
  unfolding process_batch process_events process_event binds
  process_batch-raises now [] stats s = (refl, refl, refl)
  process_batch-raises now (e ∷ batch) stats s = (refl, refl, refl)

  Step-Untouched :
      (s : S) (p q : EventPipeline S)
      → Step settings (process_event store) p q
      → Untouched s p
      → Untouched s q
  unfolding submit_put submit_count get_stats start worker_get worker_flush worker_exit stop_begin
      stop_get stop_flush
  Step-Untouched s p q (puts e h) a = ground arith
  Step-Untouched s p q (counts h) a = ground arith
  Step-Untouched s p q (reads h) a = ground arith
  Step-Untouched s p q (starts h) a = ground arith
  Step-Untouched s p q (gets i h) a = ground arith
  Step-Untouched s p q (flushes i elapsed now h) a = elim (Option-cases (batch_at p.workers i)) [
    | inl absent ↦ absurd (ground arith)
    | inr (b, found) ↦ ground (arith, process_batch-raises now b p.stats p.store)
  ]
  Step-Untouched s p q (exits i now h) a = elim (Option-cases (batch_at p.workers i)) [
    | inl absent ↦ absurd (ground arith)
    | inr (b, found) ↦ ground (arith, process_batch-raises now b p.stats p.store)
  ]
  Step-Untouched s p q (stops h) a = ground arith
  Step-Untouched s p q (stop_gets i h) a = ground arith
  Step-Untouched s p q (stop_flushes i now h) a = elim (Option-cases (batch_at p.stoppers i)) [
    | inl absent ↦ absurd (ground arith)
    | inr (b, found) ↦ ground (arith, process_batch-raises now b p.stats p.store)
  ]

  -- In every reachable state no event was ever processed, no batch was flushed, and the metrics
  -- store is as it was at first: each call of `_process_event` raises at its call of
  -- `ClassifiedRequest`.
  pub Reachable-Untouched :
      (s : S) (p : EventPipeline S) → Reachable settings (process_event store) s p → Untouched s p
  Reachable-Untouched s _ initial = (refl, refl, refl)
  Reachable-Untouched s q (next {p} r h) = Step-Untouched s p q h (Reachable-Untouched s p r)
