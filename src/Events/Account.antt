-- ===== src/Events/Account.antt =====
-- The pipeline loses no event and counts none twice, in every order of the steps.
use thenexusengine.Common.{
  ℕ, zero, suc, ◌+◌, ◌≡◌, refl, inl, inr, ap, some, List, [], ◌∷◌, ◌++◌, length, arith,
  Option-cases, List-cases, length-append,
}
use thenexusengine.Events.Model.{AuctionEvent, PipelineStats}
use thenexusengine.Events.Process.{Outcome, returned, report, process_batch}
use thenexusengine.Events.Pipeline.{
  Settings, EventPipeline, batch_at, set_batch, remove_batch, submit_put, submit_count, get_stats,
  start, worker_get, worker_flush, worker_exit, stop_begin, stop_get, stop_flush, Step, puts,
  counts, reads, starts, gets, flushes, exits, stops, stop_gets, stop_flushes, Reachable, initial,
  next,
}

abbrev pub total : List (List AuctionEvent) → ℕ
total [] = 0
total (b ∷ bs) = length b + total bs

-- Each event that was put is counted as processed or failed, or still waits in the queue or in the
-- batch of a thread.
abbrev pub Accounts : {S : Type 0} → EventPipeline S → Type 0
Accounts p =
    p.stats.events_received + p.counting
    ≡ p.stats.events_processed
      + p.stats.events_failed
      + length p.queue
      + total p.workers
      + total p.stoppers

-- Every call of `on_error` returns.
abbrev pub IsQuiet : Settings → Type 0
IsQuiet settings = (batch : List AuctionEvent) → report settings.on_error batch ≡ returned

total-snoc : (bs : List (List AuctionEvent)) → total (bs ++ [] ∷ []) ≡ total bs
total-snoc [] = refl
total-snoc (b ∷ bs) = ap (λ n. length b + n) (total-snoc bs)

total-set_batch :
    (bs : List (List AuctionEvent)) (i : ℕ) (b new : List AuctionEvent)
    → batch_at bs i ≡ some b
    → total (set_batch bs i new) + length b ≡ total bs + length new
unfolding batch_at set_batch
total-set_batch [] i b new e = absurd (ground arith)
total-set_batch (x ∷ bs) zero b new e = ground arith
total-set_batch (x ∷ bs) (suc i) b new e = ground (arith, total-set_batch bs i b new e)

total-remove_batch :
    (bs : List (List AuctionEvent)) (i : ℕ) (b : List AuctionEvent)
    → batch_at bs i ≡ some b
    → total (remove_batch bs i) + length b ≡ total bs
unfolding batch_at remove_batch
total-remove_batch [] i b e = absurd (ground arith)
total-remove_batch (x ∷ bs) zero b e = ground arith
total-remove_batch (x ∷ bs) (suc i) b e = ground (arith, total-remove_batch bs i b e)

module _ {S : Type 0} (settings : Settings) (process : AuctionEvent → S → Outcome × S) where
  -- A batch counts whole, as processed or as failed.
  process_batch-counts :
      (now : ℕ) (batch : List AuctionEvent) (stats : PipelineStats) (s : S)
      → let done = (process_batch process settings.on_error now batch stats s).stats in
        (done.events_received ≡ stats.events_received)
        × (done.events_processed + done.events_failed
            ≡ stats.events_processed + stats.events_failed + length batch)
  unfolding process_batch
  process_batch-counts now [] stats s = (refl, omega arith)
  process_batch-counts now (e ∷ batch) stats s = ground arith

  process_batch_returns :
      IsQuiet settings
      → (now : ℕ) (batch : List AuctionEvent) (stats : PipelineStats) (s : S)
      → (process_batch process settings.on_error now batch stats s).outcome ≡ returned
  unfolding process_batch
  process_batch_returns quiet now [] stats s = refl
  process_batch_returns quiet now (e ∷ batch) stats s = ground (arith, quiet (e ∷ batch))

  Step-Accounts :
      IsQuiet settings
      → (p q : EventPipeline S) → Step settings process p q
      → Accounts p
      → Accounts q
  unfolding submit_put submit_count get_stats start worker_get worker_flush worker_exit stop_begin
      stop_get stop_flush
  Step-Accounts quiet p q (puts e h) a = ground (arith, length-append p.queue (e ∷ []))
  Step-Accounts quiet p q (counts h) a = ground arith
  Step-Accounts quiet p q (reads h) a = ground arith
  Step-Accounts quiet p q (starts h) a = ground (arith, total-snoc p.workers)
  Step-Accounts quiet p q (gets i h) a = elim (Option-cases (batch_at p.workers i)) [
    | inl absent ↦ absurd (ground arith)
    | inr (b, found) ↦ elim (List-cases p.queue) [
      | inl empty ↦ absurd (ground arith)
      | inr (e, queue, front) ↦ ground (
        arith,
        total-set_batch p.workers i b (b ++ e ∷ []) found,
        length-append b (e ∷ []),
        ap length front,
      )
    ]
  ]
  Step-Accounts quiet p q (flushes i elapsed now h) a = elim (Option-cases (batch_at p.workers i)) [
    | inl absent ↦ absurd (ground arith)
    | inr (b, found) ↦ ground (
      arith,
      total-set_batch p.workers i b [] found,
      process_batch-counts now b p.stats p.store,
      process_batch_returns quiet now b p.stats p.store,
    )
  ]
  Step-Accounts quiet p q (exits i now h) a = elim (Option-cases (batch_at p.workers i)) [
    | inl absent ↦ absurd (ground arith)
    | inr (b, found) ↦
        ground (
          arith,
          total-remove_batch p.workers i b found,
          process_batch-counts now b p.stats p.store,
        )
  ]
  Step-Accounts quiet p q (stops h) a = ground (arith, total-snoc p.stoppers)
  Step-Accounts quiet p q (stop_gets i h) a = elim (Option-cases (batch_at p.stoppers i)) [
    | inl absent ↦ absurd (ground arith)
    | inr (b, found) ↦ elim (List-cases p.queue) [
      | inl empty ↦ absurd (ground arith)
      | inr (e, queue, front) ↦ ground (
        arith,
        total-set_batch p.stoppers i b (b ++ e ∷ []) found,
        length-append b (e ∷ []),
        ap length front,
      )
    ]
  ]
  Step-Accounts quiet p q (stop_flushes i now h) a = elim (Option-cases (batch_at p.stoppers i)) [
    | inl absent ↦ absurd (ground arith)
    | inr (b, found) ↦
        ground (
          arith,
          total-remove_batch p.stoppers i b found,
          process_batch-counts now b p.stats p.store,
        )
  ]

  -- In every reachable state, each event that was put is counted once: as processed or failed, or as
  -- waiting in the queue or in a batch, whatever the processing of an event does and whenever
  -- threads, callers of `submit` and callers of `stop` make their steps, as long as `on_error`
  -- raises nothing.
  pub Reachable-Accounts :
      IsQuiet settings → (s : S) (p : EventPipeline S) → Reachable settings process s p → Accounts p
  Reachable-Accounts quiet s _ initial = refl
  Reachable-Accounts quiet s q (next {p} r h) =
      Step-Accounts quiet p q h (Reachable-Accounts quiet s p r)
